-- ===== src/Validator/AdminAuth.antt =====
-- validator/src/eval_backend/services/admin_auth.py: the sessions of administrators. The hash of a
-- token and the random tokens are parameters; a time counts seconds. The password hashing is left
-- to the library that computes it.
pub mod Tokens
mod Tests
use minirouter.Prelude.{
  ℕ, zero, suc, ◌+◌, ◌*◌, Bool, true, false, Option, none, some, List, [], ◌∷◌, ◌++◌, Text, codes,
  text_eq, strip, leb, ◌==◌, if◌then◌else◌,
}

pub record AdminUser : Type 0 where
  pub id : ℕ
  pub username : Text
  pub password_hash : Text
  pub is_active : Bool

pub record AdminSession : Type 0 where
  pub user_id : ℕ
  pub token_hash : Text
  pub expires_at : ℕ
  pub last_used_at : Option ℕ
  pub revoked_at : Option ℕ

-- the user of a token, or the detail of the error 401
pub data Admission : Type 0 where
  admitted : AdminUser → Admission
  refused : Text → Admission

unfoldable pub find_session : Text → List AdminSession → Option AdminSession
find_session hash [] = none
find_session hash (s ∷ rest) =
    let later = find_session hash rest in if text_eq hash s.token_hash then some s else later

unfoldable pub update_session :
    Text → (AdminSession → AdminSession) → List AdminSession → List AdminSession
update_session hash f [] = []
update_session hash f (s ∷ rest) =
    let later = update_session hash f rest in
    if text_eq hash s.token_hash then f s ∷ rest else s ∷ later

unfoldable pub find_user : ℕ → List AdminUser → Option AdminUser
find_user id [] = none
find_user id (u ∷ rest) = let later = find_user id rest in if id == u.id then some u else later

abbrev pub hours_or_one : ℕ → ℕ
hours_or_one zero = 1
hours_or_one (suc n) = suc n

module _ (hash_token : Text → Text) where
  -- `create_admin_session` on the token that was drawn
  unfoldable pub create_admin_session :
      ℕ → Text → AdminUser → ℕ → List AdminSession → List AdminSession
  create_admin_session now raw_token user ttl_hours sessions =
      sessions
      ++ record {
        user_id = user.id;
        token_hash = hash_token raw_token;
        expires_at = now + 3600 * hours_or_one ttl_hours;
        last_used_at = none;
        revoked_at = none;
      }
        ∷ []

  abbrev pub is_over : ℕ → AdminSession → Bool
  is_over now s = elim s.revoked_at [ none ↦ leb s.expires_at now | some t ↦ true ]

  abbrev pub with_user :
      ℕ → Text → Option AdminUser → List AdminSession → Admission × List AdminSession
  with_user now hash none sessions = (refused (codes "inactive admin user"), sessions)
  with_user now hash (some user) sessions =
      if user.is_active
      then (
        admitted user,
        update_session hash (λ (s : AdminSession). record s { last_used_at = some now }) sessions,
      )
      else (refused (codes "inactive admin user"), sessions)

  abbrev pub with_session :
      ℕ
      → Text
      → List AdminUser
      → Option AdminSession
      → List AdminSession
      → Admission × List AdminSession
  with_session now hash users none sessions = (refused (codes "invalid admin token"), sessions)
  with_session now hash users (some s) sessions =
      if is_over now s
      then (refused (codes "expired admin token"), sessions)
      else with_user now hash (find_user s.user_id users) sessions

  abbrev pub with_token :
      ℕ → Text → List AdminUser → List AdminSession → Admission × List AdminSession
  with_token now [] users sessions = (refused (codes "missing admin token"), sessions)
  with_token now (c ∷ t) users sessions =
      with_session now (hash_token (c ∷ t)) users (find_session (hash_token (c ∷ t)) sessions)
        sessions

  unfoldable pub authenticate_admin_token :
      ℕ → Text → List AdminUser → List AdminSession → Admission × List AdminSession
  unfolding find_session update_session find_user
  authenticate_admin_token now token users sessions = with_token now (strip token) users sessions

  unfoldable pub revoke_admin_token : ℕ → Text → List AdminSession → List AdminSession
  unfolding update_session
  revoke_admin_token now token sessions =
      update_session (hash_token (strip token))
        (λ (s : AdminSession). record s { revoked_at = some now }) sessions
