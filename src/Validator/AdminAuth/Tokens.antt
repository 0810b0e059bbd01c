-- ===== src/Validator/AdminAuth/Tokens.antt =====
-- Which tokens are admitted.
use minirouter.Prelude.{
  ℕ, ◌+◌, ◌*◌, ◌<◌, ◌≡◌, ◌≢◌, refl, sym, ap, ◌∙◌, true, false, Bool-cases, inl, inr, Option, none,
  some, List, [], ◌∷◌, ◌++◌, Text, text_eq, strip, leb, leb→le, arith,
}
use minirouter.Validator.Queue.Keys.{text_eq_refl}
use minirouter.Validator.AdminAuth.{
  AdminUser, AdminSession, Admission, admitted, refused, find_session, update_session, find_user,
  hours_or_one, create_admin_session, with_session, with_token, authenticate_admin_token,
  revoke_admin_token,
}

-- No user is admitted.
abbrev pub IsRefused : Admission → Type 0
IsRefused (admitted user) = ⊥
IsRefused (refused detail) = Unit

-- No session has the hash, or the one that is found was revoked.
abbrev IsRevoked : Option AdminSession → Type 0
IsRevoked none = Unit
IsRevoked (some s) = (t : ℕ) × (s.revoked_at ≡ some t)

find_session-IsRevoked :
    (now : ℕ) (hash : Text) (sessions : List AdminSession)
    → IsRevoked (
        find_session hash
          (update_session hash (λ (s : AdminSession). record s { revoked_at = some now }) sessions))
unfolding find_session update_session
find_session-IsRevoked now hash [] = tt
find_session-IsRevoked now hash (s ∷ rest) = elim (Bool-cases (text_eq hash s.token_hash)) [
  | inl e ↦ rw (e, e) (now, refl)
  | inr e ↦ rw (e, e) (find_session-IsRevoked now hash rest)
]

find_session-new :
    (hash : Text) (sessions : List AdminSession) (s : AdminSession)
    → find_session hash sessions ≡ none
    → s.token_hash ≡ hash
    → find_session hash (sessions ++ s ∷ []) ≡ some s
unfolding find_session
find_session-new hash [] s h e = rw (e, text_eq_refl hash) refl
find_session-new hash (x ∷ rest) s h e = elim (Bool-cases (text_eq hash x.token_hash)) [
  | inl q ↦ absurd (taken (rw q at h))
  | inr q ↦ rw q (find_session-new hash rest s (rw q at h) e)
]
  where
    taken : some x ≡ none → ⊥
    taken p = cc

module _ (hash_token : Text → Text) (users : List AdminUser) where
  with_session-IsRefused :
      (now : ℕ) (hash : Text) (o : Option AdminSession) (sessions : List AdminSession)
      → IsRevoked o
      → IsRefused (with_session hash_token now hash users o sessions).0
  with_session-IsRefused now hash none sessions h = tt
  with_session-IsRefused now hash (some s) sessions (t, e) = rw e tt

  -- A token that was revoked is never admitted again, at no time.
  pub authenticate_admin_token-revoke_admin_token :
      (now later : ℕ) (token : Text) (sessions : List AdminSession)
      → IsRefused
          (authenticate_admin_token hash_token later token users
            (revoke_admin_token hash_token now token sessions)).0
  unfolding authenticate_admin_token revoke_admin_token
  authenticate_admin_token-revoke_admin_token now later token sessions = go (strip token)
    where
      go :
          (t : Text)
          → IsRefused
              (with_token hash_token later t users (
                update_session
                  (hash_token t)
                  (λ (s : AdminSession). record s { revoked_at = some now })
                  sessions)).0
      go [] = tt
      go (c ∷ t) =
          let hash = hash_token (c ∷ t) in
          let revoked =
            update_session hash (λ (s : AdminSession). record s { revoked_at = some now })
              sessions in
          with_session-IsRefused later hash (find_session hash revoked) revoked
            (find_session-IsRevoked now hash sessions)

  -- A token that was just drawn admits its user, who is active, until it expires: for the hours
  -- that are set, and at least one. It is a text without blanks around it, and its hash is new.
  pub authenticate_admin_token-create_admin_session :
      (now later ttl_hours : ℕ) (token : Text) (user : AdminUser) (sessions : List AdminSession)
      → strip token ≡ token
      → token ≢ []
      → find_session (hash_token token) sessions ≡ none
      → find_user user.id users ≡ some user
      → user.is_active ≡ true
      → later < now + 3600 * hours_or_one ttl_hours
      → (authenticate_admin_token hash_token later token users
          (create_admin_session hash_token now token user ttl_hours sessions)).0
        ≡ admitted user
  unfolding authenticate_admin_token create_admin_session
  authenticate_admin_token-create_admin_session now later ttl_hours token user sessions s n f u a
        l =
      ap (λ t. (with_token hash_token later t users created).0) s ∙ go token n refl
    where
      added : AdminSession
      added = record {
        user_id = user.id;
        token_hash = hash_token token;
        expires_at = now + 3600 * hours_or_one ttl_hours;
        last_used_at = none;
        revoked_at = none;
      }

      created : List AdminSession
      created = sessions ++ added ∷ []

      in_time : (end : ℕ) → later < end → leb end later ≡ false
      in_time end k = elim (Bool-cases (leb end later)) [
        | inl e ↦ absurd (omega (arith, k, leb→le end later e))
        | inr e ↦ e
      ]

      go :
          (t : Text)
          → t ≢ []
          → token ≡ t
          → (with_token hash_token later t users created).0 ≡ admitted user
      go [] k e = absurd (k refl)
      go (c ∷ t) k e =
          let found : find_session (hash_token (c ∷ t)) created ≡ some added =
            find_session-new (hash_token (c ∷ t)) sessions added
              (ap (λ x. find_session (hash_token x) sessions) (sym e) ∙ f) (ap hash_token e) in
          rw (found, in_time (now + 3600 * hours_or_one ttl_hours) l, u, a) refl
