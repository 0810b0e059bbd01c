-- ===== src/Validator/AdminAuth/Tests.antt =====
-- One administrator, whose tokens are hashed by themselves.
use minirouter.Prelude.{
  ◌≡◌, refl, true, none, some, List, [], ◌∷◌, Text, codes, text_eq, is_space, strip, arith,
}
use minirouter.Validator.AdminAuth.{
  AdminUser, AdminSession, admitted, refused, find_session, find_user, create_admin_session,
  authenticate_admin_token, revoke_admin_token,
}
use minirouter.Validator.AdminAuth.Tokens.{
  IsRefused, authenticate_admin_token-revoke_admin_token,
  authenticate_admin_token-create_admin_session,
}

abbrev plain_hash : Text → Text
plain_hash t = t

abbrev ann : AdminUser
ann = record { id = 3; username = codes "ann"; password_hash = codes "x"; is_active = true }

abbrev sessions : List AdminSession
sessions = create_admin_session plain_hash 100 (codes "abc") ann 0 []

expired :
    (authenticate_admin_token plain_hash 3700 (codes "abc") (ann ∷ []) sessions).0
    ≡ refused (codes "expired admin token")
unfolding authenticate_admin_token create_admin_session strip is_space text_eq
expired = refl

blank :
    (authenticate_admin_token plain_hash 100 (codes "  ") (ann ∷ []) sessions).0
    ≡ refused (codes "missing admin token")
unfolding authenticate_admin_token create_admin_session strip is_space text_eq
blank = refl

no_blanks : strip (codes "abc") ≡ codes "abc"
unfolding strip is_space
no_blanks = refl

unused : find_session (codes "abc") [] ≡ none
unfolding find_session
unused = refl

ann_found : find_user 3 (ann ∷ []) ≡ some ann
unfolding find_user
ann_found = refl

authenticate_admin_token-create_admin_session_example :
    (authenticate_admin_token plain_hash 3699 (codes "abc") (ann ∷ []) sessions).0 ≡ admitted ann
authenticate_admin_token-create_admin_session_example =
    authenticate_admin_token-create_admin_session plain_hash (ann ∷ []) 100 3699 0 (codes "abc") ann
      [] no_blanks (λ e. cc) unused ann_found refl (omega arith)

authenticate_admin_token-revoke_admin_token_example :
    IsRefused
      (authenticate_admin_token plain_hash 150
        (codes "abc")
        (ann ∷ [])
        (revoke_admin_token plain_hash 120 (codes "abc") sessions)).0
authenticate_admin_token-revoke_admin_token_example =
    authenticate_admin_token-revoke_admin_token plain_hash (ann ∷ []) 120 150 (codes "abc") sessions
