-- ===== src/Examples/Accounts.antt =====
-- The theorems about accounts, applied with a hash that is the password itself and a token that is its
-- claims.
use text.Mathlib.Text.{◌==◌ as str_eq}
use text.Mathlib.TextPositions.{eq_refl}
use my_frist_reop.Prelude.{
  ℕ, ◌≤◌, ◌≡◌, ◌≢◌, refl, Memᴰ, All, String, true, none, [], ◌∷◌, ltb, arith, if◌then◌else◌,
}
use my_frist_reop.Data.{Db}
use my_frist_reop.Data.Work.{User}
use my_frist_reop.Errors.{app_error, ok, err}
use my_frist_reop.Auth.{
  Credentials, Claims, Decoded, Crypto, Authorization, NewUser, find_by_name, new_user,
  register_user, login_user, get_current_user,
}
use my_frist_reop.Auth.Accounts.{HaveDistinctNames, register-login, register_user-HaveDistinctNames}
use my_frist_reop.Examples.{cluster, user_of}

abbrev pub plain : Crypto Claims
plain = record {
  hash = λ p. p;
  verify = λ p h. str_eq p h;
  encode = λ c. c;
  decode = λ now c. if ltb c.exp now then Decoded.jwt_error else Decoded.subject c.sub;
}

plain_verify_hash : (p : String) → plain.verify p (plain.hash p) ≡ true
plain_verify_hash p = eq_refl p

plain_decode_encode :
    (now : ℕ) (c : Claims) → now ≤ c.exp → plain.decode now (plain.encode c) ≡ Decoded.subject c.sub
plain_decode_encode now c h = ground arith

abbrev newcomer : Credentials
newcomer = record { username = "newcomer"; password = "secret" }

abbrev pub drawn : NewUser
drawn = record { id = 3; token_urlsafe = "abc" }

abbrev small : Db
small = cluster []

register-login_example :
    let (answer, db') = register_user plain 5 drawn newcomer small in
    (answer ≡ ok (new_user plain 5 drawn newcomer))
    × ((token : Claims) × (login_user plain 7 30 newcomer db' ≡ ok token)
        × (get_current_user plain 8 (Authorization.bearer token) none db'
            ≡ ok (new_user plain 5 drawn newcomer)))
unfolding find_by_name
register-login_example =
    register-login plain plain_verify_hash plain_decode_encode 5 30 drawn newcomer small refl refl
      (ground arith) 7 8 (omega arith)

register_user-HaveDistinctNames_example :
    let (answer, db') =
      register_user plain 5 drawn newcomer (record small { users = user_of 1 1000 ∷ [] }) in
    HaveDistinctNames db'.users
    × ((u : User)
        → Memᴰ u (user_of 1 1000 ∷ [])
        → u.username ≡ newcomer.username
        → (answer ≡ err (app_error 400 "username already exists"))
          × (db' ≡ record small { users = user_of 1 1000 ∷ [] }))
    × (All (λ (v : User). v.username ≢ newcomer.username) (user_of 1 1000 ∷ [])
        → (u : User) × (answer ≡ ok u)
          × (u.username ≡ newcomer.username)
          × (db' ≡ record small { users = user_of 1 1000 ∷ u ∷ [] }))
register_user-HaveDistinctNames_example =
    register_user-HaveDistinctNames plain 5 drawn newcomer
      (record small { users = user_of 1 1000 ∷ [] }) (tt, tt)
