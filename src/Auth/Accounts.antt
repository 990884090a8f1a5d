-- ===== src/Auth/Accounts.antt =====
-- Accounts from their registration on: backend/app/services/auth_service.py.
use text.Mathlib.Text.{◌==◌ as str_eq}
use text.Mathlib.TextPositions.{eq_refl}
use text.Mathlib.TextEquality.{eq_iff}
use my_frist_reop.Prelude.{
  ℕ, ◌+◌, ◌*◌, ◌≤◌, ◌≡◌, ◌≢◌, refl, sym, ap, ◌∙◌, inl, inr, String, true, false, none, some, List,
  [], ◌∷◌, ◌++◌, Memᴰ, All, get, ◌==◌, Bool-cases, Option-cases, arith,
}
use my_frist_reop.Data.{Db}
use my_frist_reop.Data.Work.{User, user_keyed}
use my_frist_reop.Errors.{app_error, ok, err}
use my_frist_reop.Auth.{
  Credentials, Claims, Decoded, Crypto, Authorization, NewUser, find_by_name, new_user,
  register_user, create_access_token, login_user, get_current_user_by_token, user_of_header,
  get_current_user,
}

find_added :
    (name : String) (u : User) (us : List User)
    → u.username ≡ name
    → find_by_name name us ≡ none
    → find_by_name name (us ++ u ∷ []) ≡ some u
unfolding find_by_name
find_added name u [] same free =
    let e : str_eq u.username name ≡ true = ap (λ s. str_eq s name) same ∙ eq_refl name in rw e refl
find_added name u (x ∷ us) same free = elim (Bool-cases (str_eq x.username name)) [
  | inl e ↦ absurd (let k = (rw (e, find_by_name) at free) in cc)
  | inr e ↦ rw e (find_added name u us same (rw (e, find_by_name) at free))
]

get_added :
    (i : ℕ) (u : User) (us : List User) → u.id ≡ i → get i us ≡ none → get i (us ++ u ∷ []) ≡ some u
get_added i u [] same free = ground arith
get_added i u (x ∷ us) same free = ground (arith, get_added i u us same)

module _ {Token : Type 0} (crypto : Crypto Token)
    (verify_hash : (p : String) → crypto.verify p (crypto.hash p) ≡ true)
    (decode_encode : (now : ℕ) (c : Claims)
      → now ≤ c.exp
      → crypto.decode now (crypto.encode c) ≡ Decoded.subject c.sub)
    (now minutes : ℕ) (draw : NewUser) (p : Credentials) (db : Db)
    (free : find_by_name p.username db.users ≡ none) (fresh : get draw.id db.users ≡ none)
    (known : draw.id ≢ 0) where
  abbrev registered : Db
  registered = record db { users = db.users ++ new_user crypto now draw p ∷ [] }

  register_user-registered :
      register_user crypto now draw p db ≡ (ok (new_user crypto now draw p), registered)
  unfolding register_user
  register_user-registered = rw (free, register_user) refl

  login_user-registered :
      (at : ℕ)
      → login_user crypto at minutes p registered
        ≡ ok (create_access_token crypto at minutes draw.id)
  unfolding login_user
  login_user-registered at =
      rw (find_added p.username (new_user crypto now draw p) db.users refl free, login_user)
        (rw (verify_hash p.password) refl)

  -- If a hash verifies its password and a token decodes to its subject until it expires: a user that
  -- registers under a free name can log in with the same password, and until the token expires, it
  -- identifies that user.
  pub register-login :
      (at later : ℕ)
      → later ≤ at + minutes * 60000000
      → let (answer, db') = register_user crypto now draw p db in
        (answer ≡ ok (new_user crypto now draw p))
        × ((token : Token) × (login_user crypto at minutes p db' ≡ ok token)
            × (get_current_user crypto later (Authorization.bearer token) none db'
                ≡ ok (new_user crypto now draw p)))
  unfolding get_current_user user_of_header get_current_user_by_token create_access_token
  register-login at later valid =
      let claims : Claims = record { sub = draw.id; exp = at + minutes * 60000000 } in
      let u = new_user crypto now draw p in
      let nonzero : (draw.id == 0) ≡ false = ground arith in
      rw register_user-registered (
        refl,
        (
          crypto.encode claims,
          login_user-registered at,
          rw (decode_encode later claims valid)
              (rw nonzero (rw (get_added draw.id u db.users refl fresh) refl)),
        ),
      )

-- No two users have one name.
abbrev pub HaveDistinctNames : List User → Type 0
HaveDistinctNames [] = Unit
HaveDistinctNames (u ∷ us) = All (λ v. u.username ≢ v.username) us × HaveDistinctNames us

none_named :
    (name : String) (us : List User) → find_by_name name us ≡ none → All (λ v. v.username ≢ name) us
unfolding find_by_name
none_named name [] h = tt
none_named name (u ∷ us) h = elim (Bool-cases (str_eq u.username name)) [
  | inl e ↦ absurd (let k = (rw (e, find_by_name) at h) in cc)
  | inr e ↦ (
    (λ same. (let k = (eq_iff u.username name).1 same in cc)),
    none_named name us (rw (e, find_by_name) at h),
  )
]

distinct_added :
    (u : User) (us : List User)
    → All (λ v. v.username ≢ u.username) us
    → HaveDistinctNames us
    → HaveDistinctNames (us ++ u ∷ [])
distinct_added u [] h d = (tt, tt)
distinct_added u (x ∷ us) h d = (all_added us d.0, distinct_added u us h.1 d.1)
  where
    all_added :
        (vs : List User)
        → All (λ v. x.username ≢ v.username) vs
        → All (λ v. x.username ≢ v.username) (vs ++ u ∷ [])
    all_added [] k = (h.0, tt)
    all_added (v ∷ vs) k = (k.0, all_added vs k.1)

-- A user who has the name is found by it, though it may be another one.
find-taken :
    (name : String) {u : User} {us : List User}
    → Memᴰ u us
    → u.username ≡ name
    → (v : User) × (find_by_name name us ≡ some v)
unfolding find_by_name
find-taken name {u = u} (Memᴰ.head {x = x} {xs = xs} e) same =
    let named = ap (λ (v : User). v.username) (sym e) ∙ same in
    (x, (let k = (eq_iff x.username name).1 named in rw (k, find_by_name) refl))
find-taken name (Memᴰ.tail {x = x} {xs = xs} m) same = elim (Bool-cases (str_eq x.username name)) [
  | inl e ↦ (x, rw (e, find_by_name) refl)
  | inr e ↦ let (v, k) = find-taken name m same in (v, rw (e, find_by_name) k)
]

find-free :
    (name : String) (us : List User) → All (λ v. v.username ≢ name) us → find_by_name name us ≡ none
unfolding find_by_name
find-free name [] h = refl
find-free name (u ∷ us) h = elim (Bool-cases (str_eq u.username name)) [
  | inl e ↦ absurd (h.0 ((eq_iff u.username name).0 e))
  | inr e ↦ rw (e, find_by_name) (find-free name us h.1)
]

-- A registration keeps the names of the users distinct; under a name that a user has it answers 400 and
-- changes nothing; under any other name it answers with a user of that name, and adds this user to the table
-- and nothing else.
pub register_user-HaveDistinctNames :
    {Token : Type 0} (crypto : Crypto Token) (now : ℕ) (draw : NewUser) (p : Credentials) (db : Db)
    → HaveDistinctNames db.users
    → let (answer, db') = register_user crypto now draw p db in
      HaveDistinctNames db'.users
      × ((u : User)
          → Memᴰ u db.users
          → u.username ≡ p.username
          → (answer ≡ err (app_error 400 "username already exists")) × (db' ≡ db))
      × (All (λ v. v.username ≢ p.username) db.users
          → (u : User) × (answer ≡ ok u)
            × (u.username ≡ p.username)
            × (db' ≡ record db { users = db.users ++ u ∷ [] }))
unfolding register_user
register_user-HaveDistinctNames crypto now draw p db d =
    elim (Option-cases (find_by_name p.username db.users)) [
      | inl free ↦
          rw (free, register_user)
            (
              distinct_added (new_user crypto now draw p) db.users
                  (none_named p.username db.users free) d,
              (λ u m same. absurd (let (v, k) = find-taken p.username m same in cc)),
              λ others. (new_user crypto now draw p, refl, refl, refl),
            )
      | inr (u, taken) ↦
          rw (taken, register_user)
            (
              d,
              (λ v m same. (refl, refl)),
              λ others. absurd (let k = find-free p.username db.users others in cc),
            )
    ]
