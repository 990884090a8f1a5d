-- ===== src/Auth.antt =====
-- backend/app/services/auth_service.py, with backend/app/utils/security.py and the two dependencies of
-- backend/app/dependencies.py. Hashing, tokens and random keys come from packages: they are parameters.
pub mod Accounts
use text.Mathlib.Text.{◌==◌ as str_eq}
use Prim.Native.String
use my_frist_reop.Prelude.{
  ℕ, ◌+◌, ◌*◌, String, Bool, true, false, Option, none, some, List, [], ◌∷◌, ◌++◌, get, ◌==◌,
  if◌then◌else◌,
}
use my_frist_reop.Data.{Db}
use my_frist_reop.Data.Work.{User, Role, user_keyed}
use my_frist_reop.Errors.{AppError, Result, ok, err, app_error}

-- `UserCreate` and `UserLogin`, which have the same fields.
pub record Credentials : Type 0 where
  pub username : String
  pub password : String

-- The claims of a token.
pub record Claims : Type 0 where
  pub sub : ℕ
  pub exp : ℕ

-- What a decoded token says: the library refuses it, or it has a `sub`, or it has none.
pub data Decoded : Type 0 where
  jwt_error no_subject : Decoded
  subject : ℕ → Decoded

-- `CryptContext.hash` and `verify`, and `jwt.encode` and `jwt.decode` with the key of the settings;
-- `decode` is given the time at which it runs.
pub record Crypto (Token : Type 0) : Type 0 where
  pub hash : String → String
  pub verify : String → String → Bool
  pub encode : Claims → Token
  pub decode : ℕ → Token → Decoded

-- The `Authorization` header: `Bearer` and a token, or anything else.
pub data Authorization (Token : Type 0) : Type 0 where
  bearer : Token → Authorization Token
  no_bearer : Authorization Token

-- `select(User).where(User.username == …)`
unfoldable pub find_by_name : String → List User → Option User
find_by_name name [] = none
find_by_name name (u ∷ us) = if str_eq u.username name then some u else find_by_name name us

abbrev has_key : String → Option String → Bool
has_key key none = false
has_key key (some k) = str_eq k key

-- `AuthService.authenticate_api_key`
unfoldable pub authenticate_api_key : String → List User → Option User
authenticate_api_key key [] = none
authenticate_api_key key (u ∷ us) =
    if has_key key u.api_key then some u else authenticate_api_key key us

-- What is drawn for a new user: the key of its row, and the text of `secrets.token_urlsafe`.
pub record NewUser : Type 0 where
  pub id : ℕ
  pub token_urlsafe : String

module _ {Token : Type 0} (crypto : Crypto Token) where
  -- The row that `register_user` adds, with the column defaults.
  abbrev pub new_user : ℕ → NewUser → Credentials → User
  new_user now draw p = record {
    id = draw.id;
    username = p.username;
    password_hash = crypto.hash p.password;
    role = Role.user;
    gpu_quota = 2;
    api_key = some (String.◌++◌ "sk-" draw.token_urlsafe);
    credits = 0;
    created_at = now;
  }

  -- `AuthService.register_user`
  unfoldable pub register_user : ℕ → NewUser → Credentials → Db → Result User × Db
  unfolding find_by_name
  register_user now draw p db = elim (find_by_name p.username db.users) [
    | some u ↦ (err (app_error 400 "username already exists"), db)
    | none ↦ (ok (new_user now draw p), record db { users = db.users ++ new_user now draw p ∷ [] })
  ]

  -- `create_access_token`
  unfoldable pub create_access_token : ℕ → ℕ → ℕ → Token
  create_access_token now jwt_expire_minutes id =
      crypto.encode (record { sub = id; exp = now + jwt_expire_minutes * 60000000 })

  -- `AuthService.login_user`: the access token.
  unfoldable pub login_user : ℕ → ℕ → Credentials → Db → Result Token
  unfolding find_by_name create_access_token
  login_user now jwt_expire_minutes p db = elim (find_by_name p.username db.users) [
    | none ↦ err (app_error 401 "invalid username or password")
    | some u ↦
        if crypto.verify p.password u.password_hash
        then ok (create_access_token now jwt_expire_minutes u.id)
        else err (app_error 401 "invalid username or password")
  ]

  -- The part of `get_current_user_by_token` after the decoding.
  abbrev pub user_of_claims : Decoded → Db → Result User
  user_of_claims Decoded.jwt_error db = err (app_error 401 "invalid access token")
  user_of_claims Decoded.no_subject db = err (app_error 401 "invalid access token")
  user_of_claims (Decoded.subject id) db =
      if id == 0
      then err (app_error 401 "invalid access token")
      else elim (get id db.users) [ none ↦ err (app_error 401 "user not found") | some u ↦ ok u ]

  -- `AuthService.get_current_user_by_token`
  unfoldable pub get_current_user_by_token : ℕ → Token → Db → Result User
  get_current_user_by_token now token db = user_of_claims (crypto.decode now token) db

  -- The second part of `get_current_user`.
  unfoldable pub user_of_header : ℕ → Authorization Token → Db → Result User
  unfolding get_current_user_by_token
  user_of_header now (Authorization.bearer token) db = get_current_user_by_token now token db
  user_of_header now Authorization.no_bearer db = err (app_error 401 "Authentication required")

  -- `get_current_user`: the header `X-User-Id` comes first.
  unfoldable pub get_current_user : ℕ → Authorization Token → Option ℕ → Db → Result User
  unfolding user_of_header
  get_current_user now authorization none db = user_of_header now authorization db
  get_current_user now authorization (some id) db =
      if id == 0 then user_of_header now authorization db else elim (get id db.users) [
        | none ↦ err (app_error 401 "Invalid X-User-Id header")
        | some u ↦ ok u
      ]

abbrev api_user : Option User → Result User
api_user none = err (record { status_code = 401; message = "Invalid API key"; code = 40102 })
api_user (some u) = ok u

-- `get_current_api_user`, where the token of the header is an API key.
unfoldable pub get_current_api_user : Authorization String → Db → Result User
unfolding authenticate_api_key
get_current_api_user Authorization.no_bearer db =
    err (record { status_code = 401; message = "Invalid authorization header"; code = 40101 })
get_current_api_user (Authorization.bearer key) db = api_user (authenticate_api_key key db.users)
