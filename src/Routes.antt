-- ===== src/Routes.antt =====
-- What the routers of backend/app/routers/ share: the two bodies of backend/app/utils/responses.py, the exception
-- handlers of backend/app/main.py, and the user that the dependency of a route finds.
pub mod Requests
pub mod Writes
pub mod Reads
pub mod Calls
pub mod Guards
pub mod Missing
use my_frist_reop.Prelude.{ℕ, String, Bool, ◌&&◌, or_else, Option, none, some, leb, inl, inr, ◌⊎◌}
use my_frist_reop.Data.{Db}
use my_frist_reop.Data.Work.{User}
use my_frist_reop.Errors.{AppError, Result, ok, err}
use my_frist_reop.Auth.{Crypto, Authorization, get_current_user}
use my_frist_reop.Queue.Server.{Redis}
use my_frist_reop.World.{World}
use my_frist_reop.Models.{ModelDb, ModelError}
use my_frist_reop.Tasks.Lifecycle.{StopRequest}

-- The JSON body `{"code": …, "data": …, "message": …}`.
pub record Body (A : Type 0) : Type 0 where
  pub code : ℕ
  pub content : Option A
  pub message : String

-- `success_response`
unfoldable pub success_response : {A : Type 0} → A → Body A
success_response content = record { code = 0; content = some content; message = "ok" }

-- `error_response`
unfoldable pub error_response : {A : Type 0} → String → ℕ → Body A
error_response message code = record { code = code; content = none; message = message }

-- An answer with such a body, or the framework's own answer 422 to an argument out of its range.
pub data HttpReply (A : Type 0) : Type 0 where
  reply : ℕ → Body A → HttpReply A
  unprocessable : HttpReply A

-- What a handler can raise: an `AppException` or `APIError`; an `HTTPException` with its detail, if that is a
-- text; or any other exception, with its text.
pub data Exception : Type 0 where
  app : AppError → Exception
  http : ℕ → Option String → Exception
  other : String → Exception

-- `api_error_handler` and `app_exception_handler`, `http_exception_handler`, and `generic_exception_handler`.
unfoldable pub handle_exception : {A : Type 0} → Exception → HttpReply A
unfolding error_response
handle_exception (Exception.app e) = HttpReply.reply e.status_code (error_response e.message e.code)
handle_exception (Exception.http status detail) =
    HttpReply.reply status (error_response (or_else detail "request failed") status)
handle_exception (Exception.other text) = HttpReply.reply 500 (error_response text 500)

abbrev pub succeed : {A : Type 0} → A → HttpReply A
succeed content = HttpReply.reply 200 (success_response content)

-- A route that wraps what its service returns.
abbrev pub respond : {A B : Type 0} → (A → B) → Result A → HttpReply B
respond f (ok a) = succeed (f a)
respond f (err e) = handle_exception (Exception.app e)

-- `Query(ge=low, le=high)`
abbrev pub in_range : ℕ → ℕ → ℕ → Bool
in_range low high n = leb low n && leb n high

-- The headers that the dependency reads.
pub record Headers (Token : Type 0) : Type 0 where
  pub authorization : Authorization Token
  pub x_user_id : Option ℕ

-- All that the routes share: the tables and the Redis server.
pub record System : Type 0 where
  pub tables : ModelDb
  pub redis : Redis

abbrev pub world_of : System → World
world_of s = record { db = s.tables.db; redis = s.redis }

abbrev pub with_world : World → System → System
with_world w s = record { tables = record s.tables { db = w.db }; redis = w.redis }

abbrev pub with_tables : ModelDb → System → System
with_tables m s = record s { tables = m }

abbrev pub with_database : Db → System → System
with_database db s = record s { tables = record s.tables { db = db } }

-- What a request leads to: the answer, the state after it, and a request to an agent to stop a container.
pub record Served (A : Type 0) : Type 0 where
  pub answer : HttpReply A
  pub system : System
  pub stop : Option StopRequest

abbrev pub served : {A : Type 0} → HttpReply A → System → Served A
served answer s = record { answer = answer; system = s; stop = none }

module _ {Token : Type 0} (crypto : Crypto Token) (now : ℕ) (h : Headers Token) where
  -- `Depends(get_current_user)`
  unfoldable pub with_user : {A : Type 0} → System → (User → Served A) → Served A
  unfolding handle_exception
  with_user s route = elim (get_current_user crypto now h.authorization h.x_user_id s.tables.db) [
    | err e ↦ served (handle_exception (Exception.app e)) s
    | ok user ↦ route user
  ]
