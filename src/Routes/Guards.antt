-- ===== src/Routes/Guards.antt =====
-- Which routes of backend/app/routers/ ask for a user, and what they answer to a call without one.
use my_frist_reop.Prelude.{ℕ, ◌≡◌, refl, String, Bool, true, false, Option, none, some, arith}
use my_frist_reop.Data.{Db}
use my_frist_reop.Data.Work.{User, user_keyed}
use my_frist_reop.Errors.{AppError, err}
use my_frist_reop.Auth.{
  Crypto, Authorization, Decoded, get_current_user, user_of_claims, get_current_user_by_token,
  user_of_header,
}
use my_frist_reop.Routes.{
  HttpReply, Headers, System, Served, error_response, handle_exception, served, with_user,
}
use my_frist_reop.Routes.Requests.{Call, RouteEnv}
use my_frist_reop.Routes.Writes.{
  create_task_route, submit_task_route, cancel_task_route, delete_task_route, create_model_route,
  update_model_route, delete_model_route, deploy_model_route, stop_model_route,
}
use my_frist_reop.Routes.Reads.{
  list_tasks_route, me_route, task_detail_route, task_logs_route, list_nodes_route,
  list_idle_gpus_route, nodes_overview_route, billing_summary_route, billing_records_route,
  gpu_history_route,
}
use my_frist_reop.Routes.Calls.{route}

-- The routes without `Depends(get_current_user)`.
abbrev pub is_open : Call → Bool
is_open (Call.register p) = true
is_open (Call.login p) = true
is_open (Call.task_callback id p) = true
is_open Call.list_models = true
is_open (Call.get_model id) = true
is_open (Call.list_instances id) = true
is_open (Call.heartbeat p) = true
is_open _ = false

module _ {Token : Type 0} (crypto : Crypto Token) (now : ℕ) where
  claims-status :
      (d : Decoded) (db : Db) (e : AppError)
      → user_of_claims crypto d db ≡ err e
      → e.status_code ≡ 401
  claims-status Decoded.jwt_error db e h = ground arith
  claims-status Decoded.no_subject db e h = ground arith
  claims-status (Decoded.subject id) db e h = ground arith

  header-status :
      (a : Authorization Token) (db : Db) (e : AppError)
      → user_of_header crypto now a db ≡ err e
      → e.status_code ≡ 401
  unfolding user_of_header get_current_user_by_token
  header-status (Authorization.bearer token) db e h = claims-status (crypto.decode now token) db e h
  header-status Authorization.no_bearer db e h = ground arith

  -- Whatever is wrong with the headers, the answer is 401.
  get_current_user-status :
      (a : Authorization Token) (x_user_id : Option ℕ) (db : Db) (e : AppError)
      → get_current_user crypto now a x_user_id db ≡ err e
      → e.status_code ≡ 401
  unfolding get_current_user
  get_current_user-status a none db e h = header-status a db e h
  get_current_user-status a (some id) db e h = ground (arith, header-status a db e)

-- The answer to a call without a user: 401, an error body, and nothing done.
abbrev pub IsRefused : {A : Type 0} → System → Served A → Type 0
IsRefused {A} s r =
    (message : String) × (code : ℕ) × (r
      ≡ served (HttpReply.reply 401 (error_response message code)) s)

module _ {Token : Type 0} (crypto : Crypto Token) (env : RouteEnv) (h : Headers Token) where
  with_user-IsRefused :
      {A : Type 0} (s : System) (f : User → Served A) (e : AppError)
      → get_current_user crypto env.now h.authorization h.x_user_id s.tables.db ≡ err e
      → IsRefused s (with_user crypto env.now h s f)
  unfolding with_user handle_exception
  with_user-IsRefused s f e none_found = (
    e.message,
    e.code,
    rw
        (
          none_found,
          get_current_user-status crypto env.now h.authorization h.x_user_id s.tables.db e
              none_found,
          with_user,
          handle_exception,
        )
        refl,
  )

  -- A call whose headers give no user, to any route but registration, login, the callback of a task, the
  -- heartbeat, and the three that read models, is answered with 401 and an error body, changes neither the
  -- tables nor the queues, and stops no container.
  pub route-IsRefused :
      (call : Call) (s : System) (e : AppError)
      → is_open call ≡ false
      → get_current_user crypto env.now h.authorization h.x_user_id s.tables.db ≡ err e
      → IsRefused s (route crypto env h call s)
  unfolding route create_task_route submit_task_route cancel_task_route delete_task_route
      create_model_route update_model_route delete_model_route deploy_model_route stop_model_route
      list_tasks_route me_route task_detail_route task_logs_route list_nodes_route
      list_idle_gpus_route nodes_overview_route billing_summary_route billing_records_route
      gpu_history_route
  route-IsRefused (Call.register p) s e closed n = absurd (cc)
  route-IsRefused (Call.login p) s e closed n = absurd (cc)
  route-IsRefused (Call.task_callback id p) s e closed n = absurd (cc)
  route-IsRefused Call.list_models s e closed n = absurd (cc)
  route-IsRefused (Call.get_model id) s e closed n = absurd (cc)
  route-IsRefused (Call.list_instances id) s e closed n = absurd (cc)
  route-IsRefused (Call.heartbeat p) s e closed n = absurd (cc)
  route-IsRefused Call.me s e closed n = with_user-IsRefused s _ e n
  route-IsRefused (Call.create_task p) s e closed n = with_user-IsRefused s _ e n
  route-IsRefused (Call.list_tasks status type page size) s e closed n = with_user-IsRefused s _ e n
  route-IsRefused (Call.task_detail id) s e closed n = with_user-IsRefused s _ e n
  route-IsRefused (Call.submit_task id) s e closed n = with_user-IsRefused s _ e n
  route-IsRefused (Call.cancel_task id) s e closed n = with_user-IsRefused s _ e n
  route-IsRefused (Call.delete_task id) s e closed n = with_user-IsRefused s _ e n
  route-IsRefused (Call.task_logs id tail) s e closed n = with_user-IsRefused s _ e n
  route-IsRefused (Call.create_model p) s e closed n = with_user-IsRefused s _ e n
  route-IsRefused (Call.delete_model id) s e closed n = with_user-IsRefused s _ e n
  route-IsRefused (Call.deploy_model id) s e closed n = with_user-IsRefused s _ e n
  route-IsRefused (Call.stop_model id) s e closed n = with_user-IsRefused s _ e n
  route-IsRefused (Call.update_model id p) s e closed n = with_user-IsRefused s _ e n
  route-IsRefused Call.list_nodes s e closed n = with_user-IsRefused s _ e n
  route-IsRefused Call.list_idle_gpus s e closed n = with_user-IsRefused s _ e n
  route-IsRefused Call.nodes_overview s e closed n = with_user-IsRefused s _ e n
  route-IsRefused Call.billing_summary s e closed n = with_user-IsRefused s _ e n
  route-IsRefused (Call.billing_records page size) s e closed n = with_user-IsRefused s _ e n
  route-IsRefused (Call.gpu_history node_id index hours) s e closed n = with_user-IsRefused s _ e n
