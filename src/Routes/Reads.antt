-- ===== src/Routes/Reads.antt =====
-- The routes of backend/app/routers/ that only read, but for the gateway's.
use my_frist_reop.Prelude.{
  ℕ, Bool, ◌&&◌, Option, none, some, List, map, inl, inr, ◌⊎◌, leb, if◌then◌else◌,
}
use my_frist_reop.Data.Work.{Task, TaskType, TaskStatus, TaskLog, User}
use my_frist_reop.Errors.{Result}
use my_frist_reop.Auth.{Crypto, Credentials, login_user}
use my_frist_reop.Tasks.{list_tasks, get_task_detail, get_task_logs}
use my_frist_reop.Billing.Api.{get_billing_summary, list_billing_records}
use my_frist_reop.Monitor.{get_gpu_history, get_nodes_overview}
use my_frist_reop.Nodes.Heartbeat.{list_nodes, list_idle_gpus}
use my_frist_reop.Nodes.Serialized.{serialize_node, serialize_gpu}
use my_frist_reop.Models.{Model, ModelInstance, ModelError, model_keyed, list_instances}
use my_frist_reop.Models.Registry.{list_models, get_model}
use my_frist_reop.Routes.Writes.{model_failure}
use my_frist_reop.Routes.Requests.{Content, RouteEnv}
use my_frist_reop.Routes.{
  HttpReply, Headers, System, Served, handle_exception, succeed, respond, in_range, served,
  with_user,
}

module _ {Token : Type 0} (crypto : Crypto Token) (env : RouteEnv) (h : Headers Token) where
  abbrev found_answer : ModelError ⊎ Model → HttpReply (Content Token)
  found_answer (inl e) = model_failure crypto env h e
  found_answer (inr x) = succeed (Content.model x)

  abbrev instances_answer : Option (List ModelInstance) → HttpReply (Content Token)
  instances_answer none = model_failure crypto env h ModelError.type_error
  instances_answer (some is) = succeed (Content.instances is)

  abbrev detail_answer : Result (Task × List TaskLog) → HttpReply (Content Token)
  detail_answer = respond (λ (task, logs). Content.task_with_logs task logs)

  -- `list_tasks`
  unfoldable pub list_tasks_route :
      Option TaskStatus → Option TaskType → ℕ → ℕ → System → Served (Content Token)
  unfolding with_user list_tasks
  list_tasks_route status type page page_size s = with_user crypto env.now h s (λ u.
      let (items, total) = list_tasks u status type page page_size s.tables.db in
      served
        (if leb 1 page && in_range 1 100 page_size
          then succeed (Content.tasks items total)
          else HttpReply.unprocessable)
        s)

  -- A route that reads for a user.
  abbrev read_as : (User → HttpReply (Content Token)) → System → Served (Content Token)
  read_as answer s = with_user crypto env.now h s (λ u. served (answer u) s)

  -- An argument in its range, or 422.
  abbrev checked : Bool → HttpReply (Content Token) → HttpReply (Content Token)
  checked fits answer = if fits then answer else HttpReply.unprocessable

  -- `get_model` and `list_model_instances`, which ask for no user.
  unfoldable pub get_model_route : ℕ → System → Served (Content Token)
  unfolding get_model handle_exception
  get_model_route id s = served (found_answer (get_model id s.tables)) s

  unfoldable pub list_model_instances_route : ℕ → System → Served (Content Token)
  unfolding list_instances handle_exception
  list_model_instances_route id s = served (instances_answer (list_instances id s.tables)) s

  -- `login`
  unfoldable pub login_route : Credentials → System → Served (Content Token)
  unfolding login_user
  login_route p s =
      served
        (respond Content.token (login_user crypto env.now env.jwt_expire_minutes p s.tables.db)) s

  -- `me`
  unfoldable pub me_route : System → Served (Content Token)
  unfolding with_user
  me_route = read_as (λ u. succeed (Content.user u))

  -- `get_task_detail`
  unfoldable pub task_detail_route : ℕ → System → Served (Content Token)
  unfolding with_user get_task_detail
  task_detail_route id s = read_as (λ u. detail_answer (get_task_detail id u s.tables.db)) s

  -- `get_task_logs`
  unfoldable pub task_logs_route : ℕ → ℕ → System → Served (Content Token)
  unfolding with_user get_task_logs
  task_logs_route id tail s =
      read_as
        (λ u.
          checked (in_range 1 1000 tail)
            (respond Content.logs (get_task_logs id u tail s.tables.db)))
        s

  -- `list_models`, which asks for no user.
  unfoldable pub list_models_route : System → Served (Content Token)
  unfolding list_models
  list_models_route s = served (succeed (Content.models (list_models s.tables))) s

  -- `list_nodes`
  unfoldable pub list_nodes_route : System → Served (Content Token)
  unfolding with_user list_nodes serialize_node
  list_nodes_route s =
      read_as
        (λ u. succeed (Content.nodes (map (serialize_node s.tables.db) (list_nodes s.tables.db)))) s

  -- `list_idle_gpus`
  unfoldable pub list_idle_gpus_route : System → Served (Content Token)
  unfolding with_user list_idle_gpus serialize_gpu
  list_idle_gpus_route s =
      read_as (λ u. succeed (Content.gpus (map serialize_gpu (list_idle_gpus s.tables.db)))) s

  -- `nodes_overview`
  unfoldable pub nodes_overview_route : System → Served (Content Token)
  unfolding with_user get_nodes_overview
  nodes_overview_route s =
      read_as (λ u. succeed (Content.overview (get_nodes_overview s.tables.db))) s

  -- `billing_summary`
  unfoldable pub billing_summary_route : System → Served (Content Token)
  unfolding with_user get_billing_summary
  billing_summary_route s =
      read_as (λ u. succeed (Content.summary (get_billing_summary s.tables.db u))) s

  -- `billing_records`
  unfoldable pub billing_records_route : ℕ → ℕ → System → Served (Content Token)
  unfolding with_user list_billing_records
  billing_records_route page size s =
      read_as
        (λ u.
          checked (leb 1 page && in_range 1 100 size)
            (succeed (Content.records (list_billing_records s.tables.db u page size))))
        s

  -- `gpu_history`
  unfoldable pub gpu_history_route : ℕ → Option ℕ → ℕ → System → Served (Content Token)
  unfolding with_user get_gpu_history
  gpu_history_route node_id index hours s =
      read_as
        (λ u.
          checked (in_range 1 168 hours)
            (succeed (Content.metrics (get_gpu_history env.now s.tables.db node_id index hours))))
        s
