-- ===== src/Routes/Requests.antt =====
-- What the routes of backend/app/routers/, but for the gateway's, take and return: a call is a request whose path
-- and body have the form that a route takes.
use my_frist_reop.Prelude.{ℕ, String, Option, List}
use my_frist_reop.Data.Cluster.{GpuMetric}
use my_frist_reop.Data.Work.{Task, TaskType, TaskStatus, TaskLog, User}
use my_frist_reop.Auth.{Credentials, NewUser}
use my_frist_reop.Tasks.{TaskCreate}
use my_frist_reop.Tasks.Lifecycle.{TaskCallbackRequest}
use my_frist_reop.Billing.Api.{BillingSummary, RecordsPage}
use my_frist_reop.Monitor.{NodeOverview}
use my_frist_reop.Nodes.{HeartbeatPayload, Draws}
use my_frist_reop.Nodes.Serialized.{NodeView, IdleGpuView}
use my_frist_reop.Models.{Model, ModelInstance, ModelError, StopReply}
use my_frist_reop.Models.Deploy.{DeployEnv}
use my_frist_reop.Models.Registry.{ModelCreate, ModelUpdate}

-- One constructor for each route, with what its path, query and body hold.
pub data Call : Type 0 where
  register login : Credentials → Call
  me : Call
  create_task : TaskCreate → Call
  list_tasks : Option TaskStatus → Option TaskType → ℕ → ℕ → Call
  task_detail submit_task cancel_task delete_task : ℕ → Call
  task_callback : ℕ → TaskCallbackRequest → Call
  task_logs : ℕ → ℕ → Call
  create_model : ModelCreate → Call
  list_models : Call
  get_model delete_model deploy_model stop_model list_instances : ℕ → Call
  update_model : ℕ → ModelUpdate → Call
  heartbeat : HeartbeatPayload → Call
  list_nodes list_idle_gpus nodes_overview billing_summary : Call
  billing_records : ℕ → ℕ → Call
  gpu_history : ℕ → Option ℕ → ℕ → Call

-- What an answer holds as `data`.
pub data Content (Token : Type 0) : Type 0 where
  nothing : Content Token
  user : User → Content Token
  token : Token → Content Token
  task : Task → Content Token
  tasks : List Task → ℕ → Content Token
  task_with_logs : Task → List TaskLog → Content Token
  logs : List TaskLog → Content Token
  deleted node_id : ℕ → Content Token
  model : Model → Content Token
  models : List Model → Content Token
  instances : List ModelInstance → Content Token
  deployed : Option Model → List ModelInstance → Content Token
  nodes : List NodeView → Content Token
  gpus : List IdleGpuView → Content Token
  overview : List NodeOverview → Content Token
  metrics : List GpuMetric → Content Token
  summary : BillingSummary → Content Token
  records : RecordsPage → Content Token

-- The settings, the draws and what stands outside; `text_of` is the text of an exception of the model service.
pub record RouteEnv : Type 0 where
  pub now : ℕ
  pub draw : ℕ
  pub draws : Draws
  pub new_user : NewUser
  pub jwt_expire_minutes : ℕ
  pub deploy : DeployEnv
  pub stop : ℕ → ℕ → ℕ → StopReply
  pub text_of : ModelError → String
