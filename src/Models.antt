-- ===== src/Models.antt =====
-- backend/app/services/model_service.py with backend/app/models/model.py: the placing of a model's
-- replicas, the choice of a port, and stopping and deleting a model. The children hold the parsing of a GPU
-- requirement, the deployment, and the other operations on the table.
pub mod Requirement
pub mod Deploy
pub mod Health
pub mod Undo
pub mod Marks
pub mod Launched
pub mod Deployed
pub mod Registry
pub mod Ports
pub mod Placing
pub mod Stopping
use text.Mathlib.Text.{◌==◌ as str_eq, find?}
use my_frist_reop.Prelude.{
  ℕ, zero, suc, ◌+◌, String, Bool, true, false, not, ◌&&◌, ◌||◌, Option, none, some, List, [], ◌∷◌,
  ◌++◌, map, length, take, select, sort_by, update_where, elem, get, modify, Keyed, ltb, ◌==◌,
  or_else, is_some, if◌then◌else◌, inl, inr, ◌⊎◌,
}
use my_frist_reop.Prelude.Int.{ℤ}
use my_frist_reop.Data.{Db}
use my_frist_reop.Data.Work.{Entry}
use my_frist_reop.Data.Cluster.{Node, NodeStatus, GpuDevice, GpuStatus, is_idle, node_keyed}
use my_frist_reop.Allocator.{set_status, mark_allocated, is_held_by, indices_of}

-- `Model.status`; an update may set any other text.
pub data ModelStatus : Type 0 where
  offline deploying online error : ModelStatus
  other : String → ModelStatus

-- `Model.config_json`, with the keys that the code reads.
pub record ModelConfig : Type 0 where
  pub container_port : Entry ℕ
  pub env : List (String × String)
  pub volumes : List (String × String)

-- The columns of `Model`, without `updated_at`.
pub record Model : Type 0 where
  pub id : ℕ
  pub name : String
  pub display_name : Option String
  pub model_type : Option String
  pub framework : Option String
  pub model_path : Option String
  pub container_image : Option String
  pub launch_command : Option String
  pub config_json : Option ModelConfig
  pub status : ModelStatus
  pub replicas : ℤ
  pub gpu_requirement : Option String
  pub api_format : String
  pub description : Option String
  pub created_at : ℕ

-- `ModelInstance.status`
pub data InstanceStatus : Type 0 where
  starting running : InstanceStatus

-- The text `http://{ip}:{port}`.
pub record Endpoint : Type 0 where
  pub ip : ℕ
  pub port : ℕ

pub record ModelInstance : Type 0 where
  pub id : ℕ
  pub model_id : ℕ
  pub node_id : ℕ
  pub container_id : Option ℕ
  pub assigned_gpu_indices : Option (List ℕ)
  pub port : Option ℕ
  pub status : InstanceStatus
  pub api_endpoint : Option Endpoint
  pub started_at : ℕ

instance abbrev pub model_keyed : Keyed Model
model_keyed = record { key = λ m. m.id }

instance abbrev pub instance_keyed : Keyed ModelInstance
instance_keyed = record { key = λ i. i.id }

-- The two tables beside the others.
pub record ModelDb : Type 0 where
  pub db : Db
  pub models : List Model
  pub instances : List ModelInstance

-- How a call ends in an exception: `type_error` where the code builds an `APIError` with the text as
-- its first argument, which its constructor takes for the status code, or converts a null; `http_error`
-- from the HTTP library; `integrity_error` from the database.
pub data ModelError : Type 0 where
  type_error http_error integrity_error : ModelError

-- The ports of a node's instances.
abbrev ports_in : List ModelInstance → List ℕ
ports_in [] = []
ports_in (i ∷ is) = elim i.port [ none ↦ ports_in is | some p ↦ p ∷ ports_in is ]

unfoldable pub used_ports : ℕ → List ModelInstance → List ℕ
used_ports node_id is = ports_in (select (λ (i : ModelInstance). i.node_id == node_id) is)

-- The `while` loop of `_next_host_port`; the fuel bounds its rounds.
unfoldable pub next_free : ℕ → ℕ → List ℕ → ℕ
next_free zero port used = port
next_free (suc fuel) port used =
    let next = next_free fuel (port + 1) used in if elem port used then next else port

-- `_next_host_port`
unfoldable pub next_host_port : ℕ → List ModelInstance → ℕ
unfolding next_free used_ports
next_host_port node_id is = let used = used_ports node_id is in next_free (length used) 8001 used

-- `Node.status.in_(["online", "maintenance"])`
abbrev pub is_deployable : NodeStatus → Bool
is_deployable NodeStatus.online = true
is_deployable NodeStatus.maintenance = true
is_deployable NodeStatus.offline = false

-- `order_by(last_heartbeat.desc().nullslast(), registered_at.asc())`
unfoldable pub deploy_before : Node → Node → Bool
deploy_before a b = elim a.last_heartbeat [
  | none ↦ elim b.last_heartbeat [ none ↦ ltb a.registered_at b.registered_at | some y ↦ false ]
  | some x ↦ elim b.last_heartbeat [
    | none ↦ true
    | some y ↦ if x == y then ltb a.registered_at b.registered_at else ltb y x
  ]
]

-- The key `(utilization_gpu, gpu_index)`.
abbrev pub less_used : GpuDevice → GpuDevice → Bool
less_used g h =
    if g.utilization == h.utilization
    then ltb g.gpu_index h.gpu_index
    else ltb g.utilization h.utilization

-- `Allocation`, with the GPUs themselves.
pub record Placement : Type 0 where
  pub node : Node
  pub gpus : List GpuDevice
  pub port : ℕ

-- `lower` is `str.lower`.
module _ (lower : String → String) where
  -- `not gpu_model_hint or gpu_model_hint.lower() in (gpu.gpu_model or "").lower()`
  unfoldable pub hint_fits : Option String → GpuDevice → Bool
  hint_fits none g = true
  hint_fits (some hint) g =
      if str_eq hint "" then true else is_some (find? (lower (or_else g.gpu_model "")) (lower hint))

  abbrev pub is_available : Option String → Node → GpuDevice → Bool
  is_available hint node g = (g.node_id == node.id && is_idle g.status) && hint_fits hint g

  unfoldable pub available_on : Option String → Db → Node → List GpuDevice
  available_on hint db node = select (is_available hint node) db.gpus

  -- The loop over the nodes; `none` is the error after it.
  unfoldable pub place_on : ℕ → Option String → ModelDb → List Node → Option Placement
  unfolding next_host_port
  place_on n hint m [] = none
  place_on n hint m (node ∷ nodes) =
      let rest = place_on n hint m nodes in
      let available = available_on hint m.db node in
      if ltb (length available) n
      then rest
      else some (record {
        node = node;
        gpus = take n (sort_by less_used available);
        port = next_host_port node.id m.instances;
      })

  -- `_allocate_for_model`, for a requirement that was parsed to `n` GPUs and a hint.
  unfoldable pub allocate_for_model : ℕ → Option String → ModelDb → Option (Placement × Db)
  unfolding place_on
  allocate_for_model n hint m =
      let nodes =
        sort_by deploy_before (select (λ (x : Node). is_deployable x.status) m.db.nodes) in
      elim (place_on n hint m nodes) [ none ↦ none | some p ↦ some (p, mark_allocated p.gpus m.db) ]

-- `_release_gpu_allocation`
unfoldable pub release_instance : ModelInstance → List GpuDevice → List GpuDevice
release_instance i gpus = elim i.assigned_gpu_indices [
  | none ↦ gpus
  | some indices ↦ update_where (is_held_by i.node_id indices) (set_status GpuStatus.idle) gpus
]

-- What the agent answers to `/api/stop`: a status below 400, another one, or an exception.
pub data StopReply : Type 0 where
  stopped refused unreachable : StopReply

abbrev pub stop_error : StopReply → Option ModelError
stop_error StopReply.stopped = none
stop_error StopReply.refused = some ModelError.type_error
stop_error StopReply.unreachable = some ModelError.http_error

abbrev pub belongs_to : ℕ → ModelInstance → Bool
belongs_to id i = i.model_id == id

abbrev pub finish_stop : ℕ → ModelDb → ModelError ⊎ List GpuDevice → Option ModelError × ModelDb
finish_stop id m (inl e) = (some e, m)
finish_stop id m (inr gpus) = (
  none,
  record m {
    db = record m.db { gpus = gpus };
    models = modify id (λ (x : Model). record x { status = ModelStatus.offline }) m.models;
    instances = select (λ i. not (belongs_to id i)) m.instances;
  },
)

-- `stop` is the agent at an address, a port and a container.
module _ (default_agent_port : ℕ) (stop : ℕ → ℕ → ℕ → StopReply) where
  -- `_stop_instance`
  unfoldable pub stop_instance : ModelInstance → Db → Option ModelError
  stop_instance i db = elim (get i.node_id db.nodes) [
    | none ↦ none
    | some node ↦ elim i.container_id [
      | none ↦ none
      | some c ↦
          if c == 0
          then none
          else stop_error (
              stop node.ip (if node.agent_port == 0 then default_agent_port else node.agent_port) c)
    ]
  ]

  -- The loop of `stop_model` over the instances, on the GPUs; an exception ends it.
  unfoldable pub stop_all : List ModelInstance → Db → List GpuDevice → ModelError ⊎ List GpuDevice
  unfolding stop_instance release_instance
  stop_all [] db gpus = inr gpus
  stop_all (i ∷ is) db gpus = elim (stop_instance i db) [
    | some e ↦ inl e
    | none ↦ stop_all is db (release_instance i gpus)
  ]

  -- `stop_model`: the exception, if there is one, and the tables. Nothing is committed before the end.
  unfoldable pub stop_model : ℕ → ModelDb → Option ModelError × ModelDb
  unfolding stop_all
  stop_model id m = elim (get id m.models) [
    | none ↦ (some ModelError.type_error, m)
    | some x ↦ finish_stop id m (stop_all (select (belongs_to id) m.instances) m.db m.db.gpus)
  ]

-- `delete_model`
unfoldable pub delete_model : ℕ → ModelDb → Option ModelError × ModelDb
delete_model id m = elim (get id m.models) [
  | none ↦ (some ModelError.type_error, m)
  | some x ↦
      if length (select (λ (i : ModelInstance). i.model_id == id) m.instances) == 0
      then (none, record m { models = select (λ (y : Model). not (y.id == id)) m.models })
      else (some ModelError.type_error, m)
]

abbrev newer_instance : ModelInstance → ModelInstance → Bool
newer_instance a b = ltb b.started_at a.started_at

-- `list_instances`, after `get_model`
unfoldable pub list_instances : ℕ → ModelDb → Option (List ModelInstance)
list_instances id m = elim (get id m.models) [
  | none ↦ none
  | some x ↦
      some (sort_by newer_instance (select (λ (i : ModelInstance). i.model_id == id) m.instances))
]
