-- ===== src/Models/Deploy.antt =====
-- `deploy_model` of backend/app/services/model_service.py, with the launch of an instance, the wait for its
-- health, and the cleanup after a failure.
use Prim.Native.Char.{Char}
use my_frist_reop.Prelude.{
  ℕ, zero, suc, ◌+◌, String, Bool, true, false, not, ◌&&◌, Option, none, some, List, [], ◌∷◌, ◌++◌,
  select, update_where, get, modify, max, ltb, ◌==◌, if◌then◌else◌, inl, inr, ◌⊎◌,
}
use my_frist_reop.Prelude.Int.{pos_part}
use my_frist_reop.Data.{Db}
use my_frist_reop.Data.Work.{Entry}
use my_frist_reop.Data.Cluster.{GpuStatus}
use my_frist_reop.Allocator.{set_status, is_held_by, indices_of}
use my_frist_reop.Models.{
  Model, ModelStatus, ModelConfig, ModelInstance, InstanceStatus, ModelDb, ModelError, Placement,
  Endpoint, model_keyed, instance_keyed, allocate_for_model, release_instance, belongs_to,
}
use my_frist_reop.Models.Requirement.{is_empty, parse_gpu_requirement}

-- The body of `/api/run`; `task_id` is `model-{model_id}-{replica_index}`.
pub record RunRequest : Type 0 where
  pub model_id : ℕ
  pub replica_index : ℕ
  pub image : Option String
  pub gpus : List ℕ
  pub command : Option String
  pub host_port : ℕ
  pub container_port : ℕ
  pub env : List (String × String)
  pub volumes : List (String × String)

-- The agent's answer: a status below 400 with a container, another status, or an exception.
pub data RunReply : Type 0 where
  started : Option ℕ → RunReply
  refused unreachable : RunReply

-- One request of `/health`: a status below 400, another one, or an exception.
pub data HealthReply : Type 0 where
  healthy unhealthy failed : HealthReply

-- The settings, and what stands outside: the agent, the instance's own server, the draws of ids and the
-- clock. `probe i n` and `clock i n` are the answer and the time in round `n` of the wait for `i`, and
-- `rounds` bounds the rounds.
pub record DeployEnv : Type 0 where
  pub default_agent_port : ℕ
  pub default_container_port : ℕ
  pub health_timeout : ℕ
  pub rounds : ℕ
  pub lower : String → String
  pub is_space : Char → Bool
  pub digit : Char → Option ℕ
  pub run : Endpoint → RunRequest → RunReply
  pub probe : ModelInstance → ℕ → HealthReply
  pub clock : ModelInstance → ℕ → ℕ
  pub draw : ℕ → ℕ
  pub now : ℕ → ℕ

abbrev pub is_healthy : HealthReply → Bool
is_healthy HealthReply.healthy = true
is_healthy _ = false

-- The `while` loop of `_wait_for_health`, from round `n` on; the fuel bounds its rounds.
unfoldable pub health_rounds : (ℕ → ℕ) → (ℕ → HealthReply) → ℕ → ℕ → ℕ → Bool
health_rounds clock probe deadline n zero = false
health_rounds clock probe deadline n (suc fuel) =
    let rest = health_rounds clock probe deadline (suc n) fuel in
    if ltb (clock n) deadline then (if is_healthy (probe n) then true else rest) else false

-- `_wait_for_health`; the deadline is set from a first look at the clock.
unfoldable pub wait_for_health : DeployEnv → ModelInstance → Option ModelError
unfolding health_rounds
wait_for_health env i =
    if health_rounds (env.clock i) (env.probe i) (env.clock i 0 + env.health_timeout) 1 env.rounds
    then none
    else some ModelError.type_error

-- `int((model.config_json or {}).get("container_port", default))`; a null raises.
abbrev pub container_port_of : ℕ → Option ModelConfig → Option ℕ
container_port_of default none = some default
container_port_of default (some c) = elim c.container_port [
  | Entry.missing ↦ some default
  | Entry.null ↦ none
  | Entry.value port ↦ some port
]

abbrev env_of : Option ModelConfig → List (String × String)
env_of none = []
env_of (some c) = c.env

abbrev volumes_of : Option ModelConfig → List (String × String)
volumes_of none = []
volumes_of (some c) = c.volumes

abbrev pub run_request : Model → Placement → ℕ → ℕ → RunRequest
run_request model p index port = record {
  model_id = model.id;
  replica_index = index;
  image = model.container_image;
  gpus = indices_of p.gpus;
  command = model.launch_command;
  host_port = p.port;
  container_port = port;
  env = env_of model.config_json;
  volumes = volumes_of model.config_json;
}

abbrev pub agent_of : ℕ → Placement → Endpoint
agent_of default p = record {
  ip = p.node.ip;
  port = if p.node.agent_port == 0 then default else p.node.agent_port;
}

-- The row that a launch adds.
abbrev pub new_instance : DeployEnv → Model → Placement → ℕ → Option ℕ → ModelInstance
new_instance env model p index container = record {
  id = env.draw index;
  model_id = model.id;
  node_id = p.node.id;
  container_id = container;
  assigned_gpu_indices = some (indices_of p.gpus);
  port = some p.port;
  status = InstanceStatus.starting;
  api_endpoint = some (record { ip = p.node.ip; port = p.port });
  started_at = env.now index;
}

abbrev pub set_running : ModelInstance → ModelInstance
set_running i = record i { status = InstanceStatus.running }

-- `_release_allocation_by_node_and_gpus`; with no indices the test holds of no row.
abbrev pub release_by_node_and_gpus : ℕ → List ℕ → ModelDb → ModelDb
release_by_node_and_gpus node_id indices m = record m {
  db = record m.db {
    gpus = update_where (is_held_by node_id indices) (set_status GpuStatus.idle) m.db.gpus;
  };
}

-- `_release_gpu_allocation` and `db.delete` of a row.
unfoldable pub remove_instance : ModelInstance → ModelDb → ModelDb
unfolding release_instance
remove_instance i m = record m {
  db = record m.db { gpus = release_instance i m.db.gpus };
  instances = select (λ (j : ModelInstance). not (j.id == i.id)) m.instances;
}

-- What the failed wait leaves: the row that is still there is removed, else the GPUs are released. The
-- agent's answer to the request to stop the container is ignored.
unfoldable pub undo_launch : ModelInstance → Placement → ModelDb → ModelDb
unfolding remove_instance
undo_launch i p m = elim (get i.id m.instances) [
  | some row ↦ remove_instance row m
  | none ↦ release_by_node_and_gpus p.node.id (indices_of p.gpus) m
]

-- The part of `_launch_model_instance` after the agent started the container: the row is committed, and
-- the wait decides.
unfoldable pub await_instance :
    DeployEnv
    → ModelInstance
    → Placement
    → ModelDb
    → (ModelError × ModelDb) ⊎ (ModelInstance × ModelDb)
unfolding wait_for_health undo_launch
await_instance env i p m =
    let added = record m { instances = m.instances ++ i ∷ [] } in
    elim (wait_for_health env i) [
      | some e ↦ inl (e, undo_launch i p added)
      | none ↦
          inr (set_running i, record added { instances = modify i.id set_running added.instances })
    ]

-- `_launch_model_instance`. `saved` are the tables at the last commit, to which an exception before the
-- next one rolls back; `m` has the marked GPUs.
unfoldable pub launch_model_instance :
    DeployEnv
    → Model
    → Placement
    → ℕ
    → ModelDb
    → ModelDb
    → (ModelError × ModelDb) ⊎ (ModelInstance × ModelDb)
unfolding await_instance
launch_model_instance env model p index saved m =
    elim (container_port_of env.default_container_port model.config_json) [
      | none ↦ inl (ModelError.type_error, saved)
      | some port ↦
          elim (env.run (agent_of env.default_agent_port p) (run_request model p index port)) [
            | RunReply.refused ↦ inl (ModelError.type_error, saved)
            | RunReply.unreachable ↦ inl (ModelError.http_error, saved)
            | RunReply.started c ↦ await_instance env (new_instance env model p index c) p m
          ]
    ]

-- How the loop over the replicas ends: with the created instances, after an exception or without one.
pub record Launches : Type 0 where
  pub error : Option ModelError
  pub created : List ModelInstance
  pub tables : ModelDb

abbrev pub and_created : ModelInstance → Launches → Launches
and_created i l = record l { created = i ∷ l.created }

-- `_allocate_for_model` on the model's requirement.
unfoldable pub place_replica : DeployEnv → Model → ModelDb → Option (Placement × Db)
unfolding allocate_for_model parse_gpu_requirement
place_replica env model m =
    let r = parse_gpu_requirement env.is_space env.digit model.gpu_requirement in
    allocate_for_model env.lower r.0 r.1 m

-- The loop: `n` more replicas, the next of which has the given index.
unfoldable pub launch_replicas : DeployEnv → Model → ℕ → ℕ → ModelDb → Launches
unfolding place_replica launch_model_instance
launch_replicas env model zero index m = record { error = none; created = []; tables = m }
launch_replicas env model (suc n) index m = elim (place_replica env model m) [
  | none ↦ record { error = some ModelError.type_error; created = []; tables = m }
  | some (p, db) ↦ elim (launch_model_instance env model p index m (record m { db = db })) [
    | inl (e, m') ↦ record { error = some e; created = []; tables = m' }
    | inr (i, m') ↦ and_created i (launch_replicas env model n (suc index) m')
  ]
]

-- `_cleanup_partial_instances`
unfoldable pub cleanup_partial_instances : List ModelInstance → ModelDb → ModelDb
unfolding remove_instance
cleanup_partial_instances [] m = m
cleanup_partial_instances (i ∷ is) m = elim (get i.id m.instances) [
  | none ↦ cleanup_partial_instances is m
  | some row ↦ cleanup_partial_instances is (remove_instance row m)
]

abbrev pub set_model_status : ModelStatus → ℕ → ModelDb → ModelDb
set_model_status s id m = record m {
  models = modify id (λ (x : Model). record x { status = s }) m.models;
}

-- `not text`
abbrev pub is_blank : Option String → Bool
is_blank none = true
is_blank (some s) = is_empty s

abbrev is_nil : List ModelInstance → Bool
is_nil [] = true
is_nil _ = false

-- The three guards after the model is found; every status of an instance is one of the two looked for.
unfoldable pub may_deploy : Model → ModelDb → Bool
may_deploy x m =
    (not (is_blank x.container_image) && not (is_blank x.launch_command))
    && is_nil (select (belongs_to x.id) m.instances)

abbrev pub finish_deploy : ℕ → Launches → (ModelError ⊎ List ModelInstance) × ModelDb
finish_deploy id l = elim l.error [
  | none ↦ (inr l.created, set_model_status ModelStatus.online id l.tables)
  | some e ↦
      (inl e, set_model_status ModelStatus.error id (cleanup_partial_instances l.created l.tables))
]

-- `deploy_model`: the exception or the created instances, and the tables.
unfoldable pub deploy_model : DeployEnv → ℕ → ModelDb → (ModelError ⊎ List ModelInstance) × ModelDb
unfolding may_deploy launch_replicas cleanup_partial_instances
deploy_model env id m = elim (get id m.models) [
  | none ↦ (inl ModelError.type_error, m)
  | some x ↦
      let done = finish_deploy id (
        launch_replicas env x (max (pos_part x.replicas) 1) 0
          (set_model_status ModelStatus.deploying id m)) in
      if may_deploy x m then done else (inl ModelError.type_error, m)
]
