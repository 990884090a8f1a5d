-- ===== src/Agent/Reporter.antt =====
-- agent/heartbeat.py, with agent/resource_monitor.py: the payload that the agent posts to
-- `/api/v1/nodes/heartbeat`, and the start of the thread that posts it.
use Prim.Native.Char.{Char}
use my_frist_reop.Prelude.{ℕ, ◌/◌, String, Bool, Option, none, some, List, if◌then◌else◌}
use my_frist_reop.Nodes.{HeartbeatPayload, GpuInfo, RunningContainerInfo}
use my_frist_reop.Models.Requirement.{is_empty}
use my_frist_reop.Agent.{Docker, Texts, Outcome, list_managed_containers}
use my_frist_reop.Agent.Gpus.{GpuElement, collect_gpu_info}

-- What `psutil` measures; memory is in bytes.
pub record Measured : Type 0 where
  pub cpu_percent : ℕ
  pub memory_total : ℕ
  pub memory_percent : ℕ

-- The part of `collect_resource_info` that the control plane reads: memory in MiB.
pub record Resources : Type 0 where
  pub cpu_percent : ℕ
  pub memory_total : ℕ
  pub memory_percent : ℕ

-- `collect_resource_info`
unfoldable pub collect_resource_info : Measured → Resources
collect_resource_info m = record {
  cpu_percent = m.cpu_percent;
  memory_total = m.memory_total / 1048576;
  memory_percent = m.memory_percent;
}

-- The attributes of `HeartbeatReporter` that the payload holds, and the control plane's address.
pub record ReporterConfig : Type 0 where
  pub control_plane : String
  pub node_name : String
  pub node_ip : ℕ
  pub agent_port : ℕ

-- What one round observes: the time, the elements of `nvidia-smi`, and the resources.
pub record Observed : Type 0 where
  pub now : ℕ
  pub gpus : Option (List GpuElement)
  pub measured : Measured

module _ {State : Type 0} (docker : Docker State) (texts : Texts) (is_space : Char → Bool)
    (to_int : String → Option ℕ) where
  abbrev pub payload_with :
      ReporterConfig → Observed → List GpuInfo → List RunningContainerInfo → HeartbeatPayload
  payload_with config o gpus containers =
      let resources = collect_resource_info o.measured in
      record {
        timestamp = some o.now;
        hostname = config.node_name;
        ip = config.node_ip;
        agent_port = config.agent_port;
        gpus = gpus;
        cpu_percent = resources.cpu_percent;
        memory_percent = resources.memory_percent;
        memory_total = resources.memory_total;
        running_containers = containers;
      }

  -- `build_payload`, the fields that `handle_heartbeat` reads; `none` is an exception, after which the loop of
  -- `_run` posts nothing in this round.
  unfoldable pub build_payload : ReporterConfig → Observed → State → Option HeartbeatPayload
  unfolding collect_gpu_info list_managed_containers
  build_payload config o d = elim (collect_gpu_info is_space to_int o.gpus) [
    | none ↦ none
    | some gpus ↦ elim (list_managed_containers texts docker d) [
      | Outcome.raised e ↦ none
      | Outcome.returned containers ↦ some (payload_with config o gpus containers)
    ]
  ]

-- How `start` ends: it raises, finds the thread alive, or starts it.
pub data Start : Type 0 where
  value_error already_running thread_started : Start

-- `start`; `alive` says whether a thread is there and alive.
unfoldable pub start : Bool → ReporterConfig → Start
start alive config =
    if is_empty config.control_plane
    then Start.value_error
    else if alive
    then Start.already_running
    else Start.thread_started
