-- ===== src/Agent.antt =====
-- agent/agent.py and agent/container_tracker.py: the agent of a node starts, stops and lists containers. The
-- daemon is a parameter, and so are the JSON library and the notation of identifiers.
pub mod Gpus
pub mod Reporter
pub mod Tracking
use text.Mathlib.Text.{◌==◌ as str_eq}
use my_frist_reop.Prelude.{
  ℕ, String, Bool, true, false, Option, none, some, List, [], ◌∷◌, map, length, or_else,
  if◌then◌else◌,
}
use my_frist_reop.Data.Cluster.{ContainerStatus}
use my_frist_reop.Nodes.{RunningContainerInfo}
use my_frist_reop.Models.Requirement.{is_empty}

-- `RunRequest`
pub record RunRequest : Type 0 where
  pub task_id : ℕ
  pub image : String
  pub gpus : List ℕ
  pub command : String
  pub volumes : List (String × String)
  pub env : List (String × String)
  pub ports : List (String × ℕ)

-- `{"bind": container_path, "mode": "rw"}`
pub record Binding : Type 0 where
  pub bind : String
  pub mode : String

-- `DeviceRequest`, with the capability `gpu`.
pub record DeviceRequest : Type 0 where
  pub count : ℕ
  pub device_ids : List String

-- The keyword arguments of `containers.run`, which is always detached.
pub record RunArgs : Type 0 where
  pub image : String
  pub command : String
  pub volumes : List (String × Binding)
  pub environment : Option (List (String × String))
  pub ports : Option (List (String × ℕ))
  pub labels : List (String × String)
  pub device_requests : Option (List DeviceRequest)

-- A container as the daemon's library shows it; `started_at` is the time in its state, if there is one.
pub record Container : Type 0 where
  pub id : ℕ
  pub labels : List (String × String)
  pub tags : List String
  pub short_id : String
  pub status : ContainerStatus
  pub started_at : Option ℕ

-- `NotFound` and any other `DockerException`.
pub data DockerError : Type 0 where
  not_found docker_exception : DockerError

pub data Outcome (A : Type 0) : Type 0 where
  returned : A → Outcome A
  raised : DockerError → Outcome A

-- The daemon's library over the states of the daemon.
pub record Docker (State : Type 0) : Type 0 where
  pub run : RunArgs → State → Outcome Container × State
  pub get : ℕ → State → Outcome Container
  pub stop : Container → State → Outcome (Unit {0}) × State
  pub remove : Container → State → Outcome (Unit {0}) × State
  pub logs : Container → ℕ → State → Outcome String
  pub list_all : String → State → Outcome (List Container)

-- `json.dumps` and `json.loads` on lists of numbers, and the text of an identifier and of an index.
pub record Texts : Type 0 where
  pub dumps : List ℕ → String
  pub loads : String → Option (List ℕ)
  pub id_text : ℕ → String
  pub id_of : String → ℕ
  pub index_text : ℕ → String

-- `x or None` on a dictionary.
abbrev or_none {ℓ} : {A : Type ℓ} → List A → Option (List A)
or_none [] = none
or_none (x ∷ xs) = some (x ∷ xs)

-- `labels.get(key)`
abbrev pub label_of : String → List (String × String) → Option String
label_of key [] = none
label_of key ((k, v) ∷ labels) =
    let rest = label_of key labels in if str_eq k key then some v else rest

-- `_get_image_name`
unfoldable pub get_image_name : Container → String
get_image_name c = elim c.tags [ [] ↦ c.short_id | tag ∷ tags ↦ tag ]

-- How a handler answers: a body, or an `HTTPException` with its status.
pub data Reply (A : Type 0) : Type 0 where
  ok : A → Reply A
  http_error : ℕ → Reply A

-- The body of `/api/run`.
pub record Started : Type 0 where
  pub container_id : ℕ
  pub status : ContainerStatus

-- The two `except` clauses of the handlers.
abbrev status_of : DockerError → ℕ
status_of DockerError.not_found = 404
status_of DockerError.docker_exception = 500

module _ (texts : Texts) where
  abbrev pub labels_for : RunRequest → List (String × String)
  labels_for r =
      ("suit.managed", "true")
      ∷ ("suit.task_id", texts.id_text r.task_id)
      ∷ ("suit.gpu_indices", texts.dumps r.gpus)
      ∷ []

  abbrev device_requests_for : List ℕ → Option (List DeviceRequest)
  device_requests_for [] = none
  device_requests_for (g ∷ gs) =
      some (record { count = length (g ∷ gs); device_ids = map texts.index_text (g ∷ gs) } ∷ [])

  -- The arguments that `ContainerTracker.run_container` builds.
  unfoldable pub run_args : RunRequest → RunArgs
  run_args r = record {
    image = r.image;
    command = r.command;
    volumes = map (λ (host, path). (host, record { bind = path; mode = "rw" })) r.volumes;
    environment = or_none r.env;
    ports = or_none r.ports;
    labels = labels_for r;
    device_requests = device_requests_for r.gpus;
  }

  -- `_parse_gpu_indices`
  unfoldable pub parse_gpu_indices : Option String → List ℕ
  parse_gpu_indices none = []
  parse_gpu_indices (some value) = if is_empty value then [] else or_else (texts.loads value) []

  abbrev task_id_of : Option String → Option ℕ
  task_id_of none = none
  task_id_of (some value) = some (texts.id_of value)

  -- One entry of `list_managed_containers`.
  unfoldable pub container_info : Container → RunningContainerInfo
  unfolding parse_gpu_indices get_image_name
  container_info c = record {
    container_id = c.id;
    task_id = task_id_of (label_of "suit.task_id" c.labels);
    image = some (get_image_name c);
    status = c.status;
    gpu_indices = parse_gpu_indices (label_of "suit.gpu_indices" c.labels);
    started_at = c.started_at;
  }

  module _ {State : Type 0} (docker : Docker State) where
    -- `list_managed_containers`
    unfoldable pub list_managed_containers : State → Outcome (List RunningContainerInfo)
    unfolding container_info
    list_managed_containers d = elim (docker.list_all "suit.managed=true" d) [
      | Outcome.raised e ↦ Outcome.raised e
      | Outcome.returned cs ↦ Outcome.returned (map container_info cs)
    ]

    -- `exists`; any other exception passes through.
    unfoldable pub exists : ℕ → State → Outcome Bool
    exists id d = elim (docker.get id d) [
      | Outcome.returned c ↦ Outcome.returned true
      | Outcome.raised e ↦ elim e [
        | DockerError.not_found ↦ Outcome.returned false
        | DockerError.docker_exception ↦ Outcome.raised DockerError.docker_exception
      ]
    ]

    -- `ContainerTracker.stop_container`: a container that is stopped but cannot be removed stays stopped.
    unfoldable pub stop_and_remove : ℕ → State → Outcome (Unit {0}) × State
    stop_and_remove id d = elim (docker.get id d) [
      | Outcome.raised e ↦ (Outcome.raised e, d)
      | Outcome.returned c ↦
          let (stopped, d') = docker.stop c d in
          elim stopped [
            | Outcome.raised e ↦ (Outcome.raised e, d')
            | Outcome.returned u ↦ docker.remove c d'
          ]
    ]

    -- The handler of `/api/run`; every `DockerException` is a 500 there. `ready` says whether the tracker is
    -- initialized.
    unfoldable pub run_container : Bool → RunRequest → State → Reply Started × State
    unfolding run_args
    run_container false r d = (Reply.http_error 503, d)
    run_container true r d =
        let (ran, d') = docker.run (run_args r) d in
        elim ran [
          | Outcome.raised e ↦ (Reply.http_error 500, d')
          | Outcome.returned c ↦ (Reply.ok (record { container_id = c.id; status = c.status }), d')
        ]

    -- The handler of `/api/stop`.
    unfoldable pub stop_container : Bool → ℕ → State → Reply (Unit {0}) × State
    unfolding stop_and_remove
    stop_container false id d = (Reply.http_error 503, d)
    stop_container true id d =
        let (done, d') = stop_and_remove id d in
        elim done [
          | Outcome.raised e ↦ (Reply.http_error (status_of e), d')
          | Outcome.returned u ↦ (Reply.ok u, d')
        ]

    abbrev logs_reply : Outcome String → Reply String
    logs_reply (Outcome.raised e) = Reply.http_error (status_of e)
    logs_reply (Outcome.returned logs) = Reply.ok logs

    -- The handler of `/api/logs/{container_id}`, with a tail in its range.
    unfoldable pub get_logs : Bool → ℕ → ℕ → State → Reply String
    get_logs false id tail d = Reply.http_error 503
    get_logs true id tail d = elim (docker.get id d) [
      | Outcome.raised e ↦ Reply.http_error (status_of e)
      | Outcome.returned c ↦ logs_reply (docker.logs c tail d)
    ]
