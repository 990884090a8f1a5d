-- ===== src/Container.antt =====
-- scheduler/container_manager.py and scheduler/agent_client.py: what is sent to a node's agent to
-- start a task's container. The HTTP exchange itself is a parameter.
use text.Mathlib.Text.{◌==◌ as str_eq}
use Prim.Native.String
use my_frist_reop.Prelude.{
  ℕ, String, Option, none, some, List, [], ◌∷◌, or_else, ◌==◌, if◌then◌else◌,
}
use my_frist_reop.Data.Work.{Task, TaskConfig, LaunchError}
use my_frist_reop.Allocator.{Allocation}

abbrev pub Volumes : Type 0
Volumes = List (String × String)

-- `volumes[host] = path`
abbrev pub put_volume : String → String → Volumes → Volumes
put_volume host path [] = (host, path) ∷ []
put_volume host path ((h, p) ∷ vs) =
    if str_eq h host then (h, path) ∷ vs else (h, p) ∷ put_volume host path vs

-- `volumes.update(extra)`
abbrev pub update_volumes : Volumes → Volumes → Volumes
update_volumes vs [] = vs
update_volumes vs ((h, p) ∷ extra) = update_volumes (put_volume h p vs) extra

-- scheduler/config.py, with the text of an identifier.
pub record Settings : Type 0 where
  pub agent_port : ℕ
  pub task_volume_root : String
  pub workspace_mount_path : String
  pub id_text : ℕ → String

-- The base URL of `AgentClient` and the JSON body that `launch_task` posts to `/api/run`.
pub record LaunchRequest : Type 0 where
  pub node_ip : ℕ
  pub agent_port : ℕ
  pub task_id : ℕ
  pub image : String
  pub gpus : List ℕ
  pub command : String
  pub volumes : Volumes

-- The agent's JSON answer.
pub record RunReply : Type 0 where
  pub container_id : Option ℕ
  pub status : Option String

pub data Result (A : Type 0) : Type 0 where
  ok : A → Result A
  err : LaunchError → Result A

infixl 5 ◌>>=◌
abbrev pub ◌>>=◌ : {A B : Type 0} → Result A → (A → Result B) → Result B
ok a >>= f = f a
err e >>= f = err e

-- The agent at the other end: `post`, `raise_for_status` and `json` of the HTTP library, with an
-- exception's text where one of them raises.
abbrev pub Agent : Type 0
Agent = LaunchRequest → Result RunReply

-- `(task.config_json or {}).get("volumes", {})`, where it is a dict.
abbrev pub extra_volumes : Option TaskConfig → Volumes
extra_volumes none = []
extra_volumes (some c) = or_else c.volumes []

-- `if not task.container_image: raise ValueError`
abbrev image_of : Option String → Result String
image_of none = err LaunchError.no_image
image_of (some image) = if str_eq image "" then err LaunchError.no_image else ok image

unfoldable pub launch_request : Settings → Task → Allocation → String → LaunchRequest
launch_request s task a image = record {
  node_ip = a.node_ip;
  agent_port = if a.agent_port == 0 then s.agent_port else a.agent_port;
  task_id = task.id;
  image = image;
  gpus = a.gpu_indices;
  command = or_else task.container_command "";
  volumes =
      update_volumes
        ((
          String.◌++◌ s.task_volume_root (String.◌++◌ "/" (s.id_text task.id)),
          s.workspace_mount_path,
        )
          ∷ [])
        (extra_volumes task.config_json);
}

-- `ContainerManager.launch`
unfoldable pub launch : Settings → Agent → Task → Allocation → Result RunReply
unfolding launch_request
launch s agent task a = do
  image ← image_of task.container_image
  agent (launch_request s task a image)
