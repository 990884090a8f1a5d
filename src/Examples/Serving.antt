-- ===== src/Examples/Serving.antt =====
-- The theorems about served models, applied to the small cluster.
use my_frist_reop.Prelude.{ℕ, String, ◌≡◌, refl, none, some, [], ◌∷◌}
use my_frist_reop.Prelude.Int.{pos}
use my_frist_reop.Allocator.{mark_allocated}
use my_frist_reop.Models.{
  ModelStatus, InstanceStatus, Model, ModelInstance, ModelDb, Placement, StopReply, used_ports,
  next_free, next_host_port, hint_fits, available_on, place_on, allocate_for_model, deploy_before,
  stop_model,
}
use my_frist_reop.Models.Ports.{IsLeastFree, next_host_port-IsLeastFree}
use my_frist_reop.Models.Placing.{IsPlaced, allocate_for_model-IsPlaced}
use my_frist_reop.Models.Stopping.{IsStopped, stop_model-IsStopped}
use my_frist_reop.Examples.{cluster, node_of, gpu_of}

abbrev pub instance_of : ℕ → ℕ → ℕ → ModelInstance
instance_of id model_id port = record {
  id = id;
  model_id = model_id;
  node_id = 1;
  container_id = some id;
  assigned_gpu_indices = some (0 ∷ []);
  port = some port;
  status = InstanceStatus.running;
  api_endpoint = some (record { ip = 1; port = port });
  started_at = 0;
}

abbrev pub model_of : ℕ → String → ModelStatus → Model
model_of id name status = record {
  id = id;
  name = name;
  display_name = none;
  model_type = none;
  framework = none;
  model_path = none;
  container_image = some "image";
  launch_command = some "serve";
  config_json = none;
  status = status;
  replicas = pos 1;
  gpu_requirement = none;
  api_format = "openai";
  description = none;
  created_at = 0;
}

-- Two instances of two models on one node.
abbrev pub serving : ModelDb
serving = record {
  db = cluster [];
  models = model_of 4 "m" ModelStatus.online ∷ [];
  instances = instance_of 11 4 8001 ∷ instance_of 12 5 8002 ∷ [];
}

next_host_port-IsLeastFree_example :
    IsLeastFree 8001 (8001 ∷ 8002 ∷ []) (next_host_port 1 serving.instances)
unfolding used_ports
next_host_port-IsLeastFree_example = next_host_port-IsLeastFree 1 serving.instances

-- One GPU on the node with a heartbeat.
abbrev placed : Placement
placed = record { node = node_of 1 (some 100000000); gpus = gpu_of 1 1 0 ∷ []; port = 8003 }

allocate_for_model-IsPlaced_example :
    IsPlaced (λ s. s) 1 none serving placed
    × (mark_allocated placed.gpus serving.db ≡ mark_allocated placed.gpus serving.db)
unfolding allocate_for_model place_on available_on hint_fits next_host_port next_free used_ports
    deploy_before
allocate_for_model-IsPlaced_example =
    allocate_for_model-IsPlaced (λ s. s) 1 none serving placed
      (mark_allocated placed.gpus serving.db) refl

stop_model-IsStopped_example :
    IsStopped 4 serving (stop_model 9000 (λ ip port c. StopReply.stopped) 4 serving)
stop_model-IsStopped_example = stop_model-IsStopped 9000 (λ ip port c. StopReply.stopped) 4 serving
