-- ===== src/Examples/Deploying.antt =====
-- The theorems about deployments, applied to the small cluster.
use my_frist_reop.Prelude.{◌+◌, ◌≡◌, ◌↔◌, refl, none, some, [], ◌∷◌, arith}
use my_frist_reop.Allocator.Keys.{AreDistinct}
use my_frist_reop.Models.{ModelStatus, ModelDb}
use my_frist_reop.Models.Requirement.{ascii_space, ascii_digit}
use my_frist_reop.Models.Deploy.{DeployEnv, RunReply, HealthReply, wait_for_health, deploy_model}
use my_frist_reop.Models.Health.{HasAnswer, wait_for_health_iff}
use my_frist_reop.Models.Undo.{IsInjective, IsFreshFrom}
use my_frist_reop.Models.Deployed.{IsServing, deploy_model-IsServing}
use my_frist_reop.Examples.{cluster}
use my_frist_reop.Examples.Serving.{model_of, instance_of}

-- One model, not deployed, and three idle GPUs.
abbrev pub resting : ModelDb
resting = record {
  db = cluster [];
  models = model_of 4 "m" ModelStatus.offline ∷ [];
  instances = [];
}

abbrev pub agent_with : RunReply → HealthReply → DeployEnv
agent_with reply health = record {
  default_agent_port = 9000;
  default_container_port = 8000;
  health_timeout = 5;
  rounds = 5;
  lower = λ s. s;
  is_space = ascii_space;
  digit = ascii_digit;
  run = λ agent r. reply;
  probe = λ i n. health;
  clock = λ i n. n;
  draw = λ n. n + 50;
  now = λ n. 9;
}

draws_apart : IsInjective (λ n. n + 50)
draws_apart j k e = omega arith

rows_apart : AreDistinct resting.db.gpus
rows_apart = ground arith

all_fresh : IsFreshFrom (λ n. n + 50) 0 resting.instances
all_fresh k le = tt

abbrev slow : DeployEnv
slow = agent_with (RunReply.started (some 7)) HealthReply.unhealthy

abbrev pub swift : DeployEnv
swift = agent_with (RunReply.started (some 7)) HealthReply.healthy

deploy_model-IsServing_example :
    IsServing swift.draw (model_of 4 "m" ModelStatus.offline) resting (deploy_model swift 4 resting)
deploy_model-IsServing_example =
    deploy_model-IsServing swift draws_apart 4 resting rows_apart all_fresh
      (model_of 4 "m" ModelStatus.offline) refl

wait_for_health_iff_example :
    (wait_for_health swift (instance_of 50 4 8001) ≡ none)
    ↔ HasAnswer (λ n. n) (λ n. HealthReply.healthy) 5 1
wait_for_health_iff_example =
    wait_for_health_iff swift (instance_of 50 4 8001) (λ n. omega arith) (omega arith)
