-- ===== src/Examples/Asking.antt =====
-- The theorems about the gateway, applied to two running instances of one model.
use my_frist_reop.Prelude.{◌≡◌, true, some, [], ◌∷◌}
use my_frist_reop.Models.{ModelInstance, ModelStatus}
use my_frist_reop.Models.Requirement.{ascii_space}
use my_frist_reop.Gateway.{Gateway, running_instances, select_running_instance}
use my_frist_reop.Gateway.Proxy.{
  Upstream, Request, StreamEnd, Json, UsageField, proxy_openai_request,
}
use my_frist_reop.Gateway.Rotation.{
  IsTurn, queue, turns, select_running_instance-IsTurn, turns-each_once,
}
use my_frist_reop.Gateway.Accounting.{IsAccounted, proxy_openai_request-IsAccounted}
use my_frist_reop.Examples.{cluster, user_of}
use my_frist_reop.Examples.Serving.{model_of, instance_of}

abbrev first : ModelInstance
first = instance_of 11 4 8001

abbrev second : ModelInstance
second = instance_of 12 4 8002

abbrev asked : Gateway
asked = record {
  tables = record {
    db = cluster [];
    models = model_of 4 "m" ModelStatus.online ∷ [];
    instances = first ∷ second ∷ [];
  };
  counters = λ id. 3;
}

-- The counter stands at 3, so the second instance is next.
select_running_instance-IsTurn_example :
    IsTurn 4 asked (second ∷ first ∷ []) (select_running_instance 4 asked)
unfolding queue running_instances
select_running_instance-IsTurn_example = select_running_instance-IsTurn 4 asked

turns-each_once_example :
    ((turns 2 4 asked).0 ≡ second ∷ first ∷ [])
    × (queue 4 (turns 2 4 asked).1 ≡ second ∷ first ∷ [])
unfolding queue running_instances
turns-each_once_example = turns-each_once 4 asked

abbrev usage : Json
usage = Json.dict (UsageField.dict (record { prompt_tokens = some 3; completion_tokens = some 5 }))

abbrev server : Upstream
server = record {
  post = λ e path p. some (record { status_code = 200; says_json = true; json = some usage });
  open_stream = λ e path p.
      some (record { status_code = 200; chunks = (1 ∷ []) ∷ []; ending = StreamEnd.closed });
  lines = λ chunk. "data: {}" ∷ [];
  loads = λ s. some usage;
  is_space = ascii_space;
  latency_ms = 20;
  now = 1000;
}

abbrev question : Request
question = record {
  user = user_of 1 0;
  api_key = "sk-1";
  endpoint = "/v1/chat/completions";
  payload = record { model = some "m"; stream = true };
}

proxy_openai_request-IsAccounted_example :
    IsAccounted server question asked (proxy_openai_request server question asked)
proxy_openai_request-IsAccounted_example = proxy_openai_request-IsAccounted server question asked
