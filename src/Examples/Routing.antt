-- ===== src/Examples/Routing.antt =====
-- The theorems about routes, applied to the small cluster.
use my_frist_reop.Prelude.{ℕ, ◌≡◌, refl, Option, none, some}
use my_frist_reop.Queue.Server.{empty_redis}
use my_frist_reop.Errors.{app_error}
use my_frist_reop.Auth.{Claims, Authorization, get_current_user, user_of_header}
use my_frist_reop.Models.{StopReply}
use my_frist_reop.Routes.{Headers, System}
use my_frist_reop.Routes.Requests.{Call, RouteEnv}
use my_frist_reop.Routes.Calls.{route}
use my_frist_reop.Routes.Guards.{IsRefused, route-IsRefused}
use my_frist_reop.Routes.Missing.{internal_error, route-missing}
use my_frist_reop.Examples.{user_of}
use my_frist_reop.Examples.Accounts.{plain, drawn}
use my_frist_reop.Examples.Deploying.{swift, resting}
use my_frist_reop.Examples.Reporting.{draws}

abbrev route_env : RouteEnv
route_env = record {
  now = 5;
  draw = 60;
  draws = draws;
  new_user = drawn;
  jwt_expire_minutes = 30;
  deploy = swift;
  stop = λ ip port c. StopReply.stopped;
  text_of = λ e. "TypeError";
}

abbrev headers : Option ℕ → Headers Claims
headers id = record { authorization = Authorization.no_bearer; x_user_id = id }

abbrev system : System
system = record { tables = resting; redis = empty_redis }

route-IsRefused_example :
    IsRefused system (route plain route_env (headers none) (Call.deploy_model 4) system)
unfolding get_current_user user_of_header
route-IsRefused_example =
    route-IsRefused plain route_env (headers none) (Call.deploy_model 4) system
      (app_error 401 "Authentication required") refl refl

route-missing_example :
    route plain route_env (headers (some 1)) (Call.stop_model 9) system
    ≡ internal_error plain route_env (headers (some 1)) system
unfolding get_current_user
route-missing_example =
    route-missing plain route_env (headers (some 1)) (Call.stop_model 9) 9 system (user_of 1 1000)
      refl refl refl
