-- ===== src/Routes/Missing.antt =====
-- The routes of backend/app/routers/models.py for a model that is not there.
use my_frist_reop.Prelude.{ℕ, ◌≡◌, refl, sym, subst, Option, none, some, get, arith}
use my_frist_reop.Data.Work.{User}
use my_frist_reop.Errors.{ok}
use my_frist_reop.Auth.{Crypto, get_current_user}
use my_frist_reop.Models.{ModelError, model_keyed, stop_model, delete_model, list_instances}
use my_frist_reop.Models.Deploy.{deploy_model}
use my_frist_reop.Models.Registry.{ModelUpdate, get_model, update_model}
use my_frist_reop.Routes.{
  HttpReply, Headers, System, Served, error_response, handle_exception, served, with_user,
}
use my_frist_reop.Routes.Requests.{Call, Content, RouteEnv}
use my_frist_reop.Routes.Writes.{
  update_model_route, delete_model_route, deploy_model_route, stop_model_route,
}
use my_frist_reop.Routes.Reads.{get_model_route, list_model_instances_route}
use my_frist_reop.Routes.Calls.{route}

-- The model that the path of a call names.
abbrev pub model_of_path : Call → Option ℕ
model_of_path (Call.get_model id) = some id
model_of_path (Call.list_instances id) = some id
model_of_path (Call.delete_model id) = some id
model_of_path (Call.deploy_model id) = some id
model_of_path (Call.stop_model id) = some id
model_of_path (Call.update_model id p) = some id
model_of_path _ = none

module _ {Token : Type 0} (crypto : Crypto Token) (env : RouteEnv) (h : Headers Token) where
  -- The answer of the generic handler to the `TypeError`.
  abbrev pub internal_error : System → Served (Content Token)
  internal_error s =
      served (HttpReply.reply 500 (error_response (env.text_of ModelError.type_error) 500)) s

  module _ (id : ℕ) (s : System) (u : User)
      (found : get_current_user crypto env.now h.authorization h.x_user_id s.tables.db ≡ ok u)
      (missing : get id s.tables.models ≡ none) where
    missing_get : get_model_route crypto env h id s ≡ internal_error s
    unfolding get_model_route get_model handle_exception
    missing_get = rw (missing, get_model_route, get_model) refl

    missing_instances : list_model_instances_route crypto env h id s ≡ internal_error s
    unfolding list_model_instances_route list_instances handle_exception
    missing_instances = rw (missing, list_model_instances_route, list_instances) refl

    missing_delete : delete_model_route crypto env h id s ≡ internal_error s
    unfolding delete_model_route with_user delete_model handle_exception
    missing_delete = rw (found, missing, delete_model_route, with_user, delete_model) refl

    missing_deploy : deploy_model_route crypto env h id s ≡ internal_error s
    unfolding deploy_model_route with_user deploy_model handle_exception
    missing_deploy = rw (found, missing, deploy_model_route, with_user, deploy_model) refl

    missing_stop : stop_model_route crypto env h id s ≡ internal_error s
    unfolding stop_model_route with_user stop_model handle_exception
    missing_stop = rw (found, missing, stop_model_route, with_user, stop_model) refl

    missing_update : (p : ModelUpdate) → update_model_route crypto env h id p s ≡ internal_error s
    unfolding update_model_route with_user update_model handle_exception
    missing_update p = rw (found, missing, update_model_route, with_user, update_model) refl

  same_id : (j id : ℕ) → some j ≡ some id → j ≡ id
  same_id j id e = ground arith

  -- A user's call that names in its path a model that is not in the table, to whichever of the six routes,
  -- is answered with the generic error 500, and changes nothing.
  pub route-missing :
      (call : Call) (id : ℕ) (s : System) (u : User)
      → model_of_path call ≡ some id
      → get_current_user crypto env.now h.authorization h.x_user_id s.tables.db ≡ ok u
      → get id s.tables.models ≡ none
      → route crypto env h call s ≡ internal_error s
  unfolding route
  route-missing (Call.get_model j) id s u e found gone =
      missing_get j s u found
        (subst (λ k. get k s.tables.models ≡ none) (sym (same_id j id e)) gone)
  route-missing (Call.list_instances j) id s u e found gone =
      missing_instances j s u found
        (subst (λ k. get k s.tables.models ≡ none) (sym (same_id j id e)) gone)
  route-missing (Call.delete_model j) id s u e found gone =
      missing_delete j s u found
        (subst (λ k. get k s.tables.models ≡ none) (sym (same_id j id e)) gone)
  route-missing (Call.deploy_model j) id s u e found gone =
      missing_deploy j s u found
        (subst (λ k. get k s.tables.models ≡ none) (sym (same_id j id e)) gone)
  route-missing (Call.stop_model j) id s u e found gone =
      missing_stop j s u found
        (subst (λ k. get k s.tables.models ≡ none) (sym (same_id j id e)) gone)
  route-missing (Call.update_model j p) id s u e found gone =
      missing_update j s u found
        (subst (λ k. get k s.tables.models ≡ none) (sym (same_id j id e)) gone) p
  route-missing (Call.register p) id s u e found gone = absurd (ground arith)
  route-missing (Call.login p) id s u e found gone = absurd (ground arith)
  route-missing Call.me id s u e found gone = absurd (ground arith)
  route-missing (Call.create_task p) id s u e found gone = absurd (ground arith)
  route-missing (Call.list_tasks status type page size) id s u e found gone = absurd (ground arith)
  route-missing (Call.task_detail k) id s u e found gone = absurd (ground arith)
  route-missing (Call.submit_task k) id s u e found gone = absurd (ground arith)
  route-missing (Call.cancel_task k) id s u e found gone = absurd (ground arith)
  route-missing (Call.delete_task k) id s u e found gone = absurd (ground arith)
  route-missing (Call.task_callback k p) id s u e found gone = absurd (ground arith)
  route-missing (Call.task_logs k tail) id s u e found gone = absurd (ground arith)
  route-missing (Call.create_model p) id s u e found gone = absurd (ground arith)
  route-missing Call.list_models id s u e found gone = absurd (ground arith)
  route-missing (Call.heartbeat p) id s u e found gone = absurd (ground arith)
  route-missing Call.list_nodes id s u e found gone = absurd (ground arith)
  route-missing Call.list_idle_gpus id s u e found gone = absurd (ground arith)
  route-missing Call.nodes_overview id s u e found gone = absurd (ground arith)
  route-missing Call.billing_summary id s u e found gone = absurd (ground arith)
  route-missing (Call.billing_records page size) id s u e found gone = absurd (ground arith)
  route-missing (Call.gpu_history node_id index hours) id s u e found gone = absurd (ground arith)
