-- ===== src/Routes/Calls.antt =====
-- The routers of backend/app/routers/, as backend/app/main.py includes them, but for the gateway's.
use my_frist_reop.Auth.{Crypto}
use my_frist_reop.Routes.{Headers, System, Served}
use my_frist_reop.Routes.Requests.{Call, Content, RouteEnv}
use my_frist_reop.Routes.Writes.{
  register_route, heartbeat_route, create_model_route, update_model_route, delete_model_route,
  deploy_model_route, stop_model_route, create_task_route, submit_task_route, cancel_task_route,
  task_callback_route, delete_task_route,
}
use my_frist_reop.Routes.Reads.{
  list_tasks_route, get_model_route, list_model_instances_route, login_route, me_route,
  task_detail_route, task_logs_route, list_models_route, list_nodes_route, list_idle_gpus_route,
  nodes_overview_route, billing_summary_route, billing_records_route, gpu_history_route,
}

module _ {Token : Type 0} (crypto : Crypto Token) (env : RouteEnv) (h : Headers Token) where
  -- `app.include_router`: each call goes to its route.
  unfoldable pub route : Call → System → Served (Content Token)
  unfolding register_route heartbeat_route create_model_route update_model_route delete_model_route
      deploy_model_route stop_model_route create_task_route submit_task_route cancel_task_route
      task_callback_route delete_task_route list_tasks_route get_model_route
      list_model_instances_route login_route me_route task_detail_route task_logs_route
      list_models_route list_nodes_route list_idle_gpus_route nodes_overview_route
      billing_summary_route billing_records_route gpu_history_route
  route (Call.register p) = register_route crypto env h p
  route (Call.login p) = login_route crypto env h p
  route Call.me = me_route crypto env h
  route (Call.create_task p) = create_task_route crypto env h p
  route (Call.list_tasks status type page size) =
      list_tasks_route crypto env h status type page size
  route (Call.task_detail id) = task_detail_route crypto env h id
  route (Call.submit_task id) = submit_task_route crypto env h id
  route (Call.cancel_task id) = cancel_task_route crypto env h id
  route (Call.delete_task id) = delete_task_route crypto env h id
  route (Call.task_callback id p) = task_callback_route crypto env h id p
  route (Call.task_logs id tail) = task_logs_route crypto env h id tail
  route (Call.create_model p) = create_model_route crypto env h p
  route Call.list_models = list_models_route crypto env h
  route (Call.get_model id) = get_model_route crypto env h id
  route (Call.delete_model id) = delete_model_route crypto env h id
  route (Call.deploy_model id) = deploy_model_route crypto env h id
  route (Call.stop_model id) = stop_model_route crypto env h id
  route (Call.list_instances id) = list_model_instances_route crypto env h id
  route (Call.update_model id p) = update_model_route crypto env h id p
  route (Call.heartbeat p) = heartbeat_route crypto env h p
  route Call.list_nodes = list_nodes_route crypto env h
  route Call.list_idle_gpus = list_idle_gpus_route crypto env h
  route Call.nodes_overview = nodes_overview_route crypto env h
  route Call.billing_summary = billing_summary_route crypto env h
  route (Call.billing_records page size) = billing_records_route crypto env h page size
  route (Call.gpu_history node_id index hours) = gpu_history_route crypto env h node_id index hours
