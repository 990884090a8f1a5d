-- ===== src/Routes/Writes.antt =====
-- The routes of backend/app/routers/ that change tables.
use my_frist_reop.Prelude.{ℕ, Option, none, some, List, get, inl, inr, ◌⊎◌}
use my_frist_reop.Data.Work.{Task}
use my_frist_reop.Errors.{Result}
use my_frist_reop.Auth.{Crypto, Credentials, register_user}
use my_frist_reop.Tasks.{TaskCreate, create_task}
use my_frist_reop.Tasks.Lifecycle.{
  TaskCallbackRequest, submit_task, cancel_task, handle_callback, delete_task,
}
use my_frist_reop.Nodes.{HeartbeatPayload}
use my_frist_reop.Nodes.Heartbeat.{handle_heartbeat}
use my_frist_reop.Models.{
  Model, ModelInstance, ModelDb, ModelError, model_keyed, stop_model, delete_model,
}
use my_frist_reop.Models.Deploy.{deploy_model}
use my_frist_reop.Models.Registry.{ModelCreate, ModelUpdate, create_model, update_model}
use my_frist_reop.Routes.Requests.{Content, RouteEnv}
use my_frist_reop.Routes.{
  HttpReply, Exception, Headers, System, Served, handle_exception, succeed, success_response,
  respond, world_of, with_world, with_tables, with_database, served, with_user,
}

-- A model as a route of it returns the refreshed row.
abbrev refreshed {ℓ} : {Token : Type ℓ} → Option Model → (Model → Token) → Token → Token
refreshed none f d = d
refreshed (some x) f d = f x

module _ {Token : Type 0} (crypto : Crypto Token) (env : RouteEnv) (h : Headers Token) where
  -- What the service raised, which no handler but the generic one knows.
  abbrev pub model_failure : ModelError → HttpReply (Content Token)
  model_failure e = handle_exception (Exception.other (env.text_of e))

  -- The answer of a route of the model service that returns a model.
  abbrev model_answer : ℕ → Option ModelError × ModelDb → System → Served (Content Token)
  model_answer id (some e, m) s = served (model_failure e) (with_tables m s)
  model_answer id (none, m) s =
      served (succeed (refreshed (get id m.models) Content.model Content.nothing)) (with_tables m s)

  abbrev delete_answer : Option ModelError × ModelDb → System → Served (Content Token)
  delete_answer (some e, m) s = served (model_failure e) (with_tables m s)
  delete_answer (none, m) s = served (succeed Content.nothing) (with_tables m s)

  abbrev deploy_answer :
      ℕ → (ModelError ⊎ List ModelInstance) × ModelDb → System → Served (Content Token)
  deploy_answer id (inl e, m) s = served (model_failure e) (with_tables m s)
  deploy_answer id (inr is, m) s =
      served (succeed (Content.deployed (get id m.models) is)) (with_tables m s)

  abbrev pub task_answer : Result Task → HttpReply (Content Token)
  task_answer = respond Content.task

  -- `create_task`, with its status 201.
  unfoldable pub create_task_route : TaskCreate → System → Served (Content Token)
  unfolding with_user create_task success_response
  create_task_route p s = with_user crypto env.now h s (λ u.
      let (task, db) = create_task env.now env.draw u p s.tables.db in
      served (HttpReply.reply 201 (success_response (Content.task task))) (with_database db s))

  -- `submit_task`
  unfoldable pub submit_task_route : ℕ → System → Served (Content Token)
  unfolding with_user submit_task
  submit_task_route id s = with_user crypto env.now h s (λ u.
      let (result, w) = submit_task env.now id u (world_of s) in
      served (task_answer result) (with_world w s))

  -- `cancel_task`
  unfoldable pub cancel_task_route : ℕ → System → Served (Content Token)
  unfolding with_user cancel_task
  cancel_task_route id s = with_user crypto env.now h s (λ u.
      let (result, stop, db) = cancel_task env.now id u s.tables.db in
      record { answer = task_answer result; system = with_database db s; stop = stop })

  -- `task_callback`, which asks for no user.
  unfoldable pub task_callback_route : ℕ → TaskCallbackRequest → System → Served (Content Token)
  unfolding handle_callback
  task_callback_route id p s =
      let (result, w) = handle_callback env.now id p (world_of s) in
      served (task_answer result) (with_world w s)

  -- `delete_task`
  unfoldable pub delete_task_route : ℕ → System → Served (Content Token)
  unfolding with_user delete_task
  delete_task_route id s = with_user crypto env.now h s (λ u.
      let (result, db) = delete_task id u s.tables.db in
      served (respond (λ done. Content.deleted id) result) (with_database db s))

  -- The routes of the other routers that change tables: `register`, `heartbeat`, and those of models.
  unfoldable pub register_route : Credentials → System → Served (Content Token)
  unfolding register_user
  register_route p s =
      let (result, db) = register_user crypto env.now env.new_user p s.tables.db in
      served (respond Content.user result) (with_database db s)

  unfoldable pub heartbeat_route : HeartbeatPayload → System → Served (Content Token)
  unfolding handle_heartbeat
  heartbeat_route p s =
      let (id, db) = handle_heartbeat env.now env.draws p s.tables.db in
      served (succeed (Content.node_id id)) (with_database db s)

  unfoldable pub create_model_route : ModelCreate → System → Served (Content Token)
  unfolding with_user create_model
  create_model_route p s =
      with_user crypto env.now h s
        (λ u. model_answer env.draw (create_model env.draw env.now p s.tables) s)

  unfoldable pub update_model_route : ℕ → ModelUpdate → System → Served (Content Token)
  unfolding with_user update_model handle_exception
  update_model_route id p s =
      with_user crypto env.now h s (λ u. model_answer id (update_model id p s.tables) s)

  unfoldable pub delete_model_route : ℕ → System → Served (Content Token)
  unfolding with_user delete_model handle_exception
  delete_model_route id s =
      with_user crypto env.now h s (λ u. delete_answer (delete_model id s.tables) s)

  unfoldable pub deploy_model_route : ℕ → System → Served (Content Token)
  unfolding with_user deploy_model handle_exception
  deploy_model_route id s =
      with_user crypto env.now h s (λ u. deploy_answer id (deploy_model env.deploy id s.tables) s)

  unfoldable pub stop_model_route : ℕ → System → Served (Content Token)
  unfolding with_user stop_model handle_exception
  stop_model_route id s =
      with_user crypto env.now h s
        (λ u. model_answer id (stop_model env.deploy.default_agent_port env.stop id s.tables) s)
