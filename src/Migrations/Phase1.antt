-- ===== src/Migrations/Phase1.antt =====
-- backend/migrations/versions/20260506_0001_create_phase1_tables.py
use my_frist_reop.Prelude.{false, none, some, [], ◌∷◌}
use my_frist_reop.Migrations.{
  Operation, Revision, string, text, integer, numeric, boolean, date_time, jsonb, array, literal,
  expression, unique, foreign_key, create_table, drop_table, create_index, drop_index, id_column,
  id_counter, required, defaulted, optional, stamp,
}

abbrev pub create_users : Operation
create_users =
    create_table "users"
      (id_column "id" (string 36)
        ∷ required "username" (string 64)
        ∷ required "password_hash" (string 256)
        ∷ defaulted "role" (string 20) (literal "user")
        ∷ defaulted "gpu_quota" integer (literal "2")
        ∷ optional "api_key" (string 128)
        ∷ defaulted "credits" (numeric 12 2) (literal "0")
        ∷ stamp "created_at"
        ∷ [])
      (unique ("api_key" ∷ []) none ∷ unique ("username" ∷ []) none ∷ [])

abbrev pub create_nodes : Operation
create_nodes =
    create_table "nodes"
      (id_column "id" (string 36)
        ∷ optional "hostname" (string 128)
        ∷ required "ip" (string 45)
        ∷ defaulted "agent_port" integer (literal "9000")
        ∷ defaulted "gpu_count" integer (literal "0")
        ∷ optional "gpu_model" (string 64)
        ∷ optional "total_memory_mb" integer
        ∷ defaulted "status" (string 20) (literal "offline")
        ∷ optional "last_heartbeat" (date_time false)
        ∷ stamp "registered_at"
        ∷ [])
      (unique ("ip" ∷ []) none ∷ [])

abbrev pub create_gpu_devices : Operation
create_gpu_devices =
    create_table "gpu_devices"
      (id_column "id" (string 36)
        ∷ required "node_id" (string 36)
        ∷ required "gpu_index" integer
        ∷ optional "gpu_model" (string 64)
        ∷ optional "memory_total_mb" integer
        ∷ defaulted "memory_used_mb" integer (literal "0")
        ∷ defaulted "utilization" integer (literal "0")
        ∷ defaulted "temperature" integer (literal "0")
        ∷ defaulted "power_usage" integer (literal "0")
        ∷ defaulted "status" (string 20) (literal "idle")
        ∷ stamp "updated_at"
        ∷ [])
      (foreign_key ("node_id" ∷ []) ("nodes.id" ∷ [])
        ∷ unique ("node_id" ∷ "gpu_index" ∷ []) (some "uq_gpu_devices_node_index")
        ∷ [])

abbrev pub create_tasks : Operation
create_tasks =
    create_table "tasks"
      (id_column "id" (string 36)
        ∷ optional "user_id" (string 36)
        ∷ optional "name" (string 128)
        ∷ optional "task_type" (string 20)
        ∷ defaulted "status" (string 20) (literal "pending")
        ∷ defaulted "priority" integer (literal "0")
        ∷ optional "assigned_node_id" (string 36)
        ∷ optional "assigned_gpu_indices" (array integer)
        ∷ optional "container_image" (string 256)
        ∷ optional "container_command" text
        ∷ optional "container_id" (string 64)
        ∷ optional "config_json" jsonb
        ∷ optional "result_json" jsonb
        ∷ defaulted "billed" boolean (expression "false")
        ∷ stamp "created_at"
        ∷ optional "started_at" (date_time false)
        ∷ optional "finished_at" (date_time false)
        ∷ [])
      (foreign_key ("assigned_node_id" ∷ []) ("nodes.id" ∷ [])
        ∷ foreign_key ("user_id" ∷ []) ("users.id" ∷ [])
        ∷ [])

abbrev pub create_task_logs : Operation
create_task_logs =
    create_table "task_logs"
      (id_counter "id"
        ∷ required "task_id" (string 36)
        ∷ optional "source" (string 20)
        ∷ optional "message" text
        ∷ stamp "timestamp"
        ∷ [])
      (foreign_key ("task_id" ∷ []) ("tasks.id" ∷ []) ∷ [])

abbrev pub create_billing_records : Operation
create_billing_records =
    create_table "billing_records"
      (id_counter "id"
        ∷ required "user_id" (string 36)
        ∷ optional "task_id" (string 36)
        ∷ defaulted "resource_type" (string 20) (literal "gpu_time")
        ∷ optional "gpu_model" (string 64)
        ∷ defaulted "duration_seconds" integer (literal "0")
        ∷ defaulted "cost_credits" (numeric 10 4) (literal "0")
        ∷ stamp "created_at"
        ∷ [])
      (foreign_key ("user_id" ∷ []) ("users.id" ∷ [])
        ∷ foreign_key ("task_id" ∷ []) ("tasks.id" ∷ [])
        ∷ [])

-- `upgrade` and `downgrade`, between the two identifiers.
abbrev pub create_phase1_tables : Revision
create_phase1_tables = record {
  revision = "20260506_0001";
  down_revision = none;
  upgrade =
      create_users
      ∷ create_nodes
      ∷ create_gpu_devices
      ∷ create_tasks
      ∷ create_task_logs
      ∷ create_billing_records
      ∷ create_index "ix_billing_records_user_id" "billing_records" ("user_id" ∷ [])
      ∷ create_index "ix_billing_records_task_id" "billing_records" ("task_id" ∷ [])
      ∷ [];
  downgrade =
      drop_index "ix_billing_records_task_id" "billing_records"
      ∷ drop_index "ix_billing_records_user_id" "billing_records"
      ∷ drop_table "billing_records"
      ∷ drop_table "task_logs"
      ∷ drop_table "tasks"
      ∷ drop_table "gpu_devices"
      ∷ drop_table "nodes"
      ∷ drop_table "users"
      ∷ [];
}
