-- ===== src/Migrations/Heartbeat.antt =====
-- backend/migrations/versions/20260506_0002_add_agent_heartbeat_fields.py
use my_frist_reop.Prelude.{false, none, some, [], ◌∷◌}
use my_frist_reop.Migrations.{
  Operation, Revision, string, integer, float, date_time, json, literal, unique, foreign_key,
  create_table, drop_table, add_column, drop_column, create_index, drop_index, id_column,
  id_counter, required, defaulted, optional, stamp,
}

abbrev pub create_running_containers : Operation
create_running_containers =
    create_table "running_containers"
      (id_column "id" (string 36)
        ∷ required "node_id" (string 36)
        ∷ required "container_id" (string 64)
        ∷ optional "task_id" (string 64)
        ∷ optional "image" (string 256)
        ∷ defaulted "status" (string 32) (literal "running")
        ∷ optional "gpu_indices" json
        ∷ optional "started_at" (date_time false)
        ∷ stamp "updated_at"
        ∷ [])
      (foreign_key ("task_id" ∷ []) ("tasks.id" ∷ [])
        ∷ foreign_key ("node_id" ∷ []) ("nodes.id" ∷ [])
        ∷ unique ("container_id" ∷ []) none
        ∷ [])

abbrev pub create_gpu_metrics : Operation
create_gpu_metrics =
    create_table "gpu_metrics"
      (id_counter "id"
        ∷ required "node_id" (string 36)
        ∷ required "gpu_index" integer
        ∷ defaulted "utilization" integer (literal "0")
        ∷ defaulted "memory_used" integer (literal "0")
        ∷ defaulted "memory_total" integer (literal "0")
        ∷ defaulted "temperature" integer (literal "0")
        ∷ defaulted "power_usage" integer (literal "0")
        ∷ stamp "timestamp"
        ∷ [])
      (foreign_key ("node_id" ∷ []) ("nodes.id" ∷ []) ∷ [])

-- `upgrade` and `downgrade`, between the two identifiers.
abbrev pub add_agent_heartbeat_fields : Revision
add_agent_heartbeat_fields = record {
  revision = "20260506_0002";
  down_revision = some "20260506_0001";
  upgrade =
      add_column "nodes" (defaulted "cpu_percent" float (literal "0"))
      ∷ add_column "nodes" (defaulted "memory_percent" float (literal "0"))
      ∷ add_column "gpu_devices" (optional "gpu_uuid" (string 128))
      ∷ add_column "gpu_devices" (defaulted "memory_free_mb" integer (literal "0"))
      ∷ add_column "gpu_devices" (defaulted "utilization_memory" integer (literal "0"))
      ∷ add_column "gpu_devices" (defaulted "power_limit" integer (literal "0"))
      ∷ add_column "gpu_devices" (optional "processes" json)
      ∷ create_running_containers
      ∷ create_index "ix_running_containers_task_id" "running_containers" ("task_id" ∷ [])
      ∷ create_gpu_metrics
      ∷ create_index "ix_gpu_metrics_node_id" "gpu_metrics" ("node_id" ∷ [])
      ∷ create_index "ix_gpu_metrics_gpu_index" "gpu_metrics" ("gpu_index" ∷ [])
      ∷ create_index "ix_gpu_metrics_timestamp" "gpu_metrics" ("timestamp" ∷ [])
      ∷ create_index "idx_gpu_metrics_node_time" "gpu_metrics" ("node_id" ∷ "timestamp" ∷ [])
      ∷ [];
  downgrade =
      drop_index "idx_gpu_metrics_node_time" "gpu_metrics"
      ∷ drop_index "ix_gpu_metrics_timestamp" "gpu_metrics"
      ∷ drop_index "ix_gpu_metrics_gpu_index" "gpu_metrics"
      ∷ drop_index "ix_gpu_metrics_node_id" "gpu_metrics"
      ∷ drop_table "gpu_metrics"
      ∷ drop_index "ix_running_containers_task_id" "running_containers"
      ∷ drop_table "running_containers"
      ∷ drop_column "gpu_devices" "processes"
      ∷ drop_column "gpu_devices" "power_limit"
      ∷ drop_column "gpu_devices" "utilization_memory"
      ∷ drop_column "gpu_devices" "memory_free_mb"
      ∷ drop_column "gpu_devices" "gpu_uuid"
      ∷ drop_column "nodes" "memory_percent"
      ∷ drop_column "nodes" "cpu_percent"
      ∷ [];
}
