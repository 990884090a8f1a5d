-- ===== src/Migrations/Ai.antt =====
-- backend/migrations/versions/20260506_0003_add_phase6_ai_tables.py
use my_frist_reop.Prelude.{none, some, [], ◌∷◌}
use my_frist_reop.Migrations.{
  Operation, Revision, string, text, integer, json, literal, unique, foreign_key, create_table,
  drop_table, create_index, drop_index, id_column, id_counter, required, defaulted, optional, stamp,
}

abbrev pub create_models : Operation
create_models =
    create_table "models"
      (id_column "id" (string 36)
        ∷ required "name" (string 128)
        ∷ optional "display_name" (string 128)
        ∷ optional "model_type" (string 32)
        ∷ optional "framework" (string 32)
        ∷ optional "model_path" (string 512)
        ∷ optional "container_image" (string 256)
        ∷ optional "launch_command" text
        ∷ optional "config_json" json
        ∷ defaulted "status" (string 20) (literal "offline")
        ∷ defaulted "replicas" integer (literal "1")
        ∷ optional "gpu_requirement" (string 64)
        ∷ defaulted "api_format" (string 32) (literal "openai")
        ∷ optional "description" text
        ∷ stamp "created_at"
        ∷ stamp "updated_at"
        ∷ [])
      (unique ("name" ∷ []) none ∷ [])

abbrev pub create_model_instances : Operation
create_model_instances =
    create_table "model_instances"
      (id_column "id" (string 36)
        ∷ required "model_id" (string 36)
        ∷ required "node_id" (string 36)
        ∷ optional "container_id" (string 64)
        ∷ optional "assigned_gpu_indices" json
        ∷ optional "port" integer
        ∷ defaulted "status" (string 20) (literal "starting")
        ∷ optional "api_endpoint" (string 256)
        ∷ stamp "started_at"
        ∷ [])
      (foreign_key ("model_id" ∷ []) ("models.id" ∷ [])
        ∷ foreign_key ("node_id" ∷ []) ("nodes.id" ∷ [])
        ∷ [])

abbrev pub create_api_calls : Operation
create_api_calls =
    create_table "api_calls"
      (id_counter "id"
        ∷ optional "user_id" (string 36)
        ∷ optional "api_key" (string 128)
        ∷ optional "model_name" (string 64)
        ∷ required "endpoint" (string 128)
        ∷ defaulted "tokens_input" integer (literal "0")
        ∷ defaulted "tokens_output" integer (literal "0")
        ∷ optional "latency_ms" integer
        ∷ optional "status_code" integer
        ∷ stamp "created_at"
        ∷ [])
      (foreign_key ("user_id" ∷ []) ("users.id" ∷ []) ∷ [])

-- `upgrade` and `downgrade`, between the two identifiers.
abbrev pub add_phase6_ai_tables : Revision
add_phase6_ai_tables = record {
  revision = "20260506_0003";
  down_revision = some "20260506_0002";
  upgrade =
      create_models
      ∷ create_model_instances
      ∷ create_index "ix_model_instances_model_id" "model_instances" ("model_id" ∷ [])
      ∷ create_index "ix_model_instances_node_id" "model_instances" ("node_id" ∷ [])
      ∷ create_api_calls
      ∷ create_index "ix_api_calls_user_id" "api_calls" ("user_id" ∷ [])
      ∷ [];
  downgrade =
      drop_index "ix_api_calls_user_id" "api_calls"
      ∷ drop_table "api_calls"
      ∷ drop_index "ix_model_instances_node_id" "model_instances"
      ∷ drop_index "ix_model_instances_model_id" "model_instances"
      ∷ drop_table "model_instances"
      ∷ drop_table "models"
      ∷ [];
}
