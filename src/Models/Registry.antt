-- ===== src/Models/Registry.antt =====
-- backend/app/schemas/model.py and the operations of backend/app/services/model_service.py on the rows of
-- the table alone: `list_models`, `get_model`, `create_model` and `update_model`.
use text.Mathlib.Text.{◌==◌ as str_eq}
use my_frist_reop.Prelude.{
  ℕ, inl, inr, ◌⊎◌, String, Bool, Option, none, some, List, [], ◌∷◌, ◌++◌, sort_by, get, modify,
  ltb, if◌then◌else◌,
}
use my_frist_reop.Prelude.Int.{ℤ}
use my_frist_reop.Data.Work.{Entry}
use my_frist_reop.Models.{Model, ModelStatus, ModelConfig, ModelDb, ModelError, model_keyed}

-- `ModelCreate`
pub record ModelCreate : Type 0 where
  pub name : String
  pub display_name : Option String
  pub model_type : Option String
  pub framework : Option String
  pub model_path : Option String
  pub container_image : Option String
  pub launch_command : Option String
  pub config_json : Option ModelConfig
  pub replicas : ℤ
  pub gpu_requirement : Option String
  pub api_format : String
  pub description : Option String

-- `ModelUpdate`; a field that the request does not set is missing.
pub record ModelUpdate : Type 0 where
  pub display_name : Entry String
  pub model_type : Entry String
  pub framework : Entry String
  pub model_path : Entry String
  pub container_image : Entry String
  pub launch_command : Entry String
  pub config_json : Entry ModelConfig
  pub status : Entry ModelStatus
  pub replicas : Entry ℤ
  pub gpu_requirement : Entry String
  pub api_format : Entry String
  pub description : Entry String

abbrev newer_model : Model → Model → Bool
newer_model a b = ltb b.created_at a.created_at

-- `list_models`
unfoldable pub list_models : ModelDb → List Model
list_models m = sort_by newer_model m.models

-- `get_model`
unfoldable pub get_model : ℕ → ModelDb → ModelError ⊎ Model
get_model id m = elim (get id m.models) [ none ↦ inl ModelError.type_error | some x ↦ inr x ]

-- `select(Model).where(Model.name == name)`, the first row.
unfoldable pub find_model : String → List Model → Option Model
find_model name [] = none
find_model name (x ∷ xs) =
    let rest = find_model name xs in if str_eq x.name name then some x else rest

-- `Model(**payload.model_dump())`, with the column's default status.
abbrev pub new_model : ℕ → ℕ → ModelCreate → Model
new_model id now p = record {
  id = id;
  name = p.name;
  display_name = p.display_name;
  model_type = p.model_type;
  framework = p.framework;
  model_path = p.model_path;
  container_image = p.container_image;
  launch_command = p.launch_command;
  config_json = p.config_json;
  status = ModelStatus.offline;
  replicas = p.replicas;
  gpu_requirement = p.gpu_requirement;
  api_format = p.api_format;
  description = p.description;
  created_at = now;
}

-- `create_model`, with the drawn id and the time.
unfoldable pub create_model : ℕ → ℕ → ModelCreate → ModelDb → Option ModelError × ModelDb
unfolding find_model
create_model id now p m = elim (find_model p.name m.models) [
  | some x ↦ (some ModelError.type_error, m)
  | none ↦ (none, record m { models = m.models ++ new_model id now p ∷ [] })
]

-- `setattr` of a nullable column, if the field is set.
abbrev pub set_nullable : {A : Type 0} → Entry A → Option A → Option A
set_nullable Entry.missing old = old
set_nullable Entry.null old = none
set_nullable (Entry.value a) old = some a

-- `setattr` of a column that is not nullable; with a null the commit fails.
abbrev pub set_required : {A : Type 0} → Entry A → A → Option A
set_required Entry.missing old = some old
set_required Entry.null old = none
set_required (Entry.value a) old = some a

abbrev set_all : ModelUpdate → ModelStatus → ℤ → String → Model → Model
set_all p status replicas api_format x = record x {
  display_name = set_nullable p.display_name x.display_name;
  model_type = set_nullable p.model_type x.model_type;
  framework = set_nullable p.framework x.framework;
  model_path = set_nullable p.model_path x.model_path;
  container_image = set_nullable p.container_image x.container_image;
  launch_command = set_nullable p.launch_command x.launch_command;
  config_json = set_nullable p.config_json x.config_json;
  status = status;
  replicas = replicas;
  gpu_requirement = set_nullable p.gpu_requirement x.gpu_requirement;
  api_format = api_format;
  description = set_nullable p.description x.description;
}

-- The loop over the set fields; `none` if a column that is not nullable got a null.
unfoldable pub apply_update : ModelUpdate → Model → Option Model
apply_update p x = elim (set_required p.status x.status) [
  | none ↦ none
  | some status ↦ elim (set_required p.replicas x.replicas) [
    | none ↦ none
    | some replicas ↦ elim (set_required p.api_format x.api_format) [
      | none ↦ none
      | some api_format ↦ some (set_all p status replicas api_format x)
    ]
  ]
]

-- `update_model`
unfoldable pub update_model : ℕ → ModelUpdate → ModelDb → Option ModelError × ModelDb
unfolding apply_update
update_model id p m = elim (get id m.models) [
  | none ↦ (some ModelError.type_error, m)
  | some x ↦ elim (apply_update p x) [
    | none ↦ (some ModelError.integrity_error, m)
    | some y ↦ (none, record m { models = modify id (λ old. y) m.models })
  ]
]
