-- ===== src/Gateway.antt =====
-- backend/app/services/ai_service.py and backend/app/routers/ai_gateway.py: the models that the
-- OpenAI-compatible endpoints list, and the choice of a running instance in turn.
pub mod Proxy
pub mod Rotation
pub mod Accounting
use my_frist_reop.Prelude.{
  ℕ, zero, suc, ◌+◌, ◌%◌, String, Bool, true, false, not, ◌&&◌, ◌||◌, Option, none, some, List, [],
  ◌∷◌, ◌++◌, map, length, select, sort_by, ltb, leb, ◌==◌, or_else, if◌then◌else◌, inl, inr, ◌⊎◌,
}
use my_frist_reop.Data.{Db}
use my_frist_reop.Data.Work.{User}
use my_frist_reop.Errors.{Result, ok, err}
use my_frist_reop.Billing.Api.{CallUsage, add_api_call}
use my_frist_reop.Auth.{Authorization, get_current_api_user}
use my_frist_reop.Models.{
  Model, ModelStatus, ModelInstance, InstanceStatus, ModelDb, Endpoint, belongs_to,
}
use my_frist_reop.Models.Requirement.{is_empty, skip_spaces, rstrip}
use my_frist_reop.Models.Registry.{find_model}

-- The tables, and `_rr_counters`, which holds 0 for a model that was never asked for.
pub record Gateway : Type 0 where
  pub tables : ModelDb
  pub counters : ℕ → ℕ

-- How a request ends in an exception: `type_error` where the code builds an `APIError` with the text as its
-- first argument; `http_error` from the HTTP library; `decode_error` from the JSON parser; and
-- `attribute_error` where `get` is called on what is no dictionary.
pub data GatewayError : Type 0 where
  type_error http_error decode_error attribute_error : GatewayError

abbrev is_online_model : Model → Bool
is_online_model m = elim m.status [ ModelStatus.online ↦ true | _ ↦ false ]

-- One entry of the list of models; `object` and `owned_by` are constants.
pub record PublicModel : Type 0 where
  pub id : String
  pub created : ℕ

-- `list_public_models`; the order of names is the database's.
unfoldable pub list_public_models : (String → String → Bool) → Gateway → List PublicModel
list_public_models name_before g =
    map (λ (m : Model). record { id = m.name; created = m.created_at })
      (sort_by (λ (a b : Model). name_before a.name b.name)
        (select is_online_model g.tables.models))

abbrev pub is_running : ModelInstance → Bool
is_running i = elim i.status [ InstanceStatus.running ↦ true | InstanceStatus.starting ↦ false ]

abbrev pub started_before : ModelInstance → ModelInstance → Bool
started_before a b = ltb a.started_at b.started_at

-- The running instances of a model, the oldest first.
unfoldable pub running_instances : ℕ → ModelDb → List ModelInstance
running_instances id m =
    sort_by started_before (select (λ i. belongs_to id i && is_running i) m.instances)

-- `xs[n]`
abbrev pub get_elem? {ℓ} : {A : Type ℓ} → List A → ℕ → Option A
get_elem? [] n = none
get_elem? (x ∷ xs) zero = some x
get_elem? (x ∷ xs) (suc n) = get_elem? xs n

abbrev pub count_up : ℕ → (ℕ → ℕ) → ℕ → ℕ
count_up id counters j = if j == id then suc (counters j) else counters j

-- `_select_running_instance`; the index is in range, so the last case is never met.
unfoldable pub select_running_instance : ℕ → Gateway → GatewayError ⊎ (ModelInstance × Gateway)
unfolding running_instances
select_running_instance id g =
    let instances = running_instances id g.tables in
    elim (get_elem? instances (g.counters id % length instances)) [
      | none ↦ inl GatewayError.type_error
      | some i ↦ inr (i, record g { counters = count_up id g.counters })
    ]
