-- ===== src/Gateway/Accounting.antt =====
-- What a request to the gateway of backend/app/services/ai_service.py leaves in the tables.
use my_frist_reop.Prelude.{
  ℕ, ◌≡◌, refl, inl, inr, ◌⊎◌, String, Bool, true, false, Option, none, some, or_else, List, [],
  ◌∷◌, if◌then◌else◌, Bool-cases, Option-cases,
}
use my_frist_reop.Billing.Api.{add_api_call}
use my_frist_reop.Models.{Model, ModelInstance}
use my_frist_reop.Models.Requirement.{is_empty}
use my_frist_reop.Models.Registry.{find_model}
use my_frist_reop.Gateway.{Gateway, GatewayError, select_running_instance}
use my_frist_reop.Gateway.Rotation.{queue, IsTurn, select_running_instance-IsTurn}
use my_frist_reop.Gateway.Proxy.{
  Upstream, Request, Response, Json, TokenUsage, Answer, with_db, usage_record, add_call,
  read_stream, stream_proxy, parse_response_body, usage_of, finish_post, send, send_selected,
  proxy_openai_request,
}

-- The tables with one row of `api_calls` for the request, and nothing else.
abbrev recorded : Upstream → Request → ℕ → ℕ → ℕ → Gateway → Gateway
recorded up r tokens_input tokens_output status g =
    with_db (add_api_call up.now (usage_record r tokens_input tokens_output up.latency_ms status)) g

-- What a request leaves by what the client is sent. An exception leaves the tables as they were; an answer in
-- whole adds one row, with its status and its token counts; a stream, however it ends, adds one row with the
-- status and the counts that were read from an instance until then.
abbrev pub IsAccounted : Upstream → Request → Gateway → Answer × Gateway → Type 0
IsAccounted up r g (Answer.raised e, g') = g'.tables ≡ g.tables
IsAccounted up r g (Answer.json status body, g') =
    (u : TokenUsage) × (usage_of body ≡ inr u)
    × (g'.tables
        ≡ (recorded up r (or_else u.prompt_tokens 0) (or_else u.completion_tokens 0) status
            g).tables)
IsAccounted up r g (Answer.streamed e, g') =
    (i : ModelInstance) × (let (status, c) =
        read_stream up (up.open_stream i.api_endpoint r.endpoint r.payload) in
      (e ≡ c.error)
      × (g'.tables ≡ (recorded up r c.prompt_tokens c.completion_tokens status g).tables))

module _ (up : Upstream) (r : Request) (g : Gateway) where
  stream_proxy-IsAccounted :
      (i : ModelInstance) (g' : Gateway)
      → g'.tables ≡ g.tables
      → IsAccounted up r g (stream_proxy up i r g')
  unfolding stream_proxy add_call
  stream_proxy-IsAccounted i g' e = (i, (refl, rw e refl))

  finish_post-IsAccounted :
      (response : Response) (g' : Gateway)
      → g'.tables ≡ g.tables
      → IsAccounted up r g (finish_post up r response g')
  unfolding finish_post add_call
  finish_post-IsAccounted response g' e = elim (Option-cases (parse_response_body response)) [
    | inl k ↦ rw (k, finish_post) e
    | inr (body, k) ↦ rw (k, finish_post) (go body (usage_of body) refl)
  ]
    where
      go :
          (body : Json) (u : GatewayError ⊎ TokenUsage)
          → usage_of body ≡ u
          → IsAccounted up r g (elim u [
            | inl x ↦ (Answer.raised x, g')
            | inr v ↦ (
              Answer.json response.status_code body,
              recorded up r
                  (or_else v.prompt_tokens 0)
                  (or_else v.completion_tokens 0)
                  response.status_code
                  g',
            )
          ])
      go body (inl x) same = e
      go body (inr v) same = (v, same, rw e refl)

  send-IsAccounted :
      (i : ModelInstance) (g' : Gateway)
      → g'.tables ≡ g.tables
      → IsAccounted up r g (send up i r g')
  unfolding send
  send-IsAccounted i g' e = go r.payload.stream (up.post i.api_endpoint r.endpoint r.payload)
    where
      go :
          (stream : Bool) (reply : Option Response)
          → IsAccounted up r g (elim stream [
            | true ↦ stream_proxy up i r g'
            | false ↦ elim reply [
              | none ↦ (Answer.raised GatewayError.http_error, g')
              | some response ↦ finish_post up r response g'
            ]
          ])
      go true reply = stream_proxy-IsAccounted i g' e
      go false none = e
      go false (some response) = finish_post-IsAccounted response g' e

  selected-IsAccounted :
      (id : ℕ) → IsAccounted up r g (send_selected up r g (select_running_instance id g))
  selected-IsAccounted id =
      go (queue id g) (select_running_instance id g) (select_running_instance-IsTurn id g)
    where
      go :
          (q : List ModelInstance) (x : GatewayError ⊎ (ModelInstance × Gateway))
          → IsTurn id g q x
          → IsAccounted up r g (send_selected up r g x)
      go [] x e = rw e refl
      go (i ∷ q) x (g', e, _, _, same) = rw e (send-IsAccounted i g' same)

  -- A request that ends in an exception leaves the tables as they were; one that is answered in whole adds
  -- exactly one row of `api_calls`, with the status and the token counts of the answer; a stream, however it
  -- ends, adds exactly one such row with what was read until then. In no case does a request touch another
  -- table, so it books no charge and takes no credits.
  pub proxy_openai_request-IsAccounted : IsAccounted up r g (proxy_openai_request up r g)
  unfolding proxy_openai_request
  proxy_openai_request-IsAccounted = go r.payload.model
    where
      found :
          (o : Option Model)
          → IsAccounted up r g (elim o [
            | none ↦ (Answer.raised GatewayError.type_error, g)
            | some m ↦ send_selected up r g (select_running_instance m.id g)
          ])
      found none = refl
      found (some m) = selected-IsAccounted m.id

      go :
          (name : Option String)
          → IsAccounted up r g (elim name [
            | none ↦ (Answer.raised GatewayError.type_error, g)
            | some n ↦
                if is_empty n
                then (Answer.raised GatewayError.type_error, g)
                else elim (find_model n g.tables.models) [
                  | none ↦ (Answer.raised GatewayError.type_error, g)
                  | some m ↦ send_selected up r g (select_running_instance m.id g)
                ]
          ])
      go none = refl
      go (some n) = elim (Bool-cases (is_empty n)) [
        | inl k ↦ rw k refl
        | inr k ↦ rw k (found (find_model n g.tables.models))
      ]
