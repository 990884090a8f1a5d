-- ===== src/Gateway/Proxy.antt =====
-- backend/app/services/ai_service.py and backend/app/routers/ai_gateway.py: passing a request on to an
-- instance, the answer in whole or as a stream, and the row of `api_calls`.
use Prim.Native.Char.{Char, code}
use text.Mathlib.Text.{◌==◌ as str_eq}
use my_frist_reop.Prelude.{
  ℕ, String, Bool, true, false, ◌||◌, Option, none, some, List, [], ◌∷◌, leb, ◌==◌, or_else,
  if◌then◌else◌, inl, inr, ◌⊎◌,
}
use my_frist_reop.Data.{Db}
use my_frist_reop.Data.Work.{User}
use my_frist_reop.Errors.{Result, ok, err}
use my_frist_reop.Billing.Api.{CallUsage, add_api_call}
use my_frist_reop.Auth.{Authorization, get_current_api_user}
use my_frist_reop.Models.{ModelInstance, Endpoint}
use my_frist_reop.Models.Requirement.{is_empty, skip_spaces, rstrip}
use my_frist_reop.Models.Registry.{find_model}
use my_frist_reop.Gateway.{Gateway, GatewayError, select_running_instance}

-- The keys of a request's body that the gateway reads.
pub record Payload : Type 0 where
  pub model : Option String
  pub stream : Bool

-- The dictionary `usage`; a count is missing where it is absent or null.
pub record TokenUsage : Type 0 where
  pub prompt_tokens : Option ℕ
  pub completion_tokens : Option ℕ

pub data UsageField : Type 0 where
  absent not_dict : UsageField
  dict : TokenUsage → UsageField

-- A JSON document: a dictionary with its key `usage`, or anything else.
pub data Json : Type 0 where
  dict : UsageField → Json
  other : Json

-- An answer that came in whole: whether its content type is JSON, and its text as the parser reads it.
pub record Response : Type 0 where
  pub status_code : ℕ
  pub says_json : Bool
  pub json : Option Json

-- How a stream ends: whole, with an exception of the HTTP library, or with the client gone.
pub data StreamEnd : Type 0 where
  finished broken closed : StreamEnd

pub record Stream : Type 0 where
  pub status_code : ℕ
  pub chunks : List (List ℕ)
  pub ending : StreamEnd

-- What stands outside: the instances' servers, where `none` is an exception before an answer; the decoding
-- of a chunk to lines; the JSON parser; and Python's table of spaces.
pub record Upstream : Type 0 where
  pub post : Option Endpoint → String → Payload → Option Response
  pub open_stream : Option Endpoint → String → Payload → Option Stream
  pub lines : List ℕ → List String
  pub loads : String → Option Json
  pub is_space : Char → Bool
  pub latency_ms : ℕ
  pub now : ℕ

-- `_parse_response_body`: a text that says it is JSON and is not raises, any other becomes `{"raw": text}`.
unfoldable pub parse_response_body : Response → Option Json
parse_response_body r = elim r.json [
  | some body ↦ some body
  | none ↦ if r.says_json then none else some (Json.dict UsageField.absent)
]

-- `body.get("usage", {}) if isinstance(body, dict) else {}`, and the error of `usage.get` on what it gives.
unfoldable pub usage_of : Json → GatewayError ⊎ TokenUsage
usage_of Json.other = inr (record { prompt_tokens = none; completion_tokens = none })
usage_of (Json.dict UsageField.absent) =
    inr (record { prompt_tokens = none; completion_tokens = none })
usage_of (Json.dict UsageField.not_dict) = inl GatewayError.attribute_error
usage_of (Json.dict (UsageField.dict u)) = inr u

-- The text after a prefix, if the text starts with it.
abbrev pub after_prefix : String → String → Option String
after_prefix String.[] s = some s
after_prefix (String.◌∷◌ p ps) String.[] = none
after_prefix (String.◌∷◌ p ps) (String.◌∷◌ c s) =
    let rest = after_prefix ps s in if code p == code c then rest else none

abbrev found_usage : GatewayError ⊎ Option TokenUsage → Json → GatewayError ⊎ Option TokenUsage
found_usage rest Json.other = inl GatewayError.attribute_error
found_usage rest (Json.dict (UsageField.dict u)) = inr (some u)
found_usage rest (Json.dict _) = rest

-- `int(usage.get(key, old) or old)`
abbrev pub or_old : Option ℕ → ℕ → ℕ
or_old none old = old
or_old (some n) old = if n == 0 then old else n

-- How the loop over the chunks ends: the two counts, and the exception, if there is one.
pub record Counted : Type 0 where
  pub prompt_tokens : ℕ
  pub completion_tokens : ℕ
  pub error : Option GatewayError

abbrev pub count_usage : Option TokenUsage → Counted → Counted
count_usage none c = c
count_usage (some u) c = record c {
  prompt_tokens = or_old u.prompt_tokens c.prompt_tokens;
  completion_tokens = or_old u.completion_tokens c.completion_tokens;
}

abbrev end_error : StreamEnd → Option GatewayError
end_error StreamEnd.broken = some GatewayError.http_error
end_error _ = none

abbrev failed_with : GatewayError → Counted
failed_with e = record { prompt_tokens = 0; completion_tokens = 0; error = some e }

-- What the client is sent: an exception, an answer in whole, or a stream that may end in an exception.
pub data Answer : Type 0 where
  raised : GatewayError → Answer
  json : ℕ → Json → Answer
  streamed : Option GatewayError → Answer

-- Who asks, for what: the user, the API key of the header, the endpoint, and the body.
pub record Request : Type 0 where
  pub user : User
  pub api_key : String
  pub endpoint : String
  pub payload : Payload

abbrev pub usage_record : Request → ℕ → ℕ → ℕ → ℕ → CallUsage
usage_record r tokens_input tokens_output latency_ms status_code = record {
  user_id = some r.user.id;
  api_key = some r.api_key;
  model_name = r.payload.model;
  endpoint = r.endpoint;
  tokens_input = tokens_input;
  tokens_output = tokens_output;
  latency_ms = some latency_ms;
  status_code = some status_code;
}

abbrev pub with_db : (Db → Db) → Gateway → Gateway
with_db f g = record g { tables = record g.tables { db = f g.tables.db } }

-- `_extract_bearer_token`
abbrev pub key_of : Authorization String → String
key_of (Authorization.bearer key) = key
key_of Authorization.no_bearer = ""

abbrev pub answered : Answer × Gateway → Result Answer × Gateway
answered (a, g) = (ok a, g)

module _ (up : Upstream) where
  -- The loop of `_extract_usage_from_chunk` over the lines of a chunk.
  unfoldable pub extract_usage : List String → GatewayError ⊎ Option TokenUsage
  extract_usage [] = inr none
  extract_usage (line ∷ lines) =
      let rest = extract_usage lines in
      elim (after_prefix "data:" line) [
        | none ↦ rest
        | some text ↦
            let payload = rstrip up.is_space (skip_spaces up.is_space text) in
            if is_empty payload || str_eq payload "[DONE]"
            then rest
            else elim (up.loads payload) [ none ↦ rest | some value ↦ found_usage rest value ]
      ]

  -- `async for chunk in response.aiter_bytes()`
  unfoldable pub count_chunks : List (List ℕ) → StreamEnd → Counted → Counted
  unfolding extract_usage
  count_chunks [] ending c = record c { error = end_error ending }
  count_chunks ([] ∷ chunks) ending c = count_chunks chunks ending c
  count_chunks ((b ∷ bs) ∷ chunks) ending c = elim (extract_usage (up.lines (b ∷ bs))) [
    | inl e ↦ record c { error = some e }
    | inr u ↦ count_chunks chunks ending (count_usage u c)
  ]

  -- The body of the `try` of `_stream_proxy`: the status and the counts that the `finally` records.
  unfoldable pub read_stream : Option Stream → ℕ × Counted
  unfolding count_chunks
  read_stream none = (200, failed_with GatewayError.http_error)
  read_stream (some s) =
      if leb 400 s.status_code then (s.status_code, failed_with GatewayError.type_error) else (
        s.status_code,
        count_chunks s.chunks s.ending
            (record { prompt_tokens = 0; completion_tokens = 0; error = none }),
      )

  -- `_record_api_call`
  unfoldable pub add_call : CallUsage → Gateway → Gateway
  add_call u g = with_db (add_api_call up.now u) g

  -- `_stream_proxy`, read to its end.
  unfoldable pub stream_proxy : ModelInstance → Request → Gateway → Answer × Gateway
  unfolding read_stream add_call
  stream_proxy i r g =
      let (status_code, c) = read_stream (up.open_stream i.api_endpoint r.endpoint r.payload) in
      (
        Answer.streamed c.error,
        add_call (usage_record r c.prompt_tokens c.completion_tokens up.latency_ms status_code) g,
      )

  -- The part of `_proxy_openai_request` after an answer came in whole.
  unfoldable pub finish_post : Request → Response → Gateway → Answer × Gateway
  unfolding parse_response_body usage_of add_call
  finish_post r response g = elim (parse_response_body response) [
    | none ↦ (Answer.raised GatewayError.decode_error, g)
    | some body ↦ elim (usage_of body) [
      | inl e ↦ (Answer.raised e, g)
      | inr u ↦ (
        Answer.json response.status_code body,
        add_call
            (usage_record r (or_else u.prompt_tokens 0) (or_else u.completion_tokens 0)
              up.latency_ms response.status_code)
            g,
      )
    ]
  ]

  -- The part of `_proxy_openai_request` after an instance is selected.
  unfoldable pub send : ModelInstance → Request → Gateway → Answer × Gateway
  unfolding stream_proxy finish_post
  send i r g = elim r.payload.stream [
    | true ↦ stream_proxy i r g
    | false ↦ elim (up.post i.api_endpoint r.endpoint r.payload) [
      | none ↦ (Answer.raised GatewayError.http_error, g)
      | some response ↦ finish_post r response g
    ]
  ]

  abbrev refuse : Gateway → Answer × Gateway
  refuse g = (Answer.raised GatewayError.type_error, g)

  abbrev pub send_selected :
      Request → Gateway → GatewayError ⊎ (ModelInstance × Gateway) → Answer × Gateway
  send_selected r g (inl e) = (Answer.raised e, g)
  send_selected r g (inr (i, g')) = send i r g'

  -- `_proxy_openai_request`
  unfoldable pub proxy_openai_request : Request → Gateway → Answer × Gateway
  unfolding select_running_instance find_model send
  proxy_openai_request r g = elim r.payload.model [
    | none ↦ refuse g
    | some name ↦ if is_empty name then refuse g else elim (find_model name g.tables.models) [
      | none ↦ refuse g
      | some m ↦ send_selected r g (select_running_instance m.id g)
    ]
  ]

  -- The handlers of the three endpoints, which differ in the path: `proxy_chat_completion`, `proxy_completion` and `proxy_embeddings` behind
  -- `get_current_api_user`, with the key of the header.
  unfoldable pub gateway_request :
      String → Authorization String → Payload → Gateway → Result Answer × Gateway
  unfolding proxy_openai_request get_current_api_user
  gateway_request endpoint authorization payload g =
      elim (get_current_api_user authorization g.tables.db) [
        | err e ↦ (err e, g)
        | ok user ↦ answered (
            proxy_openai_request
              (record {
                user = user;
                api_key = key_of authorization;
                endpoint = endpoint;
                payload = payload;
              })
              g)
      ]

  abbrev pub chat_completions : Authorization String → Payload → Gateway → Result Answer × Gateway
  chat_completions = gateway_request "/v1/chat/completions"

  abbrev pub completions : Authorization String → Payload → Gateway → Result Answer × Gateway
  completions = gateway_request "/v1/completions"

  abbrev pub embeddings : Authorization String → Payload → Gateway → Result Answer × Gateway
  embeddings = gateway_request "/v1/embeddings"
