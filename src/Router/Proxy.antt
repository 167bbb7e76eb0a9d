-- ===== src/Router/Proxy.antt =====
-- internal/router/router.go, ServeHTTP and proxyChat: the decisions on one request, up to the call of the
-- inference endpoint and with what is taken from its answer.
pub mod Guards
use Prim.Native.String.{◌++◌}
use provider_runpod.Base.{
  ℕ, ◌*◌, String, len, Bool, false, not, ◌&&◌, ◌||◌, List, [], ◌∷◌, Option, none, some, Result, ok,
  err, is_ok, ltb, leb, ◌==◌, str_eq, codes, length, all, is_alnum, value_or, if◌then◌else◌,
}
use provider_runpod.Identifier.{path_escape}
use provider_runpod.Json.{Json, Members, find, set_member}
use provider_runpod.Request.{logical_model_id, validate_chat_payload}
use provider_runpod.Request.Fields.{is_text}
use provider_runpod.Request.Arguments.{Codec}
use provider_runpod.Request.Secrets.{contains_secret_key}
use provider_runpod.Router.Copy.{
  Chunk, Answer, Copied, Outcome, limit_exceeded, complete, copy_bounded_and_flush,
}
use provider_runpod.Router.Lease.{Route}

abbrev pub max_request_bytes : ℕ
max_request_bytes = 256 * 1024

abbrev max_response_bytes : ℕ
max_response_bytes = 32 * 1024 * 1024

-- A body that cannot be read is none.
pub record HttpRequest : Type 0 where
  pub method : String
  pub path : String
  pub raw_query : String
  pub authorization : String
  pub x_api_key : String
  pub body : Option String

-- The call of the inference endpoint.
pub record Upstream : Type 0 where
  pub url : String
  pub token : String
  pub body : String

-- What the endpoint answers: a status, two headers that are passed on, and the body.
pub record UpstreamResponse : Type 0 where
  pub status : ℕ
  pub content_type : String
  pub request_id : String
  pub chunks : List Chunk

-- What the client gets. `failure` is the trailer X-Provider-Runpod-Error.
pub record Reply : Type 0 where
  pub status : ℕ
  pub message : String
  pub content_type : String
  pub request_id : String
  pub copied : Option Copied
  pub failure : String

pub record Served : Type 0 where
  pub reply : Reply
  pub call : Option Upstream

abbrev pub write_error : ℕ → String → Served
write_error status message = record {
  reply = record {
    status = status;
    message = message;
    content_type = "application/json";
    request_id = "";
    copied = none;
    failure = "";
  };
  call = none;
}

abbrev pub write_json : String → Served
write_json body = write_error 200 body

-- `^[A-Za-z0-9][A-Za-z0-9._:-]{0,127}$`
abbrev id_rest : List ℕ → Bool
id_rest cs =
    leb (length cs) 127
    && all (λ c. is_alnum c || c == b'.' || c == b'_' || c == b':' || c == b'-') cs

abbrev id_text : List ℕ → Bool
id_text [] = false
id_text (c ∷ cs) = is_alnum c && id_rest cs

abbrev pub safe_upstream_request_id : String → String
safe_upstream_request_id id = if id_text (codes id) then id else ""

abbrev failure_of : Outcome → String
failure_of complete = ""
failure_of limit_exceeded = "response-limit-exceeded"
failure_of _ = "upstream-read-failed"

abbrev pub passed_on : List Answer → UpstreamResponse → Reply
passed_on client response =
    let copied = copy_bounded_and_flush response.chunks client max_response_bytes in
    record {
      status = response.status;
      message = "";
      content_type = response.content_type;
      request_id = safe_upstream_request_id response.request_id;
      copied = some copied;
      failure = failure_of copied.outcome;
    }

abbrev pub upstream_url : Route → String
upstream_url active =
    "https://api.runpod.ai/v2/" ++ path_escape active.endpoint_id ++ "/openai/v1/chat/completions"

abbrev pub is_get : HttpRequest → String → Bool
is_get request path = str_eq request.method "GET" && str_eq request.path path

abbrev pub refuses : HttpRequest → Bool
refuses request =
    not (str_eq request.raw_query "")
    || not (str_eq request.authorization "")
    || not (str_eq request.x_api_key "")

module _ (codec : Codec) where
  abbrev pub upstream_call : Route → Members → Upstream
  upstream_call active payload = record {
    url = upstream_url active;
    token = value_or "" active.token;
    body =
        value_or "" (
          codec.marshal
            (Json.obj (set_member "model" (Json.str active.expected_model_id) payload)));
  }

  abbrev pub clean : Option String → Bool
  clean none = false
  clean (some canonical) = not (codec.has_credential canonical)

-- `codec` is what the standard library makes of JSON, `answer` what the endpoint answers, an error being
-- none, and `client` what the client takes of the copy.
module _ (codec : Codec) (answer : Upstream → Option UpstreamResponse) (client : List Answer) where
  abbrev pub answered : Upstream → Option UpstreamResponse → Served
  answered call none = record (write_error 502 "inference endpoint unavailable") {
    call = some call;
  }
  answered call (some response) = record { reply = passed_on client response; call = some call }

  abbrev pub forwarded : Bool → Route → Members → Served
  forwarded slot_free active payload =
      if not slot_free
      then write_error 429 "model-router concurrency limit reached"
      else answered (upstream_call codec active payload)
          (answer (upstream_call codec active payload))

  abbrev pub validated : Bool → Route → Result Members → Served
  validated slot_free active (err e) =
      write_error 400 "request is outside the bounded OpenAI chat schema"
  validated slot_free active (ok payload) =
      if not (clean codec (codec.marshal (Json.obj payload)))
      then write_error 400 "request contains credential-like material"
      else if not (is_text logical_model_id (find "model" payload))
      then write_error 400 "model must be runpod-experiment"
      else forwarded slot_free active payload

  abbrev pub decoded : Bool → Route → Option Members → Served
  decoded slot_free active none =
      write_error 400 "request must be JSON and contain no secret fields"
  decoded slot_free active (some payload) =
      if contains_secret_key (Json.obj payload)
      then write_error 400 "request must be JSON and contain no secret fields"
      else validated slot_free active (validate_chat_payload codec payload)

  abbrev pub read_body : Bool → Route → Option String → Served
  read_body slot_free active none = write_error 413 "request body is invalid or too large"
  read_body slot_free active (some body) =
      if ltb max_request_bytes (len body)
      then write_error 413 "request body is invalid or too large"
      else if codec.has_credential body
      then write_error 400 "request contains credential-like material"
      else decoded slot_free active (codec.unmarshal body)

  unfoldable pub proxy_chat : Bool → Route → HttpRequest → Served
  unfolding contains_secret_key validate_chat_payload copy_bounded_and_flush path_escape set_member
  proxy_chat slot_free active request = read_body slot_free active request.body

  abbrev pub with_route : Bool → String → HttpRequest → Option Route → Served
  with_route slot_free state_error request none = write_error 503 state_error
  with_route slot_free state_error request (some active) =
      if is_get request "/readyz"
      then write_json "{\"status\":\"ready\",\"model\":\"runpod-experiment\"}"
      else if is_get request "/v1/models"
      then write_json
          "{\"data\":[{\"id\":\"runpod-experiment\",\"object\":\"model\",\"owned_by\":\"provider-runpod\"}],\"object\":\"list\"}"
      else if not (str_eq request.method "POST" && str_eq request.path "/v1/chat/completions")
      then write_error 404 "unsupported OpenAI operation"
      else proxy_chat slot_free active request

  -- `refreshed` is the result of Refresh for this request, `active` the route that `acquire` gave, and
  -- `slot_free` whether the inference slot could be taken.
  unfoldable pub serve_http :
      Result (Unit {0}) → String → Option Route → Bool → HttpRequest → Served
  unfolding proxy_chat
  serve_http refreshed state_error active slot_free request =
      if refuses request
      then write_error 400 "client credentials and query parameters are not accepted"
      else if is_get request "/healthz"
      then write_json "{\"status\":\"ok\"}"
      else if not (is_ok refreshed)
      then write_error 503 state_error
      else with_route slot_free state_error request active
