-- ===== src/Inference.antt =====
-- internal/inference/client.go: the checks of an Endpoint over its inference URL. What the network
-- answers is an argument, and so is what the standard library reads in an answer.
pub mod Evidence
use Prim.Native.String.{◌++◌}
use provider_runpod.Base.{
  ℕ, ◌*◌, String, len, Bool, true, false, not, ◌&&◌, ◌||◌, List, [], ◌∷◌, Option, none, some,
  Result, ok, err, failure, ltb, leb, ◌==◌, str_eq, codes, length, all, is_empty, has_string,
  if◌then◌else◌,
}
use provider_runpod.Identifier.{is_id_char, is_runpod_id, path_escape, validate_runpod_id}
use provider_runpod.Request.Arguments.{Token}
use provider_runpod.Router.Eligible.{is_trimmed, has_line_break}
use provider_runpod.Apis.{seconds}
use provider_runpod.Verification.{Result as Flags}

abbrev pub max_response_bytes : ℕ
max_response_bytes = 1024 * 1024

pub record Client : Type 0 where
  pub endpoint_id : String
  pub token : String
  pub timeout : ℕ

-- The guards of `New`. A timeout is in nanoseconds.
unfoldable pub new_client : String → String → ℕ → Result Client
unfolding validate_runpod_id
new_client endpoint_id token timeout =
    if not (is_runpod_id endpoint_id)
    then err (failure "invalid RunPod endpoint ID")
    else if str_eq token ""
        || not (is_trimmed token)
        || ltb 4096 (len token)
        || has_line_break token
    then err (failure "inference token is empty or malformed")
    else if timeout == 0 || ltb (seconds 600) timeout
    then err (failure "inference timeout must be between one second and ten minutes")
    else ok (record { endpoint_id = endpoint_id; token = token; timeout = timeout })

-- A request, by its path, and whether it is the POST of the readiness prompt.
pub record Call : Type 0 where
  pub is_post : Bool
  pub path : String

-- What the network answers: nothing, a body that cannot be read, or a status and a body.
pub data Response : Type 0 where
  unreachable unreadable : Response
  answered : ℕ → String → Response

pub record ToolCall : Type 0 where
  pub id : String
  pub kind : String
  pub name : String
  pub arguments : String

pub record Choice : Type 0 where
  pub finish_reason : String
  pub tool_calls : List ToolCall

-- What `json.Unmarshal` reads in the two bodies, and the tokens of a text.
pub record Reading : Type 0 where
  pub models : String → Option (List String)
  pub choices : String → Option (List Choice)
  pub tokens : String → List Token

-- `^[A-Za-z0-9_-]{1,128}$`
abbrev pub safe_tool_call_id : String → Bool
safe_tool_call_id id =
    not (is_empty (codes id)) && leb (length (codes id)) 128 && all is_id_char (codes id)

-- One object with the member `token`, which is "ready", and nothing behind it.
abbrev pub is_ready_object : List Token → Bool
is_ready_object (Token.open_object ∷ Token.text key ∷ Token.text value ∷ Token.close_object ∷ []) =
    str_eq key "token" && str_eq value "ready"
is_ready_object _ = false

module _ (reading : Reading) where
  unfoldable pub exact_readiness_arguments : String → Bool
  exact_readiness_arguments raw =
      not (len raw == 0) && leb (len raw) 1024 && is_ready_object (reading.tokens raw)

  abbrev pub is_readiness_call : ToolCall → Bool
  is_readiness_call call =
      str_eq call.kind "function"
      && safe_tool_call_id call.id
      && str_eq call.name "readiness_probe"
      && exact_readiness_arguments call.arguments

  abbrev only_call : List ToolCall → Bool
  only_call (call ∷ []) = is_readiness_call call
  only_call _ = false

  -- One choice with one call, the readiness probe.
  abbrev pub is_tool_call : List Choice → Bool
  is_tool_call (choice ∷ []) =
      str_eq choice.finish_reason "tool_calls" && only_call choice.tool_calls
  is_tool_call _ = false

abbrev pub endpoint_path : Client → String → String
endpoint_path c suffix = "/v2/" ++ path_escape c.endpoint_id ++ suffix

abbrev pub health_call : Client → Call
health_call c = record { is_post = false; path = endpoint_path c "/health" }

abbrev pub models_call : Client → Call
models_call c = record { is_post = false; path = endpoint_path c "/openai/v1/models" }

abbrev pub prompt_call : Client → Call
prompt_call c = record { is_post = true; path = endpoint_path c "/openai/v1/chat/completions" }

-- `do` up to the decoding of the body.
abbrev pub judge : Response → Result String
judge unreachable = err (failure "inference endpoint was unreachable")
judge unreadable = err (failure "invalid inference response size")
judge (answered status body) =
    if ltb max_response_bytes (len body)
    then err (failure "invalid inference response size")
    else if leb 200 status && ltb status 300
    then ok body
    else err (failure "inference endpoint returned HTTP status")

abbrev pub decode {ℓ} : {A : Type ℓ} → (String → Option A) → Result String → Result A
decode read (err e) = err e
decode read (ok body) = read_or (read body)
  where
    read_or : {A : Type ℓ} → Option A → Result A
    read_or none = err (failure "inference endpoint returned invalid JSON")
    read_or (some a) = ok a

-- What a verification returns, with the calls that it made.
pub record Verified : Type 0 where
  pub flags : Flags
  pub result : Result (Unit {0})
  pub calls : List Call

abbrev pub flags_of : Bool → Bool → Bool → Flags
flags_of healthy model tool = record {
  healthy = healthy;
  model_verified = model;
  tool_call_verified = tool;
}

abbrev pub verified : Flags → Result (Unit {0}) → List Call → Verified
verified flags result calls = record { flags = flags; result = result; calls = calls }

module _ (reading : Reading) (network : Call → Response) (c : Client) where
  unfoldable pub check_health : Result String
  unfolding path_escape
  check_health = judge (network (health_call c))

  abbrev all_calls : List Call
  all_calls = health_call c ∷ models_call c ∷ prompt_call c ∷ []

  abbrev pub on_choices : Result (List Choice) → Verified
  on_choices (err e) = verified (flags_of true true false) (err e) all_calls
  on_choices (ok choices) =
      if is_tool_call reading choices
      then verified (flags_of true true true) (ok tt) all_calls
      else verified (flags_of true true false)
          (err (failure "model did not return the required readiness tool call")) all_calls

  abbrev pub on_models : String → Result (List String) → Verified
  on_models expected (err e) =
      verified (flags_of true false false) (err e) (health_call c ∷ models_call c ∷ [])
  on_models expected (ok models) =
      if has_string models expected
      then on_choices (decode reading.choices (judge (network (prompt_call c))))
      else verified (flags_of true false false)
          (err (failure "expected model ID was not advertised"))
          (health_call c ∷ models_call c ∷ [])

  abbrev pub on_health : String → Result String → Verified
  on_health expected (err e) = verified (flags_of false false false) (err e) (health_call c ∷ [])
  on_health expected (ok body) =
      on_models expected (decode reading.models (judge (network (models_call c))))

  unfoldable pub verify : String → Verified
  unfolding check_health exact_readiness_arguments path_escape
  verify expected =
      if str_eq expected ""
      then verified (flags_of false false false) (err (failure "expected model ID is required")) []
      else on_health expected check_health
