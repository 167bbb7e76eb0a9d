-- ===== src/Tests/Request.antt =====
-- The theorems on chat requests at concrete inputs.
use provider_runpod.Base.{
  String, ◌+◌, ◌≡◌, ◌≢◌, ◌↔◌, refl, true, false, List, [], ◌∷◌, none, some, ok, pos, lookup,
}
use provider_runpod.Float.{fin}
use provider_runpod.Json.{Json, Items, Members}
use provider_runpod.Request.{logical_model_id, validate_chat_payload}
use provider_runpod.Request.Accepted.{IsAccepted, validate_chat_payload-IsAccepted}
use provider_runpod.Request.Arguments.{
  Codec, Token, Decoder, done, out_of_fuel, decode_strict_json_value, validate_tool_arguments,
}
use provider_runpod.Request.Arguments.Allowed.{MayCall, validate_tool_arguments_iff}
use provider_runpod.Request.Arguments.RoundTrip.{decode_strict_json_value_iff}
use provider_runpod.Request.Arguments.Reads.{IsRead}
use provider_runpod.Request.Schema.{open_code_schema_uri, validate_json_schema, check_schema}
use provider_runpod.Request.Schema.Forwarded.{validate_json_schema_bounds}
use provider_runpod.Request.Schema.Nodes.{is_forwardable, nodes}

-- {"path": "a"}
abbrev path_tokens : List Token
path_tokens = Token.open_object ∷ Token.text "path" ∷ Token.text "a" ∷ Token.close_object ∷ []

abbrev path_object : Members
path_object = Members.member "path" (Json.str "a") Members.end

-- A codec that knows one text.
abbrev pub codec : Codec
codec = record {
  tokens = λ _. path_tokens;
  unmarshal = λ _. none;
  marshal = λ _. some "{}";
  has_credential = λ _. false;
}

abbrev text : String → String → Members → Members
text key value ms = Members.member key (Json.str value) ms

abbrev string_node : Members → Json
string_node ms = Json.obj (text "type" "string" ms)

-- The schema of one parameter `path`, which has a default.
abbrev schema_of : Members → Members → Json
schema_of dialect default = Json.obj (
    text "type" "object" (
      Members.member "properties"
        (Json.obj (Members.member "path" (string_node default) Members.end))
        (Members.member "required" (Json.arr (Items.cons (Json.str "path") Items.nil)) dialect)))

abbrev given_schema : Json
given_schema =
    schema_of (text "$schema" open_code_schema_uri Members.end) (text "default" "." Members.end)

abbrev sent_schema : Json
sent_schema = schema_of Members.end Members.end

schema_run : validate_json_schema given_schema 128 ≡ ok (sent_schema, 126)
unfolding check_schema lookup
schema_run = refl

validate_json_schema_bounds_example :
    (is_forwardable 4 sent_schema ≡ true) × (nodes 4 sent_schema + 126 ≡ 128)
validate_json_schema_bounds_example =
    validate_json_schema_bounds given_schema sent_schema 128 126 schema_run

abbrev before : Decoder
before = record { tokens = path_tokens; budget = 128; text_budget = 100 }

abbrev behind : Decoder
behind = record { tokens = []; budget = 126; text_budget = 95 }

decode_strict_json_value_iff_example :
    ((decode_strict_json_value 7 before ≡ done (Json.obj path_object, behind))
      ↔ IsRead 7 before (Json.obj path_object, behind))
    × (decode_strict_json_value 7 before ≢ out_of_fuel)
decode_strict_json_value_iff_example =
    decode_strict_json_value_iff 7 before behind (Json.obj path_object)

validate_tool_arguments_iff_example :
    (validate_tool_arguments codec "{\"path\":\"a\"}" ≡ ok "{}")
    ↔ MayCall codec "{\"path\":\"a\"}" "{}"
validate_tool_arguments_iff_example = validate_tool_arguments_iff codec "{\"path\":\"a\"}" "{}"

arguments_run : validate_tool_arguments codec "{\"path\":\"a\"}" ≡ ok "{}"
unfolding validate_tool_arguments
arguments_run = refl

abbrev tool_of : Json → Json
tool_of schema = Json.obj (
    text "type" "function" (
      Members.member "function"
        (Json.obj (
          text "name" "read"
            (text "description" "" (Members.member "parameters" schema Members.end))))
        Members.end))

abbrev call_of : String → Json
call_of arguments = Json.obj (
    text "id" "c1" (
      text "type" "function" (
        Members.member "function"
          (Json.obj (text "name" "read" (text "arguments" arguments Members.end))) Members.end)))

-- A request with one tool, one call of it, and the call's result, which stands before the call.
abbrev request_of : Json → String → Members
request_of schema arguments = text "model" logical_model_id (
    Members.member "max_tokens" (Json.num (fin (pos 512) 0)) (
      Members.member "tools" (Json.arr (Items.cons (tool_of schema) Items.nil)) (
        Members.member "messages"
          (Json.arr (
            Items.cons
              (Json.obj
                (text "role" "tool" (text "content" "x" (text "tool_call_id" "c1" Members.end))))
              (Items.cons
                (Json.obj (
                  text "role" "assistant" (
                    Members.member "tool_calls"
                      (Json.arr (Items.cons (call_of arguments) Items.nil)) Members.end)))
                Items.nil)))
          Members.end)))

abbrev pub given_request : Members
given_request = request_of given_schema "{\"path\":\"a\"}"

abbrev pub sent_request : Members
sent_request = request_of sent_schema "{}"

pub request_run : validate_chat_payload codec given_request ≡ ok sent_request
unfolding validate_chat_payload lookup
request_run = refl

validate_chat_payload-IsAccepted_example : IsAccepted codec given_request sent_request
validate_chat_payload-IsAccepted_example =
    validate_chat_payload-IsAccepted codec given_request sent_request request_run
