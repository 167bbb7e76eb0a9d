-- ===== src/Request.antt =====
-- internal/router/request.go: the validation of a chat request. What the source changes in the decoded
-- request, the schemas and the arguments, is changed in the result here.
pub mod Fields
pub mod Schema
pub mod Secrets
pub mod Arguments
pub mod Tools
pub mod Messages
pub mod Accepted
use provider_runpod.Base.{
  ◌>>=◌, ◌>>◌, pos, negsuc, String, Bool, true, ◌&&◌, List, [], ◌∷◌, ◌-◌, ◌^◌, Option, none, some,
  Result, ok, failure, require,
}
use provider_runpod.Json.{Json, Members, find, set_member}
use provider_runpod.Request.Fields.{
  is_text, is_bool, integer, within, from_int, only_keys, optional_number_in_range, validate_stop,
  validate_stream_options,
}
use provider_runpod.Request.Arguments.{Codec}
use provider_runpod.Request.Tools.{validate_tools, validate_tool_choice}
use provider_runpod.Request.Messages.{validate_messages}

abbrev pub logical_model_id : String
logical_model_id = "runpod-experiment"

abbrev pub top_level_chat_keys : List String
top_level_chat_keys =
    "model" ∷ "messages" ∷ "max_tokens" ∷ "temperature" ∷ "top_p" ∷ "frequency_penalty"
    ∷ "presence_penalty" ∷ "stop" ∷ "seed" ∷ "stream" ∷ "stream_options" ∷ "tools" ∷ "tool_choice"
    ∷ []

abbrev pub sampling_fits : Members → Bool
sampling_fits payload =
    optional_number_in_range payload "temperature" (from_int (pos 0)) (from_int (pos 2))
    && optional_number_in_range payload "top_p" (from_int (pos 0)) (from_int (pos 1))
    && optional_number_in_range payload "frequency_penalty" (from_int (negsuc 1)) (from_int (pos 2))
    && optional_number_in_range payload "presence_penalty" (from_int (negsuc 1)) (from_int (pos 2))

-- An int32.
abbrev pub seed_fits : Option Json → Bool
seed_fits none = true
seed_fits value =
    within (from_int (negsuc (2 ^ 31 - 1))) (from_int (pos (2 ^ 31 - 1))) (integer value)

abbrev pub stream_fits : Option Json → Bool
stream_fits none = true
stream_fits value = is_bool value

abbrev pub max_tokens_fits : Option Json → Bool
max_tokens_fits value = within (from_int (pos 1)) (from_int (pos 4096)) (integer value)

-- The tests of the fields that stay as they are.
unfoldable pub check_fields : Members → Result (Unit {0})
unfolding only_keys optional_number_in_range validate_stop validate_stream_options
check_fields payload = do
  require (only_keys top_level_chat_keys payload) (failure "unknown top-level field")
  require (is_text logical_model_id (find "model" payload)) (failure "invalid logical model")
  require (max_tokens_fits (find "max_tokens" payload))
      (failure "max_tokens must be between 1 and 4096")
  require (sampling_fits payload) (failure "sampling field is out of bounds")
  require (seed_fits (find "seed" payload)) (failure "seed is out of bounds")
  require (stream_fits (find "stream" payload)) (failure "stream must be boolean")
  validate_stream_options payload
  validate_stop (find "stop" payload)

-- Writes back the value of a member that is there.
abbrev pub update_member : String → Option Json → Members → Members
update_member key none ms = ms
update_member key (some value) ms = set_member key value ms

unfoldable pub validate_chat_payload : Codec → Members → Result Members
unfolding check_fields validate_tools validate_messages validate_tool_choice set_member
validate_chat_payload codec payload = do
  check_fields payload
  tools ← validate_tools (find "tools" payload)
  messages ← validate_messages codec (find "messages" payload) tools.1
  validate_tool_choice (find "tool_choice" payload) tools.1
  ok (update_member "messages" (some messages.0) (update_member "tools" tools.0 payload))
