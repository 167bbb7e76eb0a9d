-- ===== src/Request/Messages.antt =====
-- internal/router/request.go: the messages of a request and the tool calls in them.
pub mod Calls
pub mod Talk
use provider_runpod.Base.{
  ◌>>=◌, ◌>>◌, ℕ, String, len, Bool, true, false, not, ◌&&◌, ◌||◌, List, [], ◌∷◌, ◌++◌, Option,
  none, some, Result, ok, err, failure, require, leb, ◌==◌, str_eq, has_string, is_empty, length,
  all, any, is_some, if◌then◌else◌,
}
use provider_runpod.Json.{Json, Items, Members, items, find, set_member}
use provider_runpod.Request.Fields.{
  string_of, object_of, array_of, is_text, only_keys, matches_safe_name, valid_text,
  valid_optional_name,
}
use provider_runpod.Request.Arguments.{Codec, max_tool_argument_bytes, validate_tool_arguments}
use provider_runpod.Request.Tools.{need, bounded_array}

abbrev pub max_messages : ℕ
max_messages = 128

abbrev pub max_tool_calls : ℕ
max_tool_calls = 32

abbrev pub safe_string : String → Option String → Result String
safe_string message none = err (failure message)
safe_string message (some name) = if matches_safe_name name then ok name else err (failure message)

abbrev text_part : Json → Bool
text_part (Json.obj part) =
    only_keys ("type" ∷ "text" ∷ []) part
    && is_text "text" (find "type" part)
    && valid_text (find "text" part)
text_part _ = false

abbrev parts_fit : Option Items → Bool
parts_fit none = false
parts_fit (some parts) =
    not (is_empty (items parts)) && leb (length (items parts)) 128 && all text_part (items parts)

unfoldable pub valid_user_content : Option Json → Bool
unfolding only_keys
valid_user_content value = valid_text value || parts_fit (array_of value)

-- A missing or null content needs calls.
abbrev pub content_fits : Option Json → Bool → Bool
content_fits none calls = calls
content_fits (some Json.null) calls = calls
content_fits (some content) calls = valid_text (some content)

abbrev pub add_calls :
    List String → Members → Result (Json × List String) → Result (Members × List String)
add_calls ids message checked = do
  calls ← checked
  require (not (any (has_string ids) calls.1)) (failure "duplicate tool call ID")
  ok (set_member "tool_calls" calls.0 message, calls.1 ++ ids)

abbrev pub keep : List String → Members → Bool → Result (Members × List String)
keep ids message fits = if fits then ok (message, ids) else err (failure "invalid message")

abbrev pub has_safe_id : Option String → Bool
has_safe_id none = false
has_safe_id (some id) = matches_safe_name id

abbrev answers_call : List String → Option String → Bool
answers_call ids none = false
answers_call ids (some id) = has_string ids id

-- The second loop: a tool message answers one of the calls of the request.
abbrev pub answers_known : List String → Json → Bool
answers_known ids (Json.obj message) =
    not (is_text "tool" (find "role" message))
    || answers_call ids (string_of (find "tool_call_id" message))
answers_known ids _ = true

module _ (codec : Codec) where
  -- A call of a declared function, with its ID and its arguments encoded anew.
  unfoldable pub tool_call : List String → List String → Members → Result (Members × String)
  unfolding only_keys validate_tool_arguments set_member
  tool_call declared ids call = do
    require
        (only_keys ("id" ∷ "type" ∷ "function" ∷ []) call && is_text "function" (find "type" call))
        (failure "invalid tool call")
    id ← safe_string "invalid tool call ID" (string_of (find "id" call))
    require (not (has_string ids id)) (failure "duplicate tool call ID")
    function ← need "invalid called function" (object_of (find "function" call))
    require (only_keys ("name" ∷ "arguments" ∷ []) function) (failure "invalid called function")
    name ← safe_string "invalid called function name" (string_of (find "name" function))
    require (has_string declared name) (failure "called function was not declared")
    arguments ← need "invalid function arguments" (string_of (find "arguments" function))
    require (not (len arguments == 0) && leb (len arguments) max_tool_argument_bytes)
        (failure "invalid function arguments")
    canonical ← validate_tool_arguments codec arguments
    ok (
      set_member "function" (Json.obj (set_member "arguments" (Json.str canonical) function)) call,
      id,
    )

  -- The loop over the calls of one message, after those IDs.
  unfoldable pub each_call : List String → List String → Items → Result (Items × List String)
  unfolding tool_call
  each_call declared ids Items.nil = ok (Items.nil, ids)
  each_call declared ids (Items.cons raw rest) = do
    call ← need "invalid tool call" (object_of (some raw))
    checked ← tool_call declared ids call
    others ← each_call declared (checked.1 ∷ ids) rest
    ok (Items.cons (Json.obj checked.0) others.0, others.1)

  unfoldable pub validate_tool_calls : Json → List String → Result (Json × List String)
  unfolding each_call
  validate_tool_calls value declared = do
    calls ← bounded_array max_tool_calls (some value)
    checked ← each_call declared [] calls
    ok (Json.arr checked.0, checked.1)

  abbrev pub message_calls :
      List String → List String → Members → Option Json → Result (Members × List String)
  message_calls declared ids message none = ok (message, ids)
  message_calls declared ids message (some calls) =
      add_calls ids message (validate_tool_calls calls declared)

  unfoldable pub assistant_message :
      List String → List String → Members → Result (Members × List String)
  unfolding only_keys validate_tool_calls set_member
  assistant_message declared ids message = do
    require
        (only_keys ("role" ∷ "content" ∷ "name" ∷ "tool_calls" ∷ []) message
          && valid_optional_name message)
        (failure "invalid assistant message shape")
    require (content_fits (find "content" message) (is_some (find "tool_calls" message)))
        (failure "assistant message needs content or tool calls")
    message_calls declared ids message (find "tool_calls" message)

  -- The switch over the role.
  unfoldable pub message_by_role :
      List String → List String → Members → String → Result (Members × List String)
  unfolding only_keys valid_user_content assistant_message
  message_by_role declared ids message role =
      let shape = only_keys ("role" ∷ "content" ∷ "name" ∷ []) message in
      if str_eq role "system"
      then keep ids message
          (shape && valid_text (find "content" message) && valid_optional_name message)
      else if str_eq role "user"
      then keep ids message
          (shape && valid_user_content (find "content" message) && valid_optional_name message)
      else if str_eq role "assistant"
      then assistant_message declared ids message
      else if str_eq role "tool"
      then keep ids message (
          only_keys ("role" ∷ "content" ∷ "tool_call_id" ∷ []) message
          && valid_text (find "content" message)
          && has_safe_id (string_of (find "tool_call_id" message)))
      else err (failure "unsupported message role")

  -- The first loop: every message by itself, and the IDs of all calls.
  unfoldable pub each_message : List String → List String → Items → Result (Items × List String)
  unfolding message_by_role
  each_message declared ids Items.nil = ok (Items.nil, ids)
  each_message declared ids (Items.cons raw rest) = do
    message ← need "message must be an object" (object_of (some raw))
    role ← need "message role is required" (string_of (find "role" message))
    checked ← message_by_role declared ids message role
    others ← each_message declared checked.1 rest
    ok (Items.cons (Json.obj checked.0) others.0, others.1)

  unfoldable pub validate_messages : Option Json → List String → Result (Json × List String)
  unfolding each_message
  validate_messages value declared = do
    messages ← bounded_array max_messages value
    checked ← each_message declared [] messages
    require (all (answers_known checked.1) (items messages))
        (failure "tool message references an undeclared call")
    ok (Json.arr checked.0, checked.1)
