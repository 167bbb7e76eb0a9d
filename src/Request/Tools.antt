-- ===== src/Request/Tools.antt =====
-- internal/router/request.go: the tools that a request declares, and its choice among them.
pub mod Bounds
use provider_runpod.Base.{
  ◌>>=◌, ◌>>◌, ℕ, String, len, Bool, true, false, not, ◌&&◌, List, [], ◌∷◌, Option, none, some,
  Result, ok, err, failure, require, leb, ◌==◌, has_string, is_empty, length,
}
use provider_runpod.Json.{Json, Items, Members, items, members, find, set_member}
use provider_runpod.Request.Fields.{
  string_of, object_of, array_of, is_text, only_keys, matches_safe_name,
}
use provider_runpod.Request.Schema.{
  max_tool_description, max_schema_nodes, validate_json_schema, check_schema,
}

abbrev pub max_tools : ℕ
max_tools = 32

-- Assertions that fail with an error.
abbrev pub need {ℓ} : {A : Type ℓ} → String → Option A → Result A
need message none = err (failure message)
need message (some a) = ok a

-- A bounded array that is not empty.
abbrev pub bounded_array : ℕ → Option Json → Result Items
bounded_array maximum value = do
  vs ← need "must be a bounded non-empty array" (array_of value)
  require (not (is_empty (items vs)) && leb (length (items vs)) maximum)
      (failure "must be a bounded non-empty array")
  ok vs

abbrev pub tool_shape : Members → Bool
tool_shape tool = only_keys ("type" ∷ "function" ∷ []) tool && is_text "function" (find "type" tool)

abbrev pub function_shape : Members → Bool
function_shape function =
    only_keys ("name" ∷ "description" ∷ "parameters" ∷ []) function
    && length (members function) == 3

abbrev pub description_fits : Option String → Bool
description_fits none = false
description_fits (some text) = leb (len text) max_tool_description

-- A function that is not declared yet, with its name and its parameters.
unfoldable pub function_head : List String → Members → Result (String × Json)
unfolding only_keys
function_head names function = do
  require (function_shape function) (failure "invalid function definition")
  name ← need "invalid function name" (string_of (find "name" function))
  require (matches_safe_name name) (failure "invalid function name")
  require (not (has_string names name)) (failure "duplicate function name")
  require (description_fits (string_of (find "description" function)))
      (failure "invalid function description")
  parameters ← need "function parameters are required" (find "parameters" function)
  ok (name, parameters)

-- The loop over the tools, at the budget of schema nodes that is left.
unfoldable pub each_tool : Items → ℕ → List String → Result (Items × List String)
unfolding only_keys function_head check_schema set_member
each_tool Items.nil budget names = ok (Items.nil, names)
each_tool (Items.cons raw rest) budget names = do
  tool ← need "only exact function tools are accepted" (object_of (some raw))
  require (tool_shape tool) (failure "only exact function tools are accepted")
  function ← need "invalid function definition" (object_of (find "function" tool))
  head ← function_head names function
  schema ← validate_json_schema head.1 budget
  others ← each_tool rest schema.1 (head.0 ∷ names)
  ok (
    Items.cons
        (Json.obj
          (set_member "function" (Json.obj (set_member "parameters" schema.0 function)) tool))
        others.0,
    others.1,
  )

-- One budget serves all tools of a request.
unfoldable pub validate_tools : Option Json → Result (Option Json × List String)
unfolding each_tool
validate_tools none = ok (none, [])
validate_tools (some value) = do
  tools ← bounded_array max_tools (some value)
  checked ← each_tool tools max_schema_nodes []
  ok (some (Json.arr checked.0), checked.1)

abbrev named_choice : List String → Option Members → Bool
named_choice declared none = false
named_choice declared (some function) =
    only_keys ("name" ∷ []) function && declares (string_of (find "name" function))
  where
    declares : Option String → Bool
    declares none = false
    declares (some name) = has_string declared name

abbrev choice_fits : List String → Option Json → Bool
choice_fits declared none = true
choice_fits declared (some (Json.str choice)) =
    has_string ("auto" ∷ "none" ∷ "required" ∷ []) choice
choice_fits declared (some (Json.obj choice)) =
    tool_shape choice && named_choice declared (object_of (find "function" choice))
choice_fits declared (some _) = false

unfoldable pub validate_tool_choice : Option Json → List String → Result (Unit {0})
unfolding only_keys
validate_tool_choice value declared =
    require (choice_fits declared value) (failure "invalid tool_choice")
