-- ===== src/Request/Schema.antt =====
-- internal/router/request.go, validateJSONSchema: the check of a tool's schema, which takes out the
-- members that the worker must not see and threads one budget of nodes through all schemas of a
-- request. The object that the source changes in place is a result here. Members are visited in their
-- order, which the source leaves open.
pub mod Nodes
pub mod Forwarded
use provider_runpod.Base.{
  ◌>>=◌, ◌>>◌, ℕ, zero, suc, ◌+◌, ◌*◌, String, len, Bool, true, false, not, ◌&&◌, ◌||◌, List, [],
  ◌∷◌, Option, none, some, Result, ok, err, failure, require, leb, str_eq, has_string, is_empty,
  all, length, is_some, if◌then◌else◌,
}
use provider_runpod.Json.{Json, Members, items, members, find, set_member, delete_member}
use provider_runpod.Request.Fields.{
  string_of, object_of, is_text, number, only_keys, string_array, schema_primitive_matches,
}

abbrev pub open_code_schema_uri : String
open_code_schema_uri = "https://json-schema.org/draft/2020-12/schema"

abbrev pub max_tool_description : ℕ
max_tool_description = 16 * 1024

abbrev pub max_schema_depth : ℕ
max_schema_depth = 3

abbrev pub max_schema_nodes : ℕ
max_schema_nodes = 128

abbrev max_schema_properties : ℕ
max_schema_properties = 64

-- The keywords that stay in a schema, and those that it may come with.
abbrev pub forwarded_keys : List String
forwarded_keys =
    "type" ∷ "description" ∷ "properties" ∷ "required" ∷ "items" ∷ "enum" ∷ "minimum" ∷ "maximum"
    ∷ "exclusiveMinimum" ∷ []

abbrev pub schema_keys : Bool → List String
schema_keys true = "$schema" ∷ "default" ∷ forwarded_keys
schema_keys false = "default" ∷ forwarded_keys

abbrev pub schema_types : List String
schema_types = "object" ∷ "array" ∷ "string" ∷ "number" ∷ "integer" ∷ "boolean" ∷ []

-- The type name of a node, if it is one of those supported.
abbrev supported_type : Option String → Option String
supported_type none = none
supported_type (some t) = if has_string schema_types t then some t else none

abbrev pub type_of : Members → Option String
type_of ms = supported_type (string_of (find "type" ms))

abbrev pub strip_dialect : Bool → Option Json → Members → Result Members
strip_dialect root none ms =
    if root then err (failure "root tool JSON Schema dialect is required") else ok ms
strip_dialect root (some uri) ms =
    if root && is_text open_code_schema_uri (some uri)
    then ok (delete_member "$schema" ms)
    else err (failure "tool JSON Schema dialect is not the pinned OpenCode dialect")

abbrev pub node_type : Bool → Option String → Result String
node_type root none = err (failure "every tool JSON Schema node requires a supported type")
node_type root (some t) =
    if root && not (str_eq t "object")
    then err (failure "root tool JSON Schema must be an object")
    else ok t

abbrev description_fits : Option Json → Bool
description_fits none = true
description_fits (some (Json.str text)) = leb (len text) max_tool_description
description_fits _ = false

abbrev pub strip_default : String → Option Json → Members → Result Members
strip_default type_name none ms = ok ms
strip_default type_name (some value) ms =
    if schema_primitive_matches type_name (some value)
    then ok (delete_member "default" ms)
    else err (failure "JSON Schema default must match its primitive type")

-- The members of a node and its type, without `$schema` and `default`.
unfoldable pub node_head : Bool → Members → Result (String × Members)
unfolding only_keys delete_member schema_primitive_matches
node_head root ms = do
  require (only_keys (schema_keys root) ms) (failure "tool JSON Schema uses an unsupported keyword")
  bare ← strip_dialect root (find "$schema" ms) ms
  type_name ← node_type root (type_of bare)
  require (description_fits (find "description" bare)) (failure "invalid JSON Schema description")
  plain ← strip_default type_name (find "default" bare) bare
  ok (type_name, plain)

-- A check of one child at the budget that is left.
abbrev pub Check : Type 0
Check = Json → ℕ → Result (Json × ℕ)

unfoldable pub each_property : Check → Members → ℕ → Result (Members × ℕ)
each_property child Members.end budget = ok (Members.end, budget)
each_property child (Members.member name value rest) budget = do
  require (not (str_eq name "") && leb (len name) 128) (failure "invalid JSON Schema property name")
  first ← child value budget
  others ← each_property child rest first.1
  ok (Members.member name first.0 others.0, others.1)

abbrev pub property_map : Option Members → Result Members
property_map none = err (failure "invalid JSON Schema properties")
property_map (some properties) =
    if leb (length (members properties)) max_schema_properties
    then ok properties
    else err (failure "invalid JSON Schema properties")

abbrev pub node_properties : Check → String → Option Json → Members → ℕ → Result (Members × ℕ)
node_properties child type_name none ms budget = ok (ms, budget)
node_properties child type_name (some raw) ms budget = do
  require (str_eq type_name "object") (failure "JSON Schema properties require object type")
  properties ← property_map (object_of (some raw))
  checked ← each_property child properties budget
  ok (set_member "properties" (Json.obj checked.0) ms, checked.1)

-- Every name is declared, and none stands twice.
abbrev all_declared : Members → List String → List String → Bool
all_declared properties [] seen = true
all_declared properties (name ∷ names) seen =
    is_some (find name properties)
    && not (has_string seen name)
    && all_declared properties names (name ∷ seen)

abbrev required_declared : Members → Option (List String) → Bool
required_declared properties none = false
required_declared properties (some names) = all_declared properties names []

abbrev required_fits : String → Members → Option Json → Bool
required_fits type_name properties none = true
required_fits type_name properties (some raw) =
    str_eq type_name "object"
    && required_declared properties (string_array (some raw) max_schema_properties 128)

abbrev or_none : Option Members → Members
or_none none = Members.end
or_none (some ms) = ms

abbrev names_some : Option (List String) → Bool
names_some none = false
names_some (some names) = not (is_empty names)

unfoldable pub node_required : String → Members → Result (Unit {0})
unfolding string_array
node_required type_name ms =
    let properties = or_none (object_of (find "properties" ms)) in
    let required = find "required" ms in
    do
      require (required_fits type_name properties required)
          (failure "invalid JSON Schema required list")
      require
          (not (str_eq type_name "object")
            || (not (is_empty (members properties))
                && names_some (string_array required max_schema_properties 128)))
          (failure "object tool JSON Schema requires properties and a required list")

abbrev pub node_items : Check → String → Option Json → Members → ℕ → Result (Members × ℕ)
node_items child type_name none ms budget =
    if str_eq type_name "array"
    then err (failure "array tool JSON Schema requires items")
    else ok (ms, budget)
node_items child type_name (some raw) ms budget = do
  require (str_eq type_name "array") (failure "JSON Schema items require array type")
  checked ← child raw budget
  ok (set_member "items" checked.0 ms, checked.1)

abbrev enum_fits : String → Option Json → Bool
enum_fits type_name none = true
enum_fits type_name (some (Json.arr values)) =
    not (str_eq type_name "object" || str_eq type_name "array")
    && not (is_empty (items values))
    && leb (length (items values)) 64
    && all (λ value. schema_primitive_matches type_name (some value)) (items values)
enum_fits type_name (some _) = false

abbrev bound_fits : String → Option Json → Bool
bound_fits type_name none = true
bound_fits type_name (some raw) =
    (str_eq type_name "number" || str_eq type_name "integer") && is_some (number (some raw))

unfoldable pub node_values : String → Members → Result (Unit {0})
unfolding schema_primitive_matches
node_values type_name ms = do
  require (enum_fits type_name (find "enum" ms)) (failure "invalid JSON Schema enum")
  require
      (all (λ keyword. bound_fits type_name (find keyword ms))
        ("minimum" ∷ "maximum" ∷ "exclusiveMinimum" ∷ []))
      (failure "invalid numeric JSON Schema bound")

unfoldable pub schema_node : Check → Bool → Json → ℕ → Result (Json × ℕ)
unfolding node_head each_property set_member node_required node_values
schema_node child root value zero = err (failure "tool JSON Schema exceeds complexity limits")
schema_node child root (Json.obj ms) (suc budget) = do
  head ← node_head root ms
  with_properties ← node_properties child head.0 (find "properties" head.1) head.1 budget
  node_required head.0 with_properties.0
  whole ←
      node_items child head.0 (find "items" with_properties.0) with_properties.0 with_properties.1
  node_values head.0 whole.0
  ok (Json.obj whole.0, whole.1)
schema_node child root _ (suc budget) = err (failure "tool JSON Schema must be an object")

-- `levels` is maxSchemaDepth + 1 less the depth of the node, so that it ends where the source's own
-- test of the depth fails; the root is the node at depth 0.
unfoldable pub check_schema : ℕ → Bool → Json → ℕ → Result (Json × ℕ)
unfolding schema_node
check_schema zero root value budget = err (failure "tool JSON Schema exceeds complexity limits")
check_schema (suc levels) root value budget =
    schema_node (check_schema levels false) root value budget

abbrev pub validate_json_schema : Json → ℕ → Result (Json × ℕ)
validate_json_schema = check_schema (max_schema_depth + 1) true
