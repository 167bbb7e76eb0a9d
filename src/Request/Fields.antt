-- ===== src/Request/Fields.antt =====
-- internal/router/request.go: the tests of single fields.
use provider_runpod.Base.{
  ℕ, ◌*◌, ◌%◌, ◌^◌, suc, String, len, ℤ, pos, negsuc, Bool, true, false, not, ◌&&◌, ◌||◌, List, [],
  ◌∷◌, Option, none, some, Result, ok, failure, require, ltb, leb, ◌==◌, str_eq, codes, has_string,
  is_empty, all, length, is_some, if◌then◌else◌,
}
use provider_runpod.Float.{Float64, fin, is_finite, float_leb}
use provider_runpod.Json.{Json, Items, Members, items, members, find}
use provider_runpod.Identifier.{is_id_char}

abbrev pub max_text_bytes : ℕ
max_text_bytes = 128 * 1024

-- `^[A-Za-z0-9_-]{1,64}$`
abbrev pub matches_safe_name : String → Bool
matches_safe_name name =
    let cs = codes name in not (is_empty cs) && leb (length cs) 64 && all is_id_char cs

-- Assertions on a value that may be missing: a missing member reads as nil.
abbrev pub string_of : Option Json → Option String
string_of (some (Json.str s)) = some s
string_of _ = none

abbrev pub object_of : Option Json → Option Members
object_of (some (Json.obj ms)) = some ms
object_of _ = none

abbrev pub array_of : Option Json → Option Items
array_of (some (Json.arr vs)) = some vs
array_of _ = none

abbrev pub is_bool : Option Json → Bool
is_bool (some (Json.bool b)) = true
is_bool _ = false

-- `value == "text"`
abbrev pub is_text : String → Option Json → Bool
is_text expected (some (Json.str s)) = str_eq s expected
is_text expected _ = false

abbrev pub is_true : Option Json → Bool
is_true (some (Json.bool b)) = b
is_true _ = false

abbrev pub number : Option Json → Option Float64
number (some (Json.num x)) = if is_finite x then some x else none
number _ = none

-- `math.Trunc(n) == n`
abbrev pub is_whole : Float64 → Bool
is_whole (fin (pos n) e) = n % 2 ^ e == 0
is_whole (fin (negsuc n) e) = suc n % 2 ^ e == 0
is_whole _ = false

abbrev whole : Option Float64 → Option Float64
whole none = none
whole (some x) = if is_whole x then some x else none

abbrev pub integer : Option Json → Option Float64
integer value = whole (number value)

abbrev pub within : Float64 → Float64 → Option Float64 → Bool
within minimum maximum none = false
within minimum maximum (some x) = float_leb minimum x && float_leb x maximum

abbrev pub from_int : ℤ → Float64
from_int n = fin n 0

unfoldable pub only_keys : List String → Members → Bool
only_keys allowed Members.end = true
only_keys allowed (Members.member k v ms) = has_string allowed k && only_keys allowed ms

abbrev pub is_bounded_text : ℕ → Json → Bool
is_bounded_text max_bytes (Json.str s) = not (str_eq s "") && leb (len s) max_bytes
is_bounded_text max_bytes _ = false

abbrev texts : Items → List String
texts Items.nil = []
texts (Items.cons (Json.str s) vs) = s ∷ texts vs
texts (Items.cons _ vs) = texts vs

unfoldable pub string_array : Option Json → ℕ → ℕ → Option (List String)
string_array (some (Json.arr vs)) maximum max_bytes =
    if ltb maximum (length (items vs)) || not (all (is_bounded_text max_bytes) (items vs))
    then none
    else some (texts vs)
string_array _ maximum max_bytes = none

unfoldable pub schema_primitive_matches : String → Option Json → Bool
schema_primitive_matches type_name value =
    if str_eq type_name "boolean"
    then is_bool value
    else if str_eq type_name "string"
    then is_some (string_of value)
    else if str_eq type_name "number"
    then is_some (number value)
    else if str_eq type_name "integer"
    then is_some (integer value)
    else false

abbrev pub valid_text : Option Json → Bool
valid_text (some (Json.str s)) = leb (len s) max_text_bytes
valid_text _ = false

abbrev optional_name : Option Json → Bool
optional_name none = true
optional_name (some (Json.str s)) = matches_safe_name s
optional_name _ = false

abbrev pub valid_optional_name : Members → Bool
valid_optional_name ms = optional_name (find "name" ms)

abbrev in_range : Float64 → Float64 → Option Json → Bool
in_range minimum maximum none = true
in_range minimum maximum value = within minimum maximum (number value)

unfoldable pub optional_number_in_range : Members → String → Float64 → Float64 → Bool
optional_number_in_range payload key minimum maximum = in_range minimum maximum (find key payload)

abbrev stop_list : Option (List String) → Bool
stop_list none = false
stop_list (some values) = not (is_empty values)

-- Strings are measured in bytes.
unfoldable pub validate_stop : Option Json → Result (Unit {0})
unfolding string_array
validate_stop none = ok tt
validate_stop (some (Json.str text)) =
    require (not (len text == 0 || ltb 256 (len text))) (failure "invalid stop string")
validate_stop value = require (stop_list (string_array value 4 256)) (failure "invalid stop array")

abbrev include_usage : Option Members → Bool → Bool
include_usage none streams = false
include_usage (some options) streams =
    only_keys ("include_usage" ∷ []) options
    && length (members options) == 1
    && is_bool (find "include_usage" options)
    && streams

unfoldable pub validate_stream_options : Members → Result (Unit {0})
unfolding only_keys
validate_stream_options payload =
    let raw = find "stream_options" payload in
    require (not (is_some raw) || include_usage (object_of raw) (is_true (find "stream" payload)))
      (failure "stream_options requires streaming")
