-- ===== src/Identifier.antt =====
-- internal/identifier/runpod.go, and `safeID` of internal/client/runpod/client.go with the part of
-- Go's `url.PathEscape` that it calls.
pub mod Escape
use Prim.Native.Char.{code}
use provider_runpod.Base.{
  ℕ, String, len, ◌/◌, ◌%◌, ◌+◌, Bool, not, ◌||◌, [], ◌∷◌, ltb, ◌==◌, all, codes, is_alnum, Result,
  ok, err, failure, if◌then◌else◌, is_ok, and_then,
}
use Prim.Native.String.{◌++◌}

abbrev pub max_runpod_id_bytes : ℕ
max_runpod_id_bytes = 191

-- The class of `^[A-Za-z0-9_-]+$`.
abbrev pub is_id_char : ℕ → Bool
is_id_char c = is_alnum c || c == b'_' || c == b'-'

unfoldable pub validate_runpod_id : String → Result (Unit {0})
validate_runpod_id value =
    if len value == 0 || ltb max_runpod_id_bytes (len value) || not (all is_id_char (codes value))
    then err (failure "RunPod resource ID is empty or malformed")
    else ok tt

-- `ValidateRunPodID(value) == nil`
abbrev pub is_runpod_id : String → Bool
is_runpod_id value = is_ok (validate_runpod_id value)

-- The bytes that `url.PathEscape` leaves alone.
abbrev pub is_path_safe : ℕ → Bool
is_path_safe c =
    is_alnum c
    || c == b'-'
    || c == b'_'
    || c == b'.'
    || c == b'~'
    || c == b'$'
    || c == b'&'
    || c == b'+'
    || c == b':'
    || c == b'='
    || c == b'@'

abbrev hex_digit : ℕ → String
hex_digit n =
    if n == 0
    then "0"
    else if n == 1
    then "1"
    else if n == 2
    then "2"
    else if n == 3
    then "3"
    else if n == 4
    then "4"
    else if n == 5
    then "5"
    else if n == 6
    then "6"
    else if n == 7
    then "7"
    else if n == 8
    then "8"
    else if n == 9
    then "9"
    else if n == 10
    then "A"
    else if n == 11
    then "B"
    else if n == 12
    then "C"
    else if n == 13
    then "D"
    else if n == 14
    then "E"
    else "F"

percent : ℕ → String
percent b = "%" ++ hex_digit (b / 16) ++ hex_digit (b % 16)

-- The UTF-8 bytes of a code point, each escaped.
escape_code : ℕ → String
unfolding percent
escape_code c =
    if ltb c 0x80
    then percent c
    else if ltb c 0x800
    then percent (0xC0 + c / 64) ++ percent (0x80 + c % 64)
    else if ltb c 0x10000
    then percent (0xE0 + c / 4096) ++ percent (0x80 + c / 64 % 64) ++ percent (0x80 + c % 64)
    else percent (0xF0 + c / 262144)
      ++ percent (0x80 + c / 4096 % 64)
      ++ percent (0x80 + c / 64 % 64)
      ++ percent (0x80 + c % 64)

unfoldable pub path_escape : String → String
unfolding escape_code
path_escape String.[] = ""
path_escape (String.◌∷◌ c s) =
    if is_path_safe (code c)
    then String.◌∷◌ c (path_escape s)
    else escape_code (code c) ++ path_escape s

unfoldable pub safe_id : String → Result String
unfolding validate_runpod_id path_escape
safe_id id = and_then (validate_runpod_id id) (λ _. ok (path_escape id))
