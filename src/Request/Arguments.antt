-- ===== src/Request/Arguments.antt =====
-- internal/router/request.go, validateToolArguments and decodeStrictJSONValue: the arguments of a tool
-- call, decoded from the tokens of `encoding/json` within budgets and encoded anew.
pub mod Printed
pub mod Reads
pub mod Sound
pub mod RoundTrip
pub mod Allowed
use provider_runpod.Base.{
  ◌>>◌, ℕ, zero, suc, ◌+◌, ◌-◌, ◌*◌, String, len, Bool, true, false, not, ◌&&◌, ◌||◌, List, [], ◌∷◌,
  Option, none, some, Result, ok, err, failure, require, leb, ltb, str_eq, has_string, length,
  if◌then◌else◌,
}
use provider_runpod.Json.{Json, Items, Members}
use provider_runpod.Request.Secrets.{contains_secret_key}

abbrev pub max_tool_argument_bytes : ℕ
max_tool_argument_bytes = 32 * 1024

abbrev pub max_argument_depth : ℕ
max_argument_depth = 6

abbrev pub max_argument_nodes : ℕ
max_argument_nodes = 128

-- What the calls of `Token` on a decoder with `UseNumber` return: `broken` is an error of the syntax,
-- the end of the list is `io.EOF`. Commas and colons are the decoder's own.
pub data Token : Type 0 where
  open_object close_object open_array close_array null broken : Token
  bool : Bool → Token
  number text : String → Token

-- The decoder and the two budgets that a decoding shares.
pub record Decoder : Type 0 where
  pub tokens : List Token
  pub budget : ℕ
  pub text_budget : ℕ

-- Every error has one meaning to the caller; `out_of_fuel` has no counterpart in the source.
pub data Decoded {ℓ} (A : Type ℓ) : Type ℓ where
  done : A → Decoded A
  rejected out_of_fuel : Decoded A

abbrev pub bind {ℓ κ} : {A : Type ℓ} {B : Type κ} → Decoded A → (A → Decoded B) → Decoded B
bind (done a) next = next a
bind rejected next = rejected
bind out_of_fuel next = out_of_fuel

-- `decoder.More()`
abbrev pub more : List Token → Bool
more [] = false
more (Token.close_object ∷ ts) = false
more (Token.close_array ∷ ts) = false
more (t ∷ ts) = true

abbrev pub Step {ℓ} : Type ℓ → Type ℓ
Step A = Decoder → Decoded (A × Decoder)

abbrev pub spend_text : ℕ → Decoder → Decoded Decoder
spend_text n d =
    if ltb d.text_budget n then rejected else done (record d { text_budget = d.text_budget - n })

abbrev pub close : Bool → List Token → Decoded (List Token)
close true (Token.close_object ∷ ts) = done ts
close false (Token.close_array ∷ ts) = done ts
close _ _ = rejected

abbrev pub closing {ℓ} : {A : Type ℓ} → Bool → A → Decoder → Decoded (A × Decoder)
closing is_object a d = bind (close is_object d.tokens) λ ts. done (a, record d { tokens = ts })

-- The key of a member that is not there yet, at the tokens of the decoder.
abbrev pub key_of : List String → List Token → Decoder → Decoded (String × Decoder)
key_of seen (Token.text key ∷ ts) d =
    if str_eq key "" || ltb 128 (len key) || has_string seen key
    then rejected
    else bind (spend_text (len key) (record d { tokens = ts })) λ d'. done (key, d')
key_of seen _ d = rejected

-- The loops over an array's values and an object's members.
unfoldable pub decode_items : Step Json → ℕ → Step Items
decode_items child zero d = out_of_fuel
decode_items child (suc fuel) d =
    let rest =
      bind (child d)
        λ (v, d₁). bind (decode_items child fuel d₁) λ (vs, d₂). done (Items.cons v vs, d₂) in
    if more d.tokens then rest else closing false Items.nil d

unfoldable pub decode_members : Step Json → ℕ → List String → Step Members
decode_members child zero seen d = out_of_fuel
decode_members child (suc fuel) seen d =
    let rest = bind (key_of seen d.tokens d) λ (key, d₁). bind (child d₁) λ (v, d₂).
      bind (decode_members child fuel (key ∷ seen) d₂)
        λ (ms, d₃). done (Members.member key v ms, d₃) in
    if more d.tokens then rest else closing true Members.end d

-- What follows a token, read off a decoder that stands behind it. A round of a loop reads a token at
-- least, so one more round than there are tokens is enough.
unfoldable pub decode_token : Step Json → Token → Step Json
unfolding decode_items decode_members
decode_token child Token.open_object d =
    bind (decode_members child (suc (length d.tokens)) [] d) λ (ms, d'). done (Json.obj ms, d')
decode_token child Token.open_array d =
    bind (decode_items child (suc (length d.tokens)) d) λ (vs, d'). done (Json.arr vs, d')
decode_token child (Token.text s) d = bind (spend_text (len s) d) λ d'. done (Json.str s, d')
decode_token child (Token.number s) d = done (Json.literal s, d)
decode_token child (Token.bool b) d = done (Json.bool b, d)
decode_token child Token.null d = done (Json.null, d)
decode_token child _ d = rejected

unfoldable pub decode_node : Step Json → List Token → ℕ → ℕ → Decoded (Json × Decoder)
unfolding decode_token
decode_node child ts zero text_budget = rejected
decode_node child [] (suc budget) text_budget = rejected
decode_node child (t ∷ ts) (suc budget) text_budget =
    decode_token child t (record { tokens = ts; budget = budget; text_budget = text_budget })

-- `levels` is maxArgumentDepth + 1 less the depth.
unfoldable pub decode_strict_json_value : ℕ → Step Json
unfolding decode_node
decode_strict_json_value zero d = rejected
decode_strict_json_value (suc levels) d =
    decode_node (decode_strict_json_value levels) d.tokens d.budget d.text_budget

-- What the standard library makes of text: the tokens of a decoder, the encoding of a value, and the
-- match of the pattern of credentials.
pub record Codec : Type 0 where
  pub tokens : String → List Token
  pub unmarshal : String → Option Members
  pub marshal : Json → Option String
  pub has_credential : String → Bool

module _ (codec : Codec) where
  abbrev pub encode_arguments : Option String → Result String
  encode_arguments none = err (failure "function arguments contain credential-like material")
  encode_arguments (some canonical) =
      if leb (len canonical) max_tool_argument_bytes && not (codec.has_credential canonical)
      then ok canonical
      else err (failure "function arguments contain credential-like material")

  -- The text must end behind the object.
  abbrev pub accept_object : Json → List Token → Result String
  accept_object (Json.obj ms) [] = do
    require (not (contains_secret_key (Json.obj ms)))
        (failure "function arguments contain a secret-labelled field")
    encode_arguments (codec.marshal (Json.obj ms))
  accept_object (Json.obj ms) (t ∷ ts) = err (failure "function arguments contain trailing JSON")
  accept_object _ ts = err (failure "function arguments must be exactly one JSON object")

  abbrev pub accept_arguments : Decoded (Json × Decoder) → Result String
  accept_arguments rejected = err (failure "invalid function arguments JSON")
  accept_arguments out_of_fuel = err (failure "out of fuel")
  accept_arguments (done (value, d)) = accept_object value d.tokens

  unfoldable pub validate_tool_arguments : String → Result String
  unfolding decode_strict_json_value contains_secret_key
  validate_tool_arguments encoded = accept_arguments (
      decode_strict_json_value (max_argument_depth + 1) (record {
        tokens = codec.tokens encoded;
        budget = max_argument_nodes;
        text_budget = max_tool_argument_bytes;
      }))
