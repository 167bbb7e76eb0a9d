-- ===== src/Request/Arguments/Printed.antt =====
-- internal/router/request.go, decodeStrictJSONValue: the tokens of a value, and its sizes.
use provider_runpod.Base.{
  ℕ, suc, ◌+◌, ◌<◌, String, len, Bool, true, false, not, ◌&&◌, ◌||◌, List, [], ◌∷◌, ◌++◌, leb,
  str_eq, has_string, length, length-append, arith, ◌≡◌,
}
use Prim.Native.Nat.{max}
use provider_runpod.Json.{Json, Items, Members}
use provider_runpod.Request.Arguments.{Token}

-- The tokens of a value. A decoder with `UseNumber` gives no floating-point number.
unfoldable mutual
  pub emit : Json → List Token
  emit Json.null = Token.null ∷ []
  emit (Json.bool b) = Token.bool b ∷ []
  emit (Json.num x) = Token.broken ∷ []
  emit (Json.literal s) = Token.number s ∷ []
  emit (Json.str s) = Token.text s ∷ []
  emit (Json.arr vs) = Token.open_array ∷ (emit_items vs ++ Token.close_array ∷ [])
  emit (Json.obj ms) = Token.open_object ∷ (emit_members ms ++ Token.close_object ∷ [])

  pub emit_items : Items → List Token
  emit_items Items.nil = []
  emit_items (Items.cons v vs) = emit v ++ emit_items vs

  pub emit_members : Members → List Token
  emit_members Members.end = []
  emit_members (Members.member k v ms) = Token.text k ∷ (emit v ++ emit_members ms)

unfoldable mutual
  pub depth : Json → ℕ
  depth (Json.arr vs) = suc (depth_items vs)
  depth (Json.obj ms) = suc (depth_members ms)
  depth _ = 1

  pub depth_items : Items → ℕ
  depth_items Items.nil = 0
  depth_items (Items.cons v vs) = max (depth v) (depth_items vs)

  pub depth_members : Members → ℕ
  depth_members Members.end = 0
  depth_members (Members.member k v ms) = max (depth v) (depth_members ms)

-- The number of values.
unfoldable mutual
  pub size : Json → ℕ
  size (Json.arr vs) = suc (size_items vs)
  size (Json.obj ms) = suc (size_members ms)
  size _ = 1

  pub size_items : Items → ℕ
  size_items Items.nil = 0
  size_items (Items.cons v vs) = size v + size_items vs

  pub size_members : Members → ℕ
  size_members Members.end = 0
  size_members (Members.member k v ms) = size v + size_members ms

-- The bytes of the texts and of the keys.
unfoldable mutual
  pub text_size : Json → ℕ
  text_size (Json.str s) = len s
  text_size (Json.arr vs) = text_items vs
  text_size (Json.obj ms) = text_members ms
  text_size _ = 0

  pub text_items : Items → ℕ
  text_items Items.nil = 0
  text_items (Items.cons v vs) = text_size v + text_items vs

  pub text_members : Members → ℕ
  text_members Members.end = 0
  text_members (Members.member k v ms) = len k + text_size v + text_members ms

-- Keys are short, not empty and distinct within their object.
unfoldable mutual
  pub tidy : Json → Bool
  tidy (Json.num x) = false
  tidy (Json.arr vs) = tidy_items vs
  tidy (Json.obj ms) = tidy_members [] ms
  tidy _ = true

  pub tidy_items : Items → Bool
  tidy_items Items.nil = true
  tidy_items (Items.cons v vs) = tidy v && tidy_items vs

  pub tidy_members : List String → Members → Bool
  tidy_members seen Members.end = true
  tidy_members seen (Members.member k v ms) =
      not (str_eq k "")
      && leb (len k) 128
      && not (has_string seen k)
      && tidy v
      && tidy_members (k ∷ seen) ms

pub length-emit_pos : (v : Json) → 0 < length (emit v)
unfolding emit
length-emit_pos Json.null = omega arith
length-emit_pos _ = omega arith

pub size_pos : (v : Json) → 0 < size v
unfolding size
size_pos Json.null = omega arith
size_pos _ = omega arith

pub depth_pos : (v : Json) → 0 < depth v
unfolding depth
depth_pos Json.null = omega arith
depth_pos _ = omega arith

pub length-append_tokens : (xs ys : List Token) → length (xs ++ ys) ≡ length xs + length ys
length-append_tokens = length-append

-- for `omega`, on token lists
pub ruleset lengths = (arith, length-append_tokens)
