-- ===== src/Request/Arguments/RoundTrip.antt =====
-- internal/router/request.go, decodeStrictJSONValue: the tokens of a value that keeps the bounds are
-- decoded to that value.
use provider_runpod.Base.{
  ℕ, zero, suc, ◌+◌, ◌-◌, ◌<◌, String, len, ◌≡◌, refl, sym, ap, ◌∙◌, ◌≢◌, Bool, true, false, not,
  ◌&&◌, ◌||◌, List, [], ◌∷◌, ◌++◌, ltb, leb, str_eq, has_string, length, arith, ◌↔◌, and_split,
}
use mathlib.Core.List.{append_assoc}
use provider_runpod.Json.{Json, Items, Members}
use provider_runpod.Request.Arguments.{
  Token, Decoder, done, out_of_fuel, more, Step, spend_text, key_of, decode_items, decode_members,
  decode_token, decode_node, decode_strict_json_value,
}
use provider_runpod.Request.Arguments.Printed.{
  emit, emit_items, emit_members, depth, size, size_items, size_members, text_size, text_items,
  text_members, tidy, length-emit_pos, size_pos, depth_pos, lengths,
}
use provider_runpod.Request.Arguments.Sound.{decode_strict_json_value_sound}
use provider_runpod.Request.Arguments.Reads.{
  AreMembers, IsRead, AreItems, IsKey, Keeps-done, Keeps-out_of_fuel,
}

Decoder-ext :
    (d d' : Decoder)
    → d.tokens ≡ d'.tokens
    → d.budget ≡ d'.budget
    → d.text_budget ≡ d'.text_budget
    → d ≡ d'
Decoder-ext d d' p q r = cc

spend_text-done :
    (n : ℕ) (d d' : Decoder)
    → d.tokens ≡ d'.tokens
    → d.budget ≡ d'.budget
    → n + d'.text_budget ≡ d.text_budget
    → spend_text n d ≡ done d'
spend_text-done n d d' p q r =
    let enough : ltb d.text_budget n ≡ false = ground (arith, r) in
    let left : d.text_budget - n ≡ d'.text_budget = omega (arith, r) in
    rw enough (ap done (Decoder-ext _ d' p q left))

more-emit : (v : Json) (ts : List Token) → more (emit v ++ ts) ≡ true
unfolding emit
more-emit Json.null ts = refl
more-emit _ ts = refl

key_of-done :
    (seen : List String) (key : String) (d d' : Decoder)
    → IsKey seen d (key, d')
    → key_of seen d.tokens d ≡ done (key, d')
key_of-done seen key d d' read =
    let fits : (str_eq key "" || ltb 128 (len key) || has_string seen key) ≡ false =
      ground (arith, read.key) in
    let spent =
      spend_text-done (len key) (record d { tokens = d'.tokens }) d' refl (sym read.nodes)
        read.texts in
    rw (read.tokens, fits, spent)

five_split :
    (a b c x y : Bool)
    → (a && b && c && x && y) ≡ true
    → ((a && b && c) ≡ true) × (x ≡ true) × (y ≡ true)
five_split a b c x y h = ground arith

-- The child decodes whatever keeps the bounds.
abbrev Decodes : ℕ → Step Json → Type 0
Decodes levels child =
    (v : Json) (d d' : Decoder) → IsRead levels d (v, d') → child d ≡ done (v, d')

module _ (levels : ℕ) (child : Step Json) (decodes : Decodes levels child) where
  -- The decoder between the first of several values and the others.
  unfoldable between : Items → Decoder → Decoder
  between vs d' = record {
    tokens = emit_items vs ++ Token.close_array ∷ d'.tokens;
    budget = size_items vs + d'.budget;
    text_budget = text_items vs + d'.text_budget;
  }

  head_items :
      (v : Json) (vs : Items) (d d' : Decoder)
      → AreItems levels d (Items.cons v vs, d')
      → IsRead levels d (v, between vs d') × AreItems levels (between vs d') (vs, d')
  unfolding between emit depth size text_size tidy
  head_items v vs d d' read = (
    record {
      tokens = read.tokens ∙ rw append_assoc;
      deep = omega (arith, read.deep);
      keys = (and_split _ _ read.keys).0;
      nodes = omega (arith, read.nodes);
      texts = omega (arith, read.texts);
    },
    record {
      tokens = refl;
      deep = omega (arith, read.deep);
      keys = (and_split _ _ read.keys).1;
      nodes = refl;
      texts = refl;
    },
  )

  no_items-done :
      (fuel : ℕ) (d d' : Decoder)
      → AreItems levels d (Items.nil, d')
      → decode_items child (suc fuel) d ≡ done (Items.nil, d')
  unfolding decode_items emit size text_size
  no_items-done fuel d d' read =
      let same : record d { tokens = d'.tokens } ≡ d' =
        Decoder-ext _ d' refl (omega (arith, read.nodes)) (omega (arith, read.texts)) in
      rw (read.tokens, same)

  decode_items-done :
      (vs : Items) (fuel : ℕ) (d d' : Decoder)
      → length d.tokens < fuel
      → AreItems levels d (vs, d')
      → decode_items child fuel d ≡ done (vs, d')
  unfolding decode_items
  decode_items-done vs zero d d' enough read = absurd (omega arith)
  decode_items-done Items.nil (suc fuel) d d' enough read = no_items-done fuel d d' read
  decode_items-done (Items.cons v vs) (suc fuel) d d' enough read =
      let (first, others) = head_items v vs d d' read in
      let step = decodes v d (between vs d') first in
      let rest =
        decode_items-done vs fuel (between vs d') d'
          (omega (lengths, enough, length-emit_pos v, ap length first.tokens)) others in
      let more_there : more d.tokens ≡ true = rw first.tokens (more-emit v _) in
      rw (more_there, step, rest)

  unfoldable behind_member : Members → Decoder → Decoder
  behind_member ms d' = record {
    tokens = emit_members ms ++ Token.close_object ∷ d'.tokens;
    budget = size_members ms + d'.budget;
    text_budget = text_members ms + d'.text_budget;
  }

  unfoldable behind_key : Json → Members → Decoder → Decoder
  behind_key v ms d' = record {
    tokens = emit v ++ (emit_members ms ++ Token.close_object ∷ d'.tokens);
    budget = size v + size_members ms + d'.budget;
    text_budget = text_size v + text_members ms + d'.text_budget;
  }

  head_members :
      (seen : List String) (k : String) (v : Json) (ms : Members) (d d' : Decoder)
      → AreMembers levels seen d (Members.member k v ms, d')
      → IsKey seen d (k, behind_key v ms d')
        × IsRead levels (behind_key v ms d') (v, behind_member ms d')
        × AreMembers levels (k ∷ seen) (behind_member ms d') (ms, d')
  unfolding behind_member behind_key emit depth size text_size tidy
  head_members seen k v ms d d' read =
      let (fits, kept, rest) =
        five_split (not (str_eq k "")) (leb (len k) 128) (not (has_string seen k)) _ _ read.keys in
      (
        record {
          tokens = read.tokens ∙ ap (◌∷◌ (Token.text k)) (rw append_assoc);
          key = fits;
          nodes = omega (arith, read.nodes);
          texts = omega (arith, read.texts);
        },
        record {
          tokens = refl;
          deep = omega (arith, read.deep);
          keys = kept;
          nodes = omega arith;
          texts = omega arith;
        },
        record {
          tokens = refl;
          deep = omega (arith, read.deep);
          keys = rest;
          nodes = refl;
          texts = refl;
        },
      )

  no_members-done :
      (fuel : ℕ) (seen : List String) (d d' : Decoder)
      → AreMembers levels seen d (Members.end, d')
      → decode_members child (suc fuel) seen d ≡ done (Members.end, d')
  unfolding decode_members emit size text_size
  no_members-done fuel seen d d' read =
      let same : record d { tokens = d'.tokens } ≡ d' =
        Decoder-ext _ d' refl (omega (arith, read.nodes)) (omega (arith, read.texts)) in
      rw (read.tokens, same)

  decode_members-done :
      (ms : Members) (fuel : ℕ) (seen : List String) (d d' : Decoder)
      → length d.tokens < fuel
      → AreMembers levels seen d (ms, d')
      → decode_members child fuel seen d ≡ done (ms, d')
  unfolding decode_members
  decode_members-done ms zero seen d d' enough read = absurd (omega arith)
  decode_members-done Members.end (suc fuel) seen d d' enough read =
      no_members-done fuel seen d d' read
  decode_members-done (Members.member k v ms) (suc fuel) seen d d' enough read =
      let (key, first, others) = head_members seen k v ms d d' read in
      let named = key_of-done seen k d (behind_key v ms d') key in
      let step = decodes v (behind_key v ms d') (behind_member ms d') first in
      let rest =
        decode_members-done ms fuel (k ∷ seen) (behind_member ms d') d'
          (omega (lengths, enough, ap length key.tokens, length-emit_pos v, ap length first.tokens))
          others in
      let more_there : more d.tokens ≡ true = rw key.tokens in rw (more_there, named, step, rest)

  leaf-done :
      (own : Token) (v : Json) (t : Token) (ts : List Token) (budget left : ℕ) (d' : Decoder)
      → decode_token child own (record { tokens = ts; budget = budget; text_budget = left })
        ≡ done (v, record { tokens = ts; budget = budget; text_budget = left })
      → t ∷ ts ≡ own ∷ d'.tokens
      → budget ≡ d'.budget
      → 0 + d'.text_budget ≡ left
      → decode_token child t (record { tokens = ts; budget = budget; text_budget = left })
        ≡ done (v, d')
  leaf-done own v t ts budget left d' runs tokens nodes texts =
      let first : t ≡ own = cc tokens in
      let others : ts ≡ d'.tokens = cc tokens in
      let same : record { tokens = ts; budget = budget; text_budget = left } ≡ d' =
        Decoder-ext _ d' others nodes (omega (arith, texts)) in
      rw (first, runs, same)

  decode_token-done :
      (v : Json) (t : Token) (ts : List Token) (budget left : ℕ) (d' : Decoder)
      → IsRead
          (suc levels)
          (record { tokens = t ∷ ts; budget = suc budget; text_budget = left })
          (v, d')
      → decode_token child t (record { tokens = ts; budget = budget; text_budget = left })
        ≡ done (v, d')
  unfolding decode_token emit depth size text_size tidy
  decode_token-done Json.null t ts budget left d' read =
      leaf-done Token.null Json.null t ts budget left d' refl read.tokens
        (omega (arith, read.nodes)) read.texts
  decode_token-done (Json.bool b) t ts budget left d' read =
      leaf-done (Token.bool b) (Json.bool b) t ts budget left d' refl read.tokens
        (omega (arith, read.nodes)) read.texts
  decode_token-done (Json.num x) t ts budget left d' read = cc read.keys
  decode_token-done (Json.literal s) t ts budget left d' read =
      leaf-done (Token.number s) (Json.literal s) t ts budget left d' refl read.tokens
        (omega (arith, read.nodes)) read.texts
  decode_token-done (Json.str s) t ts budget left d' read =
      let first : t ≡ Token.text s = cc read.tokens in
      let others : ts ≡ d'.tokens = cc read.tokens in
      let spent =
        spend_text-done (len s) (record { tokens = ts; budget = budget; text_budget = left }) d'
          others (omega (arith, read.nodes)) read.texts in
      rw (first, spent)
  decode_token-done (Json.arr vs) t ts budget left d' read =
      let first : t ≡ Token.open_array = cc read.tokens in
      let others : ts ≡ (emit_items vs ++ Token.close_array ∷ []) ++ d'.tokens = cc read.tokens in
      let decoded =
        decode_items-done vs (suc (length ts))
          (record { tokens = ts; budget = budget; text_budget = left }) d' (omega arith)
          (record {
            tokens = others ∙ rw append_assoc;
            deep = omega (arith, read.deep);
            keys = read.keys;
            nodes = omega (arith, read.nodes);
            texts = read.texts;
          }) in
      rw (first, decoded)
  decode_token-done (Json.obj ms) t ts budget left d' read =
      let first : t ≡ Token.open_object = cc read.tokens in
      let others : ts ≡ (emit_members ms ++ Token.close_object ∷ []) ++ d'.tokens =
        cc read.tokens in
      let decoded =
        decode_members-done ms (suc (length ts)) []
          (record { tokens = ts; budget = budget; text_budget = left }) d' (omega arith)
          (record {
            tokens = others ∙ rw append_assoc;
            deep = omega (arith, read.deep);
            keys = read.keys;
            nodes = omega (arith, read.nodes);
            texts = read.texts;
          }) in
      rw (first, decoded)

  decode_node-done :
      (v : Json) (ts : List Token) (budget left : ℕ) (d' : Decoder)
      → IsRead (suc levels) (record { tokens = ts; budget = budget; text_budget = left }) (v, d')
      → decode_node child ts budget left ≡ done (v, d')
  unfolding decode_node
  decode_node-done v ts zero left d' read = absurd (omega (arith, read.nodes, size_pos v))
  decode_node-done v [] (suc budget) left d' read =
      absurd (omega (lengths, ap length read.tokens, length-emit_pos v))
  decode_node-done v (t ∷ ts) (suc budget) left d' read =
      decode_token-done v t ts budget left d' read

decode_all : (levels : ℕ) → Decodes levels (decode_strict_json_value levels)
unfolding decode_strict_json_value
decode_all zero v d d' read = absurd (omega (arith, read.deep, depth_pos v))
decode_all (suc levels) v d d' read =
    decode_node-done levels (decode_strict_json_value levels) (decode_all levels) v d.tokens
      d.budget d.text_budget d' read

-- A decoder returns a value, and stands behind it, exactly when the tokens up to there spell the value
-- and it keeps the bounds: no more levels than are left, keys that are short and distinct, and as many
-- nodes and bytes of text as went from the budgets. And it never runs out of fuel.
pub decode_strict_json_value_iff :
    (levels : ℕ) (d d' : Decoder) (v : Json)
    → ((decode_strict_json_value levels d ≡ done (v, d')) ↔ IsRead levels d (v, d'))
      × (decode_strict_json_value levels d ≢ out_of_fuel)
decode_strict_json_value_iff levels d d' v =
    let sound = decode_strict_json_value_sound levels d in
    ((Keeps-done sound, decode_all levels v d d'), Keeps-out_of_fuel sound)
