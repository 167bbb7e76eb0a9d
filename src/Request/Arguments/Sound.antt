-- ===== src/Request/Arguments/Sound.antt =====
-- internal/router/request.go, decodeStrictJSONValue: what was decoded was read off the tokens, within
-- the budgets, and the loops end.
use provider_runpod.Base.{
  ℕ, zero, suc, ◌+◌, ◌<◌, String, len, ◌≡◌, refl, ap, ◌∙◌, Bool, true, false, List, [], ◌∷◌, length,
  arith, if◌then◌else◌,
}
use mathlib.Core.List.{append_assoc}
use provider_runpod.Json.{Json, Items, Members}
use provider_runpod.Request.Arguments.{
  Token, Decoder, more, Step, close, decode_items, decode_members, decode_token, decode_node,
  decode_strict_json_value,
}
use provider_runpod.Request.Arguments.Printed.{
  emit, depth, size, text_size, tidy, length-emit_pos, lengths,
}
use provider_runpod.Request.Arguments.Reads.{
  Keeps, AreMembers, AreItems, IsKey, IsRead, Keeps-bind, Keeps-if, Reads, kept, key_of_lem,
  refused, spend_text_lem,
}

module _ (levels : ℕ) (child : Step Json) (reads : Reads levels child) where
  close_lem :
      (is_object : Bool) (ts : List Token)
      → Keeps
          (λ rest. ts ≡ (if is_object then Token.close_object else Token.close_array) ∷ rest)
          (close is_object ts)
  close_lem true (Token.close_object ∷ ts) = kept refl
  close_lem false (Token.close_array ∷ ts) = kept refl
  close_lem true _ = refused
  close_lem false _ = refused

  no_items :
      (d : Decoder) (ts : List Token)
      → d.tokens ≡ Token.close_array ∷ ts
      → AreItems levels d (Items.nil, record d { tokens = ts })
  unfolding emit depth size text_size tidy
  no_items d ts there = record {
    tokens = there;
    deep = omega arith;
    keys = refl;
    nodes = omega arith;
    texts = omega arith;
  }

  no_members :
      (seen : List String) (d : Decoder) (ts : List Token)
      → d.tokens ≡ Token.close_object ∷ ts
      → AreMembers levels seen d (Members.end, record d { tokens = ts })
  unfolding emit depth size text_size tidy
  no_members seen d ts there = record {
    tokens = there;
    deep = omega arith;
    keys = refl;
    nodes = omega arith;
    texts = omega arith;
  }

  cons_items :
      (d d₁ d₂ : Decoder) (v : Json) (vs : Items)
      → IsRead levels d (v, d₁)
      → AreItems levels d₁ (vs, d₂)
      → AreItems levels d (Items.cons v vs, d₂)
  unfolding emit depth size text_size tidy
  cons_items d d₁ d₂ v vs first others = record {
    tokens = first.tokens ∙ rw (others.tokens, append_assoc);
    deep = omega (arith, first.deep, others.deep);
    keys = ground (arith, first.keys, others.keys);
    nodes = omega (arith, first.nodes, others.nodes);
    texts = omega (arith, first.texts, others.texts);
  }

  cons_members :
      (seen : List String) (d d₁ d₂ d₃ : Decoder) (k : String) (v : Json) (ms : Members)
      → IsKey seen d (k, d₁)
      → IsRead levels d₁ (v, d₂)
      → AreMembers levels (k ∷ seen) d₂ (ms, d₃)
      → AreMembers levels seen d (Members.member k v ms, d₃)
  unfolding emit depth size text_size tidy
  cons_members seen d d₁ d₂ d₃ k v ms key first others = record {
    tokens = key.tokens ∙ ap (◌∷◌ (Token.text k)) (first.tokens ∙ rw (others.tokens, append_assoc));
    deep = omega (arith, first.deep, others.deep);
    keys = ground (arith, key.key, first.keys, others.keys);
    nodes = omega (arith, key.nodes, first.nodes, others.nodes);
    texts = omega (arith, key.texts, first.texts, others.texts);
  }

  decode_items_lem :
      (fuel : ℕ) (d : Decoder)
      → length d.tokens < fuel
      → Keeps (AreItems levels d) (decode_items child fuel d)
  unfolding decode_items
  decode_items_lem zero d enough = absurd (omega arith)
  decode_items_lem (suc fuel) d enough =
      Keeps-if (more d.tokens)
        (λ _. Keeps-bind (reads d) λ (v, d₁) first.
          Keeps-bind
            (decode_items_lem fuel d₁
              (omega (lengths, enough, length-emit_pos v, ap length first.tokens)))
            λ (vs, d₂) others.
              kept {a = (Items.cons v vs, d₂)} (cons_items d d₁ d₂ v vs first others))
        λ _.
          Keeps-bind (close_lem false d.tokens)
            λ ts there. kept {a = (Items.nil, record d { tokens = ts })} (no_items d ts there)

  decode_members_lem :
      (fuel : ℕ) (seen : List String) (d : Decoder)
      → length d.tokens < fuel
      → Keeps (AreMembers levels seen d) (decode_members child fuel seen d)
  unfolding decode_members
  decode_members_lem zero seen d enough = absurd (omega arith)
  decode_members_lem (suc fuel) seen d enough =
      Keeps-if (more d.tokens)
        (λ _. Keeps-bind (key_of_lem seen d.tokens d refl) λ (k, d₁) key.
          Keeps-bind (reads d₁) λ (v, d₂) first.
            Keeps-bind
              (decode_members_lem fuel (k ∷ seen) d₂
                (omega (lengths, enough, ap length key.tokens, ap length first.tokens)))
              λ (ms, d₃) others.
                kept {a = (Members.member k v ms, d₃)}
                  (cons_members seen d d₁ d₂ d₃ k v ms key first others))
        λ _. Keeps-bind (close_lem true d.tokens) λ ts there.
          kept {a = (Members.end, record d { tokens = ts })} (no_members seen d ts there)

  -- A value of one token, which took `n` bytes of text.
  leaf :
      (t : Token) (ts : List Token) (budget left : ℕ) (d : Decoder) (v : Json)
      → emit v ≡ t ∷ []
      → depth v ≡ 1
      → size v ≡ 1
      → tidy v ≡ true
      → text_size v + d.text_budget ≡ left
      → d.tokens ≡ ts
      → d.budget ≡ budget
      → IsRead
          (suc levels)
          (record { tokens = t ∷ ts; budget = suc budget; text_budget = left })
          (v, d)
  leaf t ts budget left d v printed deep one keys texts same nodes = record {
    tokens = cc;
    deep = omega arith;
    keys = keys;
    nodes = omega arith;
    texts = texts;
  }

  decode_token_lem :
      (t : Token) (ts : List Token) (budget left : ℕ)
      → Keeps
          (IsRead
            (suc levels)
            (record { tokens = t ∷ ts; budget = suc budget; text_budget = left }))
          (decode_token child t (record { tokens = ts; budget = budget; text_budget = left }))
  unfolding decode_token emit depth size text_size tidy
  decode_token_lem Token.open_object ts budget left =
      Keeps-bind
        (decode_members_lem (suc (length ts)) []
          (record { tokens = ts; budget = budget; text_budget = left }) (omega arith))
        λ (ms, d) read. kept {a = (Json.obj ms, d)} record {
          tokens = ap (◌∷◌ Token.open_object) (read.tokens ∙ rw append_assoc);
          deep = omega (arith, read.deep);
          keys = read.keys;
          nodes = omega (arith, read.nodes);
          texts = read.texts;
        }
  decode_token_lem Token.open_array ts budget left =
      Keeps-bind
        (decode_items_lem (suc (length ts))
          (record { tokens = ts; budget = budget; text_budget = left }) (omega arith))
        λ (vs, d) read. kept {a = (Json.arr vs, d)} record {
          tokens = ap (◌∷◌ Token.open_array) (read.tokens ∙ rw append_assoc);
          deep = omega (arith, read.deep);
          keys = read.keys;
          nodes = omega (arith, read.nodes);
          texts = read.texts;
        }
  decode_token_lem (Token.text s) ts budget left =
      Keeps-bind
        (spend_text_lem (len s) (record { tokens = ts; budget = budget; text_budget = left }))
        λ d (same, nodes, texts).
          kept {a = (Json.str s, d)}
            (leaf (Token.text s) ts budget left d (Json.str s) refl refl refl refl texts same nodes)
  decode_token_lem (Token.number s) ts budget left = kept (
      leaf (Token.number s) ts budget left _ (Json.literal s) refl refl refl refl (omega arith) refl
        refl)
  decode_token_lem (Token.bool b) ts budget left = kept (
      leaf (Token.bool b) ts budget left _ (Json.bool b) refl refl refl refl (omega arith) refl
        refl)
  decode_token_lem Token.null ts budget left =
      kept (leaf Token.null ts budget left _ Json.null refl refl refl refl (omega arith) refl refl)
  decode_token_lem Token.close_object ts budget left = refused
  decode_token_lem Token.close_array ts budget left = refused
  decode_token_lem Token.broken ts budget left = refused

  decode_node_lem :
      (ts : List Token) (budget left : ℕ)
      → Keeps
          (IsRead (suc levels) (record { tokens = ts; budget = budget; text_budget = left }))
          (decode_node child ts budget left)
  unfolding decode_node
  decode_node_lem ts zero left = refused
  decode_node_lem [] (suc budget) left = refused
  decode_node_lem (t ∷ ts) (suc budget) left = decode_token_lem t ts budget left

-- The decoding never gives up for want of fuel, and a decoded value is what the consumed tokens spell:
-- no deeper than the levels, its keys short and distinct, its nodes and texts paid from the budgets.
pub decode_strict_json_value_sound : (levels : ℕ) → Reads levels (decode_strict_json_value levels)
unfolding decode_strict_json_value
decode_strict_json_value_sound zero d = refused
decode_strict_json_value_sound (suc levels) d =
    decode_node_lem levels (decode_strict_json_value levels) (decode_strict_json_value_sound levels)
      d.tokens d.budget d.text_budget
