-- ===== src/Request/Arguments/Reads.antt =====
-- internal/router/request.go, decodeStrictJSONValue: what a step of the decoder reads.
use provider_runpod.Base.{
  ℕ, ◌+◌, ◌≤◌, String, len, ◌≡◌, refl, ◌≢◌, Bool, true, false, not, ◌&&◌, ◌||◌, List, ◌∷◌, ◌++◌,
  ltb, leb, str_eq, has_string, arith, if◌then◌else◌,
}
use mathlib.Core.Path.{subst}
use provider_runpod.Json.{Json, Items, Members}
use provider_runpod.Request.Arguments.{
  Token, Decoder, Decoded, done, rejected, out_of_fuel, bind, Step, spend_text, key_of,
}
use provider_runpod.Request.Arguments.Printed.{
  emit, emit_items, emit_members, depth, depth_items, depth_members, size, size_items, size_members,
  text_size, text_items, text_members, tidy, tidy_items, tidy_members,
}

-- The run kept within its fuel, and what it decoded satisfies the predicate.
pub data Keeps {ℓ κ} {A : Type ℓ} (P : A → Type κ) : Decoded A → Type (ℓ ⊔ κ) where
  kept : {a : A} → P a → Keeps P (done a)
  refused : Keeps P rejected

module _ {ℓ κ} {A : Type ℓ} {P : A → Type κ} where
  pub Keeps-done : {r : Decoded A} {a : A} → Keeps P r → r ≡ done a → P a
  Keeps-done (kept h) e = subst P (cc) h
  Keeps-done refused e = cc

  pub Keeps-out_of_fuel : {r : Decoded A} → Keeps P r → r ≢ out_of_fuel
  Keeps-out_of_fuel (kept h) = cc
  Keeps-out_of_fuel refused = cc

  pub Keeps-if :
      (b : Bool) {x y : Decoded A}
      → (b ≡ true → Keeps P x)
      → (b ≡ false → Keeps P y)
      → Keeps P (if b then x else y)
  Keeps-if true hx hy = hx refl
  Keeps-if false hx hy = hy refl

  pub Keeps-bind {ℓ' κ'} :
      {B : Type ℓ'} {Q : B → Type κ'} {r : Decoded B} {next : B → Decoded A}
      → Keeps Q r
      → ((b : B) → Q b → Keeps P (next b))
      → Keeps P (bind r next)
  Keeps-bind (kept {a} h) k = k a h
  Keeps-bind refused k = refused

-- The value that was read between two states of the decoder.
pub record IsRead (levels : ℕ) (before : Decoder) (r : Json × Decoder) : Type 0 where
  pub tokens : before.tokens ≡ emit r.0 ++ r.1.tokens
  pub deep : depth r.0 ≤ levels
  pub keys : tidy r.0 ≡ true
  pub nodes : size r.0 + r.1.budget ≡ before.budget
  pub texts : text_size r.0 + r.1.text_budget ≡ before.text_budget

pub record AreItems (levels : ℕ) (before : Decoder) (r : Items × Decoder) : Type 0 where
  pub tokens : before.tokens ≡ emit_items r.0 ++ Token.close_array ∷ r.1.tokens
  pub deep : depth_items r.0 ≤ levels
  pub keys : tidy_items r.0 ≡ true
  pub nodes : size_items r.0 + r.1.budget ≡ before.budget
  pub texts : text_items r.0 + r.1.text_budget ≡ before.text_budget

pub record AreMembers (levels : ℕ) (seen : List String) (before : Decoder) (r : Members × Decoder)
    : Type 0 where
  pub tokens : before.tokens ≡ emit_members r.0 ++ Token.close_object ∷ r.1.tokens
  pub deep : depth_members r.0 ≤ levels
  pub keys : tidy_members seen r.0 ≡ true
  pub nodes : size_members r.0 + r.1.budget ≡ before.budget
  pub texts : text_members r.0 + r.1.text_budget ≡ before.text_budget

pub record IsKey (seen : List String) (before : Decoder) (r : String × Decoder) : Type 0 where
  pub tokens : before.tokens ≡ Token.text r.0 ∷ r.1.tokens
  pub key : (not (str_eq r.0 "") && leb (len r.0) 128 && not (has_string seen r.0)) ≡ true
  pub nodes : r.1.budget ≡ before.budget
  pub texts : len r.0 + r.1.text_budget ≡ before.text_budget

pub spend_text_lem :
    (n : ℕ) (d : Decoder)
    → Keeps
        (λ d'.
          (d'.tokens ≡ d.tokens) × (d'.budget ≡ d.budget) × (n + d'.text_budget ≡ d.text_budget))
        (spend_text n d)
spend_text_lem n d = Keeps-if _ (λ _. refused) λ h. kept (refl, refl, ground (arith, h))

pub key_of_lem :
    (seen : List String) (ts : List Token) (d : Decoder)
    → d.tokens ≡ ts
    → Keeps (IsKey seen d) (key_of seen ts d)
key_of_lem seen (Token.text key ∷ ts) d there =
    Keeps-if (str_eq key "" || ltb 128 (len key) || has_string seen key) (λ _. refused)
      λ fits.
        Keeps-bind (spend_text_lem (len key) (record d { tokens = ts })) λ d' (same, nodes, texts).
          kept {a = (key, d')} record {
            tokens = cc (there, same);
            key = ground (arith, fits);
            nodes = nodes;
            texts = texts;
          }
key_of_lem seen _ d there = refused

abbrev pub Reads : ℕ → Step Json → Type 0
Reads levels child = (d : Decoder) → Keeps (IsRead levels d) (child d)
