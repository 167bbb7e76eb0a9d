-- ===== src/Base/Pointers.antt =====
-- Tests on Go pointers and on slices and maps that may be nil.
use mathlib.Core.Path.{◌≡◌, refl}
use mathlib.Core.Bool.{Bool, true, false, beq}
use mathlib.Core.Option.{Option, none, some}
use mathlib.Core.List.{List, [], ◌∷◌}
use Prim.Native.String.{String}
use native.Mathlib.Omega.{arith}
use provider_runpod.Base.Int.{ℤ, int_eq, int_eq_iff}
use provider_runpod.Base.Lists.{is_empty}
use provider_runpod.Base.Text.{str_eq, strings_eq, strings_eq_sound}

-- `p != nil && *p == v`
abbrev pub has_bool : Option Bool → Bool → Bool
has_bool none v = false
has_bool (some b) v = beq b v

abbrev pub has_int : Option ℤ → ℤ → Bool
has_int none v = false
has_int (some n) v = int_eq n v

-- `s != nil && slices.Equal(s, v)`
abbrev pub has_strings : Option (List String) → List String → Bool
has_strings none v = false
has_strings (some s) v = strings_eq s v

-- `s != nil && len(s) == 0`
abbrev pub has_empty {ℓ} : {A : Type ℓ} → Option (List A) → Bool
has_empty none = false
has_empty (some s) = is_empty s

-- `ref != nil && ref.Name == name`
abbrev pub same_name : String → Option String → Bool
same_name name none = false
same_name name (some n) = str_eq n name

-- A nil slice has no items.
abbrev pub value_or_nil {ℓ} : {A : Type ℓ} → Option (List A) → List A
value_or_nil none = []
value_or_nil (some s) = s

pub has_bool_sound : (p : Option Bool) (v : Bool) → has_bool p v ≡ true → p ≡ some v
has_bool_sound p v h = ground arith

pub has_int_sound : (p : Option ℤ) (v : ℤ) → has_int p v ≡ true → p ≡ some v
has_int_sound none v h = cc
has_int_sound (some n) v h = let same : n ≡ v = (int_eq_iff n v).0 h in cc

pub has_strings_sound :
    (p : Option (List String)) (v : List String) → has_strings p v ≡ true → p ≡ some v
has_strings_sound none v h = cc
has_strings_sound (some s) v h = cc (strings_eq_sound s v h)

pub has_empty_sound {ℓ} : {A : Type ℓ} (p : Option (List A)) → has_empty p ≡ true → p ≡ some []
has_empty_sound none h = cc
has_empty_sound (some []) h = refl
has_empty_sound (some (x ∷ xs)) h = cc
