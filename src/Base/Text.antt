-- ===== src/Base/Text.antt =====
-- Go strings are native texts: their code points where the program walks them, their bytes (`len`,
-- `slice`) where it measures them.
use Prim.Native.Nat.{ℕ}
use Prim.Native.Char.{code}
use Prim.Native.String.{String}
use mathlib.Core.Path.{◌≡◌, refl}
use mathlib.Core.Bool.{Bool, true, false, ◌&&◌, ◌||◌}
use mathlib.Core.List.{List, [], ◌∷◌}
use text.Mathlib.Text.{◌==◌ as text_eq}
use text.Mathlib.TextEquality.{eq_iff}
use provider_runpod.Base.Tests.{leb, and_split}

abbrev pub codes : String → List ℕ
codes String.[] = []
codes (String.◌∷◌ c s) = code c ∷ codes s

abbrev pub str_eq : String → String → Bool
str_eq = text_eq

-- The character classes of the source's regular expressions.
abbrev pub is_digit : ℕ → Bool
is_digit c = leb b'0' c && leb c b'9'

abbrev pub is_upper : ℕ → Bool
is_upper c = leb b'A' c && leb c b'Z'

abbrev pub is_lower : ℕ → Bool
is_lower c = leb b'a' c && leb c b'z'

abbrev pub is_alnum : ℕ → Bool
is_alnum c = is_upper c || is_lower c || is_digit c

-- `slices.Contains` and the `contains` loops over strings.
abbrev pub has_string : List String → String → Bool
has_string [] target = false
has_string (s ∷ ss) target = str_eq s target || has_string ss target

-- `slices.Equal` on strings.
abbrev pub strings_eq : List String → List String → Bool
strings_eq [] [] = true
strings_eq [] (y ∷ ys) = false
strings_eq (x ∷ xs) [] = false
strings_eq (x ∷ xs) (y ∷ ys) = str_eq x y && strings_eq xs ys

pub strings_eq_sound : (xs ys : List String) → strings_eq xs ys ≡ true → xs ≡ ys
strings_eq_sound [] [] h = refl
strings_eq_sound [] (y ∷ ys) h = cc
strings_eq_sound (x ∷ xs) [] h = cc
strings_eq_sound (x ∷ xs) (y ∷ ys) h =
    let (head, rest) = and_split _ _ h in
    let same : x ≡ y = (eq_iff x y).0 head in cc (strings_eq_sound xs ys rest)
