-- ===== src/Base/Maps.antt =====
-- Go's `map[string]string` as an association list, the first entry of a key counting.
use Prim.Native.String.{String}
use mathlib.Core.Path.{◌≡◌, refl}
use mathlib.Core.Option.{Option, none, some}
use mathlib.Core.List.{List, [], ◌∷◌}
use native.Mathlib.Omega.{arith}
use text.Mathlib.TextEquality.{eq_iff}
use provider_runpod.Base.Tests.{if◌then◌else◌}
use provider_runpod.Base.Text.{str_eq}

abbrev pub StringMap : Type 0
StringMap = List (String × String)

module _ {ℓ} {V : Type ℓ} where
  unfoldable pub lookup : String → List (String × V) → Option V
  lookup wanted [] = none
  lookup wanted ((key, value) ∷ rest) = if str_eq key wanted then some value else lookup wanted rest

  unfoldable pub insert : String → V → List (String × V) → List (String × V)
  insert new value [] = (new, value) ∷ []
  insert new value ((key, old) ∷ rest) =
      if str_eq key new then (new, value) ∷ rest else (key, old) ∷ insert new value rest

  unfoldable pub remove_key : String → List (String × V) → List (String × V)
  remove_key gone [] = []
  remove_key gone ((key, value) ∷ rest) =
      if str_eq key gone then remove_key gone rest else (key, value) ∷ remove_key gone rest

  pub lookup-insert :
      (new wanted : String) (value : V) (entries : List (String × V))
      → lookup wanted (insert new value entries)
        ≡ (if str_eq new wanted then some value else lookup wanted entries)
  unfolding lookup insert
  lookup-insert new wanted value [] = refl
  lookup-insert new wanted value ((key, old) ∷ rest) = ground (
    arith,
    eq_iff key new,
    eq_iff key wanted,
    eq_iff new wanted,
    lookup-insert new wanted value rest,
  )

  pub lookup-remove_key :
      (gone wanted : String) (entries : List (String × V))
      → lookup wanted (remove_key gone entries)
        ≡ (if str_eq gone wanted then none else lookup wanted entries)
  unfolding lookup remove_key
  lookup-remove_key gone wanted [] = ground arith
  lookup-remove_key gone wanted ((key, old) ∷ rest) = ground (
    arith,
    eq_iff key gone,
    eq_iff key wanted,
    eq_iff gone wanted,
    lookup-remove_key gone wanted rest,
  )

abbrev pub value_or : String → Option String → String
value_or d none = d
value_or d (some v) = v

-- A read of a missing key gives the zero value.
abbrev pub lookup_or : String → String → StringMap → String
lookup_or d k m = value_or d (lookup k m)
