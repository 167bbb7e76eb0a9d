-- ===== src/Base/Effects.antt =====
-- Errors as values, and handlers that change an object, call out, and may fail. What was changed or
-- called before a failure stays, so the state comes back beside the error too.
use Prim.Native.Nat.{ℕ}
use Prim.Native.String.{String}
use mathlib.Core.Path.{◌≡◌, refl, subst}
use mathlib.Core.Bool.{Bool, true, false}
use provider_runpod.Base.Tests.{if◌then◌else◌}

-- The sentinels of the source, by which it tells errors apart, and every other error by its text.
pub data Error : Type 0 where
  not_found ambiguous lifetime_expired : Error
  create_ambiguous : String → Error
  api_error : ℕ → String → Error
  failure : String → Error

pub data Result {ℓ} (A : Type ℓ) : Type ℓ where
  err : Error → Result A
  ok : A → Result A

abbrev pub is_not_found : Error → Bool
is_not_found not_found = true
is_not_found _ = false

abbrev pub is_create_ambiguous : Error → Bool
is_create_ambiguous (create_ambiguous _) = true
is_create_ambiguous _ = false

abbrev pub is_ok {ℓ} : {A : Type ℓ} → Result A → Bool
is_ok (ok a) = true
is_ok (err e) = false

abbrev pub and_then {ℓ κ} : {A : Type ℓ} {B : Type κ} → Result A → (A → Result B) → Result B
and_then (err cause) next = err cause
and_then (ok value) next = next value

-- The chain of a do block.
infixl 5 ◌>>=◌ ◌>>◌
abbrev pub ◌>>=◌ {ℓ κ} : {A : Type ℓ} {B : Type κ} → Result A → (A → Result B) → Result B
err cause >>= next = err cause
ok value >>= next = next value

abbrev pub ◌>>◌ {ℓ κ} : {A : Type ℓ} {B : Type κ} → Result A → Result B → Result B
first >> next = first >>= λ _. next

pub and_then-eq-ok {ℓ κ} :
    {A : Type ℓ} {B : Type κ} (first : Result A) (next : A → Result B) {last : B}
    → and_then first next ≡ ok last
    → (value : A) × (first ≡ ok value) × (next value ≡ ok last)
and_then-eq-ok (err cause) next h = cc
and_then-eq-ok (ok value) next h = (value, refl, h)

-- `if !test { return err }` in a function that returns only an error.
abbrev pub require : Bool → Error → Result (Unit {0})
require true e = ok tt
require false e = err e

-- Inversions of what succeeds.
pub is_ok-eq : (r : Result (Unit {0})) → is_ok r ≡ true → r ≡ ok tt
is_ok-eq (ok tt) h = refl
is_ok-eq (err e) h = cc

pub if-eq-ok {ℓ} :
    {A : Type ℓ} (b : Bool) (x : A) (e : Error) {y : A}
    → (if b then ok x else err e) ≡ ok y
    → (b ≡ true) × (x ≡ y)
if-eq-ok true x e h = (refl, cc)
if-eq-ok false x e h = cc

-- A value, if there is one, satisfies the predicate.
pub data Gives {ℓ κ} {A : Type ℓ} (P : A → Type κ) : Result A → Type (ℓ ⊔ κ) where
  holds : {a : A} → P a → Gives P (ok a)
  refused : {e : Error} → Gives P (err e)

module _ {ℓ κ} {A : Type ℓ} {P : A → Type κ} where
  pub Gives-ok : {r : Result A} {a : A} → Gives P r → r ≡ ok a → P a
  Gives-ok (holds h) e = subst P (cc) h
  Gives-ok refused e = cc

  pub Gives-if :
      (b : Bool) (x : A) (e : Error) → (b ≡ true → P x) → Gives P (if b then ok x else err e)
  Gives-if true x e h = holds (h refl)
  Gives-if false x e h = refused

  pub Gives-unless :
      (b : Bool) (x : A) (e : Error) → (b ≡ false → P x) → Gives P (if b then err e else ok x)
  Gives-unless true x e h = refused
  Gives-unless false x e h = holds (h refl)

  pub Gives-cond :
      (b : Bool) {r s : Result A}
      → (b ≡ true → Gives P r)
      → (b ≡ false → Gives P s)
      → Gives P (if b then r else s)
  Gives-cond true hr hs = hr refl
  Gives-cond false hr hs = hs refl

  pub Gives-require :
      (b : Bool) (e : Error) {r : Result A} → (b ≡ true → Gives P r) → Gives P (require b e >> r)
  Gives-require true e h = h refl
  Gives-require false e h = refused

  pub Gives->>= {ℓ' κ'} :
      {B : Type ℓ'} {Q : B → Type κ'} {r : Result B} {next : B → Result A}
      → Gives Q r
      → ((b : B) → Q b → Gives P (next b))
      → Gives P (r >>= next)
  Gives->>= (holds {a} h) k = k a h
  Gives->>= refused k = refused

pub Gives-any {ℓ} : {A : Type ℓ} (r : Result A) → Gives (λ a. r ≡ ok a) r
Gives-any (ok a) = holds refl
Gives-any (err e) = refused

-- What holds whatever the value is, and two predicates on it.
pub Gives-always {ℓ κ} : {A : Type ℓ} {C : Type κ} (r : Result A) → C → Gives (λ _. C) r
Gives-always (ok a) c = holds c
Gives-always (err e) c = refused

pub Gives-both {ℓ κ μ} :
    {A : Type ℓ} {P : A → Type κ} {Q : A → Type μ} {r : Result A}
    → Gives P r
    → Gives Q r
    → Gives (λ a. P a × Q a) r
Gives-both (holds p) q = holds (p, Gives-ok q refl)
Gives-both refused q = refused

pub Gives-map {ℓ κ μ} :
    {A : Type ℓ} {P : A → Type κ} {Q : A → Type μ} {r : Result A}
    → Gives P r
    → ((a : A) → P a → Q a)
    → Gives Q r
Gives-map (holds {a} p) f = holds (f a p)
Gives-map refused f = refused
