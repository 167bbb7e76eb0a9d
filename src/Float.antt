-- ===== src/Float.antt =====
-- Go's float64 as the program uses it: tests, comparison, and `float64(n) / 1000`. A finite double is
-- an exact dyadic number; rounding happens only in the division.
use provider_runpod.Base.{
  ℕ, zero, suc, ◌+◌, ◌-◌, ◌*◌, ◌/◌, ◌%◌, ◌^◌, Bool, true, false, not, ◌||◌, ltb, ◌==◌,
  if◌then◌else◌, ℤ, pos, negsuc, int_leb,
}

-- `fin n e` is n / 2 ^ e; `inf true` is +Inf.
pub data Float64 : Type 0 where
  nan : Float64
  inf : Bool → Float64
  fin : ℤ → ℕ → Float64

abbrev pub is_finite : Float64 → Bool
is_finite (fin n e) = true
is_finite _ = false

-- n * 2 ^ k
abbrev pub scale : ℤ → ℕ → ℤ
scale (pos n) k = pos (n * 2 ^ k)
scale (negsuc n) k = negsuc (suc n * 2 ^ k - 1)

abbrev pub float_leb : Float64 → Float64 → Bool
float_leb nan y = false
float_leb (inf s) nan = false
float_leb (inf s) (inf t) = not s || t
float_leb (inf s) (fin n e) = not s
float_leb (fin n e) nan = false
float_leb (fin n e) (inf t) = t
float_leb (fin n e) (fin m f) = int_leb (scale n f) (scale m e)

-- n / d to the nearest whole number, ties to even.
abbrev round_div : ℕ → ℕ → ℕ
round_div n d =
    let q = n / d in
    let twice = 2 * (n % d) in
    if ltb twice d then q else if ltb d twice then q + 1 else if q % 2 == 0 then q else q + 1

-- The quotient n / 1000 with 53 significant bits: the largest e ≤ k with n * 2 ^ e / 1000 < 2 ^ 53.
unfoldable pub quotient_1000 : ℕ → ℕ → Float64
quotient_1000 zero n = fin (pos (round_div n 1000)) 0
quotient_1000 (suc k) n =
    let coarser = quotient_1000 k n in
    if ltb (n * 2 ^ suc k / 1000) (2 ^ 53)
    then fin (pos (round_div (n * 2 ^ suc k) 1000)) (suc k)
    else coarser

abbrev negate : Float64 → Float64
negate (fin (pos (suc n)) e) = fin (negsuc n) e
negate x = x

-- `float64(n) / 1000` for an int32: 62 bits reach 2 ^ 52 already at n = 1.
unfoldable pub milli_to_float : ℤ → Float64
unfolding quotient_1000
milli_to_float (pos zero) = fin (pos 0) 0
milli_to_float (pos (suc n)) = quotient_1000 62 (suc n)
milli_to_float (negsuc n) = negate (quotient_1000 62 (suc n))
