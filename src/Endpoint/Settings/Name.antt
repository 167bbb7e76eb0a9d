-- ===== src/Endpoint/Settings/Name.antt =====
-- The names of external objects: they fit RunPod's limit, and the UID makes them the object's own.
use Prim.Native.Nat.{compare, Ordering}
use Prim.Native.Char.{Char, len_utf8}
use Prim.Native.String.{String, len, count, slice, fits, ◌++◌}
use Prim.Native.String.slice
use Prim.Native.String.len
use Prim.Native.String.count
use text.Mathlib.TextPositions.{len-append}
use text.Mathlib.TextLemmas.{length-append, append_inj, append_cancel_left}
use provider_runpod.Base.{ℕ, ◌-◌, ◌≤◌, ◌≡◌, ◌≢◌, refl, ap, sym, ◌∙◌, arith, ltb, if◌then◌else◌}
use provider_runpod.Endpoint.Settings.{effective_name, to_lower, max_name_bytes}

len-fits :
    (o : Ordering) (c : Char) (s : String) (b : ℕ)
    → compare (len_utf8 c) b ≡ o
    → len s ≤ b - len_utf8 c
    → len (fits o c s) ≤ b
len-fits Ordering.lt c s b e h = rw (len.cons c s) (ground arith)
len-fits Ordering.eq c s b e h = rw (len.cons c s) (ground arith)
len-fits Ordering.gt c s b e h = rw len.nil (omega arith)

-- A slice holds no more bytes than it is cut to.
pub len-slice : (s : String) (b : ℕ) → len (slice s 0 b) ≤ b
len-slice String.[] b = rw (slice.nil 0 b, len.nil) (omega arith)
len-slice (String.◌∷◌ c s) b =
    rw (slice.cons-zero c s b)
      (len-fits _ c (slice s 0 (b - len_utf8 c)) b refl (len-slice s (b - len_utf8 c)))

count-to_lower : (s : String) → count (to_lower s) ≡ count s
unfolding to_lower
count-to_lower String.[] = refl
count-to_lower (String.◌∷◌ c s) =
    count.cons _ (to_lower s) ∙ ap ℕ.suc (count-to_lower s) ∙ sym (count.cons c s)

abbrev prefix : String → String → String
prefix name uid =
    let max_prefix = max_name_bytes - len ("-xp-" ++ to_lower uid) in
    if ltb max_prefix (len name) then slice name 0 max_prefix else name

len-prefix :
    (name uid : String) → len (prefix name uid) ≤ max_name_bytes - len ("-xp-" ++ to_lower uid)
len-prefix name uid = ground (arith, len-slice name (max_name_bytes - len ("-xp-" ++ to_lower uid)))

pub effective_name-nonempty : (name uid : String) → effective_name name uid ≢ ""
unfolding effective_name
effective_name-nonempty name uid h = omega (
  arith,
  ap len h,
  len-append (prefix name uid) ("-xp-" ++ to_lower uid),
  len-append "-xp-" (to_lower uid),
)

-- With a UID of at most 187 bytes, as Kubernetes gives, the external name has at most 191 bytes
-- whatever name the spec asks for. Two objects whose external names are equal have UIDs that differ
-- in case at most, if the UIDs are of one length: no object recovers another's external resource.
pub effective_name_sound :
    (name name' uid uid' : String)
    → (len (to_lower uid) ≤ 187 → len (effective_name name uid) ≤ max_name_bytes)
      × (count uid ≡ count uid'
          → effective_name name uid ≡ effective_name name' uid'
          → to_lower uid ≡ to_lower uid')
unfolding effective_name
effective_name_sound name name' uid uid' = (
  λ h. omega (
    arith,
    len-append (prefix name uid) ("-xp-" ++ to_lower uid),
    len-append "-xp-" (to_lower uid),
    len-prefix name uid,
  ),
  λ c e.
      append_cancel_left "-xp-" _ _
        (append_inj e (
          omega (
            arith,
            ap count e,
            c,
            length-append (prefix name uid) ("-xp-" ++ to_lower uid),
            length-append (prefix name' uid') ("-xp-" ++ to_lower uid'),
            length-append "-xp-" (to_lower uid),
            length-append "-xp-" (to_lower uid'),
            count-to_lower uid,
            count-to_lower uid',
          ))).1,
)
