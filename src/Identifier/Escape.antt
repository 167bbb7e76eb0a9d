-- ===== src/Identifier/Escape.antt =====
-- What a validated identifier is, and that it goes into a URL path as it stands.
use Prim.Native.Char.{code}
use provider_runpod.Base.{
  ℕ, String, len, ◌≤◌, ◌<◌, ◌≡◌, refl, ◌≢◌, true, all, codes, All, ok, arith, and_split, all-All,
  ap,
}
use provider_runpod.Identifier.{
  is_id_char, is_path_safe, validate_runpod_id, path_escape, safe_id, max_runpod_id_bytes,
}

-- A byte that cannot end a path segment, climb out of one, start a query or hide an escape.
pub record IsInert (c : ℕ) : Type 0 where
  pub no_slash : c ≢ b'/'
  pub no_backslash : c ≢ 0x5C
  pub no_dot : c ≢ b'.'
  pub no_percent : c ≢ b'%'
  pub no_query : c ≢ b'?'
  pub no_fragment : c ≢ b'#'

is_id_char-IsInert : (c : ℕ) → is_id_char c ≡ true → IsInert c
is_id_char-IsInert c h = ground arith

is_id_char-is_path_safe : (c : ℕ) → is_id_char c ≡ true → is_path_safe c ≡ true
is_id_char-is_path_safe c h = ground arith

pub valid_parts :
    (id : String)
    → validate_runpod_id id ≡ ok tt
    → (0 < len id) × (len id ≤ max_runpod_id_bytes) × (all is_id_char (codes id) ≡ true)
unfolding validate_runpod_id
valid_parts id h = ground arith

path_escape_id : (id : String) → all is_id_char (codes id) ≡ true → path_escape id ≡ id
unfolding path_escape
path_escape_id String.[] h = refl
path_escape_id (String.◌∷◌ c s) h =
    let (head, rest) = and_split _ _ h in
    rw (is_id_char-is_path_safe (code c) head) (ap (String.◌∷◌ c) (path_escape_id s rest))

-- An identifier that validates is 1 to 191 bytes long, holds no byte that could affect a URL path,
-- and is its own path segment: escaping it changes nothing.
pub safe_id_sound :
    (id : String)
    → validate_runpod_id id ≡ ok tt
    → (0 < len id) × (len id ≤ 191) × All IsInert (codes id) × (safe_id id ≡ ok id)
unfolding safe_id
safe_id_sound id h =
    let (nonempty, short, chars) = valid_parts id h in
    (
      nonempty,
      short,
      all-All is_id_char IsInert is_id_char-IsInert (codes id) chars,
      rw h (ap ok (path_escape_id id chars)),
    )
