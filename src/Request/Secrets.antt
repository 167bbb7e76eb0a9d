-- ===== src/Request/Secrets.antt =====
-- internal/router/router.go, containsSecretKey: names of members that a request may not have.
use provider_runpod.Base.{
  ℕ, ◌+◌, String, Bool, true, false, ◌&&◌, ◌||◌, List, [], ◌∷◌, map, ◌==◌, codes, any, is_upper,
  if◌then◌else◌,
}
use provider_runpod.Json.{Json, Items, Members}

-- `strings.ToLower` on one code point, as far as a comparison with ASCII text can tell: beside the
-- ASCII capitals, the dotted capital I and the Kelvin sign have an ASCII lower case.
abbrev lower : ℕ → ℕ
lower c =
    if is_upper c then c + 32 else if c == 0x130 then b'i' else if c == 0x212A then b'k' else c

abbrev same_codes : List ℕ → List ℕ → Bool
same_codes [] [] = true
same_codes (x ∷ xs) (y ∷ ys) = x == y && same_codes xs ys
same_codes _ _ = false

abbrev starts_with : List ℕ → List ℕ → Bool
starts_with [] text = true
starts_with (c ∷ prefix) [] = false
starts_with (c ∷ prefix) (x ∷ text) = c == x && starts_with prefix text

-- `strings.Contains`
abbrev has_part : List ℕ → List ℕ → Bool
has_part part [] = starts_with part []
has_part part (x ∷ text) = starts_with part (x ∷ text) || has_part part text

abbrev secret_parts : List String
secret_parts = "password" ∷ "secret" ∷ "api_key" ∷ "apikey" ∷ "private_key" ∷ "client_key" ∷ []

abbrev secret_names : List String
secret_names = "token" ∷ "auth" ∷ "authorization" ∷ "credential" ∷ "credentials" ∷ []

unfoldable pub is_secret_name : String → Bool
is_secret_name key =
    let name = map lower (codes key) in
    any (λ part. has_part (codes part) name) secret_parts
    || any (λ secret. same_codes name (codes secret)) secret_names

unfoldable mutual
  unfolding is_secret_name

  pub contains_secret_key : Json → Bool
  contains_secret_key (Json.obj ms) = members_secret ms
  contains_secret_key (Json.arr vs) = items_secret vs
  contains_secret_key _ = false

  pub members_secret : Members → Bool
  members_secret Members.end = false
  members_secret (Members.member key child ms) =
      is_secret_name key || contains_secret_key child || members_secret ms

  pub items_secret : Items → Bool
  items_secret Items.nil = false
  items_secret (Items.cons child vs) = contains_secret_key child || items_secret vs
