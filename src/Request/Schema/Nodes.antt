-- ===== src/Request/Schema/Nodes.antt =====
-- internal/router/request.go, validateJSONSchema: what a forwarded schema is, and what its simple keywords keep.
use provider_runpod.Base.{
  ℕ, zero, suc, ◌+◌, String, ◌≡◌, refl, Bool, true, false, ◌&&◌, List, ◌∷◌, Option, none, some,
  is_some, eq_iff, arith, lookup, sym, Gives, holds, refused, Gives-if, Gives-unless, Gives-require,
  Gives->>=,
}
use provider_runpod.Json.{Json, Members, find, set_member, delete_member, find-delete_member}
use provider_runpod.Request.Fields.{only_keys}
use provider_runpod.Request.Schema.{
  forwarded_keys, schema_keys, strip_dialect, strip_default, node_type, type_of, node_head,
}

module _ (item : Json → Bool) where
  abbrev pub all_members : Members → Bool
  all_members Members.end = true
  all_members (Members.member k v ms) = item v && all_members ms

  abbrev pub in_properties : Option Json → Bool
  in_properties none = true
  in_properties (some (Json.obj ms)) = all_members ms
  in_properties (some _) = false

  abbrev pub in_items : Option Json → Bool
  in_items none = true
  in_items (some v) = item v

-- A schema of at most so many levels that holds only the keywords that the worker may see, a
-- supported type at every node among them.
unfoldable pub is_forwardable : ℕ → Json → Bool
unfolding only_keys
is_forwardable zero v = false
is_forwardable (suc levels) (Json.obj ms) =
    only_keys forwarded_keys ms
    && is_some (type_of ms)
    && in_properties (is_forwardable levels) (find "properties" ms)
    && in_items (is_forwardable levels) (find "items" ms)
is_forwardable (suc levels) _ = false

module _ (count : Json → ℕ) where
  abbrev pub sum_members : Members → ℕ
  sum_members Members.end = 0
  sum_members (Members.member k v ms) = count v + sum_members ms

  abbrev pub sum_properties : Option Json → ℕ
  sum_properties (some (Json.obj ms)) = sum_members ms
  sum_properties _ = 0

  abbrev pub sum_items : Option Json → ℕ
  sum_items none = 0
  sum_items (some v) = count v

-- The number of nodes of a schema of at most so many levels.
unfoldable pub nodes : ℕ → Json → ℕ
nodes zero v = 0
nodes (suc levels) (Json.obj ms) = suc (
    sum_properties (nodes levels) (find "properties" ms)
    + sum_items (nodes levels) (find "items" ms))
nodes (suc levels) _ = 1

only_keys-delete_member :
    (gone : String) (allowed : List String) (ms : Members)
    → only_keys (gone ∷ allowed) ms ≡ true
    → only_keys allowed (delete_member gone ms) ≡ true
unfolding only_keys delete_member
only_keys-delete_member gone allowed Members.end h = refl
only_keys-delete_member gone allowed (Members.member k v ms) h =
    ground (arith, eq_iff k gone, eq_iff gone k, only_keys-delete_member gone allowed ms)

pub only_keys-set_member :
    (key : String) (value : Json) (allowed : List String) (ms : Members)
    → only_keys allowed (set_member key value ms) ≡ only_keys allowed ms
unfolding only_keys set_member
only_keys-set_member key value allowed Members.end = refl
only_keys-set_member key value allowed (Members.member k v ms) =
    ground (arith, only_keys-set_member key value allowed ms)

only_keys-missing :
    (gone : String) (allowed : List String) (ms : Members)
    → only_keys (gone ∷ allowed) ms ≡ true
    → find gone ms ≡ none
    → only_keys allowed ms ≡ true
unfolding only_keys lookup
only_keys-missing gone allowed Members.end h missing = refl
only_keys-missing gone allowed (Members.member k v ms) h missing =
    ground (arith, eq_iff k gone, eq_iff gone k, only_keys-missing gone allowed ms)

dialect_stripped :
    (root : Bool) (dialect : Option Json) (ms : Members)
    → find "$schema" ms ≡ dialect
    → only_keys (schema_keys root) ms ≡ true
    → Gives
        (λ bare. only_keys ("default" ∷ forwarded_keys) bare ≡ true)
        (strip_dialect root dialect ms)
dialect_stripped true none ms there allowed = refused
dialect_stripped false none ms there allowed = holds allowed
dialect_stripped true (some uri) ms there allowed =
    Gives-if _ _ _ λ _. only_keys-delete_member "$schema" _ ms allowed
dialect_stripped false (some uri) ms there allowed = refused

node_type_lem :
    (root : Bool) (type_name : Option String)
    → Gives (λ t. type_name ≡ some t) (node_type root type_name)
node_type_lem root none = refused
node_type_lem true (some t) = Gives-unless _ _ _ λ _. refl
node_type_lem false (some t) = holds refl

default_stripped :
    (type_name : String) (default : Option Json) (ms : Members)
    → find "default" ms ≡ default
    → only_keys ("default" ∷ forwarded_keys) ms ≡ true
    → Gives
        (λ plain. (only_keys forwarded_keys plain ≡ true) × (find "type" plain ≡ find "type" ms))
        (strip_default type_name default ms)
default_stripped type_name none ms there allowed =
    holds (only_keys-missing "default" _ ms allowed there, refl)
default_stripped type_name (some value) ms there allowed = Gives-if _ _ _ λ _. (
  only_keys-delete_member "default" _ ms allowed,
  ground (arith, find-delete_member "default" "type" ms),
)

-- What a node's members are once its keywords, its type and its annotations were checked.
pub node_head_lem :
    (root : Bool) (ms : Members)
    → Gives
        (λ head. (only_keys forwarded_keys head.1 ≡ true) × (type_of head.1 ≡ some head.0))
        (node_head root ms)
unfolding node_head
node_head_lem root ms = Gives-require _ _ λ allowed.
    Gives->>= (dialect_stripped root _ ms refl allowed) λ bare keys.
      Gives->>= (node_type_lem root (type_of bare)) λ t typed. Gives-require _ _ λ _.
        Gives->>= (default_stripped t _ bare refl keys)
          λ plain (forwarded, kept). holds {a = (t, plain)} (forwarded, rw (sym kept) at typed)

-- A check of one child that forwards what it accepts and pays for its nodes.
