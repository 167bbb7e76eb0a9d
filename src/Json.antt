-- ===== src/Json.antt =====
-- The values that `encoding/json` decodes into `any`. An object is its members in iteration order;
-- the decoder keeps one member for each key. A decoder with `UseNumber` leaves numbers as their text.
use provider_runpod.Base.{
  String, List, [], ◌∷◌, Bool, ◌≡◌, Option, some, none, str_eq, if◌then◌else◌, lookup, eq_iff,
  arith, ◌&&◌, is_some,
}
use provider_runpod.Float.{Float64}

mutual
  pub data Json : Type 0 where
    null : Json
    bool : Bool → Json
    num : Float64 → Json
    literal : String → Json
    str : String → Json
    arr : Items → Json
    obj : Members → Json

  pub data Items : Type 0 where
    nil : Items
    cons : Json → Items → Items

  pub data Members : Type 0 where
    end : Members
    member : String → Json → Members → Members

abbrev pub items : Items → List Json
items nil = []
items (cons v vs) = v ∷ items vs

abbrev pub members : Members → List (String × Json)
members end = []
members (member k v ms) = (k, v) ∷ members ms

-- `object[key]`
abbrev pub find : String → Members → Option Json
find wanted ms = lookup wanted (members ms)

-- `object[key] = value` on a key that is present.
unfoldable pub set_member : String → Json → Members → Members
set_member wanted value end = end
set_member wanted value (member k v ms) =
    if str_eq k wanted then member k value ms else member k v (set_member wanted value ms)

-- `delete(object, key)`
unfoldable pub delete_member : String → Members → Members
delete_member gone end = end
delete_member gone (member k v ms) =
    if str_eq k gone then delete_member gone ms else member k v (delete_member gone ms)

-- Reading after a write and after a deletion.
pub find-set_member :
    (key wanted : String) (value : Json) (ms : Members)
    → find wanted (set_member key value ms)
      ≡ (if str_eq key wanted && is_some (find key ms) then some value else find wanted ms)
unfolding set_member lookup
find-set_member key wanted value end = ground arith
find-set_member key wanted value (member k v ms) =
    ground
      (arith, eq_iff k key, eq_iff k wanted, eq_iff key wanted, find-set_member key wanted value ms)

pub find-delete_member :
    (gone wanted : String) (ms : Members)
    → find wanted (delete_member gone ms) ≡ (if str_eq gone wanted then none else find wanted ms)
unfolding delete_member lookup
find-delete_member gone wanted end = ground arith
find-delete_member gone wanted (member k v ms) =
    ground
      (arith, eq_iff k gone, eq_iff k wanted, eq_iff gone wanted, find-delete_member gone wanted ms)
