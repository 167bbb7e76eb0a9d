-- ===== src/Request/Schema/Forwarded.antt =====
-- internal/router/request.go, validateJSONSchema: what a schema is after it was accepted.
use provider_runpod.Base.{
  ℕ, zero, suc, ◌+◌, String, ◌≡◌, refl, Bool, true, false, Option, none, some, ok, str_eq, arith,
  ◌∙◌, Gives, holds, refused, Gives-unless, Gives-any, Gives-ok, Gives-require, Gives->>=,
}
use provider_runpod.Json.{Json, Members, find, set_member, find-set_member}
use provider_runpod.Request.Fields.{object_of, only_keys}
use provider_runpod.Request.Schema.{
  Check, forwarded_keys, type_of, each_property, schema_node, check_schema, validate_json_schema,
  node_properties, property_map, node_items, node_required, node_values,
}
use provider_runpod.Request.Schema.Nodes.{
  all_members, in_items, in_properties, is_forwardable, node_head_lem, nodes, only_keys-set_member,
  sum_items, sum_members, sum_properties,
}

abbrev Pays : ℕ → Check → Type 0
Pays levels child =
    (value : Json) (budget : ℕ)
    → Gives (λ r. (is_forwardable levels r.0 ≡ true) × (nodes levels r.0 + r.1 ≡ budget))
        (child value budget)

-- What the check of the properties leaves of a node, and what it took from the budget.
record KeepsNode (levels : ℕ) (ms : Members) (budget : ℕ) (r : Members × ℕ) : Type 0 where
  keys : only_keys forwarded_keys r.0 ≡ only_keys forwarded_keys ms
  type_name : type_of r.0 ≡ type_of ms
  items : find "items" r.0 ≡ find "items" ms
  clean : in_properties (is_forwardable levels) (find "properties" r.0) ≡ true
  paid : sum_properties (nodes levels) (find "properties" r.0) + r.1 ≡ budget

-- What the check of the items leaves of a node.
record KeepsProperties (levels : ℕ) (ms : Members) (budget : ℕ) (r : Members × ℕ) : Type 0 where
  keys : only_keys forwarded_keys r.0 ≡ only_keys forwarded_keys ms
  type_name : type_of r.0 ≡ type_of ms
  properties : find "properties" r.0 ≡ find "properties" ms
  clean : in_items (is_forwardable levels) (find "items" r.0) ≡ true
  paid : sum_items (nodes levels) (find "items" r.0) + r.1 ≡ budget

module _ (levels : ℕ) (child : Check) (pays : Pays levels child) where
  each_property_lem :
      (ms : Members) (budget : ℕ)
      → Gives
          (λ r.
            (all_members (is_forwardable levels) r.0 ≡ true)
            × (sum_members (nodes levels) r.0 + r.1 ≡ budget))
          (each_property child ms budget)
  unfolding each_property
  each_property_lem Members.end budget = holds {a = (Members.end, budget)} (refl, omega arith)
  each_property_lem (Members.member name value ms) budget = Gives-require _ _ λ _.
      Gives->>= (pays value budget) λ first (good, paid).
        Gives->>= (each_property_lem ms first.1) λ others (goods, rest).
          holds {a = (Members.member name first.0 others.0, others.1)}
            (ground (arith, good, goods), omega (arith, paid, rest))

  set_properties :
      (ms properties : Members) (raw : Json) (budget left : ℕ)
      → find "properties" ms ≡ some raw
      → all_members (is_forwardable levels) properties ≡ true
      → sum_members (nodes levels) properties + left ≡ budget
      → KeepsNode levels ms budget (set_member "properties" (Json.obj properties) ms, left)
  set_properties ms properties raw budget left there good paid =
      let updated = find-set_member "properties" "properties" (Json.obj properties) ms in
      record {
        keys = only_keys-set_member "properties" (Json.obj properties) forwarded_keys ms;
        type_name = ground (arith, find-set_member "properties" "type" (Json.obj properties) ms);
        items = ground (arith, find-set_member "properties" "items" (Json.obj properties) ms);
        clean = ground (arith, updated, there, good);
        paid = ground (arith, updated, there, paid);
      }

  node_properties_lem :
      (type_name : String) (raw : Option Json) (ms : Members) (budget : ℕ)
      → find "properties" ms ≡ raw
      → Gives (KeepsNode levels ms budget) (node_properties child type_name raw ms budget)
  node_properties_lem type_name none ms budget there = holds record {
    keys = refl;
    type_name = refl;
    items = refl;
    clean = ground (arith, there);
    paid = ground (arith, there);
  }
  node_properties_lem type_name (some raw) ms budget there =
      Gives-require (str_eq type_name "object") _ λ _.
        Gives->>= (Gives-any (property_map (object_of (some raw)))) λ properties _.
          Gives->>= (each_property_lem properties budget) λ checked (good, paid).
            holds (set_properties ms checked.0 raw budget checked.1 there good paid)

  set_items :
      (ms : Members) (item raw : Json) (budget left : ℕ)
      → find "items" ms ≡ some raw
      → is_forwardable levels item ≡ true
      → nodes levels item + left ≡ budget
      → KeepsProperties levels ms budget (set_member "items" item ms, left)
  set_items ms item raw budget left there good paid =
      let updated = find-set_member "items" "items" item ms in
      record {
        keys = only_keys-set_member "items" item forwarded_keys ms;
        type_name = ground (arith, find-set_member "items" "type" item ms);
        properties = ground (arith, find-set_member "items" "properties" item ms);
        clean = ground (arith, updated, there, good);
        paid = ground (arith, updated, there, paid);
      }

  node_items_lem :
      (type_name : String) (raw : Option Json) (ms : Members) (budget : ℕ)
      → find "items" ms ≡ raw
      → Gives (KeepsProperties levels ms budget) (node_items child type_name raw ms budget)
  node_items_lem type_name none ms budget there = Gives-unless _ _ _ λ _. record {
    keys = refl;
    type_name = refl;
    properties = refl;
    clean = ground (arith, there);
    paid = ground (arith, there);
  }
  node_items_lem type_name (some raw) ms budget there =
      Gives-require (str_eq type_name "array") _ λ _.
        Gives->>= (pays raw budget) λ checked (good, paid).
          holds (set_items ms checked.0 raw budget checked.1 there good paid)

whole_node :
    (levels : ℕ) (t : String) (plain ms₁ ms₂ : Members) (budget left₁ left₂ : ℕ)
    → only_keys forwarded_keys plain ≡ true
    → type_of plain ≡ some t
    → KeepsNode levels plain budget (ms₁, left₁)
    → KeepsProperties levels ms₁ left₁ (ms₂, left₂)
    → (is_forwardable (suc levels) (Json.obj ms₂) ≡ true)
      × (nodes (suc levels) (Json.obj ms₂) + left₂ ≡ suc budget)
unfolding is_forwardable nodes
whole_node levels t plain ms₁ ms₂ budget left₁ left₂ keys typed kept kept₂ =
    let allowed = kept₂.keys ∙ kept.keys ∙ keys in
    let type_name = kept₂.type_name ∙ kept.type_name ∙ typed in
    (
      ground (arith, allowed, type_name, kept₂.properties, kept.clean, kept₂.clean),
      ground (arith, kept₂.properties, kept.paid, kept₂.paid),
    )

schema_node_lem :
    (levels : ℕ) (child : Check)
    → Pays levels child
    → (root : Bool) (value : Json) (budget : ℕ)
    → Gives
        (λ r. (is_forwardable (suc levels) r.0 ≡ true) × (nodes (suc levels) r.0 + r.1 ≡ budget))
        (schema_node child root value budget)
unfolding schema_node
schema_node_lem levels child pays root value zero = refused
schema_node_lem levels child pays root (Json.obj ms) (suc budget) =
    Gives->>= (node_head_lem root ms) λ (t, plain) (keys, typed).
      Gives->>= (node_properties_lem levels child pays t _ plain budget refl) λ (ms₁, left₁) kept.
        Gives->>= (Gives-any (node_required t ms₁)) λ _ _.
          Gives->>= (node_items_lem levels child pays t _ ms₁ left₁ refl) λ (ms₂, left₂) kept₂.
            Gives->>= (Gives-any (node_values t ms₂)) λ _ _.
              holds {a = (Json.obj ms₂, left₂)}
                (whole_node levels t plain ms₁ ms₂ budget left₁ left₂ keys typed kept kept₂)
schema_node_lem levels child pays root _ (suc budget) = refused

pub check_schema-pays :
    (levels : ℕ) (root : Bool) (value : Json) (budget : ℕ)
    → Gives
        (λ r. (is_forwardable levels r.0 ≡ true) × (nodes levels r.0 + r.1 ≡ budget))
        (check_schema levels root value budget)
unfolding check_schema
check_schema-pays zero root value budget = refused
check_schema-pays (suc levels) root value budget =
    schema_node_lem levels (check_schema levels false) (check_schema-pays levels false) root value
      budget

-- A schema that is accepted as a tool's parameters is forwarded at most four levels deep, with a
-- supported type at each node and no keyword beside those that the worker may see, so without `$schema`
-- and `default`; and the budget has paid for each of its nodes.
pub validate_json_schema_bounds :
    (value schema : Json) (budget left : ℕ)
    → validate_json_schema value budget ≡ ok (schema, left)
    → (is_forwardable 4 schema ≡ true) × (nodes 4 schema + left ≡ budget)
validate_json_schema_bounds value schema budget left h =
    Gives-ok (check_schema-pays 4 true value budget) h
