-- ===== src/Request/Tools/Bounds.antt =====
-- internal/router/request.go, validateTools: what the declared tools are once accepted.
use provider_runpod.Base.{
  ℕ, ◌+◌, ◌≤◌, String, ◌≡◌, refl, Bool, true, false, not, ◌&&◌, List, [], ◌∷◌, Option, none, some,
  has_string, length, is_empty, leb, arith, Gives, holds, refused, Gives-require, Gives->>=,
}
use provider_runpod.Json.{Json, Items, Members, items, find, set_member, find-set_member}
use provider_runpod.Request.Fields.{string_of, object_of, array_of, matches_safe_name}
use provider_runpod.Request.Schema.{max_schema_nodes}
use provider_runpod.Request.Schema.Forwarded.{check_schema-pays}
use provider_runpod.Request.Schema.Nodes.{is_forwardable, nodes}
use provider_runpod.Request.Tools.{
  need, bounded_array, max_tools, tool_shape, function_shape, description_fits, function_head,
  each_tool, validate_tools,
}

-- The parameters of a tool.
abbrev parameters_of_function : Option Members → Option Json
parameters_of_function none = none
parameters_of_function (some function) = find "parameters" function

abbrev pub parameters_of : Json → Option Json
parameters_of (Json.obj tool) = parameters_of_function (object_of (find "function" tool))
parameters_of _ = none

abbrev forwards : Option Json → Bool
forwards none = false
forwards (some schema) = is_forwardable 4 schema

abbrev count : Option Json → ℕ
count none = 0
count (some schema) = nodes 4 schema

abbrev pub all_forward : Items → Bool
all_forward Items.nil = true
all_forward (Items.cons tool ts) = forwards (parameters_of tool) && all_forward ts

abbrev pub schema_nodes : Items → ℕ
schema_nodes Items.nil = 0
schema_nodes (Items.cons tool ts) = count (parameters_of tool) + schema_nodes ts

-- No name stands twice.
abbrev pub distinct : List String → Bool
distinct [] = true
distinct (name ∷ names) = not (has_string names name) && distinct names

pub need_lem {ℓ} :
    {A : Type ℓ} (message : String) (value : Option A)
    → Gives (λ a. value ≡ some a) (need message value)
need_lem message none = refused
need_lem message (some a) = holds refl

function_head_lem :
    (names : List String) (function : Members)
    → Gives
        (λ head. (has_string names head.0 ≡ false) × (find "parameters" function ≡ some head.1))
        (function_head names function)
unfolding function_head
function_head_lem names function = Gives-require (function_shape function) _ λ _.
    Gives->>= (need_lem "invalid function name" (string_of (find "name" function))) λ name _.
      Gives-require (matches_safe_name name) _ λ _.
        Gives-require (not (has_string names name)) _ λ fresh.
          Gives-require (description_fits (string_of (find "description" function))) _ λ _.
            Gives->>= (need_lem "function parameters are required" (find "parameters" function))
              λ parameters there. holds {a = (name, parameters)} (ground (arith, fresh), there)

updated_tool :
    (tool function : Members) (old schema : Json)
    → find "function" tool ≡ some (Json.obj function)
    → find "parameters" function ≡ some old
    → parameters_of
        (Json.obj (set_member "function" (Json.obj (set_member "parameters" schema function)) tool))
      ≡ some schema
updated_tool tool function old schema is_function there =
    let inner = find-set_member "parameters" "parameters" schema function in
    let outer =
      find-set_member "function" "function" (Json.obj (set_member "parameters" schema function))
        tool in
    ground (arith, inner, outer, is_function, there)

pub object_of-obj :
    (value : Option Json) (ms : Members) → object_of value ≡ some ms → value ≡ some (Json.obj ms)
object_of-obj (some (Json.obj ms')) ms h = cc
object_of-obj none ms h = cc
object_of-obj (some Json.null) ms h = cc
object_of-obj (some (Json.bool b)) ms h = cc
object_of-obj (some (Json.num x)) ms h = cc
object_of-obj (some (Json.literal s)) ms h = cc
object_of-obj (some (Json.str s)) ms h = cc
object_of-obj (some (Json.arr vs)) ms h = cc

-- Tools that are forwarded as they were accepted, at that budget and after those names.
pub record AreTools (raws : Items) (budget : ℕ) (before : List String) (r : Items × List String)
    : Type 0 where
  pub forward : all_forward r.0 ≡ true
  pub paid : schema_nodes r.0 ≤ budget
  pub names : distinct before ≡ true → distinct r.1 ≡ true
  pub one_each : length r.1 ≡ length (items r.0) + length before
  pub kept : length (items r.0) ≡ length (items raws)

each_tool_lem :
    (raws : Items) (budget : ℕ) (names : List String)
    → Gives (AreTools raws budget names) (each_tool raws budget names)
unfolding each_tool
each_tool_lem Items.nil budget names = holds {a = (Items.nil, names)} (record {
  forward = refl;
  paid = omega arith;
  names = λ h. h;
  one_each = omega arith;
  kept = refl;
})
each_tool_lem (Items.cons raw rest) budget names =
    Gives->>= (need_lem "only exact function tools are accepted" (object_of (some raw))) λ tool _.
      Gives-require (tool_shape tool) _ λ _.
        Gives->>= (need_lem "invalid function definition" (object_of (find "function" tool)))
          λ function is_function.
            Gives->>= (function_head_lem names function) λ (name, parameters) (fresh, there).
              Gives->>= (check_schema-pays 4 true parameters budget) λ (schema, left) (good, paid).
                Gives->>= (each_tool_lem rest left (name ∷ names)) λ (ts, declared) others.
                  let updated =
                    updated_tool tool function parameters schema
                      (object_of-obj _ function is_function) there in
                  holds {a = (Items.cons _ ts, declared)} (record {
                    forward = rw (updated, good) others.forward;
                    paid = rw updated (omega (arith, paid, others.paid));
                    names = λ h. others.names (ground (arith, h, fresh));
                    one_each = omega (arith, others.one_each);
                    kept = omega (arith, others.kept);
                  })

-- The tools of a request as they are forwarded.
pub record IsToolBox (ts : Items) (declared : List String) : Type 0 where
  pub few : length (items ts) ≤ max_tools
  pub forward : all_forward ts ≡ true
  pub paid : schema_nodes ts ≤ max_schema_nodes
  pub names : distinct declared ≡ true
  pub one_each : length declared ≡ length (items ts)

pub bounded_array_lem :
    (maximum : ℕ) (value : Option Json)
    → Gives (λ vs. length (items vs) ≤ maximum) (bounded_array maximum value)
bounded_array_lem maximum value =
    Gives->>= (need_lem "must be a bounded non-empty array" (array_of value)) λ vs _.
      Gives-require (not (is_empty (items vs)) && leb (length (items vs)) maximum) _
        λ h. holds (ground (arith, h))

-- Tools that a request declares are at most 32 with as many names, which differ; each schema is
-- forwarded at most four levels deep, with no other keywords than the worker may see and a type at each
-- node; and all of them together have at most 128 nodes.
pub validate_tools-IsToolBox :
    (value : Json)
    → Gives
        (λ r. (ts : Items) × (r.0 ≡ some (Json.arr ts)) × IsToolBox ts r.1)
        (validate_tools (some value))
unfolding validate_tools
validate_tools-IsToolBox value = Gives->>= (bounded_array_lem max_tools (some value)) λ raws few.
    Gives->>= (each_tool_lem raws max_schema_nodes []) λ (ts, declared) tools.
      holds {a = (some (Json.arr ts), declared)} (
        ts,
        refl,
        record {
          few = omega (arith, few, tools.kept);
          forward = tools.forward;
          paid = tools.paid;
          names = tools.names refl;
          one_each = omega (arith, tools.one_each);
        },
      )
