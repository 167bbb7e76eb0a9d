-- ===== src/Client/Methods/Lookup.antt =====
-- The recovery lookup by exact name.
use provider_runpod.Base.{
  String, List, [], ◌∷◌, none, some, ◌≡◌, refl, Result, ok, err, not_found, ambiguous, select,
  str_eq, arith, Error,
}
use provider_runpod.Client.Types.{Template, Endpoint}
use provider_runpod.Client.Methods.{
  Server, continue, find_loop, find_endpoint_by_name, find_template_by_name, list_endpoints,
  list_templates,
}

-- One resource, or the error that says how many there are.
abbrev pub only : {A : Type 0} → List A → Result A
only [] = err not_found
only (x ∷ []) = ok x
only (x ∷ y ∷ ys) = err ambiguous

abbrev pub named : {A : Type 0} → (A → String) → String → List A → List A
named name_of name xs = select (λ x. str_eq (name_of x) name) xs

module _ {A : Type 0} (name_of : A → String) (name : String) where
  find_loop-some :
      (x : A) (xs : List A) → find_loop name_of name (some x) xs ≡ only (x ∷ named name_of name xs)
  unfolding find_loop
  find_loop-some x [] = refl
  find_loop-some x (y ∷ ys) = ground (arith, find_loop-some x ys)

  pub find_loop_lem : (xs : List A) → find_loop name_of name none xs ≡ only (named name_of name xs)
  unfolding find_loop
  find_loop_lem [] = refl
  find_loop_lem (y ∷ ys) = ground (arith, find_loop-some y ys, find_loop_lem ys)

-- A lookup by name finds a resource exactly if one listed resource carries that name; it reports
-- absence if none does, and ambiguity if several do. If the list cannot be read or validated, its
-- error is the lookup's.
pub find_by_name_unique :
    (server : Server) (name : String)
    → ((all : List Endpoint)
        → (list_endpoints server).result ≡ ok all
        → (find_endpoint_by_name server name).result ≡ only (named Endpoint.name name all))
      × ((e : Error)
          → (list_endpoints server).result ≡ err e
          → (find_endpoint_by_name server name).result ≡ err e)
      × ((all : List Template)
          → (list_templates server).result ≡ ok all
          → (find_template_by_name server name).result ≡ only (named Template.name name all))
      × ((e : Error)
          → (list_templates server).result ≡ err e
          → (find_template_by_name server name).result ≡ err e)
unfolding find_endpoint_by_name find_template_by_name continue
find_by_name_unique server name = (
  λ all h. rw h (find_loop_lem Endpoint.name name all),
  λ e h. rw h refl,
  λ all h. rw h (find_loop_lem Template.name name all),
  λ e h. rw h refl,
)
