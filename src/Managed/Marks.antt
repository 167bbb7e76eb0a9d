-- ===== src/Managed/Marks.antt =====
-- What a binding and a mark leave on the annotations.
use provider_runpod.Base.{String, ◌≡◌, refl, ◌≢◌, ◌∙◌, StringMap, lookup_or, lookup-insert, eq_refl}
use provider_runpod.Apis.{Time}
use provider_runpod.Apis.Crossplane.{Crossplane, IsCrossplane, external_name_annotation}
use provider_runpod.Managed.{Keys, bind_annotations, mark_ambiguous_create}

-- The provider's own keys are not the external name's.
pub record AreOwn (k : Keys) : Type 0 where
  pub create : k.ambiguous_create_name ≢ external_name_annotation
  pub bound : k.external_id_bound ≢ external_name_annotation

-- A binding makes the ID the external name.
pub bind_annotations-external_name :
    (x : Crossplane)
    → IsCrossplane x
    → (k : Keys) → AreOwn k
    → (id : String) (now : Time) (m : StringMap)
    → x.external_name (bind_annotations x k id now m) ≡ id
unfolding bind_annotations
bind_annotations-external_name x laws k own id now m =
    laws.name-succeeded now _
    ∙ laws.name-remove _ _ own.create
    ∙ laws.name-insert _ _ _ own.bound
    ∙ laws.name-set id m

pub mark_ambiguous_create-lookup :
    (k : Keys) (name : String) (m : StringMap)
    → lookup_or "" k.ambiguous_create_name (mark_ambiguous_create k name m) ≡ name
unfolding mark_ambiguous_create
mark_ambiguous_create-lookup k name m =
    rw
      (
        lookup-insert k.ambiguous_create_name k.ambiguous_create_name name m,
        eq_refl k.ambiguous_create_name,
      )
      refl
