-- ===== src/Apis/Crossplane.antt =====
-- What the controllers take from crossplane-runtime's `meta` package and from its conditions. The
-- code is not in the repository: it is a parameter, with the documented behaviour as its laws.
use provider_runpod.Base.{
  ℕ, String, Bool, true, false, ◌≡◌, ◌≢◌, List, ◌∷◌, StringMap, insert, remove_key,
}
use provider_runpod.Apis.{Condition, available, unavailable, reconcile_success, reconcile_error}

abbrev pub external_name_annotation : String
external_name_annotation = "crossplane.io/external-name"

pub record Crossplane : Type 0 where
  -- `meta.GetExternalName`, `meta.SetExternalName`
  pub external_name : StringMap → String
  pub with_external_name : String → StringMap → StringMap
  -- `meta.ExternalCreateIncomplete`, `meta.SetExternalCreateSucceeded`
  pub create_incomplete : StringMap → Bool
  pub create_succeeded : ℕ → StringMap → StringMap
  -- `GetCondition(TypeReady).Status == True`, and the same of `TypeSynced`
  pub is_ready : List Condition → Bool
  pub is_synced : List Condition → Bool

-- The documented behaviour that the program relies on: the external name is an annotation of its own,
-- and recording a success touches neither it nor any annotation outside crossplane's own.
pub record IsCrossplane (x : Crossplane) : Type 0 where
  pub name-set : (id : String) (m : StringMap) → x.external_name (x.with_external_name id m) ≡ id
  pub name-succeeded :
      (t : ℕ) (m : StringMap) → x.external_name (x.create_succeeded t m) ≡ x.external_name m
  pub name-insert :
      (k v : String) (m : StringMap)
      → k ≢ external_name_annotation
      → x.external_name (insert k v m) ≡ x.external_name m
  pub name-remove :
      (k : String) (m : StringMap)
      → k ≢ external_name_annotation
      → x.external_name (remove_key k m) ≡ x.external_name m
  pub ready-available : (cs : List Condition) → x.is_ready (available ∷ cs) ≡ true
  pub ready-unavailable : (cs : List Condition) → x.is_ready (unavailable ∷ cs) ≡ false
  pub ready-success : (cs : List Condition) → x.is_ready (reconcile_success ∷ cs) ≡ x.is_ready cs
  pub ready-error : (cs : List Condition) → x.is_ready (reconcile_error ∷ cs) ≡ x.is_ready cs
