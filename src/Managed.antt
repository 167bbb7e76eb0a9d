-- ===== src/Managed.antt =====
-- What internal/controller/endpoint/endpoint.go and internal/controller/template/template.go have in
-- common: the annotations that mark an ambiguous create and a bound external ID.
pub mod Marks
use provider_runpod.Base.{
  true, false, List, Result, ok, err, Error, String, Bool, not, ◌&&◌, StringMap, insert, remove_key,
  lookup_or, str_eq,
}
use provider_runpod.Apis.{Time}
use provider_runpod.Apis.Crossplane.{Crossplane}

-- The annotation keys that differ between the two kinds.
pub record Keys : Type 0 where
  pub ambiguous_create_name : String
  pub external_id_bound : String

abbrev pub endpoint_keys : Keys
endpoint_keys = record {
  ambiguous_create_name = "endpoint.serverless.runpod.crossplane.io/ambiguous-create-name";
  external_id_bound = "endpoint.serverless.runpod.crossplane.io/external-id-bound";
}

abbrev pub template_keys : Keys
template_keys = record {
  ambiguous_create_name = "template.serverless.runpod.crossplane.io/ambiguous-create-name";
  external_id_bound = "template.serverless.runpod.crossplane.io/external-id-bound";
}

abbrev pub ambiguous_absence_confirmed : String
ambiguous_absence_confirmed = "runpod.crossplane.io/ambiguous-create-absence-confirmed"

abbrev pub external_create_pending : String
external_create_pending = "crossplane.io/external-create-pending"

unfoldable pub mark_ambiguous_create : Keys → String → StringMap → StringMap
mark_ambiguous_create keys name m = insert keys.ambiguous_create_name name m

unfoldable pub clear_ambiguous_create : Keys → StringMap → StringMap
clear_ambiguous_create keys m = remove_key keys.ambiguous_create_name m

unfoldable pub ambiguous_absence_acknowledged : StringMap → Bool
ambiguous_absence_acknowledged m =
    let pending = lookup_or "" external_create_pending m in
    not (str_eq pending "") && str_eq (lookup_or "" ambiguous_absence_confirmed m) pending

-- The annotations of `bindExternalID`.
unfoldable pub bind_annotations : Crossplane → Keys → String → Time → StringMap → StringMap
unfolding clear_ambiguous_create
bind_annotations x keys id now m =
    x.create_succeeded now (
      clear_ambiguous_create keys
        (insert keys.external_id_bound "true" (x.with_external_name id m)))

-- `managed.ExternalObservation`, by the fields that are set.
pub record ExternalObservation : Type 0 where
  pub resource_exists : Bool
  pub resource_up_to_date : Bool
  pub resource_late_initialized : Bool

abbrev pub absent : ExternalObservation
absent = record {
  resource_exists = false;
  resource_up_to_date = false;
  resource_late_initialized = false;
}

-- What a handler leaves: its result, the object, also on an error, and the calls that it made.
pub record Pass (K C A : Type 0) : Type 0 where
  pub result : Result A
  pub cr : C
  pub calls : List K

module _ {K C A : Type 0} where
  abbrev pub stop : C → List K → Error → Pass K C A
  stop cr calls e = record { result = err e; cr = cr; calls = calls }

  abbrev pub finish : C → List K → A → Pass K C A
  finish cr calls a = record { result = ok a; cr = cr; calls = calls }
