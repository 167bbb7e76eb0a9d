-- ===== src/Tests/Platform.antt =====
-- An implementation of what crossplane-runtime gives, and API servers.
use provider_runpod.Base.{
  String, ◌≡◌, refl, ◌≢◌, Bool, true, false, not, ◌&&◌, List, [], ◌∷◌, StringMap, insert,
  remove_key, lookup-insert, lookup-remove_key, lookup_or, value_or, str_eq, eq_iff, arith, ok, err,
  not_found, ap,
}
use provider_runpod.Apis.{Condition, available, reconcile_success, reconcile_error}
use provider_runpod.Apis.Crossplane.{Crossplane, IsCrossplane, external_name_annotation}
use provider_runpod.Apis.Reader.{Reader}
use provider_runpod.Managed.{external_create_pending}

abbrev external_create_succeeded : String
external_create_succeeded = "crossplane.io/external-create-succeeded"

abbrev ready : List Condition → Bool
ready [] = false
ready (available ∷ cs) = true
ready (reconcile_success ∷ cs) = ready cs
ready (reconcile_error ∷ cs) = ready cs
ready (_ ∷ cs) = false

abbrev synced : List Condition → Bool
synced [] = false
synced (reconcile_success ∷ cs) = true
synced (reconcile_error ∷ cs) = false
synced (_ ∷ cs) = synced cs

abbrev pub runtime : Crossplane
runtime = record {
  external_name = lookup_or "" external_name_annotation;
  with_external_name = insert external_name_annotation;
  create_incomplete = λ m.
      not (str_eq (lookup_or "" external_create_pending m) "")
      && str_eq (lookup_or "" external_create_succeeded m) "";
  create_succeeded = λ _ m. insert external_create_succeeded "now" m;
  is_ready = ready;
  is_synced = synced;
}

insert-lookup_or :
    (k v : String) (m : StringMap)
    → k ≢ external_name_annotation
    → lookup_or "" external_name_annotation (insert k v m) ≡ lookup_or "" external_name_annotation m
insert-lookup_or k v m n =
    ground (arith, eq_iff k external_name_annotation, lookup-insert k external_name_annotation v m)

remove_key-lookup_or :
    (k : String) (m : StringMap)
    → k ≢ external_name_annotation
    → lookup_or "" external_name_annotation (remove_key k m)
      ≡ lookup_or "" external_name_annotation m
remove_key-lookup_or k m n =
    ground
      (arith, eq_iff k external_name_annotation, lookup-remove_key k external_name_annotation m)

pub runtime-IsCrossplane : IsCrossplane runtime
runtime-IsCrossplane = record {
  name-set = λ id m.
      ap (value_or "") (lookup-insert external_name_annotation external_name_annotation id m);
  name-succeeded = λ t m.
      insert-lookup_or external_create_succeeded "now" m (λ e. ground (arith, (eq_iff _ _).1 e));
  name-insert = insert-lookup_or;
  name-remove = remove_key-lookup_or;
  ready-available = λ cs. refl;
  ready-unavailable = λ cs. refl;
  ready-success = λ cs. refl;
  ready-error = λ cs. refl;
}

-- A namespace without objects.
abbrev pub empty_namespace : Reader
empty_namespace = record {
  get_endpoint = λ _ _. err not_found;
  get_template = λ _ _. err not_found;
  get_secret = λ _ _. err not_found;
  list_checks = λ _. ok [];
  list_endpoints = λ _. ok [];
}
