-- ===== src/Verification/Resolve.antt =====
-- internal/controller/endpointcheck/endpointcheck.go, resolveEndpoint: the Endpoint and the Template revision
-- that a check is about.
use provider_runpod.Base.{
  String, ℤ, Bool, not, ◌&&◌, Option, none, some, Result as Answer, ok, err, failure,
  lifetime_expired, str_eq, ◌==◌, if◌then◌else◌,
}
use provider_runpod.Apis.{
  EndpointCheck, EndpointResource, TemplateResource, Time, is_zero, before, deadline,
  flash_boot_evidence_current, worker_security_evidence_current,
}
use provider_runpod.Apis.Crossplane.{Crossplane}
use provider_runpod.Apis.Reader.{Reader}
use provider_runpod.Identifier.{is_runpod_id, validate_runpod_id}
use provider_runpod.Verification.{EndpointBinding}

module _ (x : Crossplane) where
  abbrev pub template_current : EndpointResource → TemplateResource → Bool
  template_current ep template =
      not template.metadata.is_deleting
      && template.observed_generation == template.metadata.generation
      && x.is_ready template.conditions
      && x.is_synced template.conditions
      && str_eq template.metadata.uid ep.at_provider.template_resource_uid
      && template.metadata.generation == ep.at_provider.template_resource_generation
      && str_eq template.spec.image_name ep.at_provider.template_image_digest

  abbrev pub template_bound : EndpointResource → TemplateResource → Bool
  template_bound ep template =
      let id = x.external_name template.metadata.annotations in
      is_runpod_id id && str_eq id template.at_provider.id && str_eq ep.at_provider.template_id id

  abbrev pub binding_of : EndpointResource → TemplateResource → ℤ → EndpointBinding
  binding_of ep template version = record {
    id = x.external_name ep.metadata.annotations;
    resource_uid = ep.metadata.uid;
    resource_generation = ep.metadata.generation;
    version = version;
    expires_at = deadline ep.metadata ep.spec.max_lifetime_seconds;
    template_uid = template.metadata.uid;
    template_generation = template.metadata.generation;
    template_image = template.spec.image_name;
    worker_proven = worker_security_evidence_current ep.at_provider;
    worker_observed_at = ep.at_provider.worker_security_observed_at;
  }

  abbrev pub bind_revision :
      Time → EndpointResource → ℤ → Answer TemplateResource → Answer EndpointBinding
  bind_revision now ep version (err e) = err (failure "cannot resolve Endpoint Template revision")
  bind_revision now ep version (ok template) =
      if not (template_current ep template)
      then err (failure "referenced Endpoint is not bound to the current managed Template revision")
      else if not (template_bound ep template)
      then err (
          failure
            "referenced Endpoint and Template external IDs are not controller-observed bindings")
      else if not (is_zero template.metadata.creation_timestamp)
          && not (before now (deadline template.metadata template.spec.max_lifetime_seconds))
      then err lifetime_expired
      else ok (binding_of ep template version)

  abbrev pub endpoint_current : Time → EndpointResource → Bool
  endpoint_current now ep =
      not ep.metadata.is_deleting
      && ep.observed_generation == ep.metadata.generation
      && x.is_ready ep.conditions
      && x.is_synced ep.conditions
      && flash_boot_evidence_current ep.at_provider now

  abbrev pub endpoint_bound : EndpointResource → Bool
  endpoint_bound ep =
      let id = x.external_name ep.metadata.annotations in
      is_runpod_id id && str_eq id ep.at_provider.id

  module _ (reader : Reader) (now : Time) where
    abbrev pub bind_template : EndpointResource → ℤ → Option String → Answer EndpointBinding
    bind_template ep version none =
        err (failure "referenced Endpoint has no managed Template reference")
    bind_template ep version (some ref) =
        bind_revision now ep version (reader.get_template ep.metadata.namespace ref)

    abbrev pub bind_version : EndpointResource → Option ℤ → Answer EndpointBinding
    bind_version ep none = err (failure "referenced Endpoint has no observed rollout version")
    bind_version ep (some version) =
        if not (endpoint_bound ep)
        then err
            (failure "referenced Endpoint external-name is not bound to its controller-observed ID")
        else bind_template ep version ep.spec.template_id_ref

    abbrev pub bind_endpoint : Answer EndpointResource → Answer EndpointBinding
    bind_endpoint (err e) = err (failure "cannot resolve referenced Endpoint")
    bind_endpoint (ok ep) =
        if not (before now (deadline ep.metadata ep.spec.max_lifetime_seconds))
        then err lifetime_expired
        else if not (endpoint_current now ep)
        then err (failure "referenced Endpoint is not Ready for its current generation")
        else bind_version ep ep.at_provider.version

    abbrev pub resolve_from : EndpointCheck → Option String → Answer EndpointBinding
    resolve_from check none = err (failure "endpointIdRef is required")
    resolve_from check (some ref) = bind_endpoint (reader.get_endpoint check.metadata.namespace ref)

    unfoldable pub resolve_endpoint : EndpointCheck → Answer EndpointBinding
    unfolding validate_runpod_id flash_boot_evidence_current worker_security_evidence_current
    resolve_endpoint check = resolve_from check check.spec.endpoint_id_ref
