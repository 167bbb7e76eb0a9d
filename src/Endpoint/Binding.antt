-- ===== src/Endpoint/Binding.antt =====
-- internal/controller/endpoint/endpoint.go: binding an external ID, and resolving the Template.
use provider_runpod.Base.{
  String, ℤ, pos, not, ◌&&◌, ◌||◌, List, Option, none, some, ltb, ◌==◌, str_eq, Result, ok, err,
  not_found, failure, if◌then◌else◌, and_then,
}
use provider_runpod.Identifier.{is_runpod_id}
use provider_runpod.Apis.{EndpointResource, TemplateResource, Time, is_zero, before, deadline}
use provider_runpod.Apis.Crossplane.{Crossplane}
use provider_runpod.Apis.Reader.{Reader}
use provider_runpod.Managed.{endpoint_keys, bind_annotations}
use provider_runpod.Endpoint.Settings.{TemplateBinding, no_binding}

abbrev pub with_annotations : EndpointResource → (List (String × String)) → EndpointResource
with_annotations cr m = record cr { metadata = record (cr.metadata) { annotations = m } }

unfoldable pub bind_external_id : Crossplane → EndpointResource → String → Time → EndpointResource
bind_external_id x cr id now =
    record (with_annotations cr (bind_annotations x endpoint_keys id now cr.metadata.annotations)) {
      at_provider = record (cr.at_provider) { id = id };
    }

abbrev default_container_disk_in_gb : ℤ
default_container_disk_in_gb = pos 50

abbrev disk_or_default : Option ℤ → ℤ
disk_or_default none = default_container_disk_in_gb
disk_or_default (some n) = n

-- The checks on the referenced Template, and the binding that it gives.
unfoldable pub bind_template :
    Crossplane → EndpointResource → TemplateResource → Time → Result TemplateBinding
bind_template x cr t now =
    let template_deadline = deadline t.metadata t.spec.max_lifetime_seconds in
    let id = x.external_name t.metadata.annotations in
    if t.metadata.is_deleting
      || not (t.observed_generation == t.metadata.generation)
      || not (x.is_ready t.conditions)
      || not (x.is_synced t.conditions)
    then err (failure "referenced Template is not Ready for its current generation")
    else if not (is_zero t.metadata.creation_timestamp) && not (before now template_deadline)
    then err (failure "referenced Template maximum lifetime has elapsed")
    else if not (is_zero t.metadata.creation_timestamp)
        && not (is_zero cr.metadata.creation_timestamp)
        && ltb template_deadline (deadline cr.metadata cr.spec.max_lifetime_seconds)
    then err (failure "Endpoint lifetime may not outlast its referenced Template")
    else if str_eq id "" || not (is_runpod_id id) || not (str_eq t.at_provider.id id)
    then err
        (failure "referenced Template external-name is not bound to its controller-observed ID")
    else ok (record {
      id = id;
      uid = t.metadata.uid;
      generation = t.metadata.generation;
      image = t.spec.image_name;
      name = t.at_provider.name;
      container_disk_gb = disk_or_default t.spec.container_disk_in_gb;
      entrypoint = t.spec.docker_entrypoint;
      start_cmd = t.spec.docker_start_cmd;
      ports = t.spec.ports;
    })

abbrev resolve_reference :
    Crossplane → Reader → EndpointResource → Time → Option String → Result TemplateBinding
resolve_reference x reader cr now none = err (
    failure
      "templateIdRef is required; direct external Template IDs bypass the bounded Template contract")
resolve_reference x reader cr now (some name) =
    and_then (reader.get_template cr.metadata.namespace name) λ t. bind_template x cr t now

-- A terminating Endpoint must reach its deletion without a usable Template.
unfoldable pub resolve_template :
    Crossplane → Reader → EndpointResource → Time → Result TemplateBinding
unfolding bind_template
resolve_template x reader cr now =
    if cr.metadata.is_deleting
    then ok no_binding
    else resolve_reference x reader cr now cr.spec.template_id_ref

abbrev cleanup_id : Crossplane → Result TemplateResource → Result String
cleanup_id x (err not_found) = ok ""
cleanup_id x (err _) =
    err (failure "cannot read referenced Template during Endpoint cleanup recovery")
cleanup_id x (ok t) =
    let id = x.external_name t.metadata.annotations in
    if not (str_eq id "") && not (is_runpod_id id)
    then err (failure "referenced Template has an invalid external ID")
    else ok id

abbrev cleanup_reference : Crossplane → Reader → EndpointResource → Option String → Result String
cleanup_reference x reader cr none = ok ""
cleanup_reference x reader cr (some name) =
    cleanup_id x (reader.get_template cr.metadata.namespace name)

unfoldable pub expected_template_id_for_cleanup :
    Crossplane → Reader → EndpointResource → Result String
expected_template_id_for_cleanup x reader cr = cleanup_reference x reader cr cr.spec.template_id_ref
