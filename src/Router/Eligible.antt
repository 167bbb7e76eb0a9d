-- ===== src/Router/Eligible.antt =====
-- internal/router/router.go: which EndpointChecks may be routed to, and which tokens are sent.
use provider_runpod.Base.{
  ℕ, ◌+◌, String, len, Bool, false, not, ◌&&◌, ◌||◌, List, [], ◌∷◌, Option, none, some, Result, ok,
  err, str_eq, has_string, leb, ◌==◌, value_or, lookup, select, codes, any, if◌then◌else◌,
}
use provider_runpod.Apis.{
  EndpointCheck, EndpointResource, TemplateResource, Time, seconds, is_zero, before, deadline,
  same_version, flash_boot_evidence_current, worker_security_evidence_current,
}
use provider_runpod.Apis.Crossplane.{Crossplane}
use provider_runpod.Apis.Reader.{Reader}
use provider_runpod.Credentials.{Secret}
use provider_runpod.Identifier.{is_runpod_id, validate_runpod_id}

abbrev pub router_drain_finalizer : String
router_drain_finalizer = "router.runpod.crossplane.io/drain"

abbrev pub max_liveness_age : ℕ
max_liveness_age = seconds 90

abbrev pub verification_interval : EndpointCheck → ℕ
verification_interval check =
    if check.spec.verification_interval_seconds == 0
    then seconds 3600
    else seconds check.spec.verification_interval_seconds

-- Not after `now` by more than 30 seconds, and not older than the age.
abbrev pub recent : Time → ℕ → Time → Bool
recent now age t = not (is_zero t) && leb t (now + seconds 30) && leb now (t + age)

abbrev pub is_fresh : EndpointCheck → Time → Bool
is_fresh check now =
    check.observed_generation == check.metadata.generation
    && recent now max_liveness_age check.at_provider.last_checked_at
    && recent now (verification_interval check + max_liveness_age)
        check.at_provider.last_verified_at

abbrev pub or_fails {ℓ} : {A : Type ℓ} → Result A → (A → Bool) → Bool
or_fails (ok a) test = test a
or_fails (err e) test = false

abbrev pub or_missing {ℓ} : {A : Type ℓ} → Option A → (A → Bool) → Bool
or_missing (some a) test = test a
or_missing none test = false

module _ (x : Crossplane) where
  -- What the Endpoint, its Template and the observation of the check must agree on.
  unfoldable pub revision_agrees : EndpointCheck → EndpointResource → TemplateResource → Time → Bool
  unfolding validate_runpod_id flash_boot_evidence_current worker_security_evidence_current
  revision_agrees check ep template now =
      let endpoint_id = x.external_name ep.metadata.annotations in
      let template_id = x.external_name template.metadata.annotations in
      let observed = check.at_provider in
      not ep.metadata.is_deleting
      && ep.observed_generation == ep.metadata.generation
      && x.is_ready ep.conditions
      && x.is_synced ep.conditions
      && before now (deadline ep.metadata ep.spec.max_lifetime_seconds)
      && flash_boot_evidence_current ep.at_provider now
      && worker_security_evidence_current ep.at_provider
      && not template.metadata.is_deleting
      && template.observed_generation == template.metadata.generation
      && x.is_ready template.conditions
      && x.is_synced template.conditions
      && (is_zero template.metadata.creation_timestamp
          || before now (deadline template.metadata template.spec.max_lifetime_seconds))
      && str_eq template.metadata.uid ep.at_provider.template_resource_uid
      && template.metadata.generation == ep.at_provider.template_resource_generation
      && str_eq template.spec.image_name ep.at_provider.template_image_digest
      && is_runpod_id endpoint_id
      && str_eq endpoint_id ep.at_provider.id
      && str_eq endpoint_id observed.endpoint_id
      && is_runpod_id template_id
      && str_eq template_id template.at_provider.id
      && str_eq template_id ep.at_provider.template_id
      && str_eq ep.metadata.uid observed.endpoint_resource_uid
      && ep.metadata.generation == observed.endpoint_resource_generation
      && same_version ep.at_provider.version observed.endpoint_version
      && str_eq ep.at_provider.template_resource_uid observed.template_resource_uid
      && ep.at_provider.template_resource_generation == observed.template_resource_generation
      && str_eq ep.at_provider.template_image_digest observed.template_image_digest

  unfoldable pub endpoint_revision_matches : Reader → EndpointCheck → Time → Bool
  unfolding revision_agrees
  endpoint_revision_matches reader check now = or_missing check.spec.endpoint_id_ref λ ref.
      or_fails (reader.get_endpoint check.metadata.namespace ref) λ ep.
        or_missing ep.spec.template_id_ref λ template_ref.
          or_fails (reader.get_template ep.metadata.namespace template_ref)
            λ template. revision_agrees check ep template now

  -- A check that may be routed to.
  unfoldable pub is_eligible : Reader → Time → EndpointCheck → Bool
  unfolding endpoint_revision_matches
  is_eligible reader now check =
      let observed = check.at_provider in
      not check.metadata.is_deleting
      && x.is_ready check.conditions
      && has_string check.metadata.finalizers router_drain_finalizer
      && is_fresh check now
      && before now (deadline check.metadata check.spec.max_lifetime_seconds)
      && observed.healthy
      && observed.model_verified
      && observed.tool_call_verified
      && not (str_eq observed.endpoint_id "")
      && endpoint_revision_matches reader check now
      && is_runpod_id observed.endpoint_id

  abbrev pub eligible : Reader → Time → List EndpointCheck → List EndpointCheck
  eligible reader now checks = select (is_eligible reader now) checks

-- `unicode.IsSpace`
abbrev pub is_white : ℕ → Bool
is_white c =
    leb 9 c && leb c 13
    || c == 32
    || c == 0x85
    || c == 0xA0
    || c == 0x1680
    || leb 0x2000 c && leb c 0x200A
    || c == 0x2028
    || c == 0x2029
    || c == 0x202F
    || c == 0x205F
    || c == 0x3000

abbrev pub ends_white : List ℕ → Bool
ends_white [] = false
ends_white (c ∷ []) = is_white c
ends_white (c ∷ d ∷ cs) = ends_white (d ∷ cs)

abbrev pub starts_white : List ℕ → Bool
starts_white [] = false
starts_white (c ∷ cs) = is_white c

-- `strings.TrimSpace(s) == s`
abbrev pub is_trimmed : String → Bool
is_trimmed s = not (starts_white (codes s)) && not (ends_white (codes s))

-- `bytes.ContainsAny(token, "\r\n")`
abbrev pub has_line_break : String → Bool
has_line_break s = any (λ c. c == 13 || c == 10) (codes s)

abbrev pub token_fits : String → Bool
token_fits token =
    not (len token == 0) && leb (len token) 4096 && is_trimmed token && not (has_line_break token)

abbrev pub token_of : Secret → EndpointCheck → String
token_of secret check =
    value_or "" (lookup check.spec.inference_credentials_secret_ref.key secret.entries)
