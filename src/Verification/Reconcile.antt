-- ===== src/Verification/Reconcile.antt =====
-- internal/controller/endpointcheck/endpointcheck.go, Reconcile: one pass over an EndpointCheck, with the
-- writes that it makes and the probes that it sends, in order. The clock is read once.
pub mod Passes
pub mod Quiet
pub mod Billing
pub mod Silent
pub mod Ready
use provider_runpod.Base.{
  ℕ, ◌+◌, ◌-◌, String, pos, Bool, true, false, not, ◌&&◌, List, [], ◌∷◌, ◌++◌, Option, none, some,
  Result as Answer, ok, err, Error, failure, is_ok, is_not_found, lifetime_expired, str_eq,
  has_string, ltb, leb, ◌==◌, lookup, insert, if◌then◌else◌,
}
use provider_runpod.Apis.{
  EndpointCheck, EndpointCheckObservation, EndpointResource, Time, Condition, available,
  unavailable, reconcile_success, reconcile_error, seconds, is_zero, before, deadline,
}
use provider_runpod.Apis.Crossplane.{Crossplane}
use provider_runpod.Apis.Reader.{Reader}
use provider_runpod.Credentials.{Secret, require_purpose, purpose_inference}
use provider_runpod.Inference.{Reading, Call, Response, Client, new_client, check_health, verify}
use provider_runpod.Router.Eligible.{router_drain_finalizer}
use provider_runpod.Verification.{
  EndpointBinding, Result, poll_interval, inference_url, next_poll, observation,
  full_verification_due, verification_admitted,
}
use provider_runpod.Verification.Resolve.{resolve_endpoint}

abbrev pub worker_observation_handshake : ℕ
worker_observation_handshake = seconds 30

abbrev pub min_duration : ℕ → ℕ → ℕ
min_duration a b = if ltb a b then a else b

-- What a pass does beyond reading: writes of the check, and of the request on its Endpoint; and probes,
-- of which the verification may be billed.
pub data Event : Type 0 where
  update_check delete_check update_status : EndpointCheck → Event
  annotate_endpoint : EndpointResource → Event
  health_probe : Event
  verification : Event

-- `ctrl.Result`
pub data Next : Type 0 where
  finished requeue : Next
  requeue_after : ℕ → Next

pub record Pass : Type 0 where
  pub result : Answer Next
  pub events : List Event

abbrev pub done : Answer Next → Pass
done result = record { result = result; events = [] }

-- An event, and what follows if it is answered without an error.
abbrev pub after_event : Event → Pass → Pass
after_event e p = record { result = p.result; events = e ∷ p.events }

abbrev pub write_then : Event → Answer (Unit {0}) → Pass → Pass
write_then e (err cause) p = record { result = err cause; events = e ∷ [] }
write_then e (ok tt) p = after_event e p

abbrev pub set_conditions : Condition → Condition → EndpointCheck → EndpointCheck
set_conditions first second check = record check { conditions = second ∷ first ∷ check.conditions }

abbrev pub no_binding : EndpointBinding
no_binding = record {
  id = "";
  resource_uid = "";
  resource_generation = 0;
  version = pos 0;
  expires_at = 0;
  template_uid = "";
  template_generation = 0;
  template_image = "";
  worker_proven = false;
  worker_observed_at = 0;
}

abbrev pub no_result : Result
no_result = record { healthy = false; model_verified = false; tool_call_verified = false }

abbrev is_lifetime_expired : Error → Bool
is_lifetime_expired lifetime_expired = true
is_lifetime_expired _ = false

abbrev earlier : Time → Time → Time
earlier a b = if before a b then a else b

-- The full verification passed for the present generation, and Ready is yet to come.
unfoldable pub worker_admission_pending : Crossplane → EndpointCheck → Bool
worker_admission_pending x check =
    check.observed_generation == check.metadata.generation
    && not (x.is_ready check.conditions)
    && check.at_provider.healthy
    && check.at_provider.model_verified
    && check.at_provider.tool_call_verified
    && not (is_zero check.at_provider.last_verified_at)

-- The last pass is younger than the interval.
abbrev pub waits : Crossplane → EndpointCheck → Time → Bool
waits x check now =
    check.observed_generation == check.metadata.generation
    && not (is_zero check.at_provider.last_checked_at)
    && not (worker_admission_pending x check)
    && before now (check.at_provider.last_checked_at + poll_interval)

abbrev pub timeout_of : EndpointCheck → ℕ
timeout_of check =
    if check.spec.timeout_seconds == 0 then seconds 180 else seconds check.spec.timeout_seconds

-- What the cheap probe records of the subject that it probed.
abbrev pub seen_alive : EndpointCheck → EndpointBinding → Time → EndpointCheck
seen_alive check b now = record check {
  observed_generation = check.metadata.generation;
  at_provider = record (check.at_provider) {
    endpoint_id = b.id;
    endpoint_resource_uid = b.resource_uid;
    endpoint_resource_generation = b.resource_generation;
    endpoint_version = some b.version;
    inference_url = inference_url b.id;
    last_checked_at = now;
  };
}

-- `format` is the text of a time, `network` what the Endpoint answers, and `answer` what the API server
-- says to a write.
module _ (x : Crossplane) (reader : Reader) (reading : Reading) (network : Client → Call → Response)
    (format : Time → String) (answer : Event → Answer (Unit {0})) (now : Time) where
  abbrev pub poll : Time → Pass
  poll expires_at = done (ok (requeue_after (next_poll expires_at now)))

  abbrev pub write_status : EndpointCheck → Pass → Pass
  write_status check p = write_then (update_status check) (answer (update_status check)) p

  abbrev pub delete_it : EndpointCheck → Pass
  delete_it check =
      write_then (delete_check check) (answer (delete_check check)) (done (ok finished))

  abbrev pub unready : EndpointCheck → EndpointCheck
  unready check = set_conditions unavailable reconcile_error check

  abbrev pub observed : EndpointCheck → EndpointCheckObservation → EndpointCheck
  observed check o = record check {
    observed_generation = check.metadata.generation;
    at_provider = o;
  }

  unfoldable pub fail : EndpointCheck → Time → Pass
  unfolding observation next_poll
  fail check expires_at =
      write_status (unready (observed check (observation no_binding no_result "" now 0 0)))
        (poll expires_at)

  unfoldable pub fail_liveness : EndpointCheck → Time → Pass
  unfolding next_poll
  fail_liveness check expires_at =
      write_status (unready (observed check (record (check.at_provider) { last_checked_at = now })))
        (poll expires_at)

  unfoldable pub fail_verification : EndpointCheck → Result → EndpointBinding → String → Time → Pass
  unfolding observation next_poll
  fail_verification check result b version expires_at =
      write_status (unready (observed check (observation b result version now now 0)))
        (poll expires_at)

  abbrev pub requested : EndpointResource → EndpointResource
  requested ep = record ep {
    metadata = record ep.metadata {
      annotations =
          insert "crossplane.io/reconcile-requested-at" (format now) ep.metadata.annotations;
    };
  }

  -- The request on the Endpoint, with what follows its failure and its success.
  abbrev pub patch_endpoint : Answer EndpointResource → Pass → Pass → Pass
  patch_endpoint (err e) failed then_after = failed
  patch_endpoint (ok ep) failed then_after = patched (answer (annotate_endpoint (requested ep)))
    where
      patched : Answer (Unit {0}) → Pass
      patched (err e) = after_event (annotate_endpoint (requested ep)) failed
      patched (ok tt) = after_event (annotate_endpoint (requested ep)) then_after

  abbrev pub request_from : EndpointCheck → Option String → Pass → Pass → Pass
  request_from check none failed then_after = failed
  request_from check (some ref) failed then_after =
      patch_endpoint (reader.get_endpoint check.metadata.namespace ref) failed then_after

  unfoldable pub request_endpoint_observation : EndpointCheck → Pass → Pass → Pass
  unfolding insert
  request_endpoint_observation check failed then_after =
      request_from check check.spec.endpoint_id_ref failed then_after

  abbrev pub soon : Time → Pass
  soon expires_at = done (ok (requeue_after (min_duration (seconds 2) (expires_at - now))))

  module _ (check : EndpointCheck) (b : EndpointBinding) (version : String)
      (expires_at : Time) where
    -- After the cheap probe succeeded.
    abbrev pub alive : Pass
    alive =
        let seen = seen_alive check b now in
        write_status
          (if verification_admitted seen b version
            then set_conditions available reconcile_success seen
            else unready seen)
          (poll expires_at)

    abbrev pub on_probe : Answer String → Pass
    on_probe (err e) = after_event health_probe (fail_liveness check expires_at)
    on_probe (ok body) = after_event health_probe alive

    abbrev pub probe : Answer Client → Pass
    probe (err e) = fail check expires_at
    probe (ok c) = on_probe (check_health reading (network c) c)

    abbrev pub passed : Result → Pass
    passed result =
        let seen = observed check (observation b result version now now now) in
        if b.worker_proven
        then write_status (set_conditions available reconcile_success seen) (poll expires_at)
        else write_status (unready seen) (
            request_endpoint_observation (unready seen)
              (done (err (failure "cannot annotate Endpoint for worker observation")))
              (soon expires_at))

    abbrev pub on_verified : Result → Answer (Unit {0}) → Pass
    on_verified result (err e) =
        after_event verification (fail_verification check result b version expires_at)
    on_verified result (ok tt) = after_event verification (passed result)

    abbrev pub verify_fully : Answer Client → Pass
    verify_fully (err e) = fail check expires_at
    verify_fully (ok c) =
        let v = verify reading (network c) c check.spec.expected_model_id in
        on_verified v.flags v.result

    abbrev pub verify_or_probe : Bool → Answer Client → Pass
    verify_or_probe due c = if not due then probe c else verify_fully c

    abbrev pub on_pending : Bool → Answer Client → Pass
    on_pending due c =
        let attempt = check.at_provider.last_verification_attempt_at in
        if b.worker_proven && ltb attempt b.worker_observed_at
        then write_status
            (set_conditions available reconcile_success
              (record check { at_provider = record (check.at_provider) { last_checked_at = now } }))
            (poll expires_at)
        else if leb now (attempt + worker_observation_handshake)
        then request_endpoint_observation check (fail_liveness check expires_at) (soon expires_at)
        else if not due
        then poll expires_at
        else verify_or_probe due c

    unfoldable pub with_token : String → Pass
    unfolding new_client full_verification_due verification_admitted fail fail_liveness
        fail_verification request_endpoint_observation check_health verify observation next_poll
        worker_admission_pending
    with_token token =
        let due = full_verification_due check b version now in
        let c = new_client b.id token (timeout_of check) in
        if worker_admission_pending x check
          && str_eq check.at_provider.credentials_secret_resource_version version
          && verification_admitted check b version
        then on_pending due c
        else verify_or_probe due c

  abbrev pub with_entry : EndpointCheck → EndpointBinding → String → Time → Option String → Pass
  with_entry check b version expires_at none = fail check expires_at
  with_entry check b version expires_at (some token) = with_token check b version expires_at token

  abbrev pub with_secret : EndpointCheck → EndpointBinding → Time → Answer Secret → Pass
  with_secret check b expires_at (err e) = fail check expires_at
  with_secret check b expires_at (ok secret) =
      if not (is_ok (require_purpose (some secret) purpose_inference))
      then fail check expires_at
      else with_entry check b secret.resource_version expires_at
          (lookup check.spec.inference_credentials_secret_ref.key secret.entries)

  abbrev pub with_binding : EndpointCheck → Answer EndpointBinding → Pass
  with_binding check (err e) =
      if is_lifetime_expired e
      then delete_it check
      else fail check (deadline check.metadata check.spec.max_lifetime_seconds)
  with_binding check (ok b) =
      let expires_at =
        earlier b.expires_at (deadline check.metadata check.spec.max_lifetime_seconds) in
      if waits x check now
      then done (
          ok (
            requeue_after (
              min_duration (check.at_provider.last_checked_at + poll_interval - now)
                (expires_at - now))))
      else with_secret check b expires_at (
          reader.get_secret check.metadata.namespace
            check.spec.inference_credentials_secret_ref.name)

  abbrev pub held : EndpointCheck → EndpointCheck
  held check = record check {
    metadata = record check.metadata {
      finalizers = check.metadata.finalizers ++ router_drain_finalizer ∷ [];
    };
  }

  abbrev pub with_check : Answer EndpointCheck → Pass
  with_check (err e) = if is_not_found e then done (ok finished) else done (err e)
  with_check (ok check) =
      if check.metadata.is_deleting
      then done (ok finished)
      else if not (has_string check.metadata.finalizers router_drain_finalizer)
      then write_then (update_check (held check)) (answer (update_check (held check)))
          (done (ok requeue))
      else if not (before now (deadline check.metadata check.spec.max_lifetime_seconds))
      then delete_it check
      else with_binding check (resolve_endpoint x reader now check)

  -- The check is what a direct read of the API server gives.
  unfoldable pub reconcile : Answer EndpointCheck → Pass
  unfolding resolve_endpoint with_token require_purpose lookup
  reconcile check = with_check check
