-- ===== src/Verification/Reconcile/Ready.antt =====
-- internal/controller/endpointcheck/endpointcheck.go, Reconcile: which statuses a pass writes as Ready.
use provider_runpod.Base.{
  ◌≡◌, refl, failure, sym, ◌∙◌, not_true-false, String, Bool, true, false, ◌&&◌, [],
  Result as Answer, ok, err, is_ok, arith, str_eq, ltb, if-elim,
}
use provider_runpod.Apis.{EndpointCheck, available, reconcile_success, Time}
use provider_runpod.Apis.Crossplane.{Crossplane}
use provider_runpod.Apis.Reader.{Reader}
use provider_runpod.Inference.{Reading, Call, Response, Client, new_client, check_health, verify}
use provider_runpod.Inference.Evidence.{verify-IsVerified}
use provider_runpod.Verification.{
  EndpointBinding, Result, observation, full_verification_due, verification_admitted, same_subject,
}
use provider_runpod.Verification.Reconcile.Passes.{IsReached, hold_it, reconcile-elim}
use provider_runpod.Verification.Reconcile.Billing.{admitted_proven}
use provider_runpod.Verification.Due.{same_refl}
use provider_runpod.Verification.Reconcile.{
  Event, Pass, done, after_event, health_probe, verification, set_conditions,
  worker_admission_pending, timeout_of, seen_alive, request_endpoint_observation, unready, observed,
  soon, poll, write_status, delete_it, alive, probe, on_probe, passed, on_verified, verify_fully,
  verify_or_probe, on_pending, with_token, reconcile,
}
use provider_runpod.Verification.Reconcile.Silent.{
  announced, IsAnnounced, silent, announces, IsAnnounced-map, fail_silent, fail_liveness_silent,
  fail_verification_silent, request_silent, write_ready, write_unready,
}

-- A status is of one subject, whose model and tool call were verified and whose workers are proven.
pub record IsProven (b : EndpointBinding) (version : String) (s : EndpointCheck) : Type 0 where
  pub subject : same_subject s b version ≡ true
  pub healthy : s.at_provider.healthy ≡ true
  pub model : s.at_provider.model_verified ≡ true
  pub tool : s.at_provider.tool_call_verified ≡ true
  pub workers : b.worker_proven ≡ true

admitted-IsProven :
    (s : EndpointCheck) (b : EndpointBinding) (version : String)
    → verification_admitted s b version ≡ true
    → IsProven b version s
unfolding verification_admitted
admitted-IsProven s b version h = record {
  subject = ground arith;
  healthy = ground arith;
  model = ground arith;
  tool = ground arith;
  workers = ground arith;
}

module _ (x : Crossplane) (reader : Reader) (reading : Reading) (network : Client → Call → Response)
    (format : Time → String) (answer : Event → Answer (Unit {0})) (now : Time) where
  module _ (check : EndpointCheck) (b : EndpointBinding) (version : String)
      (expires_at : Time) where
    abbrev waiting : Pass
    waiting = poll x reader reading network format answer now expires_at

    abbrev Outcome : Pass → Type 0
    Outcome p = IsAnnounced (IsProven b version) p

    write_ready_lem :
        (s : EndpointCheck)
        → IsProven b version s
        → Outcome (
            write_status x reader reading network format answer now
              (set_conditions available reconcile_success s)
              waiting)
    write_ready_lem s h =
        announces (set_conditions available reconcile_success s)
          (record {
            subject = h.subject;
            healthy = h.healthy;
            model = h.model;
            tool = h.tool;
            workers = h.workers;
          })
          (write_ready x reader reading network format answer now s waiting refl)

    alive_lem :
        Outcome (alive x reader reading network format answer now check b version expires_at)
    alive_lem =
        let seen = seen_alive check b now in
        if-elim (λ s. Outcome (write_status x reader reading network format answer now s waiting))
          (verification_admitted seen b version) (set_conditions available reconcile_success seen)
          (unready x reader reading network format answer now seen)
          (λ h. write_ready_lem seen (admitted-IsProven seen b version h))
          (λ _. silent (write_unready x reader reading network format answer now seen waiting refl))

    after_probe : {p : Pass} → Outcome p → Outcome (after_event health_probe p)
    after_probe (silent h) = silent h
    after_probe (announces s p h) = announces s p h

    on_probe_lem :
        (r : Answer String)
        → Outcome (on_probe x reader reading network format answer now check b version expires_at r)
    on_probe_lem (err e) =
        silent (fail_liveness_silent x reader reading network format answer now check expires_at)
    on_probe_lem (ok body) = after_probe alive_lem

    probe_lem :
        (c : Answer Client)
        → Outcome (probe x reader reading network format answer now check b version expires_at c)
    probe_lem (err e) =
        silent (fail_silent x reader reading network format answer now check expires_at)
    probe_lem (ok c) = on_probe_lem (check_health reading (network c) c)

    passed_lem :
        (result : Result)
        → result.healthy ≡ true
        → result.model_verified ≡ true
        → result.tool_call_verified ≡ true
        → Outcome
            (passed x reader reading network format answer now check b version expires_at result)
    unfolding observation
    passed_lem result healthy model tool =
        let seen =
          observed x reader reading network format answer now check
            (observation b result version now now now) in
        let pending = unready x reader reading network format answer now seen in
        let failed = done (err (failure "cannot annotate Endpoint for worker observation")) in
        let later = soon x reader reading network format answer now expires_at in
        if-elim Outcome b.worker_proven
          (write_status x reader reading network format answer now
            (set_conditions available reconcile_success seen) waiting)
          (write_status x reader reading network format answer now pending (
            request_endpoint_observation x reader reading network format answer now pending failed
              later))
          (λ h. write_ready_lem seen (record {
            subject = same_refl check b result version now now now;
            healthy = healthy;
            model = model;
            tool = tool;
            workers = h;
          }))
          (λ _. silent (
            write_unready x reader reading network format answer now seen _ (
              request_silent x reader reading network format answer now pending failed later refl
                refl)))

    after_verification : {p : Pass} → Outcome p → Outcome (after_event verification p)
    after_verification (silent h) = silent h
    after_verification (announces s p h) = announces s p h

    -- The flags of a successful verification are all set.
    verify_fully_lem :
        (c : Answer Client)
        → Outcome
            (verify_fully x reader reading network format answer now check b version expires_at c)
    verify_fully_lem (err e) =
        silent (fail_silent x reader reading network format answer now check expires_at)
    verify_fully_lem (ok c) =
        let v = verify reading (network c) c check.spec.expected_model_id in
        let sound = verify-IsVerified reading (network c) c check.spec.expected_model_id in
        judged v.flags v.result (λ h. sym sound.succeeds ∙ h) (λ h. (sound.tool h).0)
          (λ h. (sound.model h).0)
      where
        judged :
            (flags : Result) (r : Answer (Unit {0}))
            → (is_ok r ≡ true → flags.tool_call_verified ≡ true)
            → (flags.tool_call_verified ≡ true → flags.model_verified ≡ true)
            → (flags.model_verified ≡ true → flags.healthy ≡ true)
            → Outcome (
                on_verified x reader reading network format answer now check b version expires_at
                  flags r)
        judged flags (err e) tool model healthy = silent (
            fail_verification_silent x reader reading network format answer now check flags b
              version expires_at)
        judged flags (ok tt) tool model healthy =
            after_verification
              (passed_lem flags (healthy (model (tool refl))) (model (tool refl)) (tool refl))

    verify_or_probe_lem :
        (due : Bool) (c : Answer Client)
        → Outcome (
            verify_or_probe x reader reading network format answer now check b version expires_at
              due c)
    verify_or_probe_lem true c = verify_fully_lem c
    verify_or_probe_lem false c = probe_lem c

    abbrev rechecked : EndpointCheck
    rechecked = record check { at_provider = record (check.at_provider) { last_checked_at = now } }

    on_pending_lem :
        (due : Bool) (c : Answer Client)
        → verification_admitted check b version ≡ true
        → Outcome
            (on_pending x reader reading network format answer now check b version expires_at due c)
    on_pending_lem due c h =
        if-elim Outcome
          (b.worker_proven
            && ltb check.at_provider.last_verification_attempt_at b.worker_observed_at)
          (write_status x reader reading network format answer now
            (set_conditions available reconcile_success rechecked) waiting)
          _
          (λ _.
            let q = admitted-IsProven check b version h in
            write_ready_lem rechecked (record {
              subject = q.subject;
              healthy = q.healthy;
              model = q.model;
              tool = q.tool;
              workers = q.workers;
            }))
          (λ unproven.
            elim (not_true-false _
              (admitted_proven x reader reading network format answer now check b version expires_at
                h)
              unproven) [ ])

    with_token_lem :
        (token : String)
        → Outcome
            (with_token x reader reading network format answer now check b version expires_at token)
    unfolding with_token
    with_token_lem token =
        let due = full_verification_due check b version now in
        let c = new_client b.id token (timeout_of check) in
        if-elim Outcome
          (worker_admission_pending x check
            && str_eq check.at_provider.credentials_secret_resource_version version
            && verification_admitted check b version)
          (on_pending x reader reading network format answer now check b version expires_at due c)
          (verify_or_probe x reader reading network format answer now check b version expires_at due
            c)
          (λ h. on_pending_lem due c (ground (arith, h))) (λ _. verify_or_probe_lem due c)

  -- A status is of the subject that the guards of a pass reached.
  pub record IsAdmitted (read : Answer EndpointCheck) (s : EndpointCheck) : Type 0 where
    pub reached : IsReached x reader reading network format answer now read
    pub proven : IsProven reached.b reached.secret.resource_version s

  delete_it_silent :
      (check : EndpointCheck)
      → announced (delete_it x reader reading network format answer now check).events ≡ []
  delete_it_silent check = ground arith

  hold_it_silent :
      (check : EndpointCheck)
      → announced (hold_it x reader reading network format answer now check).events ≡ []
  hold_it_silent check = ground arith

  -- A pass writes at most one status as Ready. Its check is alive, held for the router and before its end,
  -- and has the binding of the Endpoint and the version of the inference Secret that the pass read; its
  -- health, model and tool call were verified for exactly that subject, and its workers are proven.
  pub reconcile_ready :
      (read : Answer EndpointCheck)
      → IsAnnounced (IsAdmitted read) (reconcile x reader reading network format answer now read)
  reconcile_ready read =
      reconcile-elim x reader reading network format answer now read (IsAnnounced (IsAdmitted read))
        (record {
          idle = λ r. silent refl;
          failed = λ check end.
              silent (fail_silent x reader reading network format answer now check end);
          deleted = λ check. silent (delete_it_silent check);
          kept = λ check. silent (hold_it_silent check);
        })
        (λ t expires_at.
          IsAnnounced-map (λ s h. record { reached = t; proven = h })
            (with_token_lem t.check t.b t.secret.resource_version expires_at t.token))
