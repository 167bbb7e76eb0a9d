-- ===== src/Verification/Reconcile/Billing.antt =====
-- internal/controller/endpointcheck/endpointcheck.go, Reconcile: when a pass sends the verification, which
-- the Endpoint's owner pays for, and when it asks the Endpoint's controller to look again.
use provider_runpod.Base.{
  ◌≡◌, refl, String, Bool, true, false, ◌&&◌, Result as Answer, ok, err, is_ok, arith, str_eq, ltb,
  if-elim,
}
use provider_runpod.Apis.{EndpointCheck, Time}
use provider_runpod.Apis.Crossplane.{Crossplane}
use provider_runpod.Apis.Reader.{Reader}
use provider_runpod.Inference.{Reading, Call, Response, Client, new_client, verify}
use provider_runpod.Verification.{EndpointBinding, full_verification_due, verification_admitted}
use provider_runpod.Verification.Reconcile.{
  Event, worker_admission_pending, timeout_of, delete_it, verify_fully, verify_or_probe, on_pending,
  with_token, reconcile,
}
use provider_runpod.Verification.Reconcile.Passes.{IsReached, hold_it, reconcile-elim}
use provider_runpod.Verification.Reconcile.Quiet.{
  IsQuiet, IsQuietUnless, quiet, billed, IsQuietUnless-map, done-IsQuiet, fail-IsQuiet,
  probe-IsQuiet, on_verified_once,
}

module _ (x : Crossplane) (reader : Reader) (reading : Reading) (network : Client → Call → Response)
    (format : Time → String) (answer : Event → Answer (Unit {0})) (now : Time) where
  module _ (check : EndpointCheck) (b : EndpointBinding) (version : String)
      (expires_at : Time) where
    verify_fully_lem :
        (c : Answer Client)
        → IsQuietUnless
            (is_ok c ≡ true)
            (verify_fully x reader reading network format answer now check b version expires_at c)
    verify_fully_lem (err e) =
        quiet (fail-IsQuiet x reader reading network format answer now check expires_at)
    verify_fully_lem (ok c) =
        let v = verify reading (network c) c check.spec.expected_model_id in
        billed refl (
          on_verified_once x reader reading network format answer now check b version expires_at
            v.flags v.result)

    verify_or_probe_lem :
        (due : Bool) (c : Answer Client)
        → IsQuietUnless ((due ≡ true) × (is_ok c ≡ true)) (
            verify_or_probe x reader reading network format answer now check b version expires_at
              due c)
    verify_or_probe_lem true c = IsQuietUnless-map (λ h. (refl, h)) (verify_fully_lem c)
    verify_or_probe_lem false c =
        quiet
          (probe-IsQuiet x reader reading network format answer now check b version expires_at c)

    pub admitted_proven :
        verification_admitted check b version ≡ true
        → (b.worker_proven
            && ltb check.at_provider.last_verification_attempt_at b.worker_observed_at)
          ≡ true
    unfolding verification_admitted
    admitted_proven h = ground arith

    on_pending-IsQuiet :
        (due : Bool) (c : Answer Client)
        → verification_admitted check b version ≡ true
        → IsQuiet
            (on_pending x reader reading network format answer now check b version expires_at due c)
    on_pending-IsQuiet due c h =
        let proven = admitted_proven h in
        record { unbilled = ground (arith, proven); unasked = ground (arith, proven) }

    abbrev client : String → Answer Client
    client token = new_client b.id token (timeout_of check)

    with_token_lem :
        (token : String)
        → IsQuietUnless
            ((full_verification_due check b version now ≡ true) × (is_ok (client token) ≡ true))
            (with_token x reader reading network format answer now check b version expires_at token)
    unfolding with_token
    with_token_lem token =
        let due = full_verification_due check b version now in
        let P = IsQuietUnless ((due ≡ true) × (is_ok (client token) ≡ true)) in
        if-elim P
          (worker_admission_pending x check
            && str_eq check.at_provider.credentials_secret_resource_version version
            && verification_admitted check b version)
          (on_pending x reader reading network format answer now check b version expires_at due
            (client token))
          (verify_or_probe x reader reading network format answer now check b version expires_at due
            (client token))
          (λ h. quiet (on_pending-IsQuiet due (client token) (ground (arith, h))))
          (λ _. verify_or_probe_lem due (client token))

  -- A check that a pass may verify: its token is used and fits a client, and a full verification is due.
  pub record IsBillable (read : Answer EndpointCheck) : Type 0 where
    pub reached : IsReached x reader reading network format answer now read
    pub client : is_ok (new_client reached.b.id reached.token (timeout_of reached.check)) ≡ true
    pub due :
        full_verification_due reached.check reached.b reached.secret.resource_version now ≡ true

  delete_it-IsQuiet :
      (check : EndpointCheck) → IsQuiet (delete_it x reader reading network format answer now check)
  delete_it-IsQuiet check = record { unbilled = ground arith; unasked = ground arith }

  hold_it-IsQuiet :
      (check : EndpointCheck) → IsQuiet (hold_it x reader reading network format answer now check)
  hold_it-IsQuiet check = record { unbilled = ground arith; unasked = ground arith }

  -- A pass sends the verification, or asks the Endpoint's controller to look again, only for a check that
  -- is alive, holds the router's finalizer, lives, and is not within the wait since its last pass, whose
  -- Endpoint is bound, whose Secret is one for inference and has the key, and for which a full
  -- verification is due; and then it sends it exactly once.
  pub reconcile_billing :
      (read : Answer EndpointCheck)
      → IsQuietUnless (IsBillable read) (reconcile x reader reading network format answer now read)
  reconcile_billing read =
      reconcile-elim x reader reading network format answer now read
        (IsQuietUnless (IsBillable read))
        (record {
          idle = λ r. quiet (done-IsQuiet r);
          failed = λ check end.
              quiet (fail-IsQuiet x reader reading network format answer now check end);
          deleted = λ check. quiet (delete_it-IsQuiet check);
          kept = λ check. quiet (hold_it-IsQuiet check);
        })
        (λ t expires_at.
          IsQuietUnless-map (λ h. record { reached = t; client = h.1; due = h.0 })
            (with_token_lem t.check t.b t.secret.resource_version expires_at t.token))
