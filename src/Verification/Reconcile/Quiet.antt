-- ===== src/Verification/Reconcile/Quiet.antt =====
-- internal/controller/endpointcheck/endpointcheck.go, Reconcile: the parts of a pass that neither send the
-- verification nor ask the Endpoint's controller to look again.
use provider_runpod.Base.{
  ℕ, ◌+◌, ◌≡◌, refl, String, Bool, true, false, List, [], ◌∷◌, Option, none, some, Result as Answer,
  ok, err, arith, any,
}
use provider_runpod.Apis.{EndpointCheck, EndpointResource, Time}
use provider_runpod.Apis.Crossplane.{Crossplane}
use provider_runpod.Apis.Reader.{Reader}
use provider_runpod.Inference.{Reading, Call, Response, Client, check_health}
use provider_runpod.Verification.{EndpointBinding, Result}
use provider_runpod.Verification.Reconcile.{
  Event, Next, Pass, done, after_event, write_then, update_status, annotate_endpoint, health_probe,
  verification, fail, fail_liveness, fail_verification, request_endpoint_observation, request_from,
  patch_endpoint, soon, alive, probe, on_probe, passed, on_verified,
}

abbrev pub verifications : List Event → ℕ
verifications [] = 0
verifications (verification ∷ es) = 1 + verifications es
verifications (_ ∷ es) = verifications es

abbrev pub asks : Event → Bool
asks (annotate_endpoint ep) = true
asks _ = false

-- A pass without a verification and without a request to the Endpoint's controller.
pub record IsQuiet (p : Pass) : Type 0 where
  pub unbilled : verifications p.events ≡ 0
  pub unasked : any asks p.events ≡ false

-- A pass of which `P` holds if it is not quiet, and which then verifies once.
pub data IsQuietUnless {ℓ} (P : Type ℓ) (p : Pass) : Type ℓ where
  quiet : IsQuiet p → IsQuietUnless P p
  billed : P → verifications p.events ≡ 1 → IsQuietUnless P p

pub IsQuietUnless-map {ℓ κ} :
    {P : Type ℓ} {Q : Type κ} {p : Pass} → (P → Q) → IsQuietUnless P p → IsQuietUnless Q p
IsQuietUnless-map f (quiet q) = quiet q
IsQuietUnless-map f (billed h once) = billed (f h) once

pub done-IsQuiet : (r : Answer Next) → IsQuiet (done r)
done-IsQuiet r = record { unbilled = refl; unasked = refl }

pub after_probe-IsQuiet : (p : Pass) → IsQuiet p → IsQuiet (after_event health_probe p)
after_probe-IsQuiet p q = record { unbilled = q.unbilled; unasked = q.unasked }

write_then-IsQuiet :
    (check : EndpointCheck) (a : Answer (Unit {0})) (p : Pass)
    → IsQuiet p
    → IsQuiet (write_then (update_status check) a p)
write_then-IsQuiet check (err e) p q = record { unbilled = refl; unasked = refl }
write_then-IsQuiet check (ok tt) p q = record { unbilled = q.unbilled; unasked = q.unasked }

module _ (x : Crossplane) (reader : Reader) (reading : Reading) (network : Client → Call → Response)
    (format : Time → String) (answer : Event → Answer (Unit {0})) (now : Time) where
  pub fail-IsQuiet :
      (check : EndpointCheck) (expires_at : Time)
      → IsQuiet (fail x reader reading network format answer now check expires_at)
  unfolding fail
  fail-IsQuiet check expires_at = record { unbilled = ground arith; unasked = ground arith }

  pub fail_liveness-IsQuiet :
      (check : EndpointCheck) (expires_at : Time)
      → IsQuiet (fail_liveness x reader reading network format answer now check expires_at)
  unfolding fail_liveness
  fail_liveness-IsQuiet check expires_at = record {
    unbilled = ground arith;
    unasked = ground arith;
  }

  fail_verification-IsQuiet :
      (check : EndpointCheck) (result : Result) (b : EndpointBinding) (version : String)
      (expires_at : Time)
      → IsQuiet (
          fail_verification x reader reading network format answer now check result b version
            expires_at)
  unfolding fail_verification
  fail_verification-IsQuiet check result b version expires_at = record {
    unbilled = ground arith;
    unasked = ground arith;
  }

  patch_endpoint_unbilled :
      (r : Answer EndpointResource) (failed then_after : Pass)
      → verifications failed.events ≡ 0
      → verifications then_after.events ≡ 0
      → verifications
          (patch_endpoint x reader reading network format answer now r failed then_after).events
        ≡ 0
  patch_endpoint_unbilled (err e) failed then_after p q = p
  patch_endpoint_unbilled (ok ep) failed then_after p q = ground (arith)

  request_from_unbilled :
      (check : EndpointCheck) (ref : Option String) (failed then_after : Pass)
      → verifications failed.events ≡ 0
      → verifications then_after.events ≡ 0
      → verifications
          (request_from x reader reading network format answer now check ref failed
            then_after).events
        ≡ 0
  request_from_unbilled check none failed then_after p q = p
  request_from_unbilled check (some ref) failed then_after p q =
      patch_endpoint_unbilled (reader.get_endpoint check.metadata.namespace ref) failed then_after p
        q

  module _ (check : EndpointCheck) (b : EndpointBinding) (version : String)
      (expires_at : Time) where
    abbrev live : Pass
    live = alive x reader reading network format answer now check b version expires_at

    alive-IsQuiet : IsQuiet live
    alive-IsQuiet = record { unbilled = ground arith; unasked = ground arith }

    on_probe-IsQuiet :
        (r : Answer String)
        → IsQuiet (on_probe x reader reading network format answer now check b version expires_at r)
    on_probe-IsQuiet (err e) = after_probe-IsQuiet _ (fail_liveness-IsQuiet check expires_at)
    on_probe-IsQuiet (ok body) = after_probe-IsQuiet _ alive-IsQuiet

    pub probe-IsQuiet :
        (c : Answer Client)
        → IsQuiet (probe x reader reading network format answer now check b version expires_at c)
    probe-IsQuiet (err e) = fail-IsQuiet check expires_at
    probe-IsQuiet (ok c) = on_probe-IsQuiet (check_health reading (network c) c)

    requested_unbilled :
        (seen : EndpointCheck) (r : Answer Next)
        → verifications
            (request_endpoint_observation x reader reading network format answer now seen
              (done r)
              (soon x reader reading network format answer now expires_at)).events
          ≡ 0
    unfolding request_endpoint_observation
    requested_unbilled seen r =
        request_from_unbilled seen seen.spec.endpoint_id_ref (done r)
          (soon x reader reading network format answer now expires_at) refl refl

    passed_unbilled :
        (result : Result)
        → verifications
            (passed x reader reading network format answer now check b version expires_at
              result).events
          ≡ 0
    passed_unbilled result = grind (arith, requested_unbilled)

    pub on_verified_once :
        (result : Result) (r : Answer (Unit {0}))
        → verifications
            (on_verified x reader reading network format answer now check b version expires_at
              result r).events
          ≡ 1
    on_verified_once result (err e) =
        let q = (fail_verification-IsQuiet check result b version expires_at).unbilled in
        ground (arith, q)
    on_verified_once result (ok tt) = ground (arith, passed_unbilled result)
