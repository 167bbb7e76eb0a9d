-- ===== src/Verification/Reconcile/Silent.antt =====
-- internal/controller/endpointcheck/endpointcheck.go, Reconcile: the statuses that a pass writes as Ready, and
-- the parts of a pass that write none.
use provider_runpod.Base.{
  ◌≡◌, String, Bool, true, false, List, [], ◌∷◌, Option, none, some, Result as Answer, ok, err,
  arith, if◌then◌else◌,
}
use provider_runpod.Apis.{
  EndpointCheck, EndpointResource, Condition, available, reconcile_success, Time,
}
use provider_runpod.Apis.Crossplane.{Crossplane}
use provider_runpod.Apis.Reader.{Reader}
use provider_runpod.Inference.{Reading, Call, Response, Client}
use provider_runpod.Verification.{EndpointBinding, Result}
use provider_runpod.Verification.Reconcile.{
  Event, Pass, update_status, set_conditions, fail, fail_liveness, fail_verification,
  request_endpoint_observation, request_from, patch_endpoint, unready, write_status,
}

abbrev is_announced : List Condition → Bool
is_announced (reconcile_success ∷ available ∷ older) = true
is_announced _ = false

-- The statuses that a pass writes with Ready.
abbrev pub announced : List Event → List EndpointCheck
announced [] = []
announced (update_status s ∷ es) =
    let rest = announced es in if is_announced s.conditions then s ∷ rest else rest
announced (_ ∷ es) = announced es

pub data IsAnnounced {ℓ} (P : EndpointCheck → Type ℓ) (p : Pass) : Type ℓ where
  silent : announced p.events ≡ [] → IsAnnounced P p
  announces : (s : EndpointCheck) → P s → announced p.events ≡ s ∷ [] → IsAnnounced P p

pub IsAnnounced-map {ℓ κ} :
    {P : EndpointCheck → Type ℓ} {Q : EndpointCheck → Type κ} {p : Pass}
    → ((s : EndpointCheck) → P s → Q s)
    → IsAnnounced P p
    → IsAnnounced Q p
IsAnnounced-map f (silent h) = silent h
IsAnnounced-map f (announces s p h) = announces s (f s p) h

module _ (x : Crossplane) (reader : Reader) (reading : Reading) (network : Client → Call → Response)
    (format : Time → String) (answer : Event → Answer (Unit {0})) (now : Time) where
  pub fail_silent :
      (check : EndpointCheck) (expires_at : Time)
      → announced (fail x reader reading network format answer now check expires_at).events ≡ []
  unfolding fail
  fail_silent check expires_at = ground arith

  pub fail_liveness_silent :
      (check : EndpointCheck) (expires_at : Time)
      → announced (fail_liveness x reader reading network format answer now check expires_at).events
        ≡ []
  unfolding fail_liveness
  fail_liveness_silent check expires_at = ground arith

  pub fail_verification_silent :
      (check : EndpointCheck) (result : Result) (b : EndpointBinding) (version : String)
      (expires_at : Time)
      → announced
          (fail_verification x reader reading network format answer now check result b version
            expires_at).events
        ≡ []
  unfolding fail_verification
  fail_verification_silent check result b version expires_at = ground arith

  patch_endpoint_silent :
      (r : Answer EndpointResource) (failed then_after : Pass)
      → announced failed.events ≡ []
      → announced then_after.events ≡ []
      → announced
          (patch_endpoint x reader reading network format answer now r failed then_after).events
        ≡ []
  patch_endpoint_silent (err e) failed then_after p q = p
  patch_endpoint_silent (ok ep) failed then_after p q = ground arith

  request_from_silent :
      (check : EndpointCheck) (ref : Option String) (failed then_after : Pass)
      → announced failed.events ≡ []
      → announced then_after.events ≡ []
      → announced
          (request_from x reader reading network format answer now check ref failed
            then_after).events
        ≡ []
  request_from_silent check none failed then_after p q = p
  request_from_silent check (some ref) failed then_after p q =
      patch_endpoint_silent (reader.get_endpoint check.metadata.namespace ref) failed then_after p q

  pub request_silent :
      (check : EndpointCheck) (failed then_after : Pass)
      → announced failed.events ≡ []
      → announced then_after.events ≡ []
      → announced
          (request_endpoint_observation x reader reading network format answer now check failed
            then_after).events
        ≡ []
  unfolding request_endpoint_observation
  request_silent check = request_from_silent check check.spec.endpoint_id_ref

  -- What a status is written as does not depend on the answer.
  pub write_ready :
      (s : EndpointCheck) (p : Pass)
      → announced p.events ≡ []
      → announced
          (write_status x reader reading network format answer now
            (set_conditions available reconcile_success s)
            p).events
        ≡ set_conditions available reconcile_success s ∷ []
  write_ready s p h = ground (arith, h)

  pub write_unready :
      (s : EndpointCheck) (p : Pass)
      → announced p.events ≡ []
      → announced
          (write_status x reader reading network format answer now
            (unready x reader reading network format answer now s)
            p).events
        ≡ []
  write_unready s p h = ground (arith, h)
