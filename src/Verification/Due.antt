-- ===== src/Verification/Due.antt =====
-- internal/controller/endpointcheck/endpointcheck.go: what an observation decides about the next pass.
use provider_runpod.Base.{◌+◌, ◌≤◌, ◌<◌, String, ◌≡◌, ◌≢◌, true, false, arith, eq_iff, int_eq_iff}
use provider_runpod.Apis.{EndpointCheck, Time}
use provider_runpod.Verification.{
  EndpointBinding, Result, observation, same_subject, interval, full_verification_due,
  verification_admitted, next_poll, poll_interval,
}

-- The check after an observation of its present generation.
abbrev pub observed :
    EndpointCheck → EndpointBinding → Result → String → Time → Time → Time → EndpointCheck
observed check binding result secret_version checked attempted verified = record check {
  observed_generation = check.metadata.generation;
  at_provider = observation binding result secret_version checked attempted verified;
}

-- One subject: the same Endpoint, Template revision and rollout.
pub record IsSame (b b' : EndpointBinding) : Type 0 where
  pub id : b'.id ≡ b.id
  pub resource_uid : b'.resource_uid ≡ b.resource_uid
  pub resource_generation : b'.resource_generation ≡ b.resource_generation
  pub version : b'.version ≡ b.version
  pub template_uid : b'.template_uid ≡ b.template_uid
  pub template_generation : b'.template_generation ≡ b.template_generation
  pub template_image : b'.template_image ≡ b.template_image

module _ (check : EndpointCheck) (b : EndpointBinding) (result : Result) (secret : String)
    (checked attempted verified : Time) where
  abbrev later : EndpointCheck
  later = observed check b result secret checked attempted verified

  same_subject-IsSame :
      (b' : EndpointBinding) (secret' : String)
      → same_subject later b' secret' ≡ true
      → IsSame b b' × (secret' ≡ secret)
  unfolding observation
  same_subject-IsSame b' secret' h = ground (
    arith,
    eq_iff b.id b'.id,
    eq_iff b.resource_uid b'.resource_uid,
    int_eq_iff b.version b'.version,
    eq_iff b.template_uid b'.template_uid,
    eq_iff b.template_image b'.template_image,
    eq_iff secret secret',
  )

  pub same_refl : same_subject later b secret ≡ true
  unfolding observation
  same_refl = ground (
    arith,
    eq_iff b.id b.id,
    eq_iff b.resource_uid b.resource_uid,
    int_eq_iff b.version b.version,
    eq_iff b.template_uid b.template_uid,
    eq_iff b.template_image b.template_image,
    eq_iff secret secret,
  )

  due_later :
      (b' : EndpointBinding) (secret' : String) (now : Time)
      → full_verification_due later b' secret' now ≡ false
      → (same_subject later b' secret' ≡ true)
        × (attempted ≢ 0)
        × (attempted ≤ now)
        × (now < attempted + interval check)
  unfolding full_verification_due observation
  due_later b' secret' now h = ground arith

  not_due :
      (now : Time)
      → same_subject later b secret ≡ true
      → attempted ≢ 0
      → attempted ≤ now
      → now < attempted + interval check
      → full_verification_due later b secret now ≡ false
  unfolding full_verification_due observation
  not_due now same set from to = ground (arith, same)

  admitted :
      (b' : EndpointBinding) (secret' : String)
      → verification_admitted later b' secret' ≡ true
      → (same_subject later b' secret' ≡ true)
        × (result.healthy ≡ true)
        × (result.model_verified ≡ true)
        × (result.tool_call_verified ≡ true)
        × (verified ≢ 0)
        × (b'.worker_proven ≡ true)
        × (attempted < b'.worker_observed_at)
  unfolding verification_admitted observation
  admitted b' secret' h = ground arith

  -- After an observation of a check's present generation, no full verification is due exactly as long
  -- as the Endpoint, the Template revision, the rollout and the Secret are those of the observation,
  -- an attempt was recorded and the clock stands within one interval from it.
  pub full_verification_due_lem :
      (b' : EndpointBinding) (secret' : String) (now : Time)
      → (full_verification_due later b' secret' now ≡ false
          → IsSame b b'
            × (secret' ≡ secret)
            × (attempted ≢ 0)
            × (attempted ≤ now)
            × (now < attempted + interval check))
        × (attempted ≢ 0
            → attempted ≤ now
            → now < attempted + interval check
            → full_verification_due later b secret now ≡ false)
  full_verification_due_lem b' secret' now = (
    λ h.
        let (same, set, from, to) = due_later b' secret' now h in
        let (subject, key) = same_subject-IsSame b' secret' same in (subject, key, set, from, to),
    not_due now same_refl,
  )

  -- A recorded observation admits a route only for the same Endpoint, Template revision, rollout and
  -- Secret, only if health, model and tool call were all verified, and only with a proof of the
  -- workers that is younger than the attempt.
  pub verification_admitted_sound :
      (b' : EndpointBinding) (secret' : String)
      → verification_admitted later b' secret' ≡ true
      → IsSame b b'
        × (secret' ≡ secret)
        × (result.healthy ≡ true)
        × (result.model_verified ≡ true)
        × (result.tool_call_verified ≡ true)
        × (verified ≢ 0)
        × (b'.worker_proven ≡ true)
        × (attempted < b'.worker_observed_at)
  verification_admitted_sound b' secret' h =
      let (same, healthy, model, tool, set, proven, younger) = admitted b' secret' h in
      let (subject, key) = same_subject-IsSame b' secret' same in
      (subject, key, healthy, model, tool, set, proven, younger)

-- The next pass comes within thirty seconds, never at once, and not after the lifetime's end if that
-- is still ahead.
pub next_poll_bounds :
    (expires_at now : Time)
    → (0 < next_poll expires_at now)
      × (next_poll expires_at now ≤ poll_interval)
      × (now < expires_at → now + next_poll expires_at now ≤ expires_at)
unfolding next_poll
next_poll_bounds expires_at now = ground arith
