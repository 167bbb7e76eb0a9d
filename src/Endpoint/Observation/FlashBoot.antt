-- ===== src/Endpoint/Observation/FlashBoot.antt =====
-- internal/controller/endpoint/endpoint.go, setObservation: what a status that claims flashboot=false
-- rests on, and since when.
use provider_runpod.Base.{
  ◌+◌, ◌≤◌, ◌≡◌, ◌≢◌, refl, ◌∙◌, Bool, true, false, Option, none, some, ℤ, arith, eq_iff,
  int_eq_iff, has_int_sound, ◌⊎◌, inl, inr,
}
use provider_runpod.Apis.{
  EndpointResource, EndpointObservation, Time, seconds, same_version, flash_boot_evidence_current,
}
use provider_runpod.Client.Types.{Endpoint}
use provider_runpod.Endpoint.Settings.{TemplateBinding}
use provider_runpod.Endpoint.Observation.{
  Recorded, set_observation, evidence_carries, record_observation, flash_boot_off, evidence_time,
}

-- The time from which the evidence of a status counts, if it has evidence.
abbrev pub enforced_at : EndpointResource → Time
enforced_at cr = cr.at_provider.flash_boot_last_enforced_at

abbrev pub is_disabled : EndpointResource → Bool
is_disabled cr = cr.at_provider.flash_boot_disabled

-- Evidence of an earlier status that stands for a response: of the same Endpoint and rollout, and
-- between thirty seconds ahead of the clock and five minutes behind it.
pub record IsStanding (previous : EndpointObservation) (got : Endpoint) (version : Option ℤ)
    (now : Time) : Type 0 where
  pub id : previous.id ≡ got.id
  pub disabled : previous.flash_boot_disabled ≡ true
  pub rollout : previous.flash_boot_evidence_version ≡ version
  pub known : previous.version ≡ version
  pub set : previous.flash_boot_last_enforced_at ≢ 0
  pub not_ahead : previous.flash_boot_last_enforced_at ≤ now + seconds 30
  pub recent : now ≤ previous.flash_boot_last_enforced_at + seconds 300

-- What the claim of a status rests on: the response that reports the setting, the write that it
-- answers, or standing evidence, and the instant that the claim counts from.
pub data IsSince (previous : EndpointObservation) (got : Endpoint) (confirmed : Bool)
    (version : Option ℤ) (now at : Time) : Type 0 where
  reported : got.flash_boot ≡ some false → at ≡ now → IsSince previous got confirmed version now at
  written :
      got.flash_boot ≡ none
      → confirmed ≡ true
      → at ≡ now
      → IsSince previous got confirmed version now at
  carried :
      got.flash_boot ≡ none
      → confirmed ≡ false
      → IsStanding previous got version now
      → at ≡ previous.flash_boot_last_enforced_at
      → IsSince previous got confirmed version now at

same_version_sound : (a b : Option ℤ) → same_version a b ≡ true → b ≡ a
same_version_sound (some a) (some b) h = let same : a ≡ b = (int_eq_iff a b).0 h in cc
same_version_sound none b h = cc
same_version_sound (some a) none h = cc

carries-IsStanding :
    (o : EndpointObservation) (got : Endpoint) (v : ℤ) (now : Time)
    → evidence_carries o got v now ≡ true
    → IsStanding o got (some v) now
unfolding evidence_carries flash_boot_evidence_current
carries-IsStanding o got v now h =
    let same = eq_iff o.id got.id in
    let rollout = has_int_sound o.flash_boot_evidence_version v (ground arith) in
    record {
      id = ground (arith, same);
      disabled = ground arith;
      rollout = rollout;
      known = same_version_sound o.flash_boot_evidence_version o.version (ground arith) ∙ rollout;
      set = ground arith;
      not_ahead = ground arith;
      recent = ground arith;
    }

off-IsSince :
    (previous : EndpointObservation) (got : Endpoint) (v : ℤ) (now : Time) (told : Option Bool)
    (confirmed carries : Bool)
    → got.flash_boot ≡ told
    → (carries ≡ true → IsStanding previous got (some v) now)
    → flash_boot_off told confirmed carries ≡ true
    → IsSince previous got confirmed (some v) now (
        evidence_time
          (flash_boot_off told confirmed carries)
          confirmed
          told
          carries
          previous.flash_boot_last_enforced_at
          now)
off-IsSince previous got v now (some false) true carries e s h = reported e refl
off-IsSince previous got v now (some false) false carries e s h = reported e refl
off-IsSince previous got v now (some true) confirmed carries e s h = cc
off-IsSince previous got v now none true carries e s h = written e refl refl
off-IsSince previous got v now none false true e s h = carried e refl (s refl) refl
off-IsSince previous got v now none false false e s h = cc

-- A status whose observation proves flashboot=false.
pub record IsOff (previous : EndpointObservation) (got : Endpoint) (confirmed : Bool)
    (version : Option ℤ) (now : Time) (status : EndpointObservation) : Type 0 where
  pub disabled : status.flash_boot_disabled ≡ true
  pub rollout : status.flash_boot_evidence_version ≡ version
  pub known : status.version ≡ version
  pub since : IsSince previous got confirmed version now status.flash_boot_last_enforced_at

module _ (cr : EndpointResource) (got : Endpoint) (confirmed : Bool) (t : TemplateBinding)
    (w : Bool) (now : Time) where
  abbrev recorded : Option ℤ → Option ℤ → Option ℤ → Recorded
  recorded = record_observation cr got confirmed t w now

  abbrev carries : ℤ → Bool
  carries v = evidence_carries cr.at_provider got v now

  complete-IsOff :
      (low high v : ℤ)
      → (recorded (some low) (some high) (some v)).flash_boot_proven ≡ true
      → IsOff cr.at_provider got confirmed
          (some v)
          now
          (recorded (some low) (some high) (some v)).cr.at_provider
  complete-IsOff low high v h = record {
    disabled = h;
    rollout = rw h refl;
    known = refl;
    since =
        off-IsSince cr.at_provider got v now got.flash_boot confirmed (carries v) refl
          (carries-IsStanding cr.at_provider got v now) h;
  }

  recorded-IsOff :
      (low high version : Option ℤ)
      → (recorded low high version).flash_boot_proven ≡ true
      → IsOff cr.at_provider got confirmed version now (recorded low high version).cr.at_provider
  recorded-IsOff (some low) (some high) (some v) h = complete-IsOff low high v h
  recorded-IsOff none _ _ h = cc
  recorded-IsOff (some low) none _ h = cc
  recorded-IsOff (some low) (some high) none h = cc

  -- An observation that proves flashboot=false records it for the rollout that was reported, on a
  -- response that reports it, on the write that it confirms, or on standing evidence.
  pub set_observation-IsOff :
      (set_observation cr got confirmed t w now).flash_boot_proven ≡ true
      → IsOff cr.at_provider got confirmed got.version now
          (set_observation cr got confirmed t w now).cr.at_provider
  unfolding set_observation
  set_observation-IsOff = recorded-IsOff got.workers_min got.workers_max got.version

  recorded-disabled :
      (low high version : Option ℤ)
      → is_disabled (recorded low high version).cr ≡ true
      → ((recorded low high version).flash_boot_proven ≡ true)
        ⊎ ((is_disabled cr ≡ true) × (enforced_at (recorded low high version).cr ≡ enforced_at cr))
  recorded-disabled (some low) (some high) (some v) h = inl h
  recorded-disabled _ _ _ h = inr (h, refl)

  -- A status that claims flashboot=false claims it from this observation, or is the one before.
  set_observation-disabled :
      is_disabled (set_observation cr got confirmed t w now).cr ≡ true
      → ((set_observation cr got confirmed t w now).flash_boot_proven ≡ true)
        ⊎ ((is_disabled cr ≡ true)
            × (enforced_at (set_observation cr got confirmed t w now).cr ≡ enforced_at cr))
  unfolding set_observation
  set_observation-disabled = recorded-disabled got.workers_min got.workers_max got.version

-- Any number of observations of an object, each of any response, at any time.
pub data Observed (cr : EndpointResource) : EndpointResource → Type 0 where
  here : Observed cr cr
  next :
      {cr' : EndpointResource} (got : Endpoint) (confirmed : Bool) (t : TemplateBinding) (w : Bool)
      (now : Time)
      → Observed cr cr'
      → Observed cr (set_observation cr' got confirmed t w now).cr

-- The instant of a claim among observations: that of the first object's own claim, or that of an
-- observation whose response reports flashboot=false or leaves it out and answers a write.
pub data IsBacked {cr : EndpointResource} (at : Time)
    : (cr' : EndpointResource) → Observed cr cr' → Type 0 where
  claimed : is_disabled cr ≡ true → at ≡ enforced_at cr → IsBacked at cr here
  told :
      {cr' : EndpointResource} {got : Endpoint} {confirmed : Bool} {t : TemplateBinding} {w : Bool}
      {now : Time} {before : Observed cr cr'}
      → (got.flash_boot ≡ some false) ⊎ ((got.flash_boot ≡ none) × (confirmed ≡ true))
      → at ≡ now
      → IsBacked at
          (set_observation cr' got confirmed t w now).cr
          (next got confirmed t w now before)
  earlier :
      {cr' : EndpointResource} {got : Endpoint} {confirmed : Bool} {t : TemplateBinding} {w : Bool}
      {now : Time} {before : Observed cr cr'}
      → IsBacked at cr' before
      → IsBacked at
          (set_observation cr' got confirmed t w now).cr
          (next got confirmed t w now before)

Observed-backed :
    {cr cr' : EndpointResource} (trace : Observed cr cr')
    → is_disabled cr' ≡ true
    → (at : Time) → at ≡ enforced_at cr'
    → IsBacked at cr' trace
Observed-backed here h at e = claimed h e
Observed-backed (next {cr' = c} got confirmed t w now before) h at e =
    elim (set_observation-disabled c got confirmed t w now h) [
      | inl proven ↦ elim (set_observation-IsOff c got confirmed t w now proven).since [
        | reported off same ↦ told (inl off) (e ∙ same)
        | written omitted wrote same ↦ told (inr (omitted, wrote)) (e ∙ same)
        | carried omitted unwritten standing same ↦
            earlier (Observed-backed before standing.disabled at (e ∙ same))
      ]
      | inr (claims, same) ↦ earlier (Observed-backed before claims at (e ∙ same))
    ]

-- Whatever was observed, in whatever order, at whatever times: a status that claims flashboot=false
-- claims it from the instant of the first object's own claim, or of an observation whose response
-- reports flashboot=false, or leaves the setting out and answers a confirmed write. An observation
-- that confirms no write and whose response leaves the setting out never renews the claim: it proves
-- the setting only on a claim so backed, of the same Endpoint and rollout, for at most five minutes
-- from the claim's instant, which it keeps.
pub Observed-IsBacked :
    {cr cr' : EndpointResource} (trace : Observed cr cr')
    → (is_disabled cr' ≡ true → IsBacked (enforced_at cr') cr' trace)
      × ((got : Endpoint) (t : TemplateBinding) (w : Bool) (now : Time)
          → got.flash_boot ≡ none
          → (set_observation cr' got false t w now).flash_boot_proven ≡ true
          → IsStanding cr'.at_provider got got.version now
            × IsBacked (enforced_at cr') cr' trace
            × (enforced_at (set_observation cr' got false t w now).cr ≡ enforced_at cr'))
Observed-IsBacked {cr' = c} trace = (
  λ h. Observed-backed trace h (enforced_at c) refl,
  λ got t w now omitted proven. elim (set_observation-IsOff c got false t w now proven).since [
    | reported off same ↦ cc
    | written _ wrote same ↦ cc
    | carried _ _ standing same ↦
        (standing, Observed-backed trace standing.disabled (enforced_at c) refl, same)
  ],
)
