-- ===== src/Endpoint/Observation/Revision.antt =====
-- What a complete observation records about workers and about the Template revision.
use provider_runpod.Base.{
  ℕ, String, ◌≡◌, refl, sym, ◌≢◌, Bool, true, false, some, ℤ, arith, int_eq_iff, eq_iff, has_int,
  Bool-cases, inl, inr, ◌&&◌, ◌==◌, str_eq, Option, none,
}
use mathlib.Core.Path.{subst}
use provider_runpod.Apis.{
  EndpointResource, EndpointObservation, Time, worker_security_evidence_current,
}
use provider_runpod.Client.Types.{Endpoint}
use provider_runpod.Endpoint.Settings.{TemplateBinding}
use provider_runpod.Endpoint.Observation.{
  Recorded, set_observation, record_observation, template_revision_proven,
}

pub record IsRevision (o : EndpointObservation) (u : String) (g : ℕ) (i : String) : Type 0 where
  pub uid : o.template_resource_uid ≡ u
  pub generation : o.template_resource_generation ≡ g
  pub image : o.template_image_digest ≡ i

-- The evidence after an observation of workers, of the three fields that must be there.
pub record IsRecorded (cr : EndpointResource) (t : TemplateBinding) (workers_proven : Bool)
    (version : ℤ) (r : Recorded) : Type 0 where
  pub workers : worker_security_evidence_current r.cr.at_provider ≡ workers_proven
  pub proven :
      r.template_revision_proven ≡ true → IsRevision r.cr.at_provider t.uid t.generation t.image
  pub unproven :
      r.template_revision_proven ≡ false
      → IsRevision r.cr.at_provider cr.at_provider.template_resource_uid
          cr.at_provider.template_resource_generation cr.at_provider.template_image_digest
  pub pinned :
      r.template_revision_proven ≡ true
      → cr.at_provider.template_resource_uid ≢ ""
      → cr.at_provider.version ≡ some version
      → IsRevision cr.at_provider t.uid t.generation t.image

IsRevision-pinned :
    (o : EndpointObservation) (confirmed : Bool) (t : TemplateBinding) (v : ℤ)
    → template_revision_proven o confirmed t v ≡ true
    → o.template_resource_uid ≢ ""
    → has_int o.version v ≡ true
    → IsRevision o t.uid t.generation t.image
unfolding template_revision_proven
IsRevision-pinned o confirmed t v h n same = ground (
  arith,
  eq_iff o.template_resource_uid t.uid,
  eq_iff o.template_image_digest t.image,
  eq_iff o.template_resource_uid "",
)

-- What the proof of a Template revision rests on: it is the one recorded before, the first one, which
-- a confirmed write carried, or a later one, under another rollout version.
pub data IsRevised (previous : EndpointObservation) (confirmed : Bool) (t : TemplateBinding)
    (version : Option ℤ) : Type 0 where
  same : IsRevision previous t.uid t.generation t.image → IsRevised previous confirmed t version
  first :
      previous.template_resource_uid ≡ ""
      → confirmed ≡ true
      → IsRevised previous confirmed t version
  rolled :
      (v : ℤ)
      → previous.template_resource_uid ≢ ""
      → previous.version ≡ some v
      → version ≢ some v
      → IsRevised previous confirmed t version

template_revision_proven-IsRevised :
    (o : EndpointObservation) (confirmed : Bool) (t : TemplateBinding) (v : ℤ)
    → template_revision_proven o confirmed t v ≡ true
    → IsRevised o confirmed t (some v)
unfolding template_revision_proven
template_revision_proven-IsRevised o confirmed t v h =
    elim (Bool-cases (
      str_eq o.template_resource_uid t.uid
      && o.template_resource_generation == t.generation
      && str_eq o.template_image_digest t.image)) [
        | inl fits ↦ same (record {
          uid = ground (arith, fits, eq_iff o.template_resource_uid t.uid);
          generation = ground (arith, fits);
          image = ground (arith, fits, eq_iff o.template_image_digest t.image);
        })
        | inr other ↦ elim (Bool-cases (str_eq o.template_resource_uid "")) [
          | inl blank ↦
              first ((eq_iff o.template_resource_uid "").0 blank) (ground (arith, other, blank))
          | inr bound ↦ by_version o.version refl other bound
        ]
      ]
  where
    by_version :
        (known : Option ℤ)
        → o.version ≡ known
        → (str_eq o.template_resource_uid t.uid
            && o.template_resource_generation == t.generation
            && str_eq o.template_image_digest t.image)
          ≡ false
        → str_eq o.template_resource_uid "" ≡ false
        → IsRevised o confirmed t (some v)
    by_version none e other bound = ground (arith, e, other, bound)
    by_version (some v') e other bound =
        rolled v' (λ blank. ground (arith, bound, blank, eq_iff o.template_resource_uid "")) e
          (λ p.
            let same : v ≡ v' = cc p in
            ground (arith, e, other, bound, (int_eq_iff v' v).1 (sym same)))

module _ (cr : EndpointResource) (got : Endpoint) (confirmed : Bool) (t : TemplateBinding)
    (now : Time) (low high version : ℤ) where
  abbrev complete : Bool → Recorded
  complete w = record_observation cr got confirmed t w now (some low) (some high) (some version)

  workers_tracked :
      (w : Bool) → now ≢ 0 → worker_security_evidence_current (complete w).cr.at_provider ≡ w
  unfolding worker_security_evidence_current
  workers_tracked true n = ground (arith, int_eq_iff version version)
  workers_tracked false n = refl

  complete-IsRecorded : (w : Bool) → now ≢ 0 → IsRecorded cr t w version (complete w)
  complete-IsRecorded w n = record {
    workers = workers_tracked w n;
    proven = λ h. rw h (record { uid = refl; generation = refl; image = refl });
    unproven = λ h. rw h (record { uid = refl; generation = refl; image = refl });
    pinned = λ h u e.
        IsRevision-pinned cr.at_provider confirmed t version h u
          (rw e ((int_eq_iff version version).1 refl));
  }

-- A complete observation at a set clock leaves current worker evidence exactly if workers were proven
-- in it, so one without workers clears an older proof. If it proves the Template revision it records
-- the managed Template's UID, generation and image, and otherwise it keeps those recorded before; and
-- a revision that was recorded is replaced by another only together with the rollout version.
pub set_observation-IsRecorded :
    (cr : EndpointResource) (got : Endpoint) (confirmed : Bool) (t : TemplateBinding) (w : Bool)
    (now : Time) (low high version : ℤ)
    → got.workers_min ≡ some low
    → got.workers_max ≡ some high
    → got.version ≡ some version
    → now ≢ 0
    → IsRecorded cr t w version (set_observation cr got confirmed t w now)
unfolding set_observation
set_observation-IsRecorded cr got confirmed t w now low high version a b c n =
    subst
      (λ o.
        IsRecorded cr t w version
          (record_observation cr got confirmed t w now o got.workers_max got.version))
      (sym a)
      (subst
        (λ o.
          IsRecorded cr t w version
            (record_observation cr got confirmed t w now (some low) o got.version))
        (sym b)
        (subst
          (λ o.
            IsRecorded cr t w version
              (record_observation cr got confirmed t w now (some low) (some high) o))
          (sym c) (complete-IsRecorded cr got confirmed t now low high version w n)))

module _ (cr : EndpointResource) (got : Endpoint) (confirmed : Bool) (t : TemplateBinding)
    (w : Bool) (now : Time) where
  recorded-IsRevised :
      (low high version : Option ℤ)
      → (record_observation cr got confirmed t w now low high version).template_revision_proven
        ≡ true
      → IsRevised cr.at_provider confirmed t version
        × IsRevision
            (record_observation cr got confirmed t w now low high version).cr.at_provider
            t.uid
            t.generation
            t.image
  recorded-IsRevised (some low) (some high) (some v) h = (
    template_revision_proven-IsRevised cr.at_provider confirmed t v h,
    rw h (record { uid = refl; generation = refl; image = refl }),
  )
  recorded-IsRevised none _ _ h = cc
  recorded-IsRevised (some low) none _ h = cc
  recorded-IsRevised (some low) (some high) none h = cc

  -- An observation that proves the Template revision records it, on the one recorded before, on the
  -- confirmed write that was the first, or on a changed rollout version.
  pub set_observation-IsRevised :
      (set_observation cr got confirmed t w now).template_revision_proven ≡ true
      → IsRevised cr.at_provider confirmed t got.version
        × IsRevision
            (set_observation cr got confirmed t w now).cr.at_provider
            t.uid
            t.generation
            t.image
  unfolding set_observation
  set_observation-IsRevised = recorded-IsRevised got.workers_min got.workers_max got.version
