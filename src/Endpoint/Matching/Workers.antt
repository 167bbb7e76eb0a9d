-- ===== src/Endpoint/Matching/Workers.antt =====
-- What the tests on an Endpoint and its workers establish.
use provider_runpod.Base.{
  String, ℤ, pos, int_leb, true, false, ◌≡◌, refl, List, [], Option, none, some, length, All,
  all-All, and_split, arith, eq_iff, has_bool_sound, has_int_sound, has_empty_sound, has_int,
  has_bool, has_empty,
}
use provider_runpod.Float.{Float64, float_leb, milli_to_float, is_finite, fin}
use provider_runpod.Client.Types.{
  Endpoint, EndpointInput, EndpointWorker, EndpointWorkerMachine, NullableDecimal, NullableString,
}
use provider_runpod.Endpoint.Settings.{TemplateBinding}
use provider_runpod.Endpoint.Matching.{
  endpoint_workers_match, worker_matches, machine_matches, bounded_cost, listed, is_text,
  workers_listed_match,
}

-- A cost that was sent, as a finite number from 0 to the ceiling.
pub record IsCost (d : NullableDecimal) (ceiling : Float64) : Type 0 where
  pub present : d.present ≡ true
  pub not_null : d.null ≡ false
  pub finite : is_finite d.value ≡ true
  pub nonneg : float_leb (fin (pos 0) 0) d.value ≡ true
  pub bounded : float_leb d.value ceiling ≡ true

pub record IsBoundedWorker (want : EndpointInput) (got : Endpoint) (t : TemplateBinding)
    (ceiling : Float64) (w : EndpointWorker) : Type 0 where
  pub image : (w.image.null ≡ false) × (w.image.value ≡ t.image)
  pub disk : w.container_disk_in_gb ≡ some t.container_disk_gb
  pub no_volume : w.volume_in_gb ≡ some (pos 0)
  pub no_environment : w.env ≡ some []
  pub running : w.desired_status.value ≡ "RUNNING"
  pub not_interruptible : w.interruptible ≡ some false
  pub costs : IsCost w.adjusted_cost_per_hr ceiling × IsCost w.cost_per_hr ceiling
  pub machine :
      (m : EndpointWorkerMachine) × (w.machine ≡ some m)
      × (m.secure_cloud ≡ some true)
      × (listed want.gpu_type_ids m.gpu_type_id ≡ true)
      × (listed want.data_center_ids m.data_center_id ≡ true)
      × IsCost m.cost_per_hr ceiling
      × IsCost m.current_price_per_gpu ceiling

bounded_cost-IsCost : (d : NullableDecimal) (c : Float64) → bounded_cost d c ≡ true → IsCost d c
unfolding bounded_cost
bounded_cost-IsCost d c h = ground arith

machine_sound :
    (want : EndpointInput) (c : Float64) (o : Option EndpointWorkerMachine)
    → machine_matches want c o ≡ true
    → (m : EndpointWorkerMachine) × (o ≡ some m)
      × (m.secure_cloud ≡ some true)
      × (listed want.gpu_type_ids m.gpu_type_id ≡ true)
      × (listed want.data_center_ids m.data_center_id ≡ true)
      × IsCost m.cost_per_hr c
      × IsCost m.current_price_per_gpu c
unfolding machine_matches
machine_sound want c none h = cc
machine_sound want c (some m) h =
    (m, refl, ground arith, ground arith, ground arith, ground arith, ground arith)

-- The tests of the loop's body that the statement reads.
record Tests (want : EndpointInput) (got : Endpoint) (t : TemplateBinding) (c : Float64)
    (w : EndpointWorker) : Type 0 where
  image : is_text w.image t.image ≡ true
  disk : has_int w.container_disk_in_gb t.container_disk_gb ≡ true
  no_volume : has_int w.volume_in_gb (pos 0) ≡ true
  no_environment : has_empty w.env ≡ true
  running : is_text w.desired_status "RUNNING" ≡ true
  not_interruptible : has_bool w.interruptible false ≡ true
  adjusted : bounded_cost w.adjusted_cost_per_hr c ≡ true
  cost : bounded_cost w.cost_per_hr c ≡ true
  machine : machine_matches want c w.machine ≡ true

worker-Tests :
    (want : EndpointInput) (got : Endpoint) (t : TemplateBinding) (c : Float64) (w : EndpointWorker)
    → worker_matches want got t c w ≡ true
    → Tests want got t c w
unfolding worker_matches
worker-Tests want got t c w h =
    let (h₂₅, machine) = and_split _ _ h in
    let (h₂₄, gpu) = and_split _ _ h₂₅ in
    let (h₂₃, locked) = and_split _ _ h₂₄ in
    let (h₂₂, cost) = and_split _ _ h₂₃ in
    let (h₂₁, adjusted) = and_split _ _ h₂₂ in
    let (h₂₀, interruptible) = and_split _ _ h₂₁ in
    let (h₁₉, running) = and_split _ _ h₂₀ in
    let (h₁₈, plans) = and_split _ _ h₁₉ in
    let (h₁₇, mappings) = and_split _ _ h₁₈ in
    let (h₁₆, ip) = and_split _ _ h₁₇ in
    let (h₁₅, network) = and_split _ _ h₁₆ in
    let (h₁₄, encrypted) = and_split _ _ h₁₅ in
    let (h₁₃, mount) = and_split _ _ h₁₄ in
    let (h₁₂, volume) = and_split _ _ h₁₃ in
    let (h₁₁, env) = and_split _ _ h₁₂ in
    let (h₁₀, ports) = and_split _ _ h₁₁ in
    let (h₉, start) = and_split _ _ h₁₀ in
    let (h₈, entry) = and_split _ _ h₉ in
    let (h₇, auth) = and_split _ _ h₈ in
    let (h₆, disk) = and_split _ _ h₇ in
    let (h₅, image) = and_split _ _ h₆ in
    record {
      image = image;
      disk = disk;
      no_volume = volume;
      no_environment = env;
      running = running;
      not_interruptible = interruptible;
      adjusted = adjusted;
      cost = cost;
      machine = machine;
    }

is_text_sound :
    (s : NullableString) (v : String) → is_text s v ≡ true → (s.null ≡ false) × (s.value ≡ v)
is_text_sound s v h = ground (arith, eq_iff s.value v)

worker_sound :
    (want : EndpointInput) (got : Endpoint) (t : TemplateBinding) (c : Float64) (w : EndpointWorker)
    → worker_matches want got t c w ≡ true
    → IsBoundedWorker want got t c w
worker_sound want got t c w h =
    let p = worker-Tests want got t c w h in
    record {
      image = is_text_sound w.image t.image p.image;
      disk = has_int_sound _ _ p.disk;
      no_volume = has_int_sound _ _ p.no_volume;
      no_environment = has_empty_sound w.env p.no_environment;
      running = (is_text_sound w.desired_status "RUNNING" p.running).1;
      not_interruptible = has_bool_sound _ _ p.not_interruptible;
      costs = (bounded_cost-IsCost _ c p.adjusted, bounded_cost-IsCost _ c p.cost);
      machine = machine_sound want c w.machine p.machine;
    }

workers_sound :
    (want : EndpointInput) (got : Endpoint) (t : TemplateBinding) (limit : ℤ)
    (o : Option (List EndpointWorker)) (most : Option ℤ)
    → workers_listed_match want got t limit o most ≡ true
    → (ws : List EndpointWorker) × (o ≡ some ws)
      × (int_leb (pos (length ws)) want.workers_max ≡ true)
      × All (IsBoundedWorker want got t (milli_to_float limit)) ws
workers_sound want got t limit none most h = cc
workers_sound want got t limit (some ws) none h = cc
workers_sound want got t limit (some ws) (some m) h =
    let (counts, each) = and_split _ _ h in
    let (_, few) = and_split _ _ counts in
    (ws, refl, few, all-All _ _ (worker_sound want got t (milli_to_float limit)) ws each)

-- Workers pass only if they were listed, are no more than the wanted maximum, and each of them runs
-- the bound image on the bound disk, has no volume, no environment and no interruptible capacity,
-- stands in the Secure Cloud on an allowed GPU type and data center, and has all four of its costs
-- sent as finite numbers from zero to the ceiling.
pub endpoint_workers_match_sound :
    (want : EndpointInput) (got : Endpoint) (t : TemplateBinding) (limit : ℤ)
    → endpoint_workers_match want got t limit ≡ true
    → (ws : List EndpointWorker) × (got.workers ≡ some ws)
      × (int_leb (pos (length ws)) want.workers_max ≡ true)
      × All (IsBoundedWorker want got t (milli_to_float limit)) ws
unfolding endpoint_workers_match
endpoint_workers_match_sound want got t limit h =
    workers_sound want got t limit got.workers got.workers_max h
