-- ===== src/Endpoint/Handlers/Proven.antt =====
-- internal/controller/endpoint/endpoint.go, Observe: what the new status proves when an answer is judged up
-- to date.
use provider_runpod.Base.{
  String, ◌≡◌, refl, ap, inl, inr, true, false, List, ◌∷◌, some, Result, ok, err, arith, str_eq,
  Bool-cases, if◌then◌else◌,
}
use provider_runpod.Client.Types.{Endpoint, EndpointInput}
use provider_runpod.Apis.{EndpointResource, EndpointObservation, Time, Condition, available}
use provider_runpod.Endpoint.Binding.{bind_external_id}
use provider_runpod.Apis.Crossplane.{Crossplane}
use provider_runpod.Apis.Reader.{Reader}
use provider_runpod.Managed.{ExternalObservation}
use provider_runpod.Endpoint.Settings.{TemplateBinding, endpoint_input}
use provider_runpod.Endpoint.Matching.{
  endpoint_matches_input, endpoint_template_matches, endpoint_workers_match,
}
use provider_runpod.Endpoint.Observation.{set_observation}
use provider_runpod.Endpoint.Observation.Keeps.{set_observation-Keeps}
use provider_runpod.Endpoint.Observation.FlashBoot.{IsOff, set_observation-IsOff}
use provider_runpod.Endpoint.Observation.Revision.{IsRevised, IsRevision, set_observation-IsRevised}
use provider_runpod.Endpoint.Observation.Confirmed.{set_observation-confirmed}
use provider_runpod.Endpoint.Handlers.{Service, Call, Run, conforms, has_workers, announce}
use provider_runpod.Endpoint.Handlers.Observe.{on_reasserted, judge}

-- The status that Observe judges a read by: its ID is filled in from the external name.
abbrev pub remembered : EndpointResource → String → EndpointObservation
remembered cr id =
    if str_eq cr.at_provider.id "" then record (cr.at_provider) { id = id } else cr.at_provider

-- Where an answer comes from, and what the object's new status proves by it: flashboot=false, and
-- the Template's revision. A reassertion is a write, which proves the revision if it is the first.
pub data IsProven (svc : Service) (t : TemplateBinding) (id : String) (cr : EndpointResource)
    (now : Time) (got : Endpoint) (status : EndpointObservation) : Type 0 where
  read :
      svc.get_endpoint id ≡ ok (some got)
      → IsOff (remembered cr id) got false got.version now status
      → IsRevised (remembered cr id) false t got.version
      → IsRevision status t.uid t.generation t.image
      → IsProven svc t id cr now got status
  reasserted :
      (e : String)
      → svc.update_endpoint e (endpoint_input cr t.id) ≡ ok got
      → IsOff (record (cr.at_provider) { id = got.id }) got true got.version now status
      → (cr.at_provider.template_resource_uid ≡ "" → IsRevision status t.uid t.generation t.image)
      → IsProven svc t id cr now got status

-- What stands behind a report of "up to date": an answer of RunPod in this very pass that conforms,
-- what the new status proves by it, and an object that is announced for its current generation.
pub record IsReady (svc : Service) (t : TemplateBinding) (id : String) (cr : EndpointResource)
    (now : Time) (r : Run ExternalObservation) : Type 0 where
  pub got : Endpoint
  pub settings : endpoint_matches_input (endpoint_input cr t.id) got ≡ true
  pub template : endpoint_template_matches got t ≡ true
  pub workers :
      endpoint_workers_match
        (endpoint_input cr t.id)
        got
        t
        cr.spec.max_worker_cost_milli_usd_per_hour
      ≡ true
  pub proven : IsProven svc t id cr now got r.cr.at_provider
  pub generation : r.cr.observed_generation ≡ cr.metadata.generation
  pub condition : r.cr.conditions ≡ available ∷ cr.conditions

module _ (x : Crossplane) (reader : Reader) (svc : Service) (t : TemplateBinding) (now : Time) where
  -- A pass over the answer to a GET that reports "up to date".
  pub record IsJudged (cr : EndpointResource) (got : Endpoint) (r : Run ExternalObservation)
      : Type 0 where
    pub fits : conforms cr t (endpoint_input cr t.id) got ≡ true
    pub off : IsOff cr.at_provider got false got.version now r.cr.at_provider
    pub revised : IsRevised cr.at_provider false t got.version
    pub revision : IsRevision r.cr.at_provider t.uid t.generation t.image
    pub generation : r.cr.observed_generation ≡ cr.metadata.generation
    pub condition : r.cr.conditions ≡ available ∷ cr.conditions

  judge_proven :
      (cr : EndpointResource) (calls : List Call) (got : Endpoint) (o : ExternalObservation)
      → (judge x reader svc t now cr calls got).result ≡ ok o
      → o.resource_up_to_date ≡ true
      → (conforms cr t (endpoint_input cr t.id) got ≡ true)
        × ((set_observation cr got false t (has_workers got) now).flash_boot_proven ≡ true)
        × ((set_observation cr got false t (has_workers got) now).template_revision_proven ≡ true)
        × ((judge x reader svc t now cr calls got).cr
            ≡ announce (set_observation cr got false t (has_workers got) now).cr)
  judge_proven cr calls got o h u = ground arith

  pub judge-IsJudged :
      (cr : EndpointResource) (calls : List Call) (got : Endpoint) (o : ExternalObservation)
      → (judge x reader svc t now cr calls got).result ≡ ok o
      → o.resource_up_to_date ≡ true
      → IsJudged cr got (judge x reader svc t now cr calls got)
  judge-IsJudged cr calls got o h u =
      let (fits, off, proven, same) = judge_proven cr calls got o h u in
      let k = set_observation-Keeps cr got false t (has_workers got) now in
      let (revised, revision) =
        set_observation-IsRevised cr got false t (has_workers got) now proven in
      record {
        fits = fits;
        off = rw same (set_observation-IsOff cr got false t (has_workers got) now off);
        revised = revised;
        revision = rw same revision;
        generation = rw same (ap (λ m. m.generation) k.metadata);
        condition = rw same (ap (λ (cs : List Condition). available ∷ cs) k.conditions);
      }

  -- The object that a reassertion leaves, once its answer conforms.
  abbrev reasserted_object : EndpointResource → Endpoint → EndpointResource
  reasserted_object cr got =
      announce
        (set_observation (bind_external_id x cr got.id now) got true t (has_workers got) now).cr

  on_reasserted_lem :
      (cr : EndpointResource) (desired : EndpointInput) (calls : List Call) (r : Result Endpoint)
      (o : ExternalObservation)
      → (on_reasserted x reader svc t now cr desired calls r).result ≡ ok o
      → o.resource_up_to_date ≡ true
      → (got : Endpoint) × (r ≡ ok got)
        × (conforms cr t desired got ≡ true)
        × ((on_reasserted x reader svc t now cr desired calls r).cr ≡ reasserted_object cr got)
  on_reasserted_lem cr desired calls (err e) o h u = cc
  on_reasserted_lem cr desired calls (ok got) o h u =
      elim (Bool-cases (conforms cr t desired got)) [
        | inl fits ↦ (got, refl, fits, rw fits refl)
        | inr misses ↦ cc (rw misses at h)
      ]

  pub conforms_parts :
      (cr : EndpointResource) (desired : EndpointInput) (got : Endpoint)
      → conforms cr t desired got ≡ true
      → (endpoint_matches_input desired got ≡ true)
        × (endpoint_template_matches got t ≡ true)
        × (endpoint_workers_match desired got t cr.spec.max_worker_cost_milli_usd_per_hour ≡ true)
  conforms_parts cr desired got h = ground arith

  reasserted_object-IsReady :
      (cr : EndpointResource) (id e : String) (got : Endpoint) (r : Run ExternalObservation)
      → svc.update_endpoint e (endpoint_input cr t.id) ≡ ok got
      → conforms cr t (endpoint_input cr t.id) got ≡ true
      → r.cr ≡ reasserted_object cr got
      → IsReady svc t id cr now r
  unfolding bind_external_id endpoint_input
  reasserted_object-IsReady cr id e got r told fits same =
      let bound = bind_external_id x cr got.id now in
      let w = has_workers got in
      let (settings, template, workers) = conforms_parts cr _ got fits in
      let (off, first) = set_observation-confirmed bound got t w now _ refl settings in
      let k = set_observation-Keeps bound got true t w now in
      record {
        got = got;
        settings = settings;
        template = template;
        workers = workers;
        proven =
            reasserted e told (rw same (set_observation-IsOff bound got true t w now off)) (λ blank.
              rw same ((set_observation-IsRevised bound got true t w now (first blank)).1));
        generation = rw same (ap (λ m. m.generation) k.metadata);
        condition = rw same (ap (λ (cs : List Condition). available ∷ cs) k.conditions);
      }

  pub reasserted-IsReady :
      (cr : EndpointResource) (id e : String) (calls : List Call) (o : ExternalObservation)
      → (on_reasserted x reader svc t now cr
          (endpoint_input cr t.id)
          calls
          (svc.update_endpoint e (endpoint_input cr t.id))).result
        ≡ ok o
      → o.resource_up_to_date ≡ true
      → IsReady svc t id cr now (
          on_reasserted x reader svc t now cr
            (endpoint_input cr t.id)
            calls
            (svc.update_endpoint e (endpoint_input cr t.id)))
  reasserted-IsReady cr id e calls o h u =
      let (got, told, fits, same) = on_reasserted_lem cr (endpoint_input cr t.id) calls _ o h u in
      reasserted_object-IsReady cr id e got _ told fits same
