-- ===== src/Client/Methods/Endpoints.antt =====
-- Reads, updates and deletions by ID.
use Prim.Native.String.{◌++◌}
use mathlib.Core.List
use provider_runpod.Base.{
  String, true, [], ◌≡◌, refl, ◌⊎◌, inl, inr, ◌≢◌, Result, ok, err, Error, not_found, ambiguous,
  lifetime_expired, create_ambiguous, api_error, failure, is_ok, str_eq, eq_iff, Bool-cases, ◌&&◌,
  and_split, is_ok-eq, if-eq-ok,
}
use provider_runpod.Identifier.{validate_runpod_id, safe_id}
use provider_runpod.Identifier.Escape.{safe_id_sound}
use provider_runpod.Client.Types.{Endpoint, EndpointInput}
use provider_runpod.Client.Transport.{patch, delete, Outcome, no_body, zero_workers}
use provider_runpod.Client.Validation.{validate_endpoint_observation}
use provider_runpod.Client.Validation.Observed.{
  IsObserved, validate_endpoint_observation-IsObserved,
}
use provider_runpod.Client.Methods.{
  Server, get_endpoint, update_endpoint, delete_endpoint, call, request, continue, omits_evidence,
  forgive_not_found,
}

safe_id-err : (id : String) {e : Error} → validate_runpod_id id ≡ err e → safe_id id ≡ err e
unfolding safe_id
safe_id-err id h = rw h refl

-- A call that ends well, or finds nothing, is followed by the next; any other error ends the chain.
module _ (o p : Outcome (Unit {0})) where
  abbrev chained : Outcome (Unit {0})
  chained = continue (forgive_not_found o) (forgive_not_found o).result (λ _. p)

  forgiven_goes_on :
      (o.result ≡ ok tt) ⊎ (o.result ≡ err not_found)
      → (chained.sent ≡ List.◌++◌ o.sent p.sent) × (chained.result ≡ p.result)
  unfolding continue
  forgiven_goes_on (inl h) = rw h (refl, refl)
  forgiven_goes_on (inr h) = rw h (refl, refl)

  unforgiven_stops :
      (e : Error)
      → o.result ≡ err e
      → e ≢ not_found
      → (chained.sent ≡ o.sent) × (chained.result ≡ err e)
  unfolding continue
  unforgiven_stops not_found h n = absurd (n refl)
  unforgiven_stops ambiguous h n = rw h (refl, refl)
  unforgiven_stops lifetime_expired h n = rw h (refl, refl)
  unforgiven_stops (create_ambiguous s) h n = rw h (refl, refl)
  unforgiven_stops (api_error k s) h n = rw h (refl, refl)
  unforgiven_stops (failure s) h n = rw h (refl, refl)

-- The two requests of a deletion, in the order in which they are sent.
module _ (server : Server) (id : String) where
  abbrev pub zeroing : Outcome (Unit {0})
  zeroing = call server (request patch ("/endpoints/" ++ id) zero_workers)

  abbrev pub removal : Outcome (Unit {0})
  removal = call server (request delete ("/endpoints/" ++ id) no_body)

  delete-steps :
      validate_runpod_id id ≡ ok tt
      → delete_endpoint server id
        ≡ continue (forgive_not_found zeroing) (forgive_not_found zeroing).result (λ _. removal)
  unfolding delete_endpoint continue
  delete-steps v = rw (safe_id_sound id v).3 refl

-- Deleting an Endpoint under an ID that does not validate sends nothing. Otherwise both worker bounds
-- are set to zero first: the DELETE follows only if that was acknowledged or found nothing, its answer
-- is then the result, and any other error of the first request is the result and no DELETE is sent.
pub delete_endpoint_order :
    (server : Server) (id : String)
    → ((e : Error)
        → validate_runpod_id id ≡ err e
        → ((delete_endpoint server id).sent ≡ []) × ((delete_endpoint server id).result ≡ err e))
      × (validate_runpod_id id ≡ ok tt
          → ((zeroing server id).result ≡ ok tt) ⊎ ((zeroing server id).result ≡ err not_found)
          → ((delete_endpoint server id).sent
              ≡ List.◌++◌ (zeroing server id).sent (removal server id).sent)
            × ((delete_endpoint server id).result ≡ (removal server id).result))
      × ((e : Error)
          → validate_runpod_id id ≡ ok tt
          → (zeroing server id).result ≡ err e
          → e ≢ not_found
          → ((delete_endpoint server id).sent ≡ (zeroing server id).sent)
            × ((delete_endpoint server id).result ≡ err e))
unfolding delete_endpoint continue
delete_endpoint_order server id = (
  λ e h. rw (safe_id-err id h, delete_endpoint) (refl, refl),
  λ v z. rw (delete-steps server id v) (forgiven_goes_on (zeroing server id) (removal server id) z),
  λ e v z n.
      rw (delete-steps server id v)
        (unforgiven_stops (zeroing server id) (removal server id) e z n),
)

continue-ok :
    {A B : Type 0} (o : Outcome A) (r : Result A) (f : A → Outcome B) {b : B}
    → (continue o r f).result ≡ ok b
    → (a : A) × (r ≡ ok a) × ((f a).result ≡ ok b)
unfolding continue
continue-ok o (ok a) f h = (a, refl, h)
continue-ok o (err e) f h = cc

-- A response that passes the validation and the test of its ID.
validated :
    (id : String) (out got : Endpoint)
    → (is_ok (validate_endpoint_observation out) && str_eq out.id id) ≡ true
    → out ≡ got
    → IsObserved got × (got.id ≡ id)
validated id out got tests same =
    let (valid, named) = and_split _ _ tests in
    (
      rw same at (validate_endpoint_observation-IsObserved out (is_ok-eq _ valid)),
      rw same at ((eq_iff out.id id).0 named),
    )

get_endpoint_sound :
    (server : Server) (id : String) (got : Endpoint)
    → (get_endpoint server id).result ≡ ok got
    → IsObserved got × (got.id ≡ id)
unfolding get_endpoint
get_endpoint_sound server id got h =
    let (escaped, _, h₁) = continue-ok _ _ _ h in
    let (out, _, h₂) = continue-ok _ _ _ h₁ in
    let (tests, same) = if-eq-ok _ out _ h₂ in validated id out got tests same

update_endpoint_sound :
    (server : Server) (id : String) (given : EndpointInput) (got : Endpoint)
    → (update_endpoint server id given).result ≡ ok got
    → IsObserved got × (got.id ≡ id)
unfolding update_endpoint
update_endpoint_sound server id given got h =
    let (escaped, _, h₁) = continue-ok _ _ _ h in
    let (_, _, h₂) = continue-ok _ _ _ h₁ in
    let (out, _, h₃) = continue-ok _ _ _ h₂ in
    elim (Bool-cases (omits_evidence out)) [
      | inl omitted ↦ get_endpoint_sound server id got (rw omitted at h₃)
      | inr complete ↦
          let (tests, same) = if-eq-ok _ out _ (rw complete at h₃) in
          let (named, _) = and_split _ _ tests in
          let (identified, _) = and_split _ _ named in validated id out got identified same
    ]

-- Whatever the server answers, an Endpoint that is read or updated by ID comes back under that very
-- ID and validated, also where the answer to the update omits evidence and the Endpoint is read again.
pub by_id_sound :
    (server : Server) (id : String) (given : EndpointInput) (got : Endpoint)
    → ((get_endpoint server id).result ≡ ok got)
      ⊎ ((update_endpoint server id given).result ≡ ok got)
    → IsObserved got × (got.id ≡ id)
by_id_sound server id given got (inl h) = get_endpoint_sound server id got h
by_id_sound server id given got (inr h) = update_endpoint_sound server id given got h
