-- ===== src/Client/Methods/Create.antt =====
-- The chargeable call: creating an Endpoint.
use provider_runpod.Base.{
  true, false, [], ◌≡◌, refl, ◌≤◌, ◌⊎◌, inl, inr, Result, ok, err, Error, is_create_ambiguous,
  arith, length, length-append, eq_iff, not_true-false,
}
use provider_runpod.Identifier.{validate_runpod_id}
use provider_runpod.Client.Types.{Endpoint, EndpointInput}
use provider_runpod.Client.Transport.{post, Request, endpoint_input, Outcome}
use provider_runpod.Client.Transport.Sends.{do_json_once}
use provider_runpod.Client.Transport.Ambiguity.{IsRefused, do_json-IsRefused}
use provider_runpod.Client.Validation.{validate_endpoint_observation, normalize_endpoint_input}
use provider_runpod.Client.Validation.Observed.{
  IsObserved, validate_endpoint_observation-IsObserved,
}
use provider_runpod.Client.Methods.{
  Server, create_endpoint, call_endpoint, accept_created_endpoint, request, continue, settled,
}

abbrev pub creation : EndpointInput → Request
creation given = request post "/endpoints" (endpoint_input (normalize_endpoint_input given))

record Accepted (input : EndpointInput) (out : Endpoint) : Type 0 where
  validated : validate_endpoint_observation out ≡ ok tt
  named : out.name ≡ input.name
  bound : out.template_id ≡ input.template_id

accept-Accepted :
    (input : EndpointInput) (out out' : Endpoint)
    → accept_created_endpoint input out ≡ ok out'
    → (out ≡ out') × Accepted input out
accept-Accepted input out out' h =
    ground (arith, eq_iff out.name input.name, eq_iff out.template_id input.template_id)

refuse_ambiguous :
    (input : EndpointInput) (out : Endpoint) (e : Error)
    → accept_created_endpoint input out ≡ err e
    → is_create_ambiguous e ≡ true
refuse_ambiguous input out e h = ground arith

module _ (server : Server) (given : EndpointInput) where
  record IsSafe (o : Outcome Endpoint) : Type 0 where
    once : length o.sent ≤ 1
    created :
        (out : Endpoint)
        → o.result ≡ ok out
        → IsObserved out × (out.name ≡ given.name) × (out.template_id ≡ given.template_id)
    certain :
        (e : Error)
        → o.result ≡ err e
        → is_create_ambiguous e ≡ false
        → (o.sent ≡ []) ⊎ IsRefused (server.endpoint (creation given) 0)

  settled-IsSafe : (e : Error) → IsSafe (settled (err e))
  settled-IsSafe e = record {
    once = omega arith;
    created = λ out h. cc;
    certain = λ e' h n. inl refl;
  }

  accept-IsSafe :
      (answer : Outcome Endpoint)
      → length answer.sent ≤ 1
      → ((e : Error)
          → answer.result ≡ err e
          → is_create_ambiguous e ≡ false
          → IsRefused (server.endpoint (creation given) 0))
      → (r : Result Endpoint) → answer.result ≡ r
      → IsSafe (
          continue answer r
            λ out. settled (accept_created_endpoint (normalize_endpoint_input given) out))
  unfolding normalize_endpoint_input continue
  accept-IsSafe answer once refused (ok out) e = record {
    once = omega (arith, length-append {0} answer.sent []);
    created = λ out' h.
        let (same, a) = accept-Accepted (normalize_endpoint_input given) out out' h in
        rw (← same) (validate_endpoint_observation-IsObserved out a.validated, a.named, a.bound);
    certain = λ e' h n.
        absurd (not_true-false _ (refuse_ambiguous (normalize_endpoint_input given) out e' h) n);
  }
  accept-IsSafe answer once refused (err e') e = record {
    once = once;
    created = λ out h. cc;
    certain = λ e'' h n. inr (refused e'' (cc) n);
  }

  checked-IsSafe :
      (r : Result (Unit {0}))
      → IsSafe (
          continue (settled r) r λ _.
            continue
              (call_endpoint server (creation given))
              (call_endpoint server (creation given)).result
              λ out. settled (accept_created_endpoint (normalize_endpoint_input given) out))
  unfolding continue
  checked-IsSafe (err e) = settled-IsSafe e
  checked-IsSafe (ok tt) =
      accept-IsSafe (call_endpoint server (creation given)) (do_json_once _ _ _ _ _ refl).0
        (λ e h n. do_json-IsRefused _ _ _ _ _ refl h n) _ refl

-- A creation puts at most one POST on the wire. If it succeeds, the answer was validated and names
-- the Endpoint and the Template that were asked for. If it fails with anything but an ambiguous
-- creation, then no POST was sent or the server refused it for certain, so nothing was created.
pub create_endpoint_safe :
    (server : Server) (given : EndpointInput)
    → (length (create_endpoint server given).sent ≤ 1)
      × ((out : Endpoint)
          → (create_endpoint server given).result ≡ ok out
          → IsObserved out × (out.name ≡ given.name) × (out.template_id ≡ given.template_id))
      × ((e : Error)
          → (create_endpoint server given).result ≡ err e
          → is_create_ambiguous e ≡ false
          → ((create_endpoint server given).sent ≡ [])
            ⊎ IsRefused (server.endpoint (creation given) 0))
unfolding create_endpoint continue
create_endpoint_safe server given =
    let s = checked-IsSafe server given (validate_runpod_id given.template_id) in
    (s.once, s.created, s.certain)
