-- ===== src/Router/Lease.antt =====
-- internal/router/router.go: the route that requests lease, as the steps of a Router that several
-- goroutines take under its mutex. A route is an address in a store, since `replace` compares and keeps
-- pointers; a `WaitGroup` is the number of its leases.
pub mod Reachable
use provider_runpod.Base.{
  ℕ, suc, ◌-◌, ◌<◌, ◌≡◌, String, Bool, true, false, ◌&&◌, Option, none, some, ◌==◌, str_eq,
  if◌then◌else◌,
}

-- What `Refresh` makes a route of.
pub record Target : Type 0 where
  pub namespace : String
  pub check_name : String
  pub endpoint_id : String
  pub expected_model_id : String
  pub token : String

-- The token is none once it was erased.
pub record Route : Type 0 where
  pub namespace : String
  pub check_name : String
  pub endpoint_id : String
  pub expected_model_id : String
  pub token : Option String
  pub cancelled : Bool
  pub inflight : ℕ

-- `allocated` is the number of routes made so far; `calls` counts the requests between
-- `acquireInferenceSlot` and `releaseInferenceSlot`, and `slot` is the channel of capacity 1.
pub record Router : Type 0 where
  pub active : Option ℕ
  pub routes : ℕ → Route
  pub allocated : ℕ
  pub state_error : String
  pub slot : Bool
  pub calls : ℕ

abbrev pub update : ℕ → Route → (ℕ → Route) → ℕ → Route
update a new routes b = if a == b then new else routes b

abbrev pub same_token : Option String → Option String → Bool
same_token (some x) (some y) = str_eq x y
same_token _ _ = false

unfoldable pub routes_equivalent : Route → Route → Bool
routes_equivalent a b =
    str_eq a.namespace b.namespace
    && str_eq a.check_name b.check_name
    && str_eq a.endpoint_id b.endpoint_id
    && str_eq a.expected_model_id b.expected_model_id
    && same_token a.token b.token

-- A route that `replace` was given at a new address.
abbrev pub allocate : Route → Router → Router
allocate new r = record r { routes = update r.allocated new r.routes; allocated = suc r.allocated }

abbrev pub cancel : Route → Route
cancel old = record old { cancelled = true }

abbrev pub erase : Route → Route
erase old = record old { token = none }

abbrev pub retire : Option ℕ → Router → Router
retire none r = r
retire (some a) r = record r { routes = update a (cancel (r.routes a)) r.routes }

abbrev pub equivalent_to : Option ℕ → Router → Route → Bool
equivalent_to none r next = false
equivalent_to (some a) r next = routes_equivalent (r.routes a) next

-- A new route has a context of its own and no lease.
abbrev pub new_route : Target → Route
new_route t = record {
  namespace = t.namespace;
  check_name = t.check_name;
  endpoint_id = t.endpoint_id;
  expected_model_id = t.expected_model_id;
  token = some t.token;
  cancelled = false;
  inflight = 0;
}

-- What `replace` does under the mutex. Without a route before and after it only sets the error; an
-- equivalent route is kept, and the new one cancelled and erased; else the new one becomes active and
-- the previous one is cancelled.
unfoldable pub replace : Option Target → String → Router → Router
unfolding routes_equivalent
replace none state_error r = record (retire r.active r) { active = none; state_error = state_error }
replace (some next) state_error r =
    let fresh = new_route next in
    if equivalent_to r.active r fresh
    then record (allocate (erase (cancel fresh)) r) { state_error = state_error }
    else record (allocate fresh (retire r.active r)) {
      active = some r.allocated;
      state_error = state_error;
    }

abbrev pub withdraw : String → Router → Router
withdraw = replace none

abbrev pub lease : ℕ → Router → Router
lease a r =
    let old = r.routes a in
    record r { routes = update a (record old { inflight = suc old.inflight }) r.routes }

abbrev pub acquire_from : Option ℕ → Router → Router
acquire_from none r = r
acquire_from (some a) r = lease a r

abbrev pub acquire : Router → Router
acquire r = acquire_from r.active r

-- The function that `acquire` returns.
abbrev pub return_lease : ℕ → Router → Router
return_lease a r =
    let old = r.routes a in
    record r { routes = update a (record old { inflight = old.inflight - 1 }) r.routes }

-- What `replace` does to the previous route once its leases were returned.
abbrev pub clear_token : ℕ → Router → Router
clear_token a r = record r { routes = update a (erase (r.routes a)) r.routes }

abbrev pub acquire_inference_slot : Router → Router
acquire_inference_slot r = record r { slot = true; calls = suc r.calls }

abbrev pub release_inference_slot : Router → Router
release_inference_slot r = record r { slot = false; calls = r.calls - 1 }

-- A step that some goroutine may take. `replace` waits between its two parts until the previous route,
-- which is active no more, has no lease.
pub data Step (r : Router) : Router → Type 0 where
  replaces : (next : Option Target) (state_error : String) → Step r (replace next state_error r)
  acquires : Step r (acquire r)
  releases : (a : ℕ) → 0 < (r.routes a).inflight → Step r (return_lease a r)
  clears :
      (a : ℕ) → (r.routes a).cancelled ≡ true → (r.routes a).inflight ≡ 0 → Step r (clear_token a r)
  enters : r.slot ≡ false → Step r (acquire_inference_slot r)
  leaves : 0 < r.calls → Step r (release_inference_slot r)

abbrev pub no_route : Route
no_route = record {
  namespace = "";
  check_name = "";
  endpoint_id = "";
  expected_model_id = "";
  token = some "";
  cancelled = false;
  inflight = 0;
}

-- `New`
abbrev pub new_router : Router
new_router = record {
  active = none;
  routes = λ _. no_route;
  allocated = 0;
  state_error = "no admitted EndpointCheck";
  slot = false;
  calls = 0;
}

pub data Reach : Router → Type 0 where
  start : Reach new_router
  later : {r s : Router} → Reach r → Step r s → Reach s
