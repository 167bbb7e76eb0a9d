-- ===== src/Router/Lease/Reachable.antt =====
-- internal/router/router.go: what holds of the routes in every state that the Router reaches.
use provider_runpod.Base.{
  ℕ, ◌<◌, ◌≤◌, ◌≡◌, ◌≢◌, refl, String, true, false, Option, none, some, is_some, arith,
  if◌then◌else◌, if-elim,
}
use provider_runpod.Router.Lease.{
  Target, Router, retire, equivalent_to, allocate, replace, acquire_from, lease, return_lease,
  clear_token, Step, replaces, acquires, releases, clears, enters, leaves, new_router, Reach, start,
  later, new_route, cancel, erase,
}

-- What holds of the route at an address: a leased route has its token; an active one is not cancelled;
-- one that was replaced is; and an address that was not handed out yet holds no lease.
pub record IsKept (r : Router) (a : ℕ) : Type 0 where
  pub held : 0 < (r.routes a).inflight → is_some (r.routes a).token ≡ true
  pub live :
      r.active ≡ some a
      → ((r.routes a).cancelled ≡ false) × (is_some (r.routes a).token ≡ true) × (a < r.allocated)
  pub replaced : r.active ≢ some a → a < r.allocated → (r.routes a).cancelled ≡ true
  pub unused : r.allocated ≤ a → ((r.routes a).inflight ≡ 0) × ((r.routes a).cancelled ≡ false)

pub record IsSound (r : Router) : Type 0 where
  pub kept : (a : ℕ) → IsKept r a
  pub one_call : r.calls ≡ (if r.slot then 1 else 0)

-- Taking a route out of service, before nothing or another one is active.
retire_lem :
    (active : Option ℕ) (r : Router) (a : ℕ)
    → r.active ≡ active
    → IsKept r a
    → (0 < ((retire active r).routes a).inflight
        → is_some ((retire active r).routes a).token ≡ true)
      × (a < r.allocated → ((retire active r).routes a).cancelled ≡ true)
      × (r.allocated ≤ a
          → (((retire active r).routes a).inflight ≡ 0)
            × (((retire active r).routes a).cancelled ≡ false))
retire_lem none r a e k = (k.held, k.replaced (cc), k.unused)
retire_lem (some b) r a e k = ground (arith, e, k.held, k.live, k.replaced, k.unused)

retire-allocated : (active : Option ℕ) (r : Router) → (retire active r).allocated ≡ r.allocated
retire-allocated none r = refl
retire-allocated (some b) r = refl

withdrawn : (e : String) (r : Router) (a : ℕ) → IsKept r a → IsKept (replace none e r) a
unfolding replace
withdrawn e r a k =
    let same = retire-allocated r.active r in
    let (held, cancelled, unused) = retire_lem r.active r a refl k in
    record {
      held = held;
      live = λ h. cc;
      replaced = λ _ h. cancelled (rw same at h);
      unused = λ h. unused (rw same at h);
    }

discarded :
    (next : Target) (e : String) (r : Router) (a : ℕ)
    → IsKept r a
    → IsKept (record (allocate (erase (cancel (new_route next))) r) { state_error = e }) a
discarded next e r a k = record {
  held = λ h. ground (arith, k.held, h);
  live = λ h. ground (arith, k.live, h);
  replaced = λ n h. ground (arith, k.replaced, n, h);
  unused = λ h. ground (arith, k.unused, h);
}

admitted :
    (next : Target) (e : String) (r : Router) (a : ℕ)
    → IsKept r a
    → IsKept
        (record (allocate (new_route next) (retire r.active r)) {
          active = some r.allocated;
          state_error = e;
        })
        a
admitted next e r a k =
    let same = retire-allocated r.active r in
    let (held, cancelled, unused) = retire_lem r.active r a refl k in
    record {
      held = λ h. ground (arith, same, held, h);
      live = λ h. ground (arith, same, h);
      replaced = λ n h. ground (arith, same, cancelled, n, h);
      unused = λ h. ground (arith, same, unused, h);
    }

replace-IsKept :
    (next : Option Target) (e : String) (r : Router) (a : ℕ)
    → IsKept r a
    → IsKept (replace next e r) a
replace-IsKept none e r a k = withdrawn e r a k
replace-IsKept (some next) e r a k =
    unfold replace in
    if-elim (λ s. IsKept s a) (equivalent_to r.active r (new_route next)) _ _
      (λ _. discarded next e r a k) (λ _. admitted next e r a k)

lease-IsKept : (b : ℕ) (r : Router) (a : ℕ) → r.active ≡ some b → IsKept r a → IsKept (lease b r) a
lease-IsKept b r a e k = record {
  held = λ h. ground (arith, k.held, k.live, e, h);
  live = λ h. ground (arith, k.live, h);
  replaced = λ n h. ground (arith, k.replaced, n, h);
  unused = λ h. ground (arith, k.unused, k.live, e, h);
}

acquire-IsKept :
    (active : Option ℕ) (r : Router) (a : ℕ)
    → r.active ≡ active
    → IsKept r a
    → IsKept (acquire_from active r) a
acquire-IsKept none r a e k = k
acquire-IsKept (some b) r a e k = lease-IsKept b r a e k

return_lease-IsKept : (b : ℕ) (r : Router) (a : ℕ) → IsKept r a → IsKept (return_lease b r) a
return_lease-IsKept b r a k = record {
  held = λ h. ground (arith, k.held, h);
  live = λ h. ground (arith, k.live, h);
  replaced = λ n h. ground (arith, k.replaced, n, h);
  unused = λ h. ground (arith, k.unused, h);
}

clear_token-IsKept :
    (b : ℕ) (r : Router) (a : ℕ)
    → (r.routes b).cancelled ≡ true
    → (r.routes b).inflight ≡ 0
    → IsKept r a
    → IsKept (clear_token b r) a
clear_token-IsKept b r a gone idle k = record {
  held = λ h. ground (arith, k.held, idle, h);
  live = λ h. ground (arith, k.live, gone, h);
  replaced = λ n h. ground (arith, k.replaced, n, h);
  unused = λ h. ground (arith, k.unused, h);
}

Step-IsKept : {r s : Router} (a : ℕ) → Step r s → IsKept r a → IsKept s a
Step-IsKept {r} a (replaces next e) k = replace-IsKept next e r a k
Step-IsKept {r} a acquires k = acquire-IsKept r.active r a refl k
Step-IsKept {r} a (releases b held) k = return_lease-IsKept b r a k
Step-IsKept {r} a (clears b gone idle) k = clear_token-IsKept b r a gone idle k
Step-IsKept {r} a (enters free) k = record {
  held = k.held;
  live = k.live;
  replaced = k.replaced;
  unused = k.unused;
}
Step-IsKept {r} a (leaves calls) k = record {
  held = k.held;
  live = k.live;
  replaced = k.replaced;
  unused = k.unused;
}

-- The slot of the inference calls.
abbrev OneCall : Router → Type 0
OneCall r = r.calls ≡ (if r.slot then 1 else 0)

acquired-slot : (active : Option ℕ) (r : Router) → OneCall r → OneCall (acquire_from active r)
acquired-slot none r h = h
acquired-slot (some b) r h = h

retired-slot :
    (active : Option ℕ) (r : Router)
    → OneCall r
    → (retire active r).calls ≡ (if (retire active r).slot then 1 else 0)
retired-slot none r h = h
retired-slot (some b) r h = h

replaced-slot :
    (next : Option Target) (e : String) (r : Router) → OneCall r → OneCall (replace next e r)
replaced-slot none e r h = unfold replace in retired-slot r.active r h
replaced-slot (some next) e r h =
    unfold replace in
    if-elim OneCall (equivalent_to r.active r (new_route next)) _ _ (λ _. h)
      (λ _. retired-slot r.active r h)

Step-slot : {r s : Router} → Step r s → OneCall r → OneCall s
Step-slot {r} (replaces next e) h = replaced-slot next e r h
Step-slot {r} acquires h = acquired-slot r.active r h
Step-slot (releases b held) h = h
Step-slot (clears b gone idle) h = h
Step-slot (enters free) h = ground (arith, h, free)
Step-slot {r} (leaves calls) h = ground (arith, h, calls)

Step-IsSound : {r s : Router} → Step r s → IsSound r → IsSound s
Step-IsSound step sound = record {
  kept = λ a. Step-IsKept a step (sound.kept a);
  one_call = Step-slot step sound.one_call;
}

new_router-IsSound : IsSound new_router
new_router-IsSound = record {
  kept = λ a. record {
    held = λ h. refl;
    live = λ h. cc;
    replaced = λ n h. absurd (omega arith);
    unused = λ h. (refl, refl);
  };
  one_call = refl;
}

-- In every state that the Router reaches, whatever the goroutines' order: a route with a lease still has
-- its token; the active route is not cancelled and has its token; a route that was replaced is
-- cancelled; and at most one request is past the inference slot.
pub Reach-IsSound : {r : Router} → Reach r → IsSound r
Reach-IsSound start = new_router-IsSound
Reach-IsSound (later before step) = Step-IsSound step (Reach-IsSound before)
