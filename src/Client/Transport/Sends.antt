-- ===== src/Client/Transport/Sends.antt =====
-- How often a call goes out, and which attempt decides it.
use provider_runpod.Base.{
  ℕ, zero, suc, ◌+◌, ◌-◌, ◌≤◌, ◌<◌, ◌≡◌, refl, inl, inr, Bool, true, false, [], length, All,
  not_true-false, Result, err, failure, ℤ, arith, Bool-cases,
}
use provider_runpod.Client.Transport.{
  Method, get, post, patch, delete, is_get, Request, Exchange, unbuilt, failed, replied, Verdict,
  unsent, done, again, judge, Outcome, settle, attempts, do_json, max_attempts,
}
use mathlib.Core.Path.{subst}
use native.Mathlib.Decide.{ℕ_discrete}

-- Only a GET is tried again, and not after the last attempt.
judge-again :
    {A : Type 0} (b : A) (w : Bool) (m : Method) (k : ℕ) (x : Exchange A) {d : ℤ}
    → judge b w m k x ≡ again d
    → k < 4
    → (is_get m ≡ true) × (k < 3)
judge-again b w m k unbuilt h l = cc
judge-again b w get k failed h l = ground arith
judge-again b w post k failed h l = ground arith
judge-again b w patch k failed h l = ground arith
judge-again b w delete k failed h l = ground arith
judge-again b w get k (replied r) h l = ground arith
judge-again b w post k (replied r) h l = ground arith
judge-again b w patch k (replied r) h l = ground arith
judge-again b w delete k (replied r) h l = ground arith

-- How a verdict ends a call, given whether the sleep that it asks for is cut short.
abbrev pub Ends : {A : Type 0} → Verdict A → Bool → Result A → Type 0
Ends (unsent e) cut r = r ≡ err e
Ends (done x) cut r = r ≡ x
Ends (again d) cut r = (cut ≡ true) × (r ≡ err (failure "context"))

abbrev pub IsRetry : {A : Type 0} → Verdict A → Bool → Type 0
IsRetry {A} v cut = ((d : ℤ) × (v ≡ again d)) × (cut ≡ false)

module _ {A : Type 0} (b : A) (w : Bool) (cut : ℕ → Bool) (x : ℕ → Exchange A) (req : Request) where
  -- Attempt `k` decides the call: it is reached by retries from `from` on, and it ends the call.
  pub record Decides (from : ℕ) (o : Outcome A) (k : ℕ) : Type 0 where
    pub reached : from ≤ k
    pub in_budget : k < max_attempts
    pub retried : (j : ℕ) → from ≤ j → j < k → IsRetry (judge b w req.method j (x j)) (cut j)
    pub ends : Ends (judge b w req.method k (x k)) (cut k) o.result
    pub sends : length o.sent ≤ suc (k - from)
    pub sleeps : length o.slept ≤ suc (k - from)
    pub same : All (λ r. r ≡ req) o.sent

  abbrev Decided : ℕ → Outcome A → Type 0
  Decided from o = (k : ℕ) × Decides from o k

  -- Retries from attempt `from` on are the one at `from` and those after it.
  retried-cons :
      (from k : ℕ)
      → IsRetry (judge b w req.method from (x from)) (cut from)
      → ((j : ℕ) → suc from ≤ j → j < k → IsRetry (judge b w req.method j (x j)) (cut j))
      → (j : ℕ) → from ≤ j
      → j < k
      → IsRetry (judge b w req.method j (x j)) (cut j)
  retried-cons from k here later j p q = elim (ℕ_discrete from j) [
    | yes e ↦ subst (λ n. IsRetry (judge b w req.method n (x n)) (cut n)) e here
    | no ne ↦ later j (omega arith) q
  ]

  settle-Decides :
      (from : ℕ) (v : Verdict A) (rest : Outcome A)
      → judge b w req.method from (x from) ≡ v
      → from < max_attempts
      → ((d : ℤ) → v ≡ again d → Decided (suc from) rest)
      → Decided from (settle b w cut x req from v rest)
  settle-Decides from (unsent e) rest h l ih = (
    from,
    record {
      reached = omega arith;
      in_budget = l;
      retried = λ j p q. absurd (omega arith);
      ends = rw h refl;
      sends = omega arith;
      sleeps = omega arith;
      same = tt;
    },
  )
  settle-Decides from (done r) rest h l ih = (
    from,
    record {
      reached = omega arith;
      in_budget = l;
      retried = λ j p q. absurd (omega arith);
      ends = rw h refl;
      sends = omega arith;
      sleeps = omega arith;
      same = (refl, tt);
    },
  )
  settle-Decides from (again d) rest h l ih = elim (Bool-cases (cut from)) [
    | inl yes_cut ↦ rw yes_cut (
      from,
      record {
        reached = omega arith;
        in_budget = l;
        retried = λ j p q. absurd (omega arith);
        ends = rw h (yes_cut, refl);
        sends = omega arith;
        sleeps = omega arith;
        same = (refl, tt);
      },
    )
    | inr not_cut ↦ rw not_cut (
        let (k, t) = ih d refl in
        (
          k,
          record {
            reached = omega (arith, t.reached);
            in_budget = t.in_budget;
            retried = retried-cons from k ((d, h), not_cut) t.retried;
            ends = t.ends;
            sends = omega (arith, t.sends, t.reached);
            sleeps = omega (arith, t.sleeps, t.reached);
            same = (refl, t.same);
          },
        ))
  ]

  attempts-Decides :
      (fuel from : ℕ)
      → from + suc fuel ≡ max_attempts
      → Decided from (attempts b w cut x req (suc fuel) from)
  unfolding attempts
  attempts-Decides zero from h =
      settle-Decides from _ _ refl (omega arith) (λ d e.
        absurd (omega (arith, (judge-again b w req.method from (x from) e (omega arith)).1)))
  attempts-Decides (suc fuel) from h =
      settle-Decides from _ _ refl (omega arith)
        (λ d e. attempts-Decides fuel (suc from) (omega arith))

  -- Every call is decided by one of its four attempts, and so never exhausts the loop: each attempt
  -- before it asked for a retry and slept undisturbed, the call's result is that attempt's, every
  -- request sent is the call's own, and as many go out as there were attempts, at most. A call whose
  -- method is not GET is decided by its first attempt.
  pub do_json-Decides :
      (k : ℕ) × Decides 0 (do_json b w cut x req) k × (is_get req.method ≡ false → k ≡ 0)
  unfolding do_json
  do_json-Decides = let (k, t) = attempts-Decides 3 0 refl in (k, t, first k t)
    where
      first : (k : ℕ) → Decides 0 (do_json b w cut x req) k → is_get req.method ≡ false → k ≡ 0
      first zero t g = refl
      first (suc k) t g =
          let ((d, e), _) = t.retried 0 (omega arith) (omega arith) in
          absurd (not_true-false _ (judge-again b w req.method 0 (x 0) e (omega arith)).0 g)

settle_final :
    {A : Type 0} (b : A) (w : Bool) (cut : ℕ → Bool) (x : ℕ → Exchange A) (req : Request) (k : ℕ)
    (v : Verdict A) (rest : Outcome A)
    → ((d : ℤ) → v ≡ again d → ⊥)
    → (length (settle b w cut x req k v rest).sent ≤ 1)
      × ((settle b w cut x req k v rest).slept ≡ [])
settle_final b w cut x req k (unsent e) rest h = (omega arith, refl)
settle_final b w cut x req k (done r) rest h = (omega arith, refl)
settle_final b w cut x req k (again d) rest h = absurd (h d refl)

-- A POST, a PATCH or a DELETE puts at most one request on the wire and never sleeps, whatever the
-- server and the context do.
pub do_json_once :
    {A : Type 0} (b : A) (w : Bool) (cut : ℕ → Bool) (x : ℕ → Exchange A) (req : Request)
    → is_get req.method ≡ false
    → (length (do_json b w cut x req).sent ≤ 1) × ((do_json b w cut x req).slept ≡ [])
unfolding do_json
do_json_once b w cut x req g =
    settle_final b w cut x req 0 _ _
      (λ d e. not_true-false _ (judge-again b w req.method 0 (x 0) e (omega arith)).0 g)
