-- ===== src/Client/Transport/Ambiguity.antt =====
-- When a POST may have been committed: every such outcome is reported as ambiguous.
use provider_runpod.Base.{
  ℕ, ◌≤◌, ◌<◌, ◌≡◌, refl, ◌≢◌, ◌⊎◌, Bool, false, Result, err, Error, is_create_ambiguous, arith,
}
use mathlib.Core.Path.{subst}
use provider_runpod.Client.Transport.Sends.{Ends, Decides, do_json-Decides}
use provider_runpod.Client.Transport.{
  post, Request, Reply, Exchange, unbuilt, failed, replied, judge, do_json, max_body_bytes,
}

-- The response that says for certain that nothing was created: it was read whole, and it is a 404
-- or another status that is neither a success nor one that the server may have answered late with.
pub record Refuses {A : Type 0} (r : Reply A) : Type 0 where
  pub read : r.read_failed ≡ false
  pub closed : r.close_failed ≡ false
  pub whole : r.size ≤ max_body_bytes
  pub not_limited : r.status ≢ 429
  pub status : (r.status < 200) ⊎ ((300 ≤ r.status) × (r.status < 500))

abbrev pub IsRefused : {A : Type 0} → Exchange A → Type 0
IsRefused unbuilt = Unit
IsRefused failed = ⊥
IsRefused (replied r) = Refuses r

module _ {A : Type 0} (b : A) (w : Bool) where
  judge_post :
      (x : Exchange A) (cut : Bool) (r : Result A) {e : Error}
      → Ends (judge b w post 0 x) cut r
      → r ≡ err e
      → is_create_ambiguous e ≡ false
      → IsRefused x
  judge_post unbuilt cut r h q n = tt
  judge_post failed cut r h q n = ground arith
  judge_post (replied y) cut r h q n = ground arith

-- A POST that fails with any other error than an ambiguous creation never reached the server, or was
-- answered in full with a status that refuses it: below 200, or 300 to 499 but not 429. So a lost,
-- late, oversized or undecodable answer is never taken for a failed creation.
pub do_json-IsRefused :
    {A : Type 0} (b : A) (w : Bool) (cut : ℕ → Bool) (x : ℕ → Exchange A) (req : Request)
    {e : Error}
    → req.method ≡ post
    → (do_json b w cut x req).result ≡ err e
    → is_create_ambiguous e ≡ false
    → IsRefused (x 0)
do_json-IsRefused b w cut x req m h n =
    let (k, t, first) = do_json-Decides b w cut x req in
    let k0 : k ≡ 0 = first (rw m refl) in
    let ends = subst (λ j. Decides b w cut x req 0 (do_json b w cut x req) j) k0 t in
    judge_post b w (x 0) (cut 0) _
      (subst (λ m'. Ends (judge b w m' 0 (x 0)) (cut 0) (do_json b w cut x req).result) m ends.ends)
      h n
