-- ===== src/Verification/Reconcile/Passes.antt =====
-- internal/controller/endpointcheck/endpointcheck.go, Reconcile: how a pass comes to use the token, by the
-- guards before it.
use provider_runpod.Base.{
  ◌≡◌, refl, String, true, false, not, Option, none, some, Result as Answer, ok, err, is_ok,
  is_not_found, has_string, lookup, if-elim, not-eq-false,
}
use provider_runpod.Apis.{EndpointCheck, Time, before, deadline}
use provider_runpod.Apis.Crossplane.{Crossplane}
use provider_runpod.Apis.Reader.{Reader}
use provider_runpod.Credentials.{Secret, require_purpose, purpose_inference}
use provider_runpod.Inference.{Reading, Call, Response, Client}
use provider_runpod.Router.Eligible.{router_drain_finalizer}
use provider_runpod.Verification.{EndpointBinding}
use provider_runpod.Verification.Resolve.{resolve_endpoint}
use provider_runpod.Verification.Reconcile.{
  Event, Next, Pass, requeue, finished, is_lifetime_expired, done, write_then, update_check, waits,
  earlier, fail, delete_it, with_token, with_entry, with_secret, with_binding, with_check, held,
  reconcile,
}

module _ (x : Crossplane) (reader : Reader) (reading : Reading) (network : Client → Call → Response)
    (format : Time → String) (answer : Event → Answer (Unit {0})) (now : Time) where
  -- A check whose token a pass uses: alive, held for the router, before its end and not waiting; its
  -- Endpoint is bound, and its Secret is one for inference with the key.
  pub record IsReached (read : Answer EndpointCheck) : Type 0 where
    pub check : EndpointCheck
    pub b : EndpointBinding
    pub secret : Secret
    pub token : String
    pub found : read ≡ ok check
    pub alive : check.metadata.is_deleting ≡ false
    pub held : has_string check.metadata.finalizers router_drain_finalizer ≡ true
    pub lives : before now (deadline check.metadata check.spec.max_lifetime_seconds) ≡ true
    pub resolved : resolve_endpoint x reader now check ≡ ok b
    pub late : waits x check now ≡ false
    pub readable :
        reader.get_secret check.metadata.namespace check.spec.inference_credentials_secret_ref.name
        ≡ ok secret
    pub purpose : is_ok (require_purpose (some secret) purpose_inference) ≡ true
    pub entry : lookup check.spec.inference_credentials_secret_ref.key secret.entries ≡ some token

  abbrev pub hold_it : EndpointCheck → Pass
  hold_it check =
      let kept = held x reader reading network format answer now check in
      write_then (update_check kept) (answer (update_check kept)) (done (ok requeue))

  -- A predicate that holds of each pass that ends before the token.
  pub record IsClosed {ℓ} (Q : Pass → Type ℓ) : Type ℓ where
    pub idle : (r : Answer Next) → Q (done r)
    pub failed :
        (check : EndpointCheck) (expires_at : Time)
        → Q (fail x reader reading network format answer now check expires_at)
    pub deleted :
        (check : EndpointCheck) → Q (delete_it x reader reading network format answer now check)
    pub kept : (check : EndpointCheck) → Q (hold_it check)

  module _ {ℓ} (read : Answer EndpointCheck) (Q : Pass → Type ℓ) (closed : IsClosed Q)
      (step : (t : IsReached read) (expires_at : Time)
        → Q (
            with_token x reader reading network format answer now t.check t.b
              t.secret.resource_version expires_at t.token)) where
    module _ (check : EndpointCheck) (found : read ≡ ok check)
        (alive : check.metadata.is_deleting ≡ false)
        (held : has_string check.metadata.finalizers router_drain_finalizer ≡ true)
        (lives : before now (deadline check.metadata check.spec.max_lifetime_seconds) ≡ true) where
      module _ (b : EndpointBinding) (expires_at : Time)
          (resolved : resolve_endpoint x reader now check ≡ ok b)
          (late : waits x check now ≡ false) where
        with_entry_lem :
            (secret : Secret) (entry : Option String)
            → (reader.get_secret check.metadata.namespace
                  check.spec.inference_credentials_secret_ref.name
                ≡ ok secret)
            → is_ok (require_purpose (some secret) purpose_inference) ≡ true
            → lookup check.spec.inference_credentials_secret_ref.key secret.entries ≡ entry
            → Q (
                with_entry x reader reading network format answer now check b
                  secret.resource_version expires_at entry)
        with_entry_lem secret none readable purpose entry = closed.failed check expires_at
        with_entry_lem secret (some token) readable purpose entry =
            step
              (record {
                check = check;
                b = b;
                secret = secret;
                token = token;
                found = found;
                alive = alive;
                held = held;
                lives = lives;
                resolved = resolved;
                late = late;
                readable = readable;
                purpose = purpose;
                entry = entry;
              })
              expires_at

        with_secret_lem :
            (r : Answer Secret)
            → (reader.get_secret check.metadata.namespace
                  check.spec.inference_credentials_secret_ref.name
                ≡ r)
            → Q (with_secret x reader reading network format answer now check b expires_at r)
        with_secret_lem (err e) readable = closed.failed check expires_at
        with_secret_lem (ok secret) readable =
            if-elim Q (not (is_ok (require_purpose (some secret) purpose_inference)))
              (fail x reader reading network format answer now check expires_at)
              (with_entry x reader reading network format answer now check b secret.resource_version
                expires_at (lookup check.spec.inference_credentials_secret_ref.key secret.entries))
              (λ _. closed.failed check expires_at)
              (λ h. with_entry_lem secret _ readable (not-eq-false _ h) refl)

      with_binding_lem :
          (r : Answer EndpointBinding)
          → resolve_endpoint x reader now check ≡ r
          → Q (with_binding x reader reading network format answer now check r)
      with_binding_lem (err e) resolved =
          let end = deadline check.metadata check.spec.max_lifetime_seconds in
          if-elim Q (is_lifetime_expired e)
            (delete_it x reader reading network format answer now check)
            (fail x reader reading network format answer now check end) (λ _. closed.deleted check)
            (λ _. closed.failed check end)
      with_binding_lem (ok b) resolved =
          let expires_at =
            earlier b.expires_at (deadline check.metadata check.spec.max_lifetime_seconds) in
          if-elim Q (waits x check now) (done _)
            (with_secret x reader reading network format answer now check b expires_at (
              reader.get_secret check.metadata.namespace
                check.spec.inference_credentials_secret_ref.name))
            (λ _. closed.idle _) (λ late. with_secret_lem b expires_at resolved late _ refl)

    with_check_lem :
        (r : Answer EndpointCheck)
        → read ≡ r
        → Q (with_check x reader reading network format answer now r)
    with_check_lem (err e) found =
        if-elim Q (is_not_found e) (done (ok finished)) (done (err e)) (λ _. closed.idle _)
          (λ _. closed.idle _)
    with_check_lem (ok check) found =
        let late = not (before now (deadline check.metadata check.spec.max_lifetime_seconds)) in
        if-elim Q check.metadata.is_deleting (done (ok finished)) _ (λ _. closed.idle _)
          (λ alive.
            if-elim Q (not (has_string check.metadata.finalizers router_drain_finalizer))
              (hold_it check) _ (λ _. closed.kept check)
              (λ held.
                if-elim Q late (delete_it x reader reading network format answer now check)
                  (with_binding x reader reading network format answer now check
                    (resolve_endpoint x reader now check))
                  (λ _. closed.deleted check)
                  (λ lives.
                    with_binding_lem check found alive (not-eq-false _ held) (not-eq-false _ lives)
                      _ refl)))

    -- A pass ends before the token, or uses it behind all guards.
    pub reconcile-elim : Q (reconcile x reader reading network format answer now read)
    unfolding reconcile
    reconcile-elim = with_check_lem read refl
