-- ===== src/Router/Refresh/Admission.antt =====
-- internal/router/router.go, Refresh: what a route that a pass admits rests on, and which finalizers a
-- pass releases.
use provider_runpod.Base.{
  String, ◌≡◌, refl, ap, Bool, true, false, not, ◌||◌, List, [], ◌∷◌, Option, none, some, Result,
  ok, err, is_ok, is_ok-eq, str_eq, has_string, select, all, is_empty, eq_iff, arith, if◌then◌else◌,
  if-elim, or_false_split, is_some, not-eq-false, and_split, Error, failure,
}
use provider_runpod.Apis.{EndpointCheck, Time}
use provider_runpod.Apis.Crossplane.{Crossplane}
use provider_runpod.Apis.Reader.{Reader}
use provider_runpod.Credentials.{Secret, require_purpose, purpose_inference}
use provider_runpod.Router.Lease.{Target}
use provider_runpod.Router.Refresh.{
  target_of, Choice, admit, refuse, with_secret, choose, sorted, Refreshed, is_deleting,
  drain_checks, updated, failed_update, committed, compared, revalidated, with_revision, refresh,
  undrained,
}
use provider_runpod.Router.Eligible.{
  is_eligible, eligible, endpoint_revision_matches, token_fits, token_of, router_drain_finalizer,
}

select-head :
    (p : EndpointCheck → Bool) (cs : List EndpointCheck) {c : EndpointCheck}
    {rest : List EndpointCheck}
    → select p cs ≡ c ∷ rest
    → p c ≡ true
select-head p [] h = cc
select-head p (d ∷ ds) {c} {rest} h =
    if-elim (λ cs. cs ≡ c ∷ rest → p c ≡ true) (p d) _ _
      (λ passes e. let same : d ≡ c = cc e in rw same at passes) (λ _ e. select-head p ds e) h

unless-admit :
    (b : Bool) (reason : String) (rest : Choice) {target : Target}
    → (if b then refuse reason else rest) ≡ admit target
    → (b ≡ false) × (rest ≡ admit target)
unless-admit true reason rest h = cc
unless-admit false reason rest h = (refl, h)

-- What the credential of a route rests on.
pub record IsCredential (x : Crossplane) (namespace : String) (reader : Reader) (now : Time)
    (check : EndpointCheck) (target : Target) : Type 0 where
  pub secret : Secret
  pub found :
      reader.get_secret namespace check.spec.inference_credentials_secret_ref.name ≡ ok secret
  pub purpose : require_purpose (some secret) purpose_inference ≡ ok tt
  pub unchanged : secret.resource_version ≡ check.at_provider.credentials_secret_resource_version
  pub fits : token_fits (token_of secret check) ≡ true
  pub current : endpoint_revision_matches x reader check now ≡ true
  pub target_is : target ≡ target_of check (token_of secret check)

select-all : (p : EndpointCheck → Bool) (cs : List EndpointCheck) → all p (select p cs) ≡ true
select-all p [] = refl
select-all p (c ∷ cs) =
    if-elim (λ r. all p r ≡ true) (p c) _ _ (λ h. rw (h, select-all p cs)) (λ _. select-all p cs)

updated-deleting :
    (check : EndpointCheck) (e : Option Error) (rest : List EndpointCheck × Result (Unit {0}))
    → is_deleting check ≡ true
    → all is_deleting rest.0 ≡ true
    → all is_deleting (updated check e rest).0 ≡ true
updated-deleting check none rest h t = rw (h, t)
updated-deleting check (some e) rest h t = rw h

-- The pass hands over a route or releases a finalizer.
abbrev acts : Refreshed → Bool
acts r = is_some r.next || not (is_empty r.updates)

module _ (x : Crossplane) (namespace : String) (marshal : List EndpointCheck → Option String)
    (answer : EndpointCheck → Result (Unit {0})) (first second third : Reader)
    (now later : Time) where
  with_secret_lem :
      (check : EndpointCheck) (r : Result Secret) (target : Target)
      → second.get_secret namespace check.spec.inference_credentials_secret_ref.name ≡ r
      → with_secret x namespace second later check r ≡ admit target
      → IsCredential x namespace second later check target
  unfolding with_secret
  with_secret_lem check (err e) target told h = cc
  with_secret_lem check (ok secret) target told h =
      let (labelled, h₁) =
        unless-admit (not (is_ok (require_purpose (some secret) purpose_inference))) _ _ h in
      let (same, h₂) =
        unless-admit
          (str_eq check.at_provider.credentials_secret_resource_version ""
            || not (
                str_eq secret.resource_version
                  check.at_provider.credentials_secret_resource_version))
          _ _ h₁ in
      let (formed, h₃) = unless-admit (not (token_fits (token_of secret check))) _ _ h₂ in
      let (agrees, h₄) =
        unless-admit (not (endpoint_revision_matches x second check later)) _ _ h₃ in
      record {
        secret = secret;
        found = told;
        purpose = is_ok-eq _ (not-eq-false _ labelled);
        unchanged =
            (eq_iff secret.resource_version check.at_provider.credentials_secret_resource_version).0
              (not-eq-false _ (or_false_split _ _ same).1);
        fits = not-eq-false _ formed;
        current = not-eq-false _ agrees;
        target_is = cc h₄;
      }

  -- What a route that a pass admits rests on.
  pub record IsAdmitted (target : Target) : Type 0 where
    pub checks : List EndpointCheck
    pub current : List EndpointCheck
    pub check : EndpointCheck
    pub listed : first.list_checks namespace ≡ ok checks
    pub only : eligible x first now checks ≡ check ∷ []
    pub passes : is_eligible x first now check ≡ true
    pub credential : IsCredential x namespace second later check target
    pub relisted : third.list_checks namespace ≡ ok current
    pub unchanged : marshal (sorted current) ≡ marshal (sorted checks)

  pub choose_lem :
      (cs : List EndpointCheck) (target : Target)
      → choose x namespace second later cs ≡ admit target
      → (check : EndpointCheck) × (cs ≡ check ∷ [])
        × IsCredential x namespace second later check target
  unfolding choose
  choose_lem [] target h = cc
  choose_lem (check ∷ []) target h = (check, refl, with_secret_lem check _ target refl h)
  choose_lem (check ∷ other ∷ rest) target h = cc

  committed_lem :
      (checks : List EndpointCheck) (choice : Choice) (target : Target)
      → (committed x namespace marshal answer first second third now later checks choice).next
        ≡ some target
      → choice ≡ admit target
  committed_lem checks (admit t) target h = cc
  committed_lem checks (refuse reason) target h = cc

  compared-acts :
      (checks : List EndpointCheck) (revision : String) (choice : Choice) (current : Option String)
      → acts (
          compared x namespace marshal answer first second third now later checks revision choice
            current)
        ≡ true
      → (current ≡ some revision)
        × (compared x namespace marshal answer first second third now later checks revision choice
              current
            ≡ committed x namespace marshal answer first second third now later checks choice)
  compared-acts checks revision choice none h = cc
  compared-acts checks revision choice (some other) h =
      if-elim
        (λ r.
          acts r ≡ true
          → (some other ≡ some revision)
            × (r ≡ committed x namespace marshal answer first second third now later checks choice))
        (not (str_eq other revision)) _ _ (λ _ e. cc e)
        (λ same _. (ap some ((eq_iff other revision).0 (not-eq-false _ same)), refl)) h

  -- A pass that hands over a route or releases a finalizer saw the same checks twice.
  record IsCommit : Type 0 where
    checks : List EndpointCheck
    current : List EndpointCheck
    listed : first.list_checks namespace ≡ ok checks
    relisted : third.list_checks namespace ≡ ok current
    unchanged : marshal (sorted current) ≡ marshal (sorted checks)
    does :
        refresh x namespace marshal answer first second third now later
        ≡ committed x namespace marshal answer first second third now later checks
            (choose x namespace second later (eligible x first now checks))

  abbrev choice_of : List EndpointCheck → Choice
  choice_of checks = choose x namespace second later (eligible x first now checks)

  revalidated-acts :
      (checks : List EndpointCheck) (revision : String) (choice : Choice)
      (again : Result (List EndpointCheck))
      → acts (
          revalidated x namespace marshal answer first second third now later checks revision choice
            again)
        ≡ true
      → (current : List EndpointCheck) × (again ≡ ok current)
        × (marshal (sorted current) ≡ some revision)
        × (revalidated x namespace marshal answer first second third now later checks revision
              choice again
            ≡ committed x namespace marshal answer first second third now later checks choice)
  revalidated-acts checks revision choice (err e) h = cc
  revalidated-acts checks revision choice (ok current) h =
      let (same, does) = compared-acts checks revision choice (marshal (sorted current)) h in
      (current, refl, same, does)

  with_revision-acts :
      (checks : List EndpointCheck) (revision : Option String)
      → acts (with_revision x namespace marshal answer first second third now later checks revision)
        ≡ true
      → (current : List EndpointCheck) × (third.list_checks namespace ≡ ok current)
        × (marshal (sorted current) ≡ revision)
        × (with_revision x namespace marshal answer first second third now later checks revision
            ≡ committed x namespace marshal answer first second third now later checks
                (choice_of checks))
  with_revision-acts checks none h = cc
  with_revision-acts checks (some revision) h =
      revalidated-acts checks revision (choice_of checks) (third.list_checks namespace) h

  commit :
      (r : Result (List EndpointCheck))
      → first.list_checks namespace ≡ r
      → acts (refresh x namespace marshal answer first second third now later) ≡ true
      → IsCommit
  unfolding refresh
  commit (err e) listed h = cc (rw listed at h)
  commit (ok checks) listed h =
      let (current, relisted, same, does) =
        with_revision-acts checks (marshal (sorted checks)) (rw listed at h) in
      record {
        checks = checks;
        current = current;
        listed = listed;
        relisted = relisted;
        unchanged = same;
        does = rw listed does;
      }

  -- A pass of Refresh hands a route to `replace` only if the first list holds exactly one eligible check,
  -- and that is the check of the route: it is not being deleted, Ready, held by the drain finalizer,
  -- freshly and fully verified, within its lifetime, and agrees with its Endpoint and Template; only if
  -- its Secret serves inference, has not changed since the verification and holds a well-formed token,
  -- the route's; only if Endpoint and Template still agree after that; and only if a second list encodes
  -- like the first one.
  pub refresh-IsAdmitted :
      (target : Target)
      → (refresh x namespace marshal answer first second third now later).next ≡ some target
      → IsAdmitted target
  refresh-IsAdmitted target h =
      let done = commit _ refl (rw h) in
      let handed = committed_lem done.checks _ target (rw done.does at h) in
      let (check, only, credential) = choose_lem (eligible x first now done.checks) target handed in
      record {
        checks = done.checks;
        current = done.current;
        check = check;
        listed = done.listed;
        only = only;
        passes = select-head (is_eligible x first now) done.checks only;
        credential = credential;
        relisted = done.relisted;
        unchanged = done.unchanged;
      }

  drain_checks-deleting :
      (done : Result (Unit {0})) (checks : List EndpointCheck)
      → all is_deleting checks ≡ true
      → all is_deleting (drain_checks answer done checks).0 ≡ true
  unfolding drain_checks
  drain_checks-deleting done [] h = refl
  drain_checks-deleting done (c ∷ cs) h =
      let (head, tail) = and_split _ _ h in
      let rest = drain_checks-deleting done cs tail in
      if-elim (λ (r : List EndpointCheck × Result (Unit {0})). all is_deleting r.0 ≡ true)
        (has_string c.metadata.finalizers router_drain_finalizer) _ _
        (λ _. updated-deleting (undrained c) (failed_update (answer (undrained c))) _ head rest)
        (λ _. rest)

  committed-deleting :
      (checks : List EndpointCheck) (choice : Choice)
      → all is_deleting
          (committed x namespace marshal answer first second third now later checks choice).updates
        ≡ true
  committed-deleting checks (admit target) =
      drain_checks-deleting (ok tt) _ (select-all is_deleting checks)
  committed-deleting checks (refuse reason) =
      drain_checks-deleting (err (failure reason)) _ (select-all is_deleting checks)

  -- A pass of Refresh takes the drain finalizer only off checks that are being deleted, and only if it
  -- listed the checks twice and both lists encode alike.
  pub refresh_releases :
      is_empty (refresh x namespace marshal answer first second third now later).updates ≡ false
      → (checks current : List EndpointCheck) × (first.list_checks namespace ≡ ok checks)
        × (third.list_checks namespace ≡ ok current)
        × (marshal (sorted current) ≡ marshal (sorted checks))
        × (all is_deleting (refresh x namespace marshal answer first second third now later).updates
            ≡ true)
  refresh_releases h =
      let done = commit _ refl (ground (arith, h)) in
      (
        done.checks,
        done.current,
        done.listed,
        done.relisted,
        done.unchanged,
        rw done.does (committed-deleting done.checks (choice_of done.checks)),
      )
