-- ===== src/Inference/Evidence.antt =====
-- internal/inference/client.go, Verify: what its flags rest on.
use provider_runpod.Base.{
  ◌≡◌, refl, String, Bool, true, false, List, [], ◌∷◌, Result, ok, err, failure, is_ok, str_eq,
  has_string, any, if-elim,
}
use provider_runpod.Inference.{
  Reading, Call, flags_of, verified, Response, Client, Verified, Choice, judge, decode,
  is_tool_call, check_health, health_call, models_call, prompt_call, on_choices, on_models,
  on_health, verify,
}

abbrev posts : Call → Bool
posts call = call.is_post

module _ (reading : Reading) (network : Call → Response) (c : Client) (expected : String) where
  -- What a verification rests on. Each flag is one of the answers, and needs the flags before it.
  pub record IsVerified (v : Verified) : Type 0 where
    pub health : v.flags.healthy ≡ true → is_ok (judge (network (health_call c))) ≡ true
    pub model :
        v.flags.model_verified ≡ true
        → (v.flags.healthy ≡ true)
          × ((models : List String) × (decode reading.models (judge (network (models_call c)))
                ≡ ok models)
              × (has_string models expected ≡ true))
    pub tool :
        v.flags.tool_call_verified ≡ true
        → (v.flags.model_verified ≡ true)
          × ((choices : List Choice) × (decode reading.choices (judge (network (prompt_call c)))
                ≡ ok choices)
              × (is_tool_call reading choices ≡ true))
    pub succeeds : is_ok v.result ≡ v.flags.tool_call_verified
    pub billed : any posts v.calls ≡ v.flags.model_verified

  abbrev three : List Call
  three = health_call c ∷ models_call c ∷ prompt_call c ∷ []

  on_choices_lem :
      (models : List String) (r : Result (List Choice))
      → is_ok (judge (network (health_call c))) ≡ true
      → decode reading.models (judge (network (models_call c))) ≡ ok models
      → has_string models expected ≡ true
      → decode reading.choices (judge (network (prompt_call c))) ≡ r
      → IsVerified (on_choices reading network c r)
  on_choices_lem models (err e) health listed advertised told = record {
    health = λ _. health;
    model = λ _. (refl, (models, listed, advertised));
    tool = λ h. cc;
    succeeds = refl;
    billed = refl;
  }
  on_choices_lem models (ok choices) health listed advertised told =
      if-elim IsVerified (is_tool_call reading choices)
        (verified (flags_of true true true) (ok tt) three)
        (verified (flags_of true true false)
          (err (failure "model did not return the required readiness tool call")) three)
        (λ called. record {
          health = λ _. health;
          model = λ _. (refl, (models, listed, advertised));
          tool = λ _. (refl, (choices, told, called));
          succeeds = refl;
          billed = refl;
        })
        (λ _. record {
          health = λ _. health;
          model = λ _. (refl, (models, listed, advertised));
          tool = λ h. cc;
          succeeds = refl;
          billed = refl;
        })

  on_models_lem :
      (r : Result (List String))
      → is_ok (judge (network (health_call c))) ≡ true
      → decode reading.models (judge (network (models_call c))) ≡ r
      → IsVerified (on_models reading network c expected r)
  on_models_lem (err e) health told = record {
    health = λ _. health;
    model = λ h. cc;
    tool = λ h. cc;
    succeeds = refl;
    billed = refl;
  }
  on_models_lem (ok models) health told =
      if-elim IsVerified (has_string models expected)
        (on_choices reading network c (decode reading.choices (judge (network (prompt_call c)))))
        (verified (flags_of true false false) (err (failure "expected model ID was not advertised"))
          (health_call c ∷ models_call c ∷ []))
        (λ advertised. on_choices_lem models _ health told advertised refl)
        (λ _. record {
          health = λ _. health;
          model = λ h. cc;
          tool = λ h. cc;
          succeeds = refl;
          billed = refl;
        })

  on_health_lem :
      (r : Result String)
      → judge (network (health_call c)) ≡ r
      → IsVerified (on_health reading network c expected r)
  on_health_lem (err e) told = record {
    health = λ h. cc;
    model = λ h. cc;
    tool = λ h. cc;
    succeeds = refl;
    billed = refl;
  }
  on_health_lem (ok body) told = on_models_lem _ (rw told) refl

  -- Each flag of a verification is an answer of the Endpoint in that very run, and needs the flags before
  -- it: a health check that succeeded, a list of models with the expected one, a single choice with the
  -- one readiness call. It succeeds exactly with the last flag, and sends the prompt, which costs, exactly
  -- if the model was verified.
  pub verify-IsVerified : IsVerified (verify reading network c expected)
  unfolding verify check_health
  verify-IsVerified =
      if-elim IsVerified (str_eq expected "")
        (verified (flags_of false false false) (err (failure "expected model ID is required")) [])
        (on_health reading network c expected (judge (network (health_call c))))
        (λ _. record {
          health = λ h. cc;
          model = λ h. cc;
          tool = λ h. cc;
          succeeds = refl;
          billed = refl;
        })
        (λ _. on_health_lem _ refl)
