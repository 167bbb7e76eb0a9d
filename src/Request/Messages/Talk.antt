-- ===== src/Request/Messages/Talk.antt =====
-- internal/router/request.go, validateMessages: the messages as they are forwarded, and what they answer.
use provider_runpod.Base.{
  ◌≤◌, String, ◌≡◌, refl, ◌∙◌, Bool, true, false, not, ◌&&◌, List, [], ◌∷◌, ◌++◌, Option, none,
  some, str_eq, has_string, length, is_some, all, any, arith, eq_iff, Gives, holds, refused,
  Gives-if, Gives-require, Gives-cond, Gives->>=,
}
use provider_runpod.Json.{Json, Items, Members, items, find, set_member, find-set_member}
use provider_runpod.Request.Fields.{string_of, object_of, is_text, only_keys, valid_optional_name}
use provider_runpod.Request.Arguments.{Codec}
use provider_runpod.Request.Messages.{
  max_messages, content_fits, message_calls, assistant_message, keep, message_by_role, each_message,
  answers_known, validate_messages,
}
use provider_runpod.Request.Tools.Bounds.{need_lem, bounded_array_lem, object_of-obj, distinct}
use provider_runpod.Request.Messages.Calls.{
  string_of-str, distinct-append, clean_message, validate_tool_calls_lem,
}

module _ (codec : Codec) where
  -- One message after those IDs: what it answers stays, and its calls are as they may be.
  record IsMessage (declared before : List String) (message : Members) (r : Members × List String)
      : Type 0 where
    clean : clean_message codec declared (Json.obj r.0) ≡ true
    ids : distinct before ≡ true → distinct r.1 ≡ true
    answers :
        (known : List String)
        → answers_known known (Json.obj r.0) ≡ answers_known known (Json.obj message)

  message_calls_lem :
      (declared ids : List String) (message : Members) (calls : Option Json)
      → find "tool_calls" message ≡ calls
      → Gives (IsMessage declared ids message) (message_calls codec declared ids message calls)
  message_calls_lem declared ids message none there =
      holds {a = (message, ids)}
        (record { clean = ground (arith, there); ids = λ h. h; answers = λ known. refl })
  message_calls_lem declared ids message (some value) there =
      Gives->>= (validate_tool_calls_lem codec value declared) λ (calls, new) (clean, fresh).
        Gives-require (not (any (has_string ids) new)) _ λ apart.
          let read = find-set_member "tool_calls" "tool_calls" calls message in
          let role = find-set_member "tool_calls" "role" calls message in
          let answer = find-set_member "tool_calls" "tool_call_id" calls message in
          holds {a = (set_member "tool_calls" calls message, new ++ ids)} (record {
            clean = ground (arith, read, there, clean);
            ids = λ h. distinct-append new ids fresh h (ground (arith, apart));
            answers = λ known. rw (role, answer);
          })

  keep_lem :
      (declared ids : List String) (message : Members) (fits : Bool)
      → is_text "assistant" (find "role" message) ≡ false
      → Gives (IsMessage declared ids message) (keep ids message fits)
  keep_lem declared ids message fits other =
      Gives-if fits (message, ids) _
        λ _. record { clean = rw other; ids = λ h. h; answers = λ known. refl }

  assistant_message_lem :
      (declared ids : List String) (message : Members)
      → Gives (IsMessage declared ids message) (assistant_message codec declared ids message)
  unfolding assistant_message
  assistant_message_lem declared ids message =
      Gives-require
        (only_keys ("role" ∷ "content" ∷ "name" ∷ "tool_calls" ∷ []) message
          && valid_optional_name message)
        _
        λ _.
          Gives-require
            (content_fits (find "content" message) (is_some (find "tool_calls" message))) _
            λ _. message_calls_lem declared ids message (find "tool_calls" message) refl

  other_role :
      (role own : String) (value : Option Json)
      → string_of value ≡ some role
      → str_eq role own ≡ true
      → str_eq own "assistant" ≡ false
      → is_text "assistant" value ≡ false
  other_role role own value named is_own differs =
      let there = string_of-str value role named in
      ground (arith, there, is_own, differs, eq_iff role own)

  message_by_role_lem :
      (declared ids : List String) (message : Members) (role : String)
      → string_of (find "role" message) ≡ some role
      → Gives (IsMessage declared ids message) (message_by_role codec declared ids message role)
  unfolding message_by_role
  message_by_role_lem declared ids message role named =
      Gives-cond (str_eq role "system")
        (λ is. keep_lem declared ids message _ (other_role role "system" _ named is refl))
        λ _.
          Gives-cond (str_eq role "user")
            (λ is. keep_lem declared ids message _ (other_role role "user" _ named is refl))
            λ _.
              Gives-cond (str_eq role "assistant") (λ _. assistant_message_lem declared ids message)
                λ _.
                  Gives-cond (str_eq role "tool")
                    (λ is. keep_lem declared ids message _ (other_role role "tool" _ named is refl))
                    λ _. refused

  record AreMessages (declared before : List String) (raws : Items) (r : Items × List String)
      : Type 0 where
    clean : all (clean_message codec declared) (items r.0) ≡ true
    ids : distinct before ≡ true → distinct r.1 ≡ true
    kept : length (items r.0) ≡ length (items raws)
    answers :
        (known : List String)
        → all (answers_known known) (items r.0) ≡ all (answers_known known) (items raws)

  each_message_lem :
      (declared ids : List String) (raws : Items)
      → Gives (AreMessages declared ids raws) (each_message codec declared ids raws)
  unfolding each_message
  each_message_lem declared ids Items.nil =
      holds {a = (Items.nil, ids)}
        (record { clean = refl; ids = λ h. h; kept = refl; answers = λ known. refl })
  each_message_lem declared ids (Items.cons raw rest) =
      Gives->>= (need_lem "message must be an object" (object_of (some raw))) λ message is_object.
        Gives->>= (need_lem "message role is required" (string_of (find "role" message)))
          λ role named.
            Gives->>= (message_by_role_lem declared ids message role named) λ (updated, seen) one.
              Gives->>= (each_message_lem declared seen rest) λ (others, all_ids) many.
                let is_raw : some raw ≡ some (Json.obj message) =
                  object_of-obj _ message is_object in
                let same : raw ≡ Json.obj message = cc is_raw in
                holds {a = (Items.cons (Json.obj updated) others, all_ids)} (record {
                  clean = rw one.clean many.clean;
                  ids = λ h. many.ids (one.ids h);
                  kept = omega (arith, many.kept);
                  answers = λ known. rw (same, one.answers known, many.answers known);
                })

  -- The messages of a request as they are forwarded, and the IDs that were collected from them.
  pub record IsTalk (declared : List String) (messages : Items) (ids : List String) : Type 0 where
    pub few : length (items messages) ≤ max_messages
    pub clean : all (clean_message codec declared) (items messages) ≡ true
    pub distinct_ids : distinct ids ≡ true
    pub answers : all (answers_known ids) (items messages) ≡ true

  -- Messages that are forwarded are at most 128; each assistant's call is of a declared function, with
  -- arguments of at most 32 KiB in which the pattern of credentials found nothing; the IDs that were
  -- collected from the calls differ; and each tool message answers one of them.
  pub validate_messages-IsTalk :
      (value : Option Json) (declared : List String)
      → Gives
          (λ r. (messages : Items) × (r.0 ≡ Json.arr messages) × IsTalk declared messages r.1)
          (validate_messages codec value declared)
  unfolding validate_messages
  validate_messages-IsTalk value declared =
      Gives->>= (bounded_array_lem max_messages value) λ raws few.
        Gives->>= (each_message_lem declared [] raws) λ (messages, ids) good.
          Gives-require (all (answers_known ids) (items raws)) _ λ answered.
            holds {a = (Json.arr messages, ids)} (
              messages,
              refl,
              record {
                few = omega (arith, few, good.kept);
                clean = good.clean;
                distinct_ids = good.ids refl;
                answers = good.answers ids ∙ answered;
              },
            )
