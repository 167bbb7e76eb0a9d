-- ===== src/Request/Messages/Calls.antt =====
-- internal/router/request.go, validateToolCalls: the tool calls of a message as they are forwarded.
use provider_runpod.Base.{
  ◌+◌, String, len, ◌≡◌, refl, Bool, true, false, not, ◌&&◌, ◌||◌, List, [], ◌∷◌, ◌++◌, Option,
  none, some, has_string, leb, all, any, arith, ◌==◌, Gives, holds, refused, Gives-if,
  Gives-require, Gives->>=, Gives-any,
}
use provider_runpod.Json.{Json, Items, Members, items, find, set_member, find-set_member}
use provider_runpod.Request.Fields.{string_of, object_of, is_text, only_keys}
use provider_runpod.Request.Arguments.{
  Codec, Decoded, Decoder, max_tool_argument_bytes, validate_tool_arguments, accept_arguments,
  accept_object, encode_arguments, decode_strict_json_value, max_argument_depth, max_argument_nodes,
}
use provider_runpod.Request.Messages.{
  safe_string, tool_call, each_call, validate_tool_calls, max_tool_calls,
}
use provider_runpod.Request.Tools.{bounded_array}
use provider_runpod.Request.Tools.Bounds.{need_lem, object_of-obj, distinct}

pub string_of-str :
    (value : Option Json) (s : String) → string_of value ≡ some s → value ≡ some (Json.str s)
string_of-str (some (Json.str s')) s h = cc
string_of-str none s h = cc
string_of-str (some Json.null) s h = cc
string_of-str (some (Json.bool b)) s h = cc
string_of-str (some (Json.num x)) s h = cc
string_of-str (some (Json.literal t)) s h = cc
string_of-str (some (Json.arr vs)) s h = cc
string_of-str (some (Json.obj ms)) s h = cc

has_string-append :
    (xs ys : List String) (x : String)
    → has_string (xs ++ ys) x ≡ (has_string xs x || has_string ys x)
has_string-append [] ys x = refl
has_string-append (y ∷ xs) ys x = ground (arith, has_string-append xs ys x)

pub distinct-append :
    (xs ys : List String)
    → distinct xs ≡ true
    → distinct ys ≡ true
    → any (has_string ys) xs ≡ false
    → distinct (xs ++ ys) ≡ true
distinct-append [] ys hx hy apart = hy
distinct-append (x ∷ xs) ys hx hy apart =
    ground (arith, has_string-append xs ys x, distinct-append xs ys, hx, hy, apart)

module _ (codec : Codec) where
  -- Arguments that may leave the cluster.
  abbrev clean_text : Option String → Bool
  clean_text none = false
  clean_text (some canonical) =
      leb (len canonical) max_tool_argument_bytes && not (codec.has_credential canonical)

  abbrev pub clean_function : List String → Option Members → Bool
  clean_function declared none = false
  clean_function declared (some function) =
      is_declared (string_of (find "name" function))
      && clean_text (string_of (find "arguments" function))
    where
      is_declared : Option String → Bool
      is_declared none = false
      is_declared (some name) = has_string declared name

  -- A call of a declared function with such arguments.
  abbrev pub clean_call : List String → Json → Bool
  clean_call declared (Json.obj call) = clean_function declared (object_of (find "function" call))
  clean_call declared _ = false

  abbrev pub clean_calls : List String → Option Json → Bool
  clean_calls declared none = true
  clean_calls declared (some (Json.arr calls)) = all (clean_call declared) (items calls)
  clean_calls declared (some _) = false

  -- An assistant's message whose calls are such.
  abbrev pub clean_message : List String → Json → Bool
  clean_message declared (Json.obj message) =
      not (is_text "assistant" (find "role" message))
      || clean_calls declared (find "tool_calls" message)
  clean_message declared _ = false

  encode_arguments_lem :
      (encoded : Option String)
      → Gives (λ canonical. clean_text (some canonical) ≡ true) (encode_arguments codec encoded)
  encode_arguments_lem none = refused
  encode_arguments_lem (some canonical) =
      Gives-if (leb (len canonical) max_tool_argument_bytes && not (codec.has_credential canonical))
        _ _ λ h. h

  accept_object_lem :
      (value : Json) (ts : List _)
      → Gives (λ canonical. clean_text (some canonical) ≡ true) (accept_object codec value ts)
  accept_object_lem (Json.obj ms) [] =
      Gives-require _ _ λ _. encode_arguments_lem (codec.marshal (Json.obj ms))
  accept_object_lem (Json.obj ms) (t ∷ ts) = refused
  accept_object_lem _ ts = refused

  accept_arguments_lem :
      (decoded : Decoded (Json × Decoder))
      → Gives (λ canonical. clean_text (some canonical) ≡ true) (accept_arguments codec decoded)
  accept_arguments_lem (Decoded.done (value, d)) = accept_object_lem value d.tokens
  accept_arguments_lem Decoded.rejected = refused
  accept_arguments_lem Decoded.out_of_fuel = refused

  validate_tool_arguments_lem :
      (encoded : String)
      → Gives
          (λ canonical. clean_text (some canonical) ≡ true)
          (validate_tool_arguments codec encoded)
  unfolding validate_tool_arguments
  validate_tool_arguments_lem encoded = accept_arguments_lem (
      decode_strict_json_value (max_argument_depth + 1) (record {
        tokens = codec.tokens encoded;
        budget = max_argument_nodes;
        text_budget = max_tool_argument_bytes;
      }))

  safe_string_lem :
      (message : String) (text : Option String)
      → Gives (λ name. text ≡ some name) (safe_string message text)
  safe_string_lem message none = refused
  safe_string_lem message (some name) = Gives-if _ _ _ λ _. refl

  called :
      (declared : List String) (call function : Members) (name old canonical : String)
      → find "function" call ≡ some (Json.obj function)
      → string_of (find "name" function) ≡ some name
      → has_string declared name ≡ true
      → string_of (find "arguments" function) ≡ some old
      → clean_text (some canonical) ≡ true
      → clean_call declared (
          Json.obj (
            set_member "function"
              (Json.obj (set_member "arguments" (Json.str canonical) function))
              call))
        ≡ true
  called declared call function name old canonical is_function named known given clean =
      let there = string_of-str (find "arguments" function) old given in
      let inner = find-set_member "arguments" "arguments" (Json.str canonical) function in
      let kept_name = find-set_member "arguments" "name" (Json.str canonical) function in
      let outer =
        find-set_member "function" "function"
          (Json.obj (set_member "arguments" (Json.str canonical) function)) call in
      ground (arith, there, inner, kept_name, outer, is_function, named, known, clean)

  tool_call_lem :
      (declared ids : List String) (call : Members)
      → Gives
          (λ r. (clean_call declared (Json.obj r.0) ≡ true) × (has_string ids r.1 ≡ false))
          (tool_call codec declared ids call)
  unfolding tool_call
  tool_call_lem declared ids call =
      Gives-require
        (only_keys ("id" ∷ "type" ∷ "function" ∷ []) call && is_text "function" (find "type" call))
        _
        λ _. Gives->>= (safe_string_lem "invalid tool call ID" (string_of (find "id" call))) λ id _.
          Gives-require (not (has_string ids id)) _ λ fresh.
            Gives->>= (need_lem "invalid called function" (object_of (find "function" call)))
              λ function is_function.
                Gives-require (only_keys ("name" ∷ "arguments" ∷ []) function) _ λ _.
                  Gives->>=
                    (safe_string_lem "invalid called function name"
                      (string_of (find "name" function)))
                    λ name named. Gives-require (has_string declared name) _ λ known.
                      Gives->>=
                        (need_lem "invalid function arguments"
                          (string_of (find "arguments" function)))
                        λ arguments given.
                          Gives-require
                            (not (len arguments == 0)
                              && leb (len arguments) max_tool_argument_bytes)
                            _
                            λ _.
                              Gives->>= (validate_tool_arguments_lem arguments) λ canonical clean.
                                holds {a = (_, id)} (
                                  called declared call function name arguments canonical
                                      (object_of-obj _ function is_function) named known given
                                      clean,
                                  ground (arith, fresh),
                                )

  record AreCalls (declared before : List String) (r : Items × List String) : Type 0 where
    clean : all (clean_call declared) (items r.0) ≡ true
    ids : distinct before ≡ true → distinct r.1 ≡ true

  each_call_lem :
      (declared ids : List String) (raws : Items)
      → Gives (AreCalls declared ids) (each_call codec declared ids raws)
  unfolding each_call
  each_call_lem declared ids Items.nil =
      holds {a = (Items.nil, ids)} (record { clean = refl; ids = λ h. h })
  each_call_lem declared ids (Items.cons raw rest) =
      Gives->>= (need_lem "invalid tool call" (object_of (some raw))) λ call _.
        Gives->>= (tool_call_lem declared ids call) λ (updated, id) (clean, fresh).
          Gives->>= (each_call_lem declared (id ∷ ids) rest) λ (others, all_ids) rest_clean.
            holds {a = (Items.cons (Json.obj updated) others, all_ids)} (record {
              clean = rw clean rest_clean.clean;
              ids = λ h. rest_clean.ids (ground (arith, h, fresh));
            })

  pub validate_tool_calls_lem :
      (value : Json) (declared : List String)
      → Gives
          (λ r. (clean_calls declared (some r.0) ≡ true) × (distinct r.1 ≡ true))
          (validate_tool_calls codec value declared)
  unfolding validate_tool_calls
  validate_tool_calls_lem value declared =
      Gives->>= (Gives-any (bounded_array max_tool_calls (some value))) λ calls _.
        Gives->>= (each_call_lem declared [] calls)
          λ (checked, ids) good. holds {a = (Json.arr checked, ids)} (good.clean, good.ids refl)
