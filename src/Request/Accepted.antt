-- ===== src/Request/Accepted.antt =====
-- internal/router/request.go, validateChatPayload: what an accepted request is as it is forwarded.
use provider_runpod.Base.{
  String, ◌≡◌, refl, ap, ◌∙◌, true, List, [], Option, none, some, ok, is_some, arith, Gives, holds,
  refused, Gives-require, Gives->>=, Gives-any, Gives-always, Gives-both, Gives-map, Gives-ok,
}
use provider_runpod.Json.{Json, Items, Members, find, set_member, find-set_member}
use provider_runpod.Request.Fields.{is_text, only_keys, validate_stop, validate_stream_options}
use provider_runpod.Request.Arguments.{Codec}
use provider_runpod.Request.Schema.Nodes.{only_keys-set_member}
use provider_runpod.Request.Tools.{validate_tools, validate_tool_choice}
use provider_runpod.Request.Tools.Bounds.{IsToolBox, validate_tools-IsToolBox}
use provider_runpod.Request.Messages.{validate_messages}
use provider_runpod.Request.Messages.Talk.{IsTalk, validate_messages-IsTalk}
use provider_runpod.Request.{
  logical_model_id, top_level_chat_keys, max_tokens_fits, sampling_fits, seed_fits, stream_fits,
  check_fields, update_member, validate_chat_payload,
}

-- The tools of a forwarded request, if there are any.
abbrev HasTools : Option Json → List String → Type 0
HasTools none declared = declared ≡ []
HasTools (some value) declared = (ts : Items) × (value ≡ Json.arr ts) × IsToolBox ts declared

pub record IsAccepted (codec : Codec) (payload out : Members) : Type 0 where
  pub keys : only_keys top_level_chat_keys out ≡ true
  pub model : is_text logical_model_id (find "model" out) ≡ true
  pub max_tokens : max_tokens_fits (find "max_tokens" out) ≡ true
  pub declared : List String
  pub tools : HasTools (find "tools" out) declared
  pub messages : Items
  pub ids : List String
  pub told : find "messages" out ≡ some (Json.arr messages)
  pub talk : IsTalk codec declared messages ids

check_fields_lem :
    (payload : Members)
    → Gives
        (λ _.
          (only_keys top_level_chat_keys payload ≡ true)
          × (is_text logical_model_id (find "model" payload) ≡ true)
          × (max_tokens_fits (find "max_tokens" payload) ≡ true))
        (check_fields payload)
unfolding check_fields
check_fields_lem payload = Gives-require (only_keys top_level_chat_keys payload) _ λ keys.
    Gives-require (is_text logical_model_id (find "model" payload)) _ λ model.
      Gives-require (max_tokens_fits (find "max_tokens" payload)) _ λ tokens.
        Gives-require (sampling_fits payload) _ λ _.
          Gives-require (seed_fits (find "seed" payload)) _ λ _.
            Gives-require (stream_fits (find "stream" payload)) _ λ _.
              Gives->>= (Gives-any (validate_stream_options payload))
                λ _ _. Gives-always (validate_stop (find "stop" payload)) (keys, model, tokens)

messages_there :
    (codec : Codec) (value : Option Json) (declared : List String)
    → Gives (λ _. is_some value ≡ true) (validate_messages codec value declared)
unfolding validate_messages
messages_there codec none declared = refused
messages_there codec (some value) declared = Gives-always _ refl

tools_checked :
    (value : Option Json)
    → Gives (λ r. HasTools r.0 r.1 × (is_some r.0 ≡ is_some value)) (validate_tools value)
tools_checked none = unfold validate_tools in holds {a = (none, [])} (refl, refl)
tools_checked (some value) =
    Gives-map (validate_tools-IsToolBox value)
      λ (tools, declared) (ts, is_array, box). rw is_array ((ts, refl, box), refl)

-- The members of a request once its tools and messages were written back.
written_back :
    (payload : Members) (tools : Option Json) (messages : Json)
    → is_some tools ≡ is_some (find "tools" payload)
    → is_some (find "messages" payload) ≡ true
    → let out = update_member "messages" (some messages) (update_member "tools" tools payload) in
      (find "messages" out ≡ some messages)
      × (find "tools" out ≡ tools)
      × (find "model" out ≡ find "model" payload)
      × (find "max_tokens" out ≡ find "max_tokens" payload)
      × (only_keys top_level_chat_keys out ≡ only_keys top_level_chat_keys payload)
written_back payload none messages p q = (
  ground (arith, q, find-set_member "messages" "messages" messages payload),
  ground (arith, p, find-set_member "messages" "tools" messages payload),
  find-set_member "messages" "model" messages payload,
  find-set_member "messages" "max_tokens" messages payload,
  only_keys-set_member "messages" messages top_level_chat_keys payload,
)
written_back payload (some tools) messages p q =
    let with_tools = set_member "tools" tools payload in
    (
      ground (
        arith,
        q,
        find-set_member "tools" "messages" tools payload,
        find-set_member "messages" "messages" messages with_tools,
      ),
      ground (
        arith,
        p,
        find-set_member "tools" "tools" tools payload,
        find-set_member "messages" "tools" messages with_tools,
      ),
      find-set_member "messages" "model" messages with_tools
          ∙ find-set_member "tools" "model" tools payload,
      find-set_member "messages" "max_tokens" messages with_tools
          ∙ find-set_member "tools" "max_tokens" tools payload,
      only_keys-set_member "messages" messages top_level_chat_keys with_tools
          ∙ only_keys-set_member "tools" tools top_level_chat_keys payload,
    )

accepted :
    (codec : Codec) (payload : Members)
    → Gives (IsAccepted codec payload) (validate_chat_payload codec payload)
unfolding validate_chat_payload
accepted codec payload = Gives->>= (check_fields_lem payload) λ _ (keys, model, tokens).
    Gives->>= (tools_checked (find "tools" payload)) λ (tools, declared) (box, as_many).
      Gives->>=
        (Gives-both (validate_messages-IsTalk codec (find "messages" payload) declared)
          (messages_there codec (find "messages" payload) declared))
        λ (value, ids) ((messages, is_array, talk), there).
          Gives->>= (Gives-any (validate_tool_choice (find "tool_choice" payload) declared)) λ _ _.
            let (told, in_tools, in_model, in_tokens, in_keys) =
              written_back payload tools value as_many there in
            holds {a = update_member "messages" (some value) (update_member "tools" tools payload)}
              (record {
                keys = in_keys ∙ keys;
                model = rw in_model model;
                max_tokens = rw in_tokens tokens;
                declared = declared;
                tools = rw in_tools box;
                messages = messages;
                ids = ids;
                told = told ∙ ap some is_array;
                talk = talk;
              })

-- An accepted request, as it is forwarded, has the top-level fields of the allowed list alone, names the
-- logical model, and asks for 1 to 4096 tokens, a whole number. Its tools are at most 32 under different
-- names, with at most 128 schema nodes in total, each schema at most four levels deep and without
-- `$schema`, `default` or any other keyword that the worker may not see. Its messages are at most 128;
-- an assistant's calls are of declared functions, with arguments of at most 32 KiB in which the pattern
-- of credentials found nothing; and each tool message answers a call whose ID was collected.
pub validate_chat_payload-IsAccepted :
    (codec : Codec) (payload out : Members)
    → validate_chat_payload codec payload ≡ ok out
    → IsAccepted codec payload out
validate_chat_payload-IsAccepted codec payload out h = Gives-ok (accepted codec payload) h
