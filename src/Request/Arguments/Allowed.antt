-- ===== src/Request/Arguments/Allowed.antt =====
-- internal/router/request.go, validateToolArguments: which arguments of a tool call are accepted.
use provider_runpod.Base.{
  ◌+◌, ◌-◌, ◌≤◌, String, len, ◌≡◌, refl, sym, ap, ◌∙◌, true, false, not, ◌&&◌, List, [], ◌∷◌, ◌++◌,
  Option, none, some, ok, leb, arith, ◌↔◌, Gives, refused, Gives-require, Gives-if, Gives-map,
  Gives-ok, append_nil,
}
use provider_runpod.Json.{Json, Members}
use provider_runpod.Request.Secrets.{contains_secret_key}
use provider_runpod.Request.Arguments.{
  Codec, Decoded, Decoder, Token, done, rejected, out_of_fuel, max_tool_argument_bytes,
  max_argument_depth, max_argument_nodes, validate_tool_arguments, accept_arguments, accept_object,
  encode_arguments, decode_strict_json_value,
}
use provider_runpod.Request.Arguments.Printed.{emit, depth, size, text_size, tidy}
use provider_runpod.Request.Arguments.Reads.{IsRead}
use provider_runpod.Request.Arguments.RoundTrip.{decode_strict_json_value_iff}

-- Arguments that are one object within all bounds, and the text that they are sent as.
pub record MayCall (codec : Codec) (encoded canonical : String) : Type 0 where
  pub object : Members
  pub spelled : codec.tokens encoded ≡ emit (Json.obj object)
  pub deep : depth (Json.obj object) ≤ max_argument_depth + 1
  pub keys : tidy (Json.obj object) ≡ true
  pub nodes : size (Json.obj object) ≤ max_argument_nodes
  pub texts : text_size (Json.obj object) ≤ max_tool_argument_bytes
  pub no_secret : contains_secret_key (Json.obj object) ≡ false
  pub sent : codec.marshal (Json.obj object) ≡ some canonical
  pub short : len canonical ≤ max_tool_argument_bytes
  pub no_credential : codec.has_credential canonical ≡ false

module _ (codec : Codec) where
  start : String → Decoder
  start encoded = record {
    tokens = codec.tokens encoded;
    budget = max_argument_nodes;
    text_budget = max_tool_argument_bytes;
  }

  encode_arguments_lem :
      (encoded : Option String)
      → Gives
          (λ c.
            (encoded ≡ some c)
            × (len c ≤ max_tool_argument_bytes)
            × (codec.has_credential c ≡ false))
          (encode_arguments codec encoded)
  encode_arguments_lem none = refused
  encode_arguments_lem (some c) =
      Gives-if (leb (len c) max_tool_argument_bytes && not (codec.has_credential c)) _ _
        λ h. (refl, ground (arith, h), ground (arith, h))

  object_allowed :
      (encoded : String) (value : Json) (ts : List Token) (d : Decoder)
      → d.tokens ≡ ts
      → IsRead (max_argument_depth + 1) (start encoded) (value, d)
      → Gives (MayCall codec encoded) (accept_object codec value ts)
  unfolding start
  object_allowed encoded (Json.obj ms) [] d there read =
      Gives-require (not (contains_secret_key (Json.obj ms))) _ λ safe.
        Gives-map (encode_arguments_lem (codec.marshal (Json.obj ms))) λ c (sent, short, clean).
          record {
            object = ms;
            spelled =
                read.tokens
                ∙ ap (◌++◌ (emit (Json.obj ms))) there
                ∙ append_nil (emit (Json.obj ms));
            deep = read.deep;
            keys = read.keys;
            nodes = omega (arith, read.nodes);
            texts = omega (arith, read.texts);
            no_secret = ground (arith, safe);
            sent = sent;
            short = short;
            no_credential = clean;
          }
  object_allowed encoded (Json.obj ms) (t ∷ ts) d there read = refused
  object_allowed encoded _ ts d there read = refused

  accepted_object :
      (ms : Members) (canonical : String)
      → contains_secret_key (Json.obj ms) ≡ false
      → codec.marshal (Json.obj ms) ≡ some canonical
      → len canonical ≤ max_tool_argument_bytes
      → codec.has_credential canonical ≡ false
      → accept_object codec (Json.obj ms) [] ≡ ok canonical
  accepted_object ms canonical safe sent short clean = ground (arith, safe, sent, clean)

  decoded_allowed :
      (encoded : String) (r : Decoded (Json × Decoder))
      → decode_strict_json_value (max_argument_depth + 1) (start encoded) ≡ r
      → Gives (MayCall codec encoded) (accept_arguments codec r)
  decoded_allowed encoded rejected e = refused
  decoded_allowed encoded out_of_fuel e = refused
  decoded_allowed encoded (done (value, d)) e =
      object_allowed encoded value d.tokens d refl
        ((decode_strict_json_value_iff (max_argument_depth + 1) (start encoded) d value).0.0 e)

  allowed :
      (encoded : String) → Gives (MayCall codec encoded) (validate_tool_arguments codec encoded)
  unfolding validate_tool_arguments start
  allowed encoded = decoded_allowed encoded _ refl

  accepts :
      (encoded canonical : String)
      → MayCall codec encoded canonical
      → validate_tool_arguments codec encoded ≡ ok canonical
  unfolding validate_tool_arguments start
  accepts encoded canonical may =
      let behind : Decoder = record {
        tokens = [];
        budget = max_argument_nodes - size (Json.obj may.object);
        text_budget = max_tool_argument_bytes - text_size (Json.obj may.object);
      } in
      let read : IsRead (max_argument_depth + 1) (start encoded) (Json.obj may.object, behind) =
        record {
          tokens = may.spelled ∙ sym (append_nil (emit (Json.obj may.object)));
          deep = may.deep;
          keys = may.keys;
          nodes = omega (arith, may.nodes);
          texts = omega (arith, may.texts);
        } in
      let decoded =
        (decode_strict_json_value_iff (max_argument_depth + 1) (start encoded) behind
            (Json.obj may.object)).0.1
          read in
      ap (accept_arguments codec) decoded
      ∙ accepted_object may.object canonical may.no_secret may.sent may.short may.no_credential

-- Arguments are accepted, and sent as that text, exactly if their tokens spell one object that keeps the
-- bounds on depth, nodes, text and keys, no key of it is labelled secret, and the text is its encoding,
-- short enough and without anything like a credential.
pub validate_tool_arguments_iff :
    (codec : Codec) (encoded canonical : String)
    → (validate_tool_arguments codec encoded ≡ ok canonical) ↔ MayCall codec encoded canonical
validate_tool_arguments_iff codec encoded canonical =
    (Gives-ok (allowed codec encoded), accepts codec encoded canonical)
