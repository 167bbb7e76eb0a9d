-- ===== src/Router/Proxy/Guards.antt =====
-- internal/router/router.go, ServeHTTP and proxyChat: when the inference endpoint is called.
use provider_runpod.Base.{
  not-eq-false, ◌≤◌, String, len, ◌≡◌, refl, Bool, true, false, not, ◌&&◌, List, Option, none, some,
  Result, ok, err, is_ok, is_ok-eq, str_eq, ltb, eq_iff, and_split, arith, if◌then◌else◌,
}
use provider_runpod.Json.{Json, Members, find}
use provider_runpod.Request.{logical_model_id, validate_chat_payload}
use provider_runpod.Request.Accepted.{IsAccepted, validate_chat_payload-IsAccepted}
use provider_runpod.Request.Arguments.{Codec}
use provider_runpod.Request.Fields.{is_text}
use provider_runpod.Request.Secrets.{contains_secret_key}
use provider_runpod.Router.Copy.{Answer}
use provider_runpod.Router.Lease.{Route}
use provider_runpod.Router.Proxy.{
  max_request_bytes, HttpRequest, Upstream, UpstreamResponse, Served, answered, upstream_call,
  clean, validated, decoded, read_body, proxy_chat, with_route, is_get, refuses, serve_http,
}

unless-call :
    (b : Bool) (x y : Served) {call : Upstream}
    → x.call ≡ none
    → (if b then x else y).call ≡ some call
    → (b ≡ false) × (y.call ≡ some call)
unless-call true x y quiet h = cc (quiet, h)
unless-call false x y quiet h = (refl, h)

-- A call of the endpoint, and the request that it forwards.
pub record IsForwarded (codec : Codec) (active : Route) (slot_free : Bool) (request : HttpRequest)
    (call : Upstream) : Type 0 where
  pub body : String
  pub given : request.body ≡ some body
  pub short : len body ≤ max_request_bytes
  pub no_credential : codec.has_credential body ≡ false
  pub payload : Members
  pub parsed : codec.unmarshal body ≡ some payload
  pub no_secret : contains_secret_key (Json.obj payload) ≡ false
  pub sent : Members
  pub checked : validate_chat_payload codec payload ≡ ok sent
  pub accepted : IsAccepted codec payload sent
  pub encodes : clean codec (codec.marshal (Json.obj sent)) ≡ true
  pub slot : slot_free ≡ true
  pub call_is : call ≡ upstream_call codec active sent

module _ (codec : Codec) (answer : Upstream → Option UpstreamResponse) (client : List Answer)
    (slot_free : Bool) (active : Route) where
  answered-call :
      (made : Upstream) (response : Option UpstreamResponse) {call : Upstream}
      → (answered codec answer client made response).call ≡ some call
      → call ≡ made
  answered-call made none h = cc
  answered-call made (some response) h = cc

  validated-call :
      (r : Result Members) {call : Upstream}
      → (validated codec answer client slot_free active r).call ≡ some call
      → (sent : Members) × (r ≡ ok sent)
        × (clean codec (codec.marshal (Json.obj sent)) ≡ true)
        × (slot_free ≡ true)
        × (call ≡ upstream_call codec active sent)
  validated-call (err e) h = cc
  validated-call (ok sent) h =
      let (encodes, h₁) =
        unless-call (not (clean codec (codec.marshal (Json.obj sent)))) _ _ refl h in
      let (_, h₂) = unless-call (not (is_text logical_model_id (find "model" sent))) _ _ refl h₁ in
      let (slot, h₃) = unless-call (not slot_free) _ _ refl h₂ in
      (sent, refl, not-eq-false _ encodes, not-eq-false _ slot, answered-call _ _ h₃)

  decoded-call :
      (r : Option Members) {call : Upstream}
      → (decoded codec answer client slot_free active r).call ≡ some call
      → (payload : Members) × (r ≡ some payload)
        × (contains_secret_key (Json.obj payload) ≡ false)
        × ((validated codec answer client slot_free active
              (validate_chat_payload codec payload)).call
            ≡ some call)
  decoded-call none h = cc
  decoded-call (some payload) h =
      let (safe, h₁) = unless-call (contains_secret_key (Json.obj payload)) _ _ refl h in
      (payload, refl, safe, h₁)

  proxied :
      (request : HttpRequest) (body : Option String) {call : Upstream}
      → request.body ≡ body
      → (read_body codec answer client slot_free active body).call ≡ some call
      → IsForwarded codec active slot_free request call
  proxied request none given h = cc
  proxied request (some body) given h =
      let (short, h₁) = unless-call (ltb max_request_bytes (len body)) _ _ refl h in
      let (no_credential, h₂) = unless-call (codec.has_credential body) _ _ refl h₁ in
      let (payload, parsed, no_secret, h₃) = decoded-call (codec.unmarshal body) h₂ in
      let (sent, checked, encodes, slot, call_is) =
        validated-call (validate_chat_payload codec payload) h₃ in
      record {
        body = body;
        given = given;
        short = ground (arith, short);
        no_credential = no_credential;
        payload = payload;
        parsed = parsed;
        no_secret = no_secret;
        sent = sent;
        checked = checked;
        accepted = validate_chat_payload-IsAccepted codec payload sent checked;
        encodes = encodes;
        slot = slot;
        call_is = call_is;
      }

module _ (codec : Codec) (answer : Upstream → Option UpstreamResponse) (client : List Answer)
    (slot_free : Bool) (state_error : String) (request : HttpRequest) where
  routed-call :
      (active : Option Route) {call : Upstream}
      → (with_route codec answer client slot_free state_error request active).call ≡ some call
      → (route : Route) × (active ≡ some route)
        × (request.method ≡ "POST")
        × (request.path ≡ "/v1/chat/completions")
        × IsForwarded codec route slot_free request call
  routed-call none h = cc
  routed-call (some active) h =
      let (_, h₁) = unless-call (is_get request "/readyz") _ _ refl h in
      let (_, h₂) = unless-call (is_get request "/v1/models") _ _ refl h₁ in
      let (chat, h₃) =
        unless-call
          (not (str_eq request.method "POST" && str_eq request.path "/v1/chat/completions")) _ _
          refl h₂ in
      let (post, path) = and_split _ _ (not-eq-false _ chat) in
      (
        active,
        refl,
        (eq_iff request.method "POST").0 post,
        (eq_iff request.path "/v1/chat/completions").0 path,
        unfold proxy_chat in proxied codec answer client slot_free active request _ refl h₃,
      )

  -- The inference endpoint is called only for a POST of a chat completion without client credentials and
  -- query, after a Refresh that succeeded, on the route that the request leased and with its token; only
  -- if the body has at most 256 KiB, shows no credential and no secret field, is an accepted chat request,
  -- and its encoding shows no credential either; and only if the inference slot was free. What is sent is
  -- the accepted request under the route's model.
  pub serve_http-IsForwarded :
      (refreshed : Result (Unit {0})) (active : Option Route) {call : Upstream}
      → (serve_http codec answer client refreshed state_error active slot_free request).call
        ≡ some call
      → (refuses request ≡ false)
        × (refreshed ≡ ok tt)
        × ((route : Route) × (active ≡ some route)
            × (request.method ≡ "POST")
            × (request.path ≡ "/v1/chat/completions")
            × IsForwarded codec route slot_free request call)
  unfolding serve_http
  serve_http-IsForwarded refreshed active h =
      let (open_request, h₁) = unless-call (refuses request) _ _ refl h in
      let (_, h₂) = unless-call (is_get request "/healthz") _ _ refl h₁ in
      let (fresh, h₃) = unless-call (not (is_ok refreshed)) _ _ refl h₂ in
      (open_request, is_ok-eq refreshed (not-eq-false _ fresh), routed-call active h₃)
