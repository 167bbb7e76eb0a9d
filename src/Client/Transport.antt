-- ===== src/Client/Transport.antt =====
-- internal/client/runpod/client.go: `doJSON`, its retries, and what it makes of each response. What
-- the network answers on each attempt is an argument, for every behaviour of the server.
pub mod Sends
pub mod Ambiguity
pub mod Backoff
use provider_runpod.Base.{
  ℕ, zero, suc, ◌+◌, ◌-◌, ◌*◌, ◌^◌, ◌%◌, String, Bool, true, false, not, ◌&&◌, ◌||◌, List, [], ◌∷◌,
  Option, none, some, ltb, leb, ◌==◌, if◌then◌else◌, all, codes, is_alnum, is_digit, ℤ, pos, negsuc,
  Result, ok, err, Error, not_found, create_ambiguous, api_error, failure, length,
}
use provider_runpod.Client.Types.{
  TemplateInput, TemplateUpdateInput, EndpointInput, EndpointUpdateInput,
}

pub data Method : Type 0 where
  get post patch delete : Method

abbrev pub is_get : Method → Bool
is_get get = true
is_get _ = false

abbrev pub is_post : Method → Bool
is_post post = true
is_post _ = false

-- What a request carries; `zero_workers` is the anonymous struct of `DeleteEndpoint`.
pub data Body : Type 0 where
  no_body zero_workers : Body
  template_input : TemplateInput → Body
  template_update : TemplateUpdateInput → Body
  endpoint_input : EndpointInput → Body
  endpoint_update : EndpointUpdateInput → Body

pub record Request : Type 0 where
  pub method : Method
  pub path : String
  pub body : Body

-- A response that was received: how reading and closing its body went, the size read (at most one
-- byte past the limit), whether it is blank, and what it decodes to.
pub record Reply (A : Type 0) : Type 0 where
  pub status : ℕ
  pub header : String → String
  pub read_failed : Bool
  pub close_failed : Bool
  pub size : ℕ
  pub blank : Bool
  pub decoded : Option A

pub data Exchange (A : Type 0) : Type 0 where
  unbuilt : Exchange A
  failed : Exchange A
  replied : Reply A → Exchange A

abbrev pub max_body_bytes : ℕ
max_body_bytes = 1048576

abbrev pub max_attempts : ℕ
max_attempts = 4

-- Nanoseconds, as in `time.Duration`, which is an int64 and wraps.
abbrev pub second : ℕ
second = 1000000000

abbrev pub int64 : ℕ → ℤ
int64 n = let r = n % 2 ^ 64 in if ltb r (2 ^ 63) then pos r else negsuc (2 ^ 64 - r - 1)

abbrev digits_value : ℕ → List ℕ → ℕ
digits_value acc [] = acc
digits_value acc (c ∷ cs) = digits_value (acc * 10 + (c - b'0')) cs

abbrev unsigned : List ℕ → Option ℕ
unsigned [] = none
unsigned (c ∷ cs) = if all is_digit (c ∷ cs) then some (digits_value 0 (c ∷ cs)) else none

abbrev within_int64 : Option ℕ → Option ℤ
within_int64 none = none
within_int64 (some n) = if ltb n (2 ^ 63) then some (pos n) else none

abbrev within_neg_int64 : Option ℕ → Option ℤ
within_neg_int64 none = none
within_neg_int64 (some zero) = some (pos 0)
within_neg_int64 (some (suc n)) = if ltb n (2 ^ 63) then some (negsuc n) else none

-- `strconv.Atoi` on a 64-bit machine: an optional sign, then digits, in range.
abbrev pub atoi_codes : List ℕ → Option ℤ
atoi_codes [] = none
atoi_codes (c ∷ cs) =
    if c == b'+'
    then within_int64 (unsigned cs)
    else if c == b'-'
    then within_neg_int64 (unsigned cs)
    else within_int64 (unsigned (c ∷ cs))

unfoldable pub atoi : String → Option ℤ
atoi s = atoi_codes (codes s)

abbrev int_gtb : ℤ → ℕ → Bool
int_gtb (pos n) m = ltb m n
int_gtb (negsuc n) m = false

abbrev after_seconds : ℕ → Option ℤ → ℤ
after_seconds attempt none = int64 (2 ^ attempt * 100000000)
after_seconds attempt (some (negsuc n)) = int64 (2 ^ attempt * 100000000)
after_seconds attempt (some (pos zero)) = int64 (2 ^ attempt * 100000000)
after_seconds attempt (some (pos (suc n))) =
    let d = int64 (suc n * second) in if int_gtb d (10 * second) then pos (10 * second) else d

-- `1<<attempt` is an int and wraps as well.
unfoldable pub backoff : ℕ → String → ℤ
unfolding atoi
backoff attempt retry_after = after_seconds attempt (atoi retry_after)

abbrev pub retryable : ℕ → Bool
retryable status = status == 429 || leb 500 status

abbrev is_request_id_char : ℕ → Bool
is_request_id_char c = is_alnum c || c == b'.' || c == b'_' || c == b':' || c == b'-'

-- `^[A-Za-z0-9][A-Za-z0-9._:-]{0,127}$`
abbrev is_safe_request_id : List ℕ → Bool
is_safe_request_id [] = false
is_safe_request_id (c ∷ cs) = is_alnum c && all is_request_id_char cs && leb (length cs) 127

abbrev pub safe_request_id : String → Bool
safe_request_id v = is_safe_request_id (codes v)

first_request_id : (String → String) → List String → String
first_request_id header [] = ""
first_request_id header (key ∷ keys) =
    if safe_request_id (header key) then header key else first_request_id header keys

pub request_id : (String → String) → String
unfolding first_request_id
request_id header = first_request_id header ("X-Request-Id" ∷ "X-Request-ID" ∷ "Request-Id" ∷ [])

-- The error of a response that cannot be read: for a POST the creation may have been committed.
abbrev pub post_ambiguous : Method → String → Error
post_ambiguous method cause = if is_post method then create_ambiguous cause else failure cause

-- What one attempt leads to: an end with or without a request sent, or another attempt after a sleep.
pub data Verdict (A : Type 0) : Type 0 where
  unsent : Error → Verdict A
  done : Result A → Verdict A
  again : ℤ → Verdict A

module _ {A : Type 0} (blank_output : A) (wants_output : Bool) where
  abbrev decode : Method → Bool → Option A → Result A
  decode method blank decoded =
      if not wants_output || blank then ok blank_output else or_failure decoded
    where
      or_failure : Option A → Result A
      or_failure none = err (post_ambiguous method "decode RunPod response")
      or_failure (some a) = ok a

  abbrev judge_status : Method → ℕ → Reply A → Verdict A
  judge_status method attempt r =
      let rid = request_id r.header in
      if r.status == 404
      then done (err not_found)
      else if retryable r.status && ltb attempt (max_attempts - 1)
      then (if is_post method
          then done (err (create_ambiguous "RunPod API returned a retryable status"))
          else if not (is_get method)
          then done (err (api_error r.status rid))
          else again (backoff attempt (r.header "Retry-After")))
      else if ltb r.status 200 || leb 300 r.status
      then done (err (api_error r.status rid))
      else done (decode method r.blank r.decoded)

  abbrev judge : Method → ℕ → Exchange A → Verdict A
  judge method attempt unbuilt = unsent (failure "create RunPod request")
  judge method attempt failed =
      if is_post method
      then done (err (create_ambiguous "call RunPod API"))
      else if not (is_get method) || attempt == max_attempts - 1
      then done (err (failure "call RunPod API"))
      else again (backoff attempt "")
  judge method attempt (replied r) =
      if r.read_failed
      then done (err (post_ambiguous method "read RunPod response"))
      else if r.close_failed
      then done (err (post_ambiguous method "close RunPod response"))
      else if ltb max_body_bytes r.size
      then done (err (post_ambiguous method "RunPod response exceeded 1 MiB limit"))
      else judge_status method attempt r

-- A call's result, the requests that went out, and the sleeps between them.
pub record Outcome (A : Type 0) : Type 0 where
  pub result : Result A
  pub sent : List Request
  pub slept : List ℤ

-- `exchange` is the answer to each attempt, `interrupted` whether the sleep after it is cut short by
-- the context.
module _ {A : Type 0} (blank_output : A) (wants_output : Bool) (interrupted : ℕ → Bool)
    (exchange : ℕ → Exchange A) (req : Request) where
  -- Attempt number `attempt` with at most `fuel` attempts left; what follows a sleep is `rest`.
  abbrev settle : ℕ → Verdict A → Outcome A → Outcome A
  settle attempt (unsent e) rest = record { result = err e; sent = []; slept = [] }
  settle attempt (done r) rest = record { result = r; sent = req ∷ []; slept = [] }
  settle attempt (again d) rest =
      if interrupted attempt
      then record { result = err (failure "context"); sent = req ∷ []; slept = d ∷ [] }
      else record { result = rest.result; sent = req ∷ rest.sent; slept = d ∷ rest.slept }

  unfoldable pub attempts : ℕ → ℕ → Outcome A
  attempts zero attempt = record {
    result = err (failure "RunPod retry budget exhausted");
    sent = [];
    slept = [];
  }
  attempts (suc fuel) attempt =
      let rest = attempts fuel (suc attempt) in
      settle attempt (judge blank_output wants_output req.method attempt (exchange attempt)) rest

  unfoldable pub do_json : Outcome A
  unfolding attempts
  do_json = attempts max_attempts 0
