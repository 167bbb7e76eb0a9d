-- ===== src/Credentials.antt =====
-- internal/credentials/purpose.go: which Secret a process may consume. A Secret is the part that the
-- repository reads: labels, data and the resource version.
use provider_runpod.Base.{
  String, not, ◌≡◌, Option, none, some, Result, ok, err, failure, if◌then◌else◌, str_eq, lookup_or,
  eq_iff, arith, StringMap,
}

pub record Secret : Type 0 where
  pub labels : StringMap
  pub entries : StringMap
  pub resource_version : String

abbrev pub purpose_label : String
purpose_label = "runpod.crossplane.io/credential-purpose"

abbrev pub purpose_management : String
purpose_management = "management"

abbrev pub purpose_inference : String
purpose_inference = "inference"

-- A nil pointer is `none`; a missing label reads as the empty text.
unfoldable pub require_purpose : Option Secret → String → Result (Unit {0})
require_purpose none expected = err (failure "Secret must have label")
require_purpose (some secret) expected =
    if not (str_eq (lookup_or "" purpose_label secret.labels) expected)
    then err (failure "Secret must have label")
    else ok tt

-- A Secret that passes for the management process is refused to the inference process, and the other
-- way round.
pub purposes_exclusive :
    (s : Secret)
    → (require_purpose (some s) purpose_management ≡ ok tt
        → require_purpose (some s) purpose_inference ≡ err (failure "Secret must have label"))
      × (require_purpose (some s) purpose_inference ≡ ok tt
          → require_purpose (some s) purpose_management ≡ err (failure "Secret must have label"))
unfolding require_purpose
purposes_exclusive s = ground (
  arith,
  eq_iff (lookup_or "" purpose_label s.labels) purpose_management,
  eq_iff (lookup_or "" purpose_label s.labels) purpose_inference,
  eq_iff purpose_management purpose_inference,
)
