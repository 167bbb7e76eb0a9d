-- ===== src/Endpoint/Settings.antt =====
-- internal/controller/endpoint/endpoint.go: the Template that an Endpoint is bound to, the name and the
-- input that the provider derives from the spec, and the guards on it.
pub mod Name
use Prim.Native.Char.{Char, code}
use Prim.Native.String.{◌++◌, slice, char_at}
use provider_runpod.Base.{
  ℕ, ◌-◌, String, len, ℤ, pos, int_eq, int_leb, Bool, false, not, ◌&&◌, ◌||◌, List, [], ◌∷◌, some,
  codes, all, is_alnum, is_upper, ltb, ◌==◌, str_eq, is_empty, Result, ok, err, failure,
  if◌then◌else◌, require,
}
use provider_runpod.Apis.{ObjectMeta, EndpointResource, Time, is_zero, before, deadline}
use provider_runpod.Client.Types.{EndpointInput}

pub record TemplateBinding : Type 0 where
  pub id : String
  pub uid : String
  pub generation : ℕ
  pub image : String
  pub name : String
  pub container_disk_gb : ℤ
  pub entrypoint : List String
  pub start_cmd : List String
  pub ports : List String

-- The zero value, which a terminating Endpoint gets.
abbrev pub no_binding : TemplateBinding
no_binding = record {
  id = "";
  uid = "";
  generation = 0;
  image = "";
  name = "";
  container_disk_gb = pos 0;
  entrypoint = [];
  start_cmd = [];
  ports = [];
}

abbrev is_name_char : ℕ → Bool
is_name_char c = is_alnum c || c == b'.' || c == b'_' || c == b'-'

-- `^[A-Za-z0-9][A-Za-z0-9._-]*$`
abbrev pub is_safe_name : List ℕ → Bool
is_safe_name [] = false
is_safe_name (c ∷ cs) = is_alnum c && all is_name_char cs

-- `strings.ToLower` on ASCII, of which a Kubernetes UID consists.
abbrev lower_char : Char → Char
lower_char c = if is_upper (code c) then char_at "abcdefghijklmnopqrstuvwxyz" (code c - b'A') else c

unfoldable pub to_lower : String → String
to_lower String.[] = ""
to_lower (String.◌∷◌ c s) = String.◌∷◌ (lower_char c) (to_lower s)

abbrev pub max_name_bytes : ℕ
max_name_bytes = 191

-- The name under which the provider creates an object: the spec's name, cut so that the suffix with
-- the object's UID fits. The slice of a name that is ASCII, as admission demands, cuts at any byte.
unfoldable pub effective_name : String → String → String
effective_name name uid =
    let suffix = "-xp-" ++ to_lower uid in
    let max_prefix = max_name_bytes - len suffix in
    (if ltb max_prefix (len name) then slice name 0 max_prefix else name) ++ suffix

abbrev pub endpoint_name : EndpointResource → String
endpoint_name cr = effective_name cr.spec.name cr.metadata.uid

unfoldable pub validate : EndpointResource → String → Result (Unit {0})
validate cr template_id =
    let p = cr.spec in
    if not (is_safe_name (codes p.name))
    then err (failure "name must use bounded ASCII identifier characters")
    else if str_eq template_id "" || is_empty p.gpu_type_ids || is_empty p.data_center_ids
    then err (failure "template ID, GPU type, and data center allowlists are required")
    else if not (int_eq p.workers_min (pos 1)) || not (int_eq p.workers_max (pos 1))
    then err (failure "secured endpoints require workersMin and workersMax exactly one")
    else if int_leb p.max_worker_cost_milli_usd_per_hour (pos 0)
        || not (int_leb p.max_worker_cost_milli_usd_per_hour (pos 10000))
    then err (failure "maxWorkerCostMilliUsdPerHour must be between 1 and 10000")
    else ok tt

unfoldable pub ensure_lifetime_active : ObjectMeta → ℕ → Time → Result (Unit {0})
ensure_lifetime_active m lifetime now =
    if is_zero m.creation_timestamp
    then ok tt
    else require (before now (deadline m lifetime))
        (failure "maximum lifetime has elapsed; refusing external create or update")

unfoldable pub endpoint_input : EndpointResource → String → EndpointInput
endpoint_input cr template_id =
    let p = cr.spec in
    record {
      name = endpoint_name cr;
      template_id = template_id;
      compute_type = "GPU";
      gpu_count = pos 1;
      gpu_type_ids = p.gpu_type_ids;
      allowed_cuda_versions = p.allowed_cuda_versions;
      data_center_ids = p.data_center_ids;
      workers_min = p.workers_min;
      workers_max = p.workers_max;
      idle_timeout = p.idle_timeout;
      scaler_type = p.scaler_type;
      scaler_value = p.scaler_value;
      execution_timeout_ms = p.execution_timeout_ms;
      flash_boot = false;
      network_volume_id = "";
      network_volume_ids = some [];
      min_cuda_version = "";
    }
