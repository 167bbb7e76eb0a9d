-- ===== src/Template/Settings.antt =====
-- internal/controller/template/template.go: the guards on a Template's spec, the input that is made of
-- it, and the comparison with an external Template.
use provider_runpod.Base.{
  ℕ, String, ℤ, pos, Bool, true, false, not, ◌&&◌, ◌||◌, List, [], ◌∷◌, Option, none, some, is_some,
  leb, ◌==◌, length, all, codes, is_digit, str_eq, has_bool, has_int, has_strings, has_empty,
  value_or_nil, Result, ok, err, failure, if◌then◌else◌, and_then, require,
}
use provider_runpod.Client.Types.{Template, TemplateInput}
use provider_runpod.Client.Transport.{atoi_codes}
use provider_runpod.Apis.{TemplateResource, Time}
use provider_runpod.Endpoint.Settings.{effective_name, is_safe_name, ensure_lifetime_active}
use provider_runpod.Endpoint.Matching.{is_text, is_blank}

abbrev pub template_name : TemplateResource → String
template_name cr = effective_name cr.spec.name cr.metadata.uid

abbrev same_codes : List ℕ → List ℕ → Bool
same_codes [] [] = true
same_codes (c ∷ cs) (d ∷ ds) = c == d && same_codes cs ds
same_codes _ _ = false

-- `\s` of the source's regular expression
abbrev is_space : ℕ → Bool
is_space c = c == 9 || c == 10 || c == 12 || c == 13 || c == 32

abbrev is_hex : ℕ → Bool
is_hex c = is_digit c || (leb b'a' c && leb c b'f')

-- What follows the `@` of an image reference.
abbrev is_sha256 : List ℕ → List ℕ → Bool
is_sha256 [] cs = all is_hex cs && length cs == 64
is_sha256 (p ∷ ps) [] = false
is_sha256 (p ∷ ps) (c ∷ cs) = p == c && is_sha256 ps cs

-- The rest of an image reference, after `named` says whether it has a first character.
abbrev is_pinned : Bool → List ℕ → Bool
is_pinned named [] = false
is_pinned named (c ∷ cs) =
    if c == b'@'
    then named && is_sha256 (codes "sha256:") cs
    else not (is_space c) && is_pinned true cs

-- `^[^\s@]+@sha256:[a-f0-9]{64}$`
abbrev pub is_digest_image : String → Bool
is_digest_image image = is_pinned false (codes image)

-- `strings.SplitN(port, "/", 2)`: what stands before the first slash, and what after it.
abbrev pub before_slash : List ℕ → List ℕ
before_slash [] = []
before_slash (c ∷ cs) = if c == b'/' then [] else c ∷ before_slash cs

abbrev after_slash : List ℕ → List ℕ
after_slash [] = []
after_slash (c ∷ cs) = if c == b'/' then cs else after_slash cs

abbrev is_port_number : List ℕ → Bool
is_port_number [] = false
is_port_number (c ∷ cs) = leb b'1' c && leb c b'9' && all is_digit cs && leb (length cs) 4

-- `^[1-9][0-9]{0,4}/(http|tcp)$`
abbrev pub is_port_spec : List ℕ → Bool
is_port_spec cs =
    is_port_number (before_slash cs)
    && (same_codes (after_slash cs) (codes "http") || same_codes (after_slash cs) (codes "tcp"))

abbrev pub in_port_range : Option ℤ → Bool
in_port_range (some (pos n)) = leb 1 n && leb n 65535
in_port_range _ = false

abbrev pub check_ports : List String → Result (Unit {0})
check_ports [] = ok tt
check_ports (port ∷ ports) =
    if not (is_port_spec (codes port))
    then err (failure "ports must use explicit port/protocol declarations")
    else if not (in_port_range (atoi_codes (before_slash (codes port))))
    then err (failure "ports must be in the range 1..65535")
    else check_ports ports

unfoldable pub validate_ports : List String → Result (Unit {0})
validate_ports [] = err (failure "at least one explicit port is required")
validate_ports (port ∷ ports) = check_ports (port ∷ ports)

-- The guards that Create and Update share, in their order.
unfoldable pub check_template : TemplateResource → Time → Result (Unit {0})
unfolding validate_ports
check_template cr now =
    and_then
      (require (is_digest_image cr.spec.image_name)
        (failure "imageName must be pinned to a lowercase sha256 OCI digest"))
      λ _.
        and_then
          (require (is_safe_name (codes cr.spec.name))
            (failure "name must use bounded ASCII identifier characters"))
          λ _.
            and_then (validate_ports cr.spec.ports)
              λ _. ensure_lifetime_active cr.metadata cr.spec.max_lifetime_seconds now

abbrev default_container_disk : ℤ
default_container_disk = pos 50

abbrev disk_of : Option ℤ → ℤ
disk_of none = default_container_disk
disk_of (some n) = n

unfoldable pub template_input : TemplateResource → TemplateInput
template_input cr =
    let p = cr.spec in
    record {
      name = template_name cr;
      category = "NVIDIA";
      image_name = p.image_name;
      is_public = false;
      is_serverless = true;
      container_disk_in_gb = disk_of p.container_disk_in_gb;
      docker_entrypoint = some p.docker_entrypoint;
      docker_start_cmd = some p.docker_start_cmd;
      ports = p.ports;
      readme = "";
      volume_in_gb = p.volume_in_gb;
      volume_mount_path = "";
      env = some [];
      container_registry_auth_id = "";
    }

unfoldable pub template_matches_input : TemplateInput → Template → Bool
template_matches_input want got =
    str_eq got.category "NVIDIA"
    && str_eq got.name want.name
    && str_eq got.image_name want.image_name
    && has_bool got.is_public false
    && has_bool got.is_runpod false
    && has_bool got.is_serverless true
    && has_int got.container_disk_in_gb want.container_disk_in_gb
    && has_int got.volume_in_gb want.volume_in_gb
    && is_text got.readme want.readme
    && is_text got.volume_mount_path want.volume_mount_path
    && has_empty got.env
    && is_blank got.container_registry_auth_id
    && has_strings got.docker_entrypoint (value_or_nil want.docker_entrypoint)
    && has_strings got.docker_start_cmd (value_or_nil want.docker_start_cmd)
    && has_strings got.ports want.ports

unfoldable pub unrepairable_template : Template → Result (Unit {0})
unrepairable_template got =
    if not (str_eq got.category "NVIDIA")
    then err (
        failure
          "RunPod Template category is not NVIDIA and the official update API cannot change it")
    else if not (has_bool got.is_serverless true)
    then err
        (failure "RunPod Template is not Serverless and the official update API cannot change it")
    else if not (has_bool got.is_runpod false)
    then err (
        failure
          "RunPod Template ownership is absent or RunPod-managed and the official update API cannot change it")
    else if not (is_some got.is_public)
        || not (is_some got.container_disk_in_gb)
        || not (is_some got.volume_in_gb)
        || not (is_some got.docker_entrypoint)
        || not (is_some got.docker_start_cmd)
        || not (is_some got.ports)
        || not (is_some got.env)
        || not got.readme.present
        || not got.volume_mount_path.present
        || not got.container_registry_auth_id.present
    then err (
        failure
          "RunPod Template response omitted bounded configuration evidence; refusing a rolling PATCH loop")
    else ok tt

unfoldable pub set_template_observation : TemplateResource → Template → Time → TemplateResource
set_template_observation cr got now = record cr {
  at_provider = record {
    id = got.id;
    name = got.name;
    image_name = got.image_name;
    is_serverless = has_bool got.is_serverless true;
    last_observed_at = now;
  };
}
