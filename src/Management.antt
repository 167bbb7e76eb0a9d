-- ===== src/Management.antt =====
-- internal/controller/management/connect.go: which credential a managed resource's client is made of.
-- What the API server answers is an argument. The result is the key that the client is built from.
pub mod Origin
use provider_runpod.Base.{
  String, Bool, false, not, Option, none, some, str_eq, Result, ok, err, failure, if◌then◌else◌,
  lookup, and_then,
}
use provider_runpod.Credentials.{Secret, require_purpose, purpose_management}

pub record SecretReference : Type 0 where
  pub namespace : String
  pub name : String
  pub key : String

pub record ProviderCredentials : Type 0 where
  pub source : String
  pub secret_ref : Option SecretReference

pub record ProviderConfigReference : Type 0 where
  pub kind : String
  pub name : String

-- The answers: to the tracking of the usage, and to the reads, by namespace and name.
pub record Cluster : Type 0 where
  pub track : Result (Unit {0})
  pub provider_config : String → String → Result ProviderCredentials
  pub cluster_provider_config : String → Result ProviderCredentials
  pub secret : String → String → Result Secret

abbrev pub in_namespace : String → Option SecretReference → Bool
in_namespace namespace none = false
in_namespace namespace (some ref) = str_eq ref.namespace namespace

abbrev entry_of : Option String → Result String
entry_of none = err (failure "management credential Secret key is absent")
entry_of (some value) = ok value

module _ (cluster : Cluster) where
  abbrev pub of_secret : SecretReference → Result Secret → Result String
  of_secret ref (err e) = err (failure "cannot read management credential Secret")
  of_secret ref (ok secret) =
      and_then (require_purpose (some secret) purpose_management)
        λ _. entry_of (lookup ref.key secret.entries)

  abbrev pub of_reference : Option SecretReference → Result String
  of_reference none = err (failure "ProviderConfig credentials must use a Secret")
  of_reference (some ref) = of_secret ref (cluster.secret ref.namespace ref.name)

  unfoldable pub load_credential : ProviderCredentials → Result String
  load_credential cd =
      if not (str_eq cd.source "Secret")
      then err (failure "ProviderConfig credentials must use a Secret")
      else of_reference cd.secret_ref

  -- The credentials that the reference of a resource in the given namespace names.
  abbrev pub namespaced : String → ProviderCredentials → Result ProviderCredentials
  namespaced namespace cd =
      if not (in_namespace namespace cd.secret_ref)
      then err
          (failure "namespaced ProviderConfig secret must be in the managed resource namespace")
      else ok cd

  unfoldable pub resolve_credentials : String → ProviderConfigReference → Result ProviderCredentials
  resolve_credentials namespace ref =
      if str_eq ref.kind "ProviderConfig"
      then and_then (cluster.provider_config namespace ref.name) (namespaced namespace)
      else if str_eq ref.kind "ClusterProviderConfig"
      then cluster.cluster_provider_config ref.name
      else err (failure "unsupported providerConfigRef kind")

  abbrev connect_through : String → Option ProviderConfigReference → Result String
  connect_through namespace none = err (failure "providerConfigRef is required")
  connect_through namespace (some ref) =
      and_then (resolve_credentials namespace ref) load_credential

  unfoldable pub connect : String → Option ProviderConfigReference → Result String
  unfolding resolve_credentials load_credential
  connect namespace ref = and_then cluster.track λ _. connect_through namespace ref
