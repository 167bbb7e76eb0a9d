-- ===== src/Tests/Management.antt =====
-- The connection's theorem at a concrete input.
use provider_runpod.Base.{refl, [], ◌∷◌, some, ok, err, not_found, lookup}
use provider_runpod.Credentials.{purpose_label, purpose_management, require_purpose}
use provider_runpod.Management.{
  Cluster, ProviderCredentials, ProviderConfigReference, SecretReference, connect,
  resolve_credentials, load_credential,
}
use provider_runpod.Management.Origin.{IsOrigin, connect-IsOrigin}

abbrev cluster : Cluster
cluster = record {
  track = ok tt;
  provider_config = λ _ _. ok (record {
    source = "Secret";
    secret_ref = some (record { namespace = "ns"; name = "runpod"; key = "token" });
  });
  cluster_provider_config = λ _. err not_found;
  secret = λ _ _. ok (record {
    labels = (purpose_label, purpose_management) ∷ [];
    entries = ("token", "k1") ∷ [];
    resource_version = "1";
  });
}

abbrev config : ProviderConfigReference
config = record { kind = "ProviderConfig"; name = "default" }

connect-IsOrigin_example :
    (cd : ProviderCredentials) × (ref : SecretReference) × IsOrigin cluster "ns" config cd ref "k1"
unfolding connect resolve_credentials load_credential require_purpose lookup
connect-IsOrigin_example = connect-IsOrigin cluster "ns" config "k1" refl
