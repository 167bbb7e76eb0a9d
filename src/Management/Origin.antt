-- ===== src/Management/Origin.antt =====
-- internal/controller/management/connect.go: where a key comes from.
use provider_runpod.Base.{
  String, ◌≡◌, refl, inl, inr, true, Option, none, some, Result, ok, err, arith, eq_iff, lookup,
  and_then-eq-ok, Bool-cases,
}
use provider_runpod.Credentials.{Secret, require_purpose, purpose_management}
use provider_runpod.Management.{
  Cluster, SecretReference, ProviderCredentials, ProviderConfigReference, of_secret, of_reference,
  load_credential, resolve_credentials, connect, in_namespace, namespaced,
}

-- The Secret entry that a key is.
pub record IsEntry (cluster : Cluster) (ref : SecretReference) (key : String) : Type 0 where
  pub found :
      (s : Secret) × (cluster.secret ref.namespace ref.name ≡ ok s)
      × (require_purpose (some s) purpose_management ≡ ok tt)
      × (lookup ref.key s.entries ≡ some key)

module _ (cluster : Cluster) where
  secret-IsEntry :
      (ref : SecretReference) (r : Result Secret) (key : String)
      → cluster.secret ref.namespace ref.name ≡ r
      → of_secret cluster ref r ≡ ok key
      → IsEntry cluster ref key
  secret-IsEntry ref (err e) key told h = cc
  secret-IsEntry ref (ok s) key told h =
      let (_, purposed, opened) =
        and_then-eq-ok (require_purpose (some s) purpose_management) _ h in
      record { found = (s, told, purposed, ground (arith, opened)) }

  reference-IsEntry :
      (o : Option SecretReference) (key : String)
      → of_reference cluster o ≡ ok key
      → (ref : SecretReference) × (o ≡ some ref) × IsEntry cluster ref key
  reference-IsEntry none key h = cc
  reference-IsEntry (some ref) key h =
      (ref, refl, secret-IsEntry ref (cluster.secret ref.namespace ref.name) key refl h)

  loaded :
      (cd : ProviderCredentials) (key : String)
      → load_credential cluster cd ≡ ok key
      → (cd.source ≡ "Secret") × (of_reference cluster cd.secret_ref ≡ ok key)
  unfolding load_credential
  loaded cd key h = ground (arith, eq_iff cd.source "Secret")

  namespaced-same :
      (namespace : String) (given cd : ProviderCredentials)
      → namespaced cluster namespace given ≡ ok cd
      → (in_namespace namespace given.secret_ref ≡ true) × (given ≡ cd)
  namespaced-same namespace given cd h =
      elim (Bool-cases (in_namespace namespace given.secret_ref)) [
        | inl inside ↦ (inside, cc (rw inside at h))
        | inr outside ↦ cc (rw outside at h)
      ]

  resolved_namespaced :
      (namespace : String) (ref : ProviderConfigReference) (cd : ProviderCredentials)
      → ref.kind ≡ "ProviderConfig"
      → resolve_credentials cluster namespace ref ≡ ok cd
      → in_namespace namespace cd.secret_ref ≡ true
  unfolding resolve_credentials
  resolved_namespaced namespace ref cd kind h =
      let (given, _, kept) =
        and_then-eq-ok (cluster.provider_config namespace ref.name) (namespaced cluster namespace)
          (rw ((eq_iff ref.kind "ProviderConfig").1 kind) at h) in
      let (inside, same) = namespaced-same namespace given cd kept in rw same at inside

-- The configuration and the Secret that a key comes from.
pub record IsOrigin (cluster : Cluster) (namespace : String) (pc : ProviderConfigReference)
    (cd : ProviderCredentials) (ref : SecretReference) (key : String) : Type 0 where
  pub configured : resolve_credentials cluster namespace pc ≡ ok cd
  pub secret_only : cd.source ≡ "Secret"
  pub referenced : cd.secret_ref ≡ some ref
  pub entry : IsEntry cluster ref key
  pub local : pc.kind ≡ "ProviderConfig" → ref.namespace ≡ namespace

in_namespace-some :
    (namespace : String) (o : Option SecretReference) (ref : SecretReference)
    → o ≡ some ref
    → in_namespace namespace o ≡ true
    → ref.namespace ≡ namespace
in_namespace-some namespace o ref e h = (eq_iff ref.namespace namespace).0 (rw e at h)

-- When a connection succeeds, the key is the entry of a Secret that carries the management purpose
-- and that the resource's provider configuration refers to, as its only source; and if that
-- configuration is a namespaced one, the Secret is in the resource's own namespace.
pub connect-IsOrigin :
    (cluster : Cluster) (namespace : String) (pc : ProviderConfigReference) (key : String)
    → connect cluster namespace (some pc) ≡ ok key
    → (cd : ProviderCredentials) × (ref : SecretReference) × IsOrigin cluster namespace pc cd ref
        key
unfolding connect
connect-IsOrigin cluster namespace pc key h =
    let (_, _, through) = and_then-eq-ok cluster.track _ h in
    let (cd, configured, load) =
      and_then-eq-ok (resolve_credentials cluster namespace pc) (load_credential cluster) through in
    let (source, opened) = loaded cluster cd key load in
    let (ref, referenced, entry) = reference-IsEntry cluster cd.secret_ref key opened in
    (
      cd,
      ref,
      record {
        configured = configured;
        secret_only = source;
        referenced = referenced;
        entry = entry;
        local = λ kind.
            in_namespace-some namespace cd.secret_ref ref referenced
              (resolved_namespaced cluster namespace pc cd kind configured);
      },
    )
