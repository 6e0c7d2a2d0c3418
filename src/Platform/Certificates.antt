-- ===== src/Platform/Certificates.antt =====
-- The certificates of internal/controller/axonopsplatform_controller.go, and their issuer.
use axonops_operator.Prelude.{
  ◌*◌, String, true, Option, none, some, List, [], ◌∷◌, ◌<>◌, ◌==◌, ◌||◌, if◌then◌else◌,
}
use axonops_operator.Errors.{Result, ok}
use axonops_operator.K8s.{K8s}
use axonops_operator.Platform.Objects.{
  Object, CertificateSpec, Keystore, IssuerSpec, ca, self_signed, Map,
}
use axonops_operator.Platform.Types.{
  Platform, StorageConfig, component_timeseries, component_search, key_in, named, component_name,
  set_entry, resolve_issuer_name,
}
use axonops_operator.Platform.Cluster.{
  Cluster, Tools, Step, certificate, cluster_issuer, return, annotate, apply_object, ◌>>=◌, ◌>>◌,
}
use axonops_operator.Platform.Secrets.{owned, ensure_keystore_password_secret}

unfoldable pub issuer_spec : Platform → IssuerSpec
issuer_spec p =
    if p.spec.issuer.ca_secret_ref == "" then self_signed else ca p.spec.issuer.ca_secret_ref

issuer_mutation : Platform → Object IssuerSpec → Result (Object IssuerSpec)
unfolding issuer_spec set_entry
issuer_mutation p o = ok (record o {
  labels = set_entry "app.kubernetes.io/managed-by" "axonops-operator" o.labels;
  content = issuer_spec p;
})

-- The names of a component's service and of its headless service, in all their forms.
unfoldable pub dns_names : Platform → String → List String
dns_names p component =
    let service = component_name p component in
    let headless = named p component "-headless" in
    let namespace = p.metadata.namespace in
    service
    ∷ (service <> "." <> namespace)
    ∷ (service <> "." <> namespace <> ".svc")
    ∷ (service <> "." <> namespace <> ".svc.cluster.local")
    ∷ headless
    ∷ (headless <> "." <> namespace)
    ∷ (headless <> "." <> namespace <> ".svc")
    ∷ (headless <> "." <> namespace <> ".svc.cluster.local")
    ∷ ("*." <> headless <> "." <> namespace <> ".svc.cluster.local")
    ∷ []

abbrev keystore : String → Option Keystore
keystore secret =
    if secret == ""
    then none
    else some (record { create = true; password_secret = secret; password_key = "password" })

unfoldable pub certificate_spec : Tools → Platform → String → String → CertificateSpec
unfolding dns_names resolve_issuer_name
certificate_spec t p component keystore_secret = record {
  secret_name = named p component "-tls";
  issuer_name = resolve_issuer_name t.cluster_issuer_name p;
  issuer_kind = "ClusterIssuer";
  common_name = component_name p component <> "." <> p.metadata.namespace <> ".svc.cluster.local";
  dns_names = dns_names p component;
  duration = 90 * 24;
  renew_before = 30 * 24;
  algorithm = "RSA";
  encoding = "PKCS1";
  size = 2048;
  usages = "server auth" ∷ "client auth" ∷ "digital signature" ∷ "key encipherment" ∷ [];
  jks = keystore keystore_secret;
  pkcs12 = keystore keystore_secret;
}

certificate_labels : String → Map → Map
unfolding set_entry
certificate_labels component m = set_entry "app.kubernetes.io/managed-by" "axonops-operator" (
    set_entry "app.kubernetes.io/component" component
      (set_entry "app.kubernetes.io/name" "axonops" m))

certificate_mutation :
    Tools → Platform → String → String → Object CertificateSpec → Result (Object CertificateSpec)
unfolding owned certificate_labels certificate_spec
certificate_mutation t p component keystore_secret = owned t p λ o. record o {
  labels = certificate_labels component o.labels;
  content = certificate_spec t p component keystore_secret;
}

module _ {W : Type 0} (k : K8s) (t : Tools) (c : Cluster W) where
  unfoldable pub ensure_cluster_issuer : Platform → Step W (Unit {0})
  unfolding apply_object issuer_mutation
  ensure_cluster_issuer p =
      annotate ("failed to create/update ClusterIssuer " <> t.quote t.cluster_issuer_name) (
        apply_object c.cluster_issuers cluster_issuer
          (record { namespace = ""; name = t.cluster_issuer_name }) (issuer_mutation p))

  -- `ensureTLSCertificate`: the name of the secret that will hold the certificate.
  unfoldable pub ensure_tls_certificate : Platform → String → StorageConfig → Step W String
  unfolding apply_object certificate_mutation ensure_keystore_password_secret
  ensure_tls_certificate p component sc = do
    keystore_secret ←
        if component == component_search || component == component_timeseries
        then annotate "failed to ensure keystore password secret"
            (ensure_keystore_password_secret k t c p component sc)
        else return ""
    annotate "failed to create/update certificate" (
        apply_object c.certificates certificate (key_in p (named p component "-tls"))
          (certificate_mutation t p component keystore_secret))
    return (named p component "-tls")
