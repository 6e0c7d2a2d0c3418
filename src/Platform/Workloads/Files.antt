-- ===== src/Platform/Workloads/Files.antt =====
-- The certificate files that the server's configuration names, against what its pod mounts.
use axonops_operator.Prelude.{
  String, ◌≡◌, ◌⊎◌, true, false, none, some, List, [], ◌∷◌, ◌<>◌, ◌==◌, ◌&&◌, arith,
}
use axonops_operator.Platform.Objects.{VolumeMount}
use axonops_operator.Platform.Types.{Platform, AxonBaseComponent, is_external}
use axonops_operator.Platform.Config.{TlsSettings, search_tls, cql_tls, is_verified}
use axonops_operator.Platform.Status.{missing_external}
use axonops_operator.Platform.Workloads.{mount}
use axonops_operator.Platform.Workloads.Server.{cert_secret, tls_mounts}

-- Either no file is named and none is mounted, or the files of one mounted directory are named.
abbrev pub Agree : TlsSettings → List VolumeMount → String → String → Type 0
Agree s ms name dir =
    ((s.ca_cert ≡ "") × (s.key ≡ "") × (s.cert ≡ "") × (ms ≡ []))
    ⊎ ((s.ca_cert ≡ dir <> "/ca.crt")
        × (s.key ≡ dir <> "/tls.key")
        × (s.cert ≡ dir <> "/tls.crt")
        × (ms ≡ mount name dir true ∷ []))

-- The check of an external database leaves no verified connection without certificates.
pub missing_external-none :
    (label field : String) (d : AxonBaseComponent)
    → missing_external label field d ≡ none
    → (is_verified (some d) && cert_secret (some d) == "") ≡ false
unfolding missing_external is_verified
missing_external-none label field d h = ground arith

-- Where no database is verified without certificates, the server's configuration names the
-- certificate files of a database exactly if the directory that holds them is mounted.
pub certificate_files_mounted :
    (p : Platform)
    → (is_verified p.spec.search && cert_secret p.spec.search == "") ≡ false
    → (is_verified p.spec.time_series && cert_secret p.spec.time_series == "") ≡ false
    → Agree
        (search_tls p)
        (tls_mounts p.spec.search "search-tls" "/etc/axonops/certs/search")
        "search-tls"
        "/etc/axonops/certs/search"
      × Agree
          (cql_tls p)
          (tls_mounts p.spec.time_series "timeseries-tls" "/etc/axonops/certs/timeseries")
          "timeseries-tls"
          "/etc/axonops/certs/timeseries"
unfolding search_tls cql_tls tls_mounts is_external is_verified
certificate_files_mounted p hs ht = (ground arith, ground arith)
