-- ===== src/Util/Tls.antt =====
-- pkg/util/tls.go: the TLS configuration for a server whose certificates a file lists. The parser of
-- crypto/x509 and os.ReadFile are arguments.
use rekor_monitor.Base.{ℕ, Result, ok, ◌>>=◌, String, List}

-- tls.Config: the certificates of its pool of root CAs, and its lowest protocol version.
pub record TlsConfig : Type 0 where
  pub root_cas : List String
  pub min_version : ℕ

-- tls.VersionTLS12
abbrev version_tls12 : ℕ
version_tls12 = 771

-- What AppendCertsFromPEM returns is not looked at: a file with no certificate gives an empty pool.
unfoldable pub tls_config_for_ca :
    (String → Result String) → (String → List String) → String → Result TlsConfig
tls_config_for_ca read_file certificates chain = read_file chain >>= λ ca_cert.
    ok (record { root_cas = certificates ca_cert; min_version = version_tls12 })
