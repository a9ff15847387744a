-- ===== src/Identity.antt =====
-- The data of pkg/identity/identity.go, and what the package takes from regexp, encoding/asn1,
-- crypto/x509 and sigstore's cryptoutils.
pub mod Values
pub mod Certs
pub mod Chain
pub mod Policy
pub mod Group
pub mod Tests
use rekor_monitor.Base.{ℕ, Bool, Option, String, List, Result, Error}
use rekor_monitor.Base.Int.{ℤ}

-- asn1.ObjectIdentifier, a list of ints
abbrev pub ObjectIdentifier : Type 0
ObjectIdentifier = List ℤ

-- OIDExtension of pkg/fulcio/extensions
pub record OidExtension : Type 0 where
  pub object_identifier : ObjectIdentifier
  pub extension_values : List String

pub record CertificateIdentity : Type 0 where
  pub cert_subject : String
  pub issuers : List String

pub record MonitoredValues : Type 0 where
  pub certificate_identities : List CertificateIdentity
  pub fingerprints : List String
  pub subjects : List String
  pub oid_matchers : List OidExtension

-- The four constants; `other` is any other string of the type.
pub data MatchedIdentityType : Type 0 where
  cert_subject extension_value fingerprint subject : MatchedIdentityType
  other : String → MatchedIdentityType

pub record LogEntry : Type 0 where
  pub matched_identity : String
  pub matched_identity_type : MatchedIdentityType
  pub cert_subject : String
  pub issuer : String
  pub fingerprint : String
  pub subject : String
  pub index : ℤ
  pub uuid : String
  pub oid_extension : ObjectIdentifier
  pub extension_value : String

-- `error` is kept as the error that the source prints into the field.
pub record FailedLogEntry : Type 0 where
  pub index : ℤ
  pub uuid : String
  pub error : Error

pub record MonitoredIdentity : Type 0 where
  pub identity : String
  pub found_identity_entries : List LogEntry

-- pkix.Extension, and the same type of the google_x509 fork
pub record Extension : Type 0 where
  pub id : ObjectIdentifier
  pub critical : Bool
  pub value : String

-- The fields of a certificate that the monitor reads. IP addresses and URIs stand for the texts
-- that their `String` methods print; `raw` is the DER encoding.
pub record CertificateFields : Type 0 where
  pub raw : String
  pub not_before : ℕ
  pub extensions : List Extension
  pub dns_names : List String
  pub email_addresses : List String
  pub ip_addresses : List String
  pub uris : List String

-- The type constraint `*x509.Certificate | *google_x509.Certificate`.
pub data Certificate : Type 0 where
  x509 google_x509 : CertificateFields → Certificate

-- A certificate pool holds the certificates that were parsed into it.
pub record CertPool : Type 0 where
  pub certificates : List CertificateFields

pub data ExtKeyUsage : Type 0 where
  code_signing : ExtKeyUsage

-- VerifyOptions of x509; the `disable` fields are those that only the fork has.
pub record VerifyOptions : Type 0 where
  pub current_time : ℕ
  pub roots : Option CertPool
  pub intermediates : Option CertPool
  pub key_usages : List ExtKeyUsage
  pub disable_time_checks : Bool
  pub disable_critical_extension_checks : Bool
  pub disable_eku_checks : Bool
  pub disable_path_len_checks : Bool
  pub disable_name_constraint_checks : Bool
  pub disable_name_checks : Bool

-- The package regexp: what is wrong with an expression, and whether it matches a text.
pub record Regexp : Type 0 where
  pub compile_error : String → Option Error
  pub match_string : String → String → Bool

-- What the monitor calls on certificates. `unmarshal` decodes an ASN.1 string and gives what is
-- left behind it.
pub record X509 : Type 0 where
  pub unmarshal : String → Result (String × String)
  pub unmarshal_other_name_san : List Extension → Result String
  pub subject_alternate_names : CertificateFields → List String
  pub parse_pem : String → List CertificateFields
  pub verify : Certificate → VerifyOptions → Option Error
