-- ===== src/Identity/Tests.antt =====
-- A certificate with one extension, under a library that matches texts by equality.
use rekor_monitor.Base.{
  keep, ◌≡◌, ◌↔◌, refl, true, false, ◌&&◌, ◌||◌, none, some, String, [], ◌∷◌, Result, ok, err, msg,
  any, is_empty, Returns,
}
use rekor_monitor.Base.Classes.{◌==◌, string_comparable}
use rekor_monitor.Identity.{
  LogEntry, fingerprint, MonitoredValues, CertificateFields, x509, Regexp, X509,
}
use rekor_monitor.Identity.Group.{
  is_monitored, matched_with, create_monitored_identities, group_of, Distinct,
  create_monitored_identities-keep,
}
use rekor_monitor.Base.Int.{pos}
use rekor_monitor.Identity.Values.{
  verify_monitored_values, are_valid, verify_monitored_values-are_valid,
}
use rekor_monitor.Identity.Certs.{get_extension, get_subject_alternate_names}
use rekor_monitor.Identity.Policy.{
  cert_extension_oidc_issuer_v2, issuer_of, cert_matches_policy, cert_matches_policy_decides,
}
use rekor_monitor.Identity.Chain.{
  unnamed, parsed, signed_for_code, validate_certificate_chain, validate_certificate_chain_iff,
}

abbrev pub literal : Regexp
literal = record { compile_error = λ e. none; match_string = λ e s. e == s }

-- Values are their own texts, files hold one certificate, and every certificate verifies.
abbrev pub plain : X509
plain = record {
  unmarshal = λ v. ok (v, "");
  unmarshal_other_name_san = λ exts. err (msg "no other name");
  subject_alternate_names = λ c. [];
  parse_pem = λ text.
      record {
        raw = text;
        not_before = 0;
        extensions = [];
        dns_names = [];
        email_addresses = [];
        ip_addresses = [];
        uris = [];
      }
      ∷ [];
  verify = λ c opts. none;
}

abbrev pub leaf : CertificateFields
leaf = record {
  raw = "der";
  not_before = 7;
  extensions =
      record { id = cert_extension_oidc_issuer_v2; critical = false; value = "https://issuer" }
      ∷ [];
  dns_names = "example.com" ∷ [];
  email_addresses = "alice@example.com" ∷ [];
  ip_addresses = [];
  uris = [];
}

abbrev pub watched : MonitoredValues
watched = record {
  certificate_identities =
      record { cert_subject = "alice@example.com"; issuers = "https://issuer" ∷ [] } ∷ [];
  fingerprints = "f1" ∷ [];
  subjects = [];
  oid_matchers = [];
}

verify_monitored_values-are_valid_example :
    (verify_monitored_values watched ≡ ok tt) ↔ (are_valid watched ≡ true)
verify_monitored_values-are_valid_example = verify_monitored_values-are_valid watched

cert_matches_policy_decides_example :
    Returns
      (λ r.
        (r.0 ≡ (
          any
            (literal.match_string "alice@example.com")
            (get_subject_alternate_names plain (x509 leaf))
          && (is_empty {A = String} [] || any (λ e. literal.match_string e "https://issuer") [])))
        × (r.2 ≡ "https://issuer"))
      (cert_matches_policy literal plain (x509 leaf) "alice@example.com" [])
cert_matches_policy_decides_example =
    cert_matches_policy_decides literal plain (x509 leaf) "alice@example.com" []
      (unfold issuer_of get_extension in refl) refl refl refl

-- Files are their names.
abbrev read_file : String → Result String
read_file name = ok name

validate_certificate_chain_iff_example :
    (validate_certificate_chain plain read_file (leaf ∷ []) "roots.pem" "" ≡ ok tt) ↔ (
      any
        (signed_for_code plain read_file
          (some (record { certificates = plain.parse_pem "roots.pem" }))
          none)
        (leaf ∷ [])
      ≡ true)
validate_certificate_chain_iff_example =
    validate_certificate_chain_iff plain read_file (leaf ∷ []) "roots.pem" ""
      (some (record { certificates = plain.parse_pem "roots.pem" })) none
      (parsed "roots.pem" refl refl refl) (unnamed refl)

abbrev hit : String → LogEntry
hit fp = record {
  matched_identity = fp;
  matched_identity_type = fingerprint;
  cert_subject = "";
  issuer = "";
  fingerprint = fp;
  subject = "";
  index = pos 5;
  uuid = "";
  oid_extension = [];
  extension_value = "";
}

create_monitored_identities-keep_example :
    (group_of "f1" (create_monitored_identities (hit "f1" ∷ hit "f2" ∷ []) ("f1" ∷ []))
      ≡ keep (λ e. is_monitored ("f1" ∷ []) e && matched_with "f1" e) (hit "f1" ∷ hit "f2" ∷ []))
    × Distinct (create_monitored_identities (hit "f1" ∷ hit "f2" ∷ []) ("f1" ∷ []))
create_monitored_identities-keep_example =
    create_monitored_identities-keep (hit "f1" ∷ hit "f2" ∷ []) ("f1" ∷ []) "f1"
