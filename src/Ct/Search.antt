-- ===== src/Ct/Search.antt =====
-- pkg/ct/monitor.go. The log client and the two certificate parsers are parameters; `now` is what the
-- clock reads during the search.
pub mod Reports
pub mod Trusted
pub mod Tests
use rekor_monitor.Base.{
  ℕ, Bool, true, false, Option, none, some, Result, ok, err, panic, msg, ◌>>=◌, context, String,
  List, [], ◌∷◌, ◌++◌, if◌then◌else◌,
}
use rekor_monitor.Base.Int.{ℤ}
use rekor_monitor.Identity.{
  OidExtension, CertificateIdentity, MonitoredValues, LogEntry, CertificateFields, google_x509,
  Regexp, X509,
}
use rekor_monitor.Identity.Certs.{oid_matches_policy}
use rekor_monitor.Identity.Chain.{validate_certificate_chain, validate_pre_certificate_chain}
use rekor_monitor.Identity.Policy.{cert_matches_policy}
use rekor_monitor.Notifications.{IdentityMonitorConfiguration}
use rekor_monitor.Search.{Found, found_then, Reported, deref, report_found}
use rekor_monitor.Rekor.Matching.{
  Place, cert_entry, oid_entry, or_failed, append_matched, if_trusted,
}
use rekor_monitor.Util.File.{Disk, Os}
use rekor_monitor.Util.File.Identities.{Format}

-- ct.Precertificate; `submitted` is the DER encoding of the submitted certificate.
pub record Precertificate : Type 0 where
  pub submitted : String
  pub tbs_certificate : Option CertificateFields

-- ct.LogEntry
pub record CtLogEntry : Type 0 where
  pub index : ℤ
  pub x509_cert : Option CertificateFields
  pub precert : Option Precertificate

-- ParseCertificate of crypto/x509 and of its fork
pub record Parsers : Type 0 where
  pub parse_certificate : String → Result CertificateFields
  pub google_parse_certificate : String → Result CertificateFields

unfoldable pub get_ct_log_entries :
    (ℤ → ℤ → Result (List CtLogEntry)) → ℤ → ℤ → Result (List CtLogEntry)
get_ct_log_entries get_entries start end =
    context "error retrieving certificate transparency log entries" (get_entries start end)

abbrev pub place : CtLogEntry → Place
place e = record { index = e.index; uuid = "" }

-- The certificate of an entry, or that of its precertificate.
abbrev pub certificate_of : CtLogEntry → Option CertificateFields
certificate_of e = elim e.x509_cert [
  | some c ↦ some c
  | none ↦ elim e.precert [ some p ↦ p.tbs_certificate | none ↦ none ]
]

-- A scan of the certificate of an entry, if it has one.
abbrev pub scan_certificate :
    CtLogEntry → (CertificateFields → Result (List LogEntry)) → Result (List LogEntry)
scan_certificate e scan = elim (certificate_of e) [
  | none ↦ err (msg "unsupported CT log entry")
  | some c ↦ scan c
]

module _ (re : Regexp) (lib : X509) where
  unfoldable pub scan_subjects :
      Place → CertificateFields → List CertificateIdentity → Result (List LogEntry)
  scan_subjects at c [] = ok []
  scan_subjects at c (id ∷ ids) =
      let rest = scan_subjects at c ids in
      context "error with policy matching"
        (cert_matches_policy re lib (google_x509 c) id.cert_subject id.issuers)
      >>= λ m.
          rest >>= λ more. ok (if m.0 then cert_entry at id.cert_subject m.1 m.2 ∷ more else more)

  unfoldable pub scan_entry_cert_subject :
      CtLogEntry → List CertificateIdentity → Result (List LogEntry)
  unfolding scan_subjects
  scan_entry_cert_subject e monitored =
      scan_certificate e (λ c. scan_subjects (place e) c monitored)

  unfoldable pub scan_oids : Place → CertificateFields → List OidExtension → Result (List LogEntry)
  scan_oids at c [] = ok []
  scan_oids at c (m ∷ ms) =
      let rest = scan_oids at c ms in
      context "error with policy matching"
        (oid_matches_policy lib (google_x509 c) m.object_identifier m.extension_values)
      >>= λ r.
          rest >>= λ more. ok (if r.0 then oid_entry at m.object_identifier r.2 ∷ more else more)

  unfoldable pub scan_entry_oid_extensions : CtLogEntry → List OidExtension → Result (List LogEntry)
  unfolding scan_oids
  scan_entry_oid_extensions e monitored = scan_certificate e (λ c. scan_oids (place e) c monitored)

  module _ (parsers : Parsers) (now : ℕ) (read : String → Result String) where
    -- A chain that cannot be parsed is not validated.
    abbrev pub if_parsed :
        Result CertificateFields → (CertificateFields → Result (Unit {0})) → Result (Unit {0})
    if_parsed (ok c) validate = validate c
    if_parsed (err e) validate = ok tt
    if_parsed (panic p) validate = panic p

    unfoldable pub validate_entry : CtLogEntry → String → String → Result (Unit {0})
    validate_entry e ca_roots ca_intermediates = elim e.x509_cert [
      | some c ↦
          if_parsed (parsers.parse_certificate c.raw)
            (λ cert. validate_certificate_chain lib read (cert ∷ []) ca_roots ca_intermediates)
      | none ↦ elim e.precert [
        | none ↦ ok tt
        | some p ↦ if_parsed (parsers.google_parse_certificate p.submitted) (λ cert.
            validate_pre_certificate_chain lib read now (cert ∷ []) ca_roots ca_intermediates)
      ]
    ]

    -- The scan of an entry; what was matched before an error is kept.
    unfoldable pub match_entry : CtLogEntry → MonitoredValues → Result Found
    unfolding scan_entry_cert_subject scan_entry_oid_extensions
    match_entry e mvs =
        or_failed re lib (place e) "error matching certificate subjects"
          (scan_entry_cert_subject e mvs.certificate_identities)
          λ subs. append_matched re lib subs (
            or_failed re lib (place e) "error matching OID extensions"
              (scan_entry_oid_extensions e mvs.oid_matchers) λ oids. ok (oids, []))

    unfoldable pub matched_indices :
        List CtLogEntry → MonitoredValues → String → String → Result Found
    unfolding match_entry validate_entry
    matched_indices [] mvs ca_roots ca_intermediates = ok ([], [])
    matched_indices (e ∷ es) mvs ca_roots ca_intermediates =
        found_then
          (if_trusted re lib read mvs ca_roots ca_intermediates
            (validate_entry e ca_roots ca_intermediates) (match_entry e mvs))
          (matched_indices es mvs ca_roots ca_intermediates)

    module _ (get_entries : ℤ → ℤ → Result (List CtLogEntry)) (fmt : Format) (os : Os) where
      unfoldable pub fetch_and_match :
          IdentityMonitorConfiguration → MonitoredValues → Result (ℤ × Found)
      unfolding get_ct_log_entries
      fetch_and_match config mvs = deref config.start_index >>= λ start.
          deref config.end_index >>= λ end. get_ct_log_entries get_entries start end >>= λ entries.
          matched_indices entries mvs config.ca_roots_file config.ca_intermediates_file >>= λ found.
          ok (end, found)

      unfoldable pub identity_search :
          IdentityMonitorConfiguration → MonitoredValues → Disk → Result Reported × Disk
      unfolding fetch_and_match
      identity_search config mvs disk =
          report_found fmt os (fetch_and_match config mvs) config mvs disk
