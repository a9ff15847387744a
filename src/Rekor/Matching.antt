-- ===== src/Rekor/Matching.antt =====
-- What pkg/rekor/v1/identity.go and pkg/rekor/v2/identity.go share: the two files scan an entry in
-- the same way, v1 with the entry's UUID and v2 without one. The definitions are those of v1.
pub mod Monitored
pub mod Sound
pub mod Exact
pub mod Tests
use rekor_monitor.Base.{
  Bool, true, false, Option, none, some, Error, Result, ok, err, panic, wrap, ◌>>=◌, context,
  String, List, [], ◌∷◌, ◌++◌, if◌then◌else◌,
}
use rekor_monitor.Base.Classes.{◌==◌, string_comparable}
use rekor_monitor.Base.Int.{ℤ}
use rekor_monitor.Identity.{
  ObjectIdentifier, OidExtension, CertificateIdentity, MonitoredValues, MatchedIdentityType,
  LogEntry, FailedLogEntry, CertificateFields, x509, Regexp, X509,
}
use rekor_monitor.Search.{Found}
use rekor_monitor.Identity.Certs.{oid_matches_policy}
use rekor_monitor.Identity.Chain.{validate_certificate_chain}
use rekor_monitor.Identity.Policy.{compile, cert_matches_policy}

-- Where an entry is in the log.
pub record Place : Type 0 where
  pub index : ℤ
  pub uuid : String

-- The subjects, certificates and fingerprints of an entry.
pub record Identities : Type 0 where
  pub subjects : List String
  pub certificates : List CertificateFields
  pub fingerprints : List String

-- The key of an identity: a certificate, or another type.
pub data Crypto : Type 0 where
  certificate : CertificateFields → Crypto
  other_key : Crypto

pub record KeyIdentity : Type 0 where
  pub crypto : Crypto
  pub fingerprint : String

-- `i.Crypto.(*x509.Certificate)`
abbrev pub certificate_of : Crypto → List CertificateFields
certificate_of (certificate c) = c ∷ []
certificate_of other_key = []

-- The fields that a matched entry leaves out are empty.
abbrev pub blank_entry : Place → String → MatchedIdentityType → LogEntry
blank_entry at identity kind = record {
  matched_identity = identity;
  matched_identity_type = kind;
  cert_subject = "";
  issuer = "";
  fingerprint = "";
  subject = "";
  index = at.index;
  uuid = at.uuid;
  oid_extension = [];
  extension_value = "";
}

abbrev pub fingerprint_entry : Place → String → String → LogEntry
fingerprint_entry at monitored fp =
    record (blank_entry at monitored MatchedIdentityType.fingerprint) { fingerprint = fp }

abbrev pub subject_entry : Place → String → String → LogEntry
subject_entry at monitored sub = record (blank_entry at monitored MatchedIdentityType.subject) {
  subject = sub;
}

abbrev pub cert_entry : Place → String → String → String → LogEntry
cert_entry at monitored sub iss =
    record (blank_entry at monitored MatchedIdentityType.cert_subject) {
      cert_subject = sub;
      issuer = iss;
    }

abbrev pub oid_entry : Place → ObjectIdentifier → String → LogEntry
oid_entry at oid value = record (blank_entry at value MatchedIdentityType.extension_value) {
  oid_extension = oid;
  extension_value = value;
}

-- The inner loops: the entries that match one monitored value.
unfoldable pub fingerprint_hits : Place → String → List String → List LogEntry
fingerprint_hits at monitored [] = []
fingerprint_hits at monitored (fp ∷ fps) =
    let rest = fingerprint_hits at monitored fps in
    if fp == monitored then fingerprint_entry at monitored fp ∷ rest else rest

unfoldable pub match_fingerprints : Place → List String → List String → List LogEntry
unfolding fingerprint_hits
match_fingerprints at fps [] = []
match_fingerprints at fps (m ∷ ms) = fingerprint_hits at m fps ++ match_fingerprints at fps ms

module _ (re : Regexp) where
  unfoldable pub subject_hits : Place → String → List String → List LogEntry
  subject_hits at monitored [] = []
  subject_hits at monitored (s ∷ ss) =
      let rest = subject_hits at monitored ss in
      if re.match_string monitored s then subject_entry at monitored s ∷ rest else rest

  unfoldable pub match_subjects : Place → List String → List String → Result (List LogEntry)
  unfolding subject_hits compile
  match_subjects at subs [] = ok []
  match_subjects at subs (m ∷ ms) =
      let rest = match_subjects at subs ms in
      compile re "error compiling regex" m >>= λ _.
      rest >>= λ more. ok (subject_hits at m subs ++ more)

  module _ (lib : X509) where
    unfoldable pub cert_hits :
        Place → CertificateIdentity → List CertificateFields → Result (List LogEntry)
    cert_hits at id [] = ok []
    cert_hits at id (c ∷ cs) =
        let rest = cert_hits at id cs in
        context "error with policy matching"
          (cert_matches_policy re lib (x509 c) id.cert_subject id.issuers)
        >>= λ m.
            rest >>= λ more. ok (if m.0 then cert_entry at id.cert_subject m.1 m.2 ∷ more else more)

    unfoldable pub match_certificate_identities :
        Place → List CertificateFields → List CertificateIdentity → Result (List LogEntry)
    unfolding cert_hits
    match_certificate_identities at certs [] = ok []
    match_certificate_identities at certs (id ∷ ids) =
        let rest = match_certificate_identities at certs ids in
        cert_hits at id certs >>= λ hits. rest >>= λ more. ok (hits ++ more)

    unfoldable pub oid_hits : Place → OidExtension → List CertificateFields → Result (List LogEntry)
    oid_hits at m [] = ok []
    oid_hits at m (c ∷ cs) =
        let rest = oid_hits at m cs in
        context "error with policy matching"
          (oid_matches_policy lib (x509 c) m.object_identifier m.extension_values)
        >>= λ r. rest >>= λ more. ok (if r.0 then oid_entry at r.1 r.2 ∷ more else more)

    unfoldable pub match_oids :
        Place → List CertificateFields → List OidExtension → Result (List LogEntry)
    unfolding oid_hits
    match_oids at certs [] = ok []
    match_oids at certs (m ∷ ms) =
        let rest = match_oids at certs ms in
        oid_hits at m certs >>= λ hits. rest >>= λ more. ok (hits ++ more)

    -- An error makes a failed entry of the entry, and ends its scan.
    abbrev pub or_failed :
        {A : Type 0} → Place → String → Result A → (A → Result Found) → Result Found
    or_failed at text (ok a) next = next a
    or_failed at text (err e) next =
        ok ([], record { index = at.index; uuid = at.uuid; error = wrap text e } ∷ [])
    or_failed at text (panic p) next = panic p

    -- `matchedEntries = append(matchedEntries, …)`, and then the rest of the scan
    abbrev pub append_matched : List LogEntry → Result Found → Result Found
    append_matched matched rest = rest >>= λ f. ok (matched ++ f.0, f.1)

    module _ (read : String → Result String) (mvs : MonitoredValues)
        (ca_roots ca_intermediates : String) where
      -- The matches of an entry; what was matched before an error is kept.
      unfoldable pub match_entry : Place → Identities → Result Found
      unfolding match_fingerprints match_subjects match_certificate_identities match_oids
      match_entry at ids =
          append_matched (match_fingerprints at ids.fingerprints mvs.fingerprints) (
            or_failed at "error matching subjects" (match_subjects at ids.subjects mvs.subjects)
              λ subs. append_matched subs (
                or_failed at "error matching certificate identities"
                  (match_certificate_identities at ids.certificates mvs.certificate_identities)
                  λ certs. append_matched certs (
                    or_failed at "error matching object identifier extensions and values"
                      (match_oids at ids.certificates mvs.oid_matchers) λ oids. ok (oids, []))))

      -- An entry whose chain does not verify is skipped.
      abbrev pub if_trusted : Result (Unit {0}) → Result Found → Result Found
      if_trusted (ok _) next = next
      if_trusted (err _) next = ok ([], [])
      if_trusted (panic p) next = panic p

      unfoldable pub scan_entry :
          {V : Type 0} → Place → Result (List V) → (List V → Result Identities) → Result Found
      unfolding match_entry
      scan_entry at verifiers extract_all_identities =
          or_failed at "error extracting verifiers" verifiers λ vs.
            or_failed at "error extracting identities" (extract_all_identities vs) λ ids.
              if_trusted
                (validate_certificate_chain lib read ids.certificates ca_roots ca_intermediates)
                (match_entry at ids)
