-- ===== src/Rekor/V2/Search.antt =====
-- pkg/rekor/v2/identity.go. A protobuf entry is what its accessors return; the verifiers of
-- rekor-tiles and cryptoutils are a record of calls.
pub mod Reports
pub mod Tests
use rekor_monitor.Base.{
  ℕ, Bool, true, false, Option, none, some, Error, Result, ok, err, panic, msg, wrap, ◌>>=◌, ◌>>◌,
  context, String, List, [], ◌∷◌, ◌++◌, if◌then◌else◌,
}
use rekor_monitor.Base.Classes.{◌==◌, string_comparable}
use rekor_monitor.Base.Int.{ℤ}
use rekor_monitor.Identity.{
  OidExtension, CertificateIdentity, MonitoredValues, LogEntry, CertificateFields, Regexp, X509,
}
use rekor_monitor.Identity.Values.{verify_monitored_values}
use rekor_monitor.Notifications.{IdentityMonitorConfiguration}
use rekor_monitor.Search.{Found, found_then, Reported, deref, report_found}
use rekor_monitor.Rekor.Matching.{
  Crypto, KeyIdentity, certificate_of, Place, Identities, match_fingerprints, match_subjects,
  match_certificate_identities, match_oids, scan_entry,
}
use rekor_monitor.Rekor.V2.Client.{ShardInfo, Entry, Encoding, get_entries_by_index_range}
use rekor_monitor.Util.File.{Disk, Os}
use rekor_monitor.Util.File.Identities.{Format}

-- protobuf.Verifier; a missing one has neither.
pub record ProtoVerifier : Type 0 where
  pub public_key : Option String
  pub x509_certificate : Option String

-- protobuf.Spec: the verifiers of the signatures of its dsse part, and that of the signature of
-- its hashedrekord part.
pub record Spec : Type 0 where
  pub dsse_v002 : List ProtoVerifier
  pub hashed_rekord_v002 : ProtoVerifier

pub record ProtoEntry : Type 0 where
  pub kind : String
  pub spec : Option Spec

-- verifier.Verifier, with what its method Identity returns
pub record Verifier : Type 0 where
  pub identity : Result KeyIdentity

pub record Verifiers : Type 0 where
  pub new_public_key : String → Result Verifier
  pub new_certificate : String → Result Verifier
  pub subject_alternate_names : CertificateFields → List String

abbrev pub place : Entry ProtoEntry → Place
place entry = record { index = entry.index; uuid = "" }

abbrev pub match_log_entry_fingerprints :
    Entry ProtoEntry → List String → List String → List LogEntry
match_log_entry_fingerprints entry fps monitored = match_fingerprints (place entry) fps monitored

abbrev pub match_log_entry_certificate_identities :
    Regexp
    → X509
    → Entry ProtoEntry
    → List CertificateFields
    → List CertificateIdentity
    → Result (List LogEntry)
match_log_entry_certificate_identities re lib entry certs monitored =
    match_certificate_identities re lib (place entry) certs monitored

abbrev pub match_log_entry_subjects :
    Regexp → Entry ProtoEntry → List String → List String → Result (List LogEntry)
match_log_entry_subjects re entry subjects monitored =
    match_subjects re (place entry) subjects monitored

abbrev pub match_log_entry_oids :
    Regexp
    → X509
    → Entry ProtoEntry
    → List CertificateFields
    → List OidExtension
    → Result (List LogEntry)
match_log_entry_oids re lib entry certs monitored = match_oids re lib (place entry) certs monitored

-- The verifiers of an entry of a kind that is supported.
unfoldable pub proto_verifiers : String → Spec → Result (List ProtoVerifier)
proto_verifiers kind spec =
    if kind == "dsse"
    then ok spec.dsse_v002
    else if kind == "hashedrekord"
    then ok (spec.hashed_rekord_v002 ∷ [])
    else err (msg "entry kind not supported")

-- The shard that a map gives for a key that is missing: its client is nil.
abbrev no_shard : ShardInfo
no_shard = record {
  client = record {
    read_checkpoint = panic "nil pointer dereference";
    read_entry_bundle = λ t p. panic "nil pointer dereference";
    read_tile = λ l t p. panic "nil pointer dereference";
  };
  verifier = "";
  validity_end = 0;
}

abbrev pub lookup_shard : String → List (String × ShardInfo) → ShardInfo
lookup_shard origin [] = no_shard
lookup_shard origin ((o, shard) ∷ shards) =
    if o == origin then shard else lookup_shard origin shards

module _ (make : Verifiers) where
  abbrev pub new_verifier : ProtoVerifier → Result Verifier
  new_verifier pv = elim pv.public_key [
    | some key ↦ context "error reading public key from entry" (make.new_public_key key)
    | none ↦ elim pv.x509_certificate [
      | some cert ↦ context "error reading certificate from entry" (make.new_certificate cert)
      | none ↦ err (msg "must contain either a public key or X.509 certificate")
    ]
  ]

  unfoldable pub new_verifiers : List ProtoVerifier → Result (List Verifier)
  new_verifiers [] = ok []
  new_verifiers (pv ∷ pvs) =
      let rest = new_verifiers pvs in new_verifier pv >>= λ v. rest >>= λ vs. ok (v ∷ vs)

  unfoldable pub extract_verifiers : ProtoEntry → Result (List Verifier)
  unfolding proto_verifiers new_verifiers
  extract_verifiers e = elim e.spec [
    | none ↦ err (msg "Entry without spec")
    | some spec ↦ proto_verifiers e.kind spec >>= λ pvs. new_verifiers pvs
  ]

  abbrev subjects_of : List CertificateFields → List String
  subjects_of [] = []
  subjects_of (c ∷ cs) = make.subject_alternate_names c ++ subjects_of cs

  unfoldable pub extract_all_identities : List Verifier → Result Identities
  extract_all_identities [] = ok (record { subjects = []; certificates = []; fingerprints = [] })
  extract_all_identities (v ∷ vs) =
      let rest = extract_all_identities vs in
      v.identity >>= λ i. rest >>= λ more. ok (record {
        subjects = subjects_of (certificate_of i.crypto) ++ more.subjects;
        certificates = certificate_of i.crypto ++ more.certificates;
        fingerprints = i.fingerprint ∷ more.fingerprints;
      })

  module _ (re : Regexp) (lib : X509) (read : String → Result String) where
    unfoldable pub scan_entries :
        MonitoredValues → String → String → List (Entry ProtoEntry) → Result Found
    unfolding extract_verifiers extract_all_identities
    scan_entries mvs ca_roots ca_intermediates [] = ok ([], [])
    scan_entries mvs ca_roots ca_intermediates (entry ∷ es) =
        found_then
          (scan_entry re lib read mvs ca_roots ca_intermediates (place entry)
            (extract_verifiers entry.proto_entry) extract_all_identities)
          (scan_entries mvs ca_roots ca_intermediates es)

    unfoldable pub matched_indices :
        List (Entry ProtoEntry) → MonitoredValues → String → String → Result Found
    unfolding scan_entries
    matched_indices log_entries mvs ca_roots ca_intermediates =
        verify_monitored_values mvs >> scan_entries mvs ca_roots ca_intermediates log_entries

    module _ (enc : Encoding ProtoEntry) (fmt : Format) (os : Os) where
      unfoldable pub fetch_and_match :
          List (String × ShardInfo)
          → String
          → IdentityMonitorConfiguration
          → MonitoredValues
          → Result (ℤ × Found)
      fetch_and_match shards latest config mvs = deref config.start_index >>= λ start.
          deref config.end_index >>= λ end.
          context "error getting entries by index range"
            (get_entries_by_index_range enc (lookup_shard latest shards) start end)
          >>= λ entries.
              context "error matching indices"
                (matched_indices entries mvs config.ca_roots_file config.ca_intermediates_file)
              >>= λ found. ok (end, found)

      unfoldable pub identity_search :
          List (String × ShardInfo)
          → String
          → IdentityMonitorConfiguration
          → MonitoredValues
          → Disk
          → Result Reported × Disk
      unfolding fetch_and_match
      identity_search shards latest config mvs disk =
          report_found fmt os (fetch_and_match shards latest config mvs) config mvs disk
