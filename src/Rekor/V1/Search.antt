-- ===== src/Rekor/V1/Search.antt =====
-- pkg/rekor/v1/identity.go. Base64, the entry types of Rekor and their verifiers are a record of
-- calls. A models.LogEntry, a map from UUIDs to entries, is a list of pairs; the code ranges over it
-- in no fixed order.
pub mod Reports
pub mod Tests
use mathlib.Core.List.{map}
use rekor_monitor.Base.{
  ℕ, Bool, true, false, Option, none, some, Error, Result, ok, err, panic, ◌>>=◌, ◌>>◌, context,
  String, List, [], ◌∷◌, ◌++◌,
}
use rekor_monitor.Base.Int.{ℤ, pos, int64, add64, sub64}
use rekor_monitor.Identity.{
  OidExtension, CertificateIdentity, MonitoredValues, MonitoredIdentity, LogEntry, FailedLogEntry,
  CertificateFields, Regexp, X509,
}
use rekor_monitor.Identity.Group.{create_monitored_identities}
use rekor_monitor.Identity.Values.{create_identities_list, verify_monitored_values}
use rekor_monitor.Notifications.{IdentityMonitorConfiguration}
use rekor_monitor.Search.{Found, found_then, Reported, deref, report, report_found}
use rekor_monitor.Rekor.Matching.{
  Crypto, KeyIdentity, certificate_of, Place, Identities, match_fingerprints, match_subjects,
  match_certificate_identities, match_oids, scan_entry,
}
use rekor_monitor.Rekor.V1.Client.{LogInfo, Rekor, get_entries_by_index_range}
use rekor_monitor.Util.File.{Disk, Os}
use rekor_monitor.Util.File.Identities.{Format, write_matched_identity_entries}
use rekor_monitor.Util.Retry.{Float64}

-- pki.PublicKey, with what its two methods return
pub record PublicKey : Type 0 where
  pub subjects : List String
  pub identities : Result (List KeyIdentity)

-- models.LogEntryAnon; `log_index` is a field that the API requires.
pub record LogEntryAnon : Type 0 where
  pub body : String
  pub log_index : ℤ

abbrev pub Entries : Type 0
Entries = List (String × LogEntryAnon)

-- util.SignedCheckpoint; of its signatures the key hashes, numbers below 2 ^ 32.
pub record SignedCheckpoint : Type 0 where
  pub origin : String
  pub size : ℕ
  pub hash : String
  pub signatures : List ℕ

pub record Decoder (Proposed Implementation : Type 0) : Type 0 where
  pub decode_string : String → Result String
  pub unmarshal_proposed_entry : String → Result Proposed
  pub unmarshal_entry : Proposed → Result Implementation
  pub verifiers : Implementation → Result (List PublicKey)

abbrev pub place : LogEntryAnon → String → Place
place entry uuid = record { index = entry.log_index; uuid = uuid }

abbrev pub match_log_entry_fingerprints :
    LogEntryAnon → String → List String → List String → List LogEntry
match_log_entry_fingerprints entry uuid fps monitored =
    match_fingerprints (place entry uuid) fps monitored

abbrev pub match_log_entry_certificate_identities :
    Regexp
    → X509
    → LogEntryAnon
    → String
    → List CertificateFields
    → List CertificateIdentity
    → Result (List LogEntry)
match_log_entry_certificate_identities re lib entry uuid certs monitored =
    match_certificate_identities re lib (place entry uuid) certs monitored

abbrev pub match_log_entry_subjects :
    Regexp → LogEntryAnon → String → List String → List String → Result (List LogEntry)
match_log_entry_subjects re entry uuid subjects monitored =
    match_subjects re (place entry uuid) subjects monitored

abbrev pub match_log_entry_oids :
    Regexp
    → X509
    → LogEntryAnon
    → String
    → List CertificateFields
    → List OidExtension
    → Result (List LogEntry)
match_log_entry_oids re lib entry uuid certs monitored =
    match_oids re lib (place entry uuid) certs monitored

abbrev pub certificates_of : List KeyIdentity → List CertificateFields
certificates_of [] = []
certificates_of (i ∷ ids) = certificate_of i.crypto ++ certificates_of ids

unfoldable pub extract_all_identities : List PublicKey → Result Identities
extract_all_identities [] = ok (record { subjects = []; certificates = []; fingerprints = [] })
extract_all_identities (v ∷ vs) =
    let rest = extract_all_identities vs in
    v.identities >>= λ ids. rest >>= λ more. ok (record {
      subjects = v.subjects ++ more.subjects;
      certificates = certificates_of ids ++ more.certificates;
      fingerprints = map (λ i. i.fingerprint) ids ++ more.fingerprints;
    })

-- The sizes of the inactive shards are summed up in int64.
abbrev pub total_size : List ℤ → ℤ → ℤ
total_size [] total = total
total_size (s ∷ shards) total = total_size shards (add64 total s)

unfoldable pub get_checkpoint_index : LogInfo → SignedCheckpoint → ℤ
get_checkpoint_index log_info checkpoint =
    sub64 (add64 (int64 (pos checkpoint.size)) (total_size log_info.inactive_shards (pos 0)))
      (pos 1)

module _ {Proposed Implementation : Type 0} (dec : Decoder Proposed Implementation) where
  unfoldable pub extract_verifiers : LogEntryAnon → Result (List PublicKey)
  extract_verifiers e = dec.decode_string e.body >>= λ b. dec.unmarshal_proposed_entry b >>= λ pe.
      dec.unmarshal_entry pe >>= λ eimpl. dec.verifiers eimpl

  module _ (re : Regexp) (lib : X509) (read : String → Result String) where
    module _ (mvs : MonitoredValues) (ca_roots ca_intermediates : String) where
      unfoldable pub scan_entries : Entries → Result Found
      unfolding extract_verifiers extract_all_identities
      scan_entries [] = ok ([], [])
      scan_entries ((uuid, entry) ∷ es) =
          found_then
            (scan_entry re lib read mvs ca_roots ca_intermediates (place entry uuid)
              (extract_verifiers entry) extract_all_identities)
            (scan_entries es)

      unfoldable pub scan_log_entries : List Entries → Result Found
      unfolding scan_entries
      scan_log_entries [] = ok ([], [])
      scan_log_entries (es ∷ rest) = found_then (scan_entries es) (scan_log_entries rest)

    unfoldable pub matched_indices : List Entries → MonitoredValues → String → String → Result Found
    unfolding scan_log_entries
    matched_indices log_entries mvs ca_roots ca_intermediates =
        verify_monitored_values mvs >> scan_log_entries mvs ca_roots ca_intermediates log_entries

    module _ {F : Type 0} (fl : Float64 F) (client : Rekor Entries) (fmt : Format) (os : Os) where
      -- The end of the configured range, and what is found in its entries.
      unfoldable pub fetch_and_match :
          IdentityMonitorConfiguration → MonitoredValues → Result (ℤ × Found)
      fetch_and_match config mvs = deref config.start_index >>= λ start.
          deref config.end_index >>= λ end.
          context "error getting entries by index range"
            (get_entries_by_index_range fl client start end)
          >>= λ entries.
              context "error matching indices"
                (matched_indices entries mvs config.ca_roots_file config.ca_intermediates_file)
              >>= λ found. ok (end, found)

      unfoldable pub identity_search :
          IdentityMonitorConfiguration → MonitoredValues → Disk → Result Reported × Disk
      unfolding fetch_and_match
      identity_search config mvs disk =
          report_found fmt os (fetch_and_match config mvs) config mvs disk
