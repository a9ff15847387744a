-- ===== src/Rekor/Matching/Exact.antt =====
-- Which matches the scan of an entry finds for monitored fingerprints and subjects.
use rekor_monitor.Base.{◌≡◌, Bool, ◌&&◌, Result, ok, String, List, [], ◌++◌, any}
use rekor_monitor.Base.Classes.{◌==◌, string_comparable}
use rekor_monitor.Identity.{MonitoredValues, LogEntry, Regexp, X509}
use rekor_monitor.Rekor.Matching.{
  Place, Identities, fingerprint_entry, subject_entry, match_fingerprints, match_subjects,
}
use rekor_monitor.Search.{Found}

-- The matches with the property `p` among those of equal fingerprints.
abbrev pub fingerprint_match : Place → List String → List String → (LogEntry → Bool) → Bool
fingerprint_match at fps ms p =
    any (λ m. any (λ fp. fp == m && p (fingerprint_entry at m fp)) fps) ms

module _ (re : Regexp) where
  -- Those among the subjects that a monitored expression matches.
  abbrev pub subject_match : Place → List String → List String → (LogEntry → Bool) → Bool
  subject_match at subs ms p =
      any (λ m. any (λ s. re.match_string m s && p (subject_entry at m s)) subs) ms

  -- The matches of subjects, if every monitored expression compiles.
  record IsFound (at : Place) (subs ms : List String) : Type 0 where
    matches : List LogEntry
    returned : match_subjects re at subs ms ≡ ok matches
    exact : (p : LogEntry → Bool) → any p matches ≡ subject_match at subs ms p

  module _ (lib : X509) (read : String → Result String) (mvs : MonitoredValues)
      (ca_roots ca_intermediates : String) where
    exact_found : (at : Place) (ids : Identities) → IsFound at ids.subjects mvs.subjects → Found
    exact_found at ids subs =
        (match_fingerprints at ids.fingerprints mvs.fingerprints ++ (subs.matches ++ []), [])
