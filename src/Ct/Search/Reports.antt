-- ===== src/Ct/Search/Reports.antt =====
-- What a search of a CT log reports.
use rekor_monitor.Base.{
  some, ℕ, ◌≡◌, Result, ok, context, IfOk, IfOk-bind, IfOk-of, context-ok, String, List, [], ◌∷◌,
  ◌++◌, keep, length, arith, if_rule, any-append, Option_rule,
}
use rekor_monitor.Base.Classes.{◌==◌, string_comparable, same_refl}
use rekor_monitor.Base.Int.{ℤ}
use rekor_monitor.Identity.{
  OidExtension, CertificateIdentity, MonitoredValues, LogEntry, CertificateFields, google_x509,
  Regexp, X509,
}
use rekor_monitor.Identity.Certs.{oid_matches_policy, oid_matches_policy-listed}
use rekor_monitor.Identity.Group.{matched_with, group_of}
use rekor_monitor.Identity.Policy.{cert_matches_policy}
use rekor_monitor.Identity.Values.{cert_identities, oid_values, create_identities_list}
use rekor_monitor.Notifications.{IdentityMonitorConfiguration}
use rekor_monitor.Search.{Found, deref, deref-ok}
use rekor_monitor.Rekor.Matching.{Place}
use rekor_monitor.Rekor.Matching.Monitored.{Named, Named-right}
use rekor_monitor.Rekor.Matching.Sound.{
  Sound, or_failed-Sound, append_matched-Sound, certs-Named, oids-Named, if_trusted-Sound, SoundFor,
  found_then-SoundFor, report_found-keep,
}
use rekor_monitor.Ct.Search.{
  CtLogEntry, Parsers, place, certificate_of, scan_certificate, get_ct_log_entries, scan_subjects,
  scan_entry_cert_subject, scan_oids, scan_entry_oid_extensions, match_entry, matched_indices,
  fetch_and_match, identity_search,
}
use rekor_monitor.Util.File.{Disk, Os}
use rekor_monitor.Util.File.Identities.{Format}

scan_certificate-IfOk :
    (P : List LogEntry → Type 0) (e : CtLogEntry)
    (scan : CertificateFields → Result (List LogEntry))
    → ((c : CertificateFields) → IfOk P (scan c))
    → IfOk P (scan_certificate e scan)
scan_certificate-IfOk P e scan h = Option_rule (IfOk P) (certificate_of e) _ scan tt h

module _ (re : Regexp) (lib : X509) where
  scan_subjects-Named :
      (at : Place) (c : CertificateFields) (ids : List CertificateIdentity)
      → IfOk (Named (cert_identities ids)) (scan_subjects re lib at c ids)
  unfolding scan_subjects cert_identities
  scan_subjects-Named at c [] = tt
  scan_subjects-Named at c (id ∷ ids) =
      let P : List LogEntry → Type 0 =
        Named (id.cert_subject ∷ (id.issuers ++ cert_identities ids)) in
      IfOk-bind P
        (context "error with policy matching"
          (cert_matches_policy re lib (google_x509 c) id.cert_subject id.issuers))
        _
        λ m _. IfOk-bind P (scan_subjects re lib at c ids) _ λ more e.
          let rest : P more =
            Named-right (id.cert_subject ∷ id.issuers) (cert_identities ids) more (
              IfOk-of (Named (cert_identities ids)) (scan_subjects re lib at c ids) more
                (scan_subjects-Named at c ids) e) in
          if_rule P m.0 _ more (λ _. (rw (same_refl id.cert_subject), rest)) (λ _. rest)

  scan_oids-Named :
      (at : Place) (c : CertificateFields) (ms : List OidExtension)
      → IfOk (Named (oid_values ms)) (scan_oids re lib at c ms)
  unfolding scan_oids oid_values
  scan_oids-Named at c [] = tt
  scan_oids-Named at c (m ∷ ms) =
      let P : List LogEntry → Type 0 = Named (m.extension_values ++ oid_values ms) in
      let policy = oid_matches_policy lib (google_x509 c) m.object_identifier m.extension_values in
      IfOk-bind P (context "error with policy matching" policy) _ λ r e.
        IfOk-bind P (scan_oids re lib at c ms) _ λ more k.
          let rest : P more = Named-right m.extension_values (oid_values ms) more (
            IfOk-of (Named (oid_values ms)) (scan_oids re lib at c ms) more
              (scan_oids-Named at c ms) k) in
          if_rule P r.0 _ more
            (λ matched.
              let hit =
                oid_matches_policy-listed lib (google_x509 c) m.object_identifier m.extension_values
                  r (context-ok _ policy r e) matched in
              (
                ground (arith, any-append (λ i. i == r.2) m.extension_values (oid_values ms), hit),
                rest,
              ))
            (λ _. rest)

  module _ (parsers : Parsers) (now : ℕ) (read : String → Result String) where
    match_entry-Sound :
        (e : CtLogEntry) (mvs : MonitoredValues) (ca_roots ca_intermediates : String)
        → IfOk
            (Sound re lib (create_identities_list mvs))
            (match_entry re lib parsers now read e mvs)
    unfolding match_entry scan_entry_cert_subject scan_entry_oid_extensions
    match_entry-Sound e mvs ca_roots ca_intermediates =
        let ids : List String = create_identities_list mvs in
        let subject_scan = scan_entry_cert_subject re lib e mvs.certificate_identities in
        let oid_scan = scan_entry_oid_extensions re lib e mvs.oid_matchers in
        or_failed-Sound re lib ids (place e) _ subject_scan _ λ subs h.
          append_matched-Sound re lib ids subs _
            (certs-Named re lib read mvs ca_roots ca_intermediates subs (
              IfOk-of (Named (cert_identities mvs.certificate_identities)) subject_scan subs
                (scan_certificate-IfOk _ e _
                  (λ c. scan_subjects-Named (place e) c mvs.certificate_identities))
                h))
            (or_failed-Sound re lib ids (place e) _ oid_scan _ λ oids k. (
              oids-Named re lib read mvs ca_roots ca_intermediates oids (
                  IfOk-of (Named (oid_values mvs.oid_matchers)) oid_scan oids
                    (scan_certificate-IfOk _ e _
                      (λ c. scan_oids-Named (place e) c mvs.oid_matchers))
                    k),
              omega arith,
            ))

    matched_indices-SoundFor :
        (log : List CtLogEntry) (mvs : MonitoredValues) (ca_roots ca_intermediates : String)
        → IfOk
            (SoundFor (create_identities_list mvs) (length log))
            (matched_indices re lib parsers now read log mvs ca_roots ca_intermediates)
    unfolding matched_indices
    matched_indices-SoundFor [] mvs ca_roots ca_intermediates = (tt, omega arith)
    matched_indices-SoundFor (e ∷ es) mvs ca_roots ca_intermediates =
        found_then-SoundFor (create_identities_list mvs) 1 (length es) _ _ _ (omega arith)
          (if_trusted-Sound re lib read mvs ca_roots ca_intermediates _ _
            (match_entry-Sound e mvs ca_roots ca_intermediates))
          (matched_indices-SoundFor es mvs ca_roots ca_intermediates)

    module _ (get_entries : ℤ → ℤ → Result (List CtLogEntry)) (fmt : Format) (os : Os) where
      -- The entries of the configured range, and what MatchedIndices finds in them.
      pub record FetchedCt (config : IdentityMonitorConfiguration) (mvs : MonitoredValues)
          (found : Found) : Type 0 where
        pub start : ℤ
        pub end : ℤ
        pub entries : List CtLogEntry
        pub from_start : config.start_index ≡ some start
        pub to_end : config.end_index ≡ some end
        pub fetched : get_ct_log_entries get_entries start end ≡ ok entries
        pub matched :
            matched_indices re lib parsers now read entries mvs config.ca_roots_file
              config.ca_intermediates_file
            ≡ ok found

      fetch_and_match-Named :
          (config : IdentityMonitorConfiguration) (mvs : MonitoredValues)
          → IfOk
              (λ x. FetchedCt config mvs x.1 × Named (create_identities_list mvs) x.1.0)
              (fetch_and_match re lib parsers now read get_entries fmt os config mvs)
      unfolding fetch_and_match
      fetch_and_match-Named config mvs =
          let P : ℤ × Found → Type 0 =
            λ x. FetchedCt config mvs x.1 × Named (create_identities_list mvs) x.1.0 in
          IfOk-bind P (deref config.start_index) _ λ start es.
            IfOk-bind P (deref config.end_index) _ λ end ee.
              IfOk-bind P (get_ct_log_entries get_entries start end) _ λ entries eg.
                let found_in =
                  matched_indices re lib parsers now read entries mvs config.ca_roots_file
                    config.ca_intermediates_file in
                IfOk-bind P found_in _ λ found e. (
                  record {
                    start = start;
                    end = end;
                    entries = entries;
                    from_start = deref-ok config.start_index start es;
                    to_end = deref-ok config.end_index end ee;
                    fetched = eg;
                    matched = e;
                  },
                  (IfOk-of (SoundFor (create_identities_list mvs) (length entries)) found_in found
                      (matched_indices-SoundFor entries mvs config.ca_roots_file
                        config.ca_intermediates_file)
                      e).0,
                )

      -- When the IdentitySearch of a CT log returns groups, both indices are configured, the entries
      -- of their range are fetched, and the groups are of what MatchedIndices finds in them. No match
      -- is lost: the group of a value holds, in order, all matches that are for this value by their
      -- kind. The failed entries are returned as they were found.
      pub identity_search-keep_ct :
          (config : IdentityMonitorConfiguration) (mvs : MonitoredValues) (disk : Disk)
          → IfOk
              (λ r.
                (found : Found) × FetchedCt config mvs found
                × (r.1 ≡ found.1)
                × ((v : String) → group_of v r.0 ≡ keep (λ e. matched_with v e) found.0))
              (identity_search re lib parsers now read get_entries fmt os config mvs disk).0
      unfolding identity_search
      identity_search-keep_ct config mvs disk =
          report_found-keep fmt os
            (fetch_and_match re lib parsers now read get_entries fmt os config mvs) config mvs disk
            (FetchedCt config mvs) (fetch_and_match-Named config mvs)
