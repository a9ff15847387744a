-- ===== src/Rekor/V1/Search/Reports.antt =====
-- What a search reports.
use rekor_monitor.Base.{
  some, ℕ, ◌+◌, ◌≤◌, ◌≡◌, refl, Result, ok, context, IfOk, IfOk-bind, IfOk-of, context-ok, String,
  List, [], ◌∷◌, keep, length, arith,
}
use rekor_monitor.Base.Classes.{string_comparable}
use rekor_monitor.Base.Int.{ℤ}
use rekor_monitor.Identity.{MonitoredValues, Regexp, X509}
use rekor_monitor.Identity.Group.{matched_with, group_of}
use rekor_monitor.Identity.Values.{create_identities_list, verify_monitored_values}
use rekor_monitor.Notifications.{IdentityMonitorConfiguration}
use rekor_monitor.Search.{Found, deref, deref-ok}
use rekor_monitor.Rekor.Matching.Monitored.{Named}
use rekor_monitor.Rekor.Matching.Sound.{
  scan_entry-Sound, SoundFor, found_then-SoundFor, report_found-keep,
}
use rekor_monitor.Rekor.V1.Client.{Rekor, get_entries_by_index_range}
use rekor_monitor.Rekor.V1.Search.{
  Decoder, Entries, place, extract_verifiers, extract_all_identities, scan_entries,
  scan_log_entries, matched_indices, fetch_and_match, identity_search,
}
use rekor_monitor.Util.File.{Disk, Os}
use rekor_monitor.Util.File.Identities.{Format}
use rekor_monitor.Util.Retry.{Float64}

abbrev pub count_entries : List Entries → ℕ
count_entries [] = 0
count_entries (es ∷ rest) = length es + count_entries rest

module _ {Proposed Implementation : Type 0} (dec : Decoder Proposed Implementation) where
  module _ (re : Regexp) (lib : X509) (read : String → Result String) where
    module _ (mvs : MonitoredValues) (ca_roots ca_intermediates : String) where
      abbrev known : List String
      known = create_identities_list mvs

      scan_entries-SoundFor :
          (es : Entries)
          → IfOk
              (SoundFor known (length es))
              (scan_entries dec re lib read mvs ca_roots ca_intermediates es)
      unfolding scan_entries
      scan_entries-SoundFor [] = (tt, omega arith)
      scan_entries-SoundFor ((uuid, entry) ∷ es) =
          found_then-SoundFor known 1 (length es) _ _ _ (omega arith)
            (scan_entry-Sound re lib read mvs ca_roots ca_intermediates (place entry uuid)
              (extract_verifiers dec entry) extract_all_identities)
            (scan_entries-SoundFor es)

      scan_log_entries-SoundFor :
          (log : List Entries)
          → IfOk
              (SoundFor known (count_entries log))
              (scan_log_entries dec re lib read mvs ca_roots ca_intermediates log)
      unfolding scan_log_entries
      scan_log_entries-SoundFor [] = (tt, omega arith)
      scan_log_entries-SoundFor (es ∷ rest) =
          found_then-SoundFor known (length es) (count_entries rest) _ _ _ refl
            (scan_entries-SoundFor es) (scan_log_entries-SoundFor rest)

    -- Every match that MatchedIndices returns is recorded under one of the monitored identities, and
    -- there are at most as many failed entries as there are entries in the log.
    pub matched_indices-Named :
        (log : List Entries) (mvs : MonitoredValues) (ca_roots ca_intermediates : String)
        → IfOk
            (λ f. Named (create_identities_list mvs) f.0 × (length f.1 ≤ count_entries log))
            (matched_indices dec re lib read log mvs ca_roots ca_intermediates)
    unfolding matched_indices
    matched_indices-Named log mvs ca_roots ca_intermediates =
        IfOk-bind (SoundFor (create_identities_list mvs) (count_entries log))
          (verify_monitored_values mvs) _
          (λ _ _. scan_log_entries-SoundFor mvs ca_roots ca_intermediates log)

    module _ {F : Type 0} (fl : Float64 F) (client : Rekor Entries) (fmt : Format) (os : Os) where
      -- The entries of the configured range, and what MatchedIndices finds in them.
      pub record Fetched (config : IdentityMonitorConfiguration) (mvs : MonitoredValues)
          (found : Found) : Type 0 where
        pub start : ℤ
        pub end : ℤ
        pub entries : List Entries
        pub from_start : config.start_index ≡ some start
        pub to_end : config.end_index ≡ some end
        pub fetched : get_entries_by_index_range fl client start end ≡ ok entries
        pub matched :
            matched_indices dec re lib read entries mvs config.ca_roots_file
              config.ca_intermediates_file
            ≡ ok found

      fetch_and_match-Named :
          (config : IdentityMonitorConfiguration) (mvs : MonitoredValues)
          → IfOk
              (λ x. Fetched config mvs x.1 × Named (create_identities_list mvs) x.1.0)
              (fetch_and_match dec re lib read fl client fmt os config mvs)
      unfolding fetch_and_match
      fetch_and_match-Named config mvs =
          let P : ℤ × Found → Type 0 =
            λ x. Fetched config mvs x.1 × Named (create_identities_list mvs) x.1.0 in
          IfOk-bind P (deref config.start_index) _ λ start es.
            IfOk-bind P (deref config.end_index) _ λ end ee.
              IfOk-bind P
                (context "error getting entries by index range"
                  (get_entries_by_index_range fl client start end))
                _
                λ entries eg.
                  IfOk-bind P
                    (context "error matching indices" (
                      matched_indices dec re lib read entries mvs config.ca_roots_file
                        config.ca_intermediates_file))
                    _
                    λ found e. (
                      record {
                        start = start;
                        end = end;
                        entries = entries;
                        from_start = deref-ok config.start_index start es;
                        to_end = deref-ok config.end_index end ee;
                        fetched =
                            context-ok _ (get_entries_by_index_range fl client start end) entries
                              eg;
                        matched = context-ok _ _ found e;
                      },
                      (IfOk-of (SoundFor (create_identities_list mvs) (count_entries entries)) _
                          found
                          (matched_indices-Named entries mvs config.ca_roots_file
                            config.ca_intermediates_file)
                          (context-ok _ _ found e)).0,
                    )

      -- When IdentitySearch returns groups, both indices are configured, the entries of their range
      -- are fetched, and the groups are of what MatchedIndices finds in them. No match is lost: the
      -- group of a value holds, in order, all matches that are for this value by their kind. The
      -- failed entries are returned as they were found.
      pub identity_search-keep :
          (config : IdentityMonitorConfiguration) (mvs : MonitoredValues) (disk : Disk)
          → IfOk
              (λ r.
                (found : Found) × Fetched config mvs found
                × (r.1 ≡ found.1)
                × ((v : String) → group_of v r.0 ≡ keep (λ e. matched_with v e) found.0))
              (identity_search dec re lib read fl client fmt os config mvs disk).0
      unfolding identity_search
      identity_search-keep config mvs disk =
          report_found-keep fmt os (fetch_and_match dec re lib read fl client fmt os config mvs)
            config mvs disk (Fetched config mvs) (fetch_and_match-Named config mvs)
