-- ===== src/Rekor/V2/Search/Reports.antt =====
-- What a search of Rekor v2 reports.
use rekor_monitor.Base.{
  some, ◌≡◌, Result, ok, context, IfOk, IfOk-bind, IfOk-of, context-ok, String, List, [], ◌∷◌, keep,
  length, arith,
}
use rekor_monitor.Base.Classes.{string_comparable}
use rekor_monitor.Base.Int.{ℤ}
use rekor_monitor.Identity.{MonitoredValues, Regexp, X509}
use rekor_monitor.Identity.Group.{matched_with, group_of}
use rekor_monitor.Identity.Values.{create_identities_list, verify_monitored_values}
use rekor_monitor.Notifications.{IdentityMonitorConfiguration}
use rekor_monitor.Search.{Found, deref, deref-ok}
use rekor_monitor.Rekor.Matching.Monitored.{Named}
use rekor_monitor.Rekor.Matching.Sound.{
  scan_entry-Sound, SoundFor, found_then-SoundFor, report_found-keep,
}
use rekor_monitor.Rekor.V2.Client.{ShardInfo, Entry, Encoding, get_entries_by_index_range}
use rekor_monitor.Rekor.V2.Search.{
  ProtoEntry, Verifiers, place, extract_verifiers, extract_all_identities, scan_entries,
  matched_indices, lookup_shard, fetch_and_match, identity_search,
}
use rekor_monitor.Util.File.{Disk, Os}
use rekor_monitor.Util.File.Identities.{Format}

module _ (make : Verifiers) (re : Regexp) (lib : X509) (read : String → Result String) where
  scan_entries-SoundFor :
      (mvs : MonitoredValues) (ca_roots ca_intermediates : String) (es : List (Entry ProtoEntry))
      → IfOk
          (SoundFor (create_identities_list mvs) (length es))
          (scan_entries make re lib read mvs ca_roots ca_intermediates es)
  unfolding scan_entries
  scan_entries-SoundFor mvs ca_roots ca_intermediates [] = (tt, omega arith)
  scan_entries-SoundFor mvs ca_roots ca_intermediates (entry ∷ es) =
      found_then-SoundFor (create_identities_list mvs) 1 (length es) _ _ _ (omega arith)
        (scan_entry-Sound re lib read mvs ca_roots ca_intermediates (place entry)
          (extract_verifiers make entry.proto_entry) (extract_all_identities make))
        (scan_entries-SoundFor mvs ca_roots ca_intermediates es)

  matched_indices-SoundFor :
      (log : List (Entry ProtoEntry)) (mvs : MonitoredValues) (ca_roots ca_intermediates : String)
      → IfOk
          (SoundFor (create_identities_list mvs) (length log))
          (matched_indices make re lib read log mvs ca_roots ca_intermediates)
  unfolding matched_indices
  matched_indices-SoundFor log mvs ca_roots ca_intermediates =
      IfOk-bind (SoundFor (create_identities_list mvs) (length log)) (verify_monitored_values mvs) _
        (λ _ _. scan_entries-SoundFor mvs ca_roots ca_intermediates log)

  module _ (enc : Encoding ProtoEntry) (fmt : Format) (os : Os) where
    -- The entries of the configured range, and what MatchedIndices finds in them.
    pub record FetchedV2 (shards : List (String × ShardInfo)) (latest : String)
        (config : IdentityMonitorConfiguration) (mvs : MonitoredValues) (found : Found)
        : Type 0 where
      pub start : ℤ
      pub end : ℤ
      pub entries : List (Entry ProtoEntry)
      pub from_start : config.start_index ≡ some start
      pub to_end : config.end_index ≡ some end
      pub fetched :
          get_entries_by_index_range enc (lookup_shard latest shards) start end ≡ ok entries
      pub matched :
          matched_indices make re lib read entries mvs config.ca_roots_file
            config.ca_intermediates_file
          ≡ ok found

    fetch_and_match-Named :
        (shards : List (String × ShardInfo)) (latest : String)
        (config : IdentityMonitorConfiguration) (mvs : MonitoredValues)
        → IfOk
            (λ x. FetchedV2 shards latest config mvs x.1 × Named (create_identities_list mvs) x.1.0)
            (fetch_and_match make re lib read enc fmt os shards latest config mvs)
    unfolding fetch_and_match
    fetch_and_match-Named shards latest config mvs =
        let P : ℤ × Found → Type 0 =
          λ x. FetchedV2 shards latest config mvs x.1 × Named (create_identities_list mvs) x.1.0 in
        IfOk-bind P (deref config.start_index) _ λ start es.
          IfOk-bind P (deref config.end_index) _ λ end ee.
            IfOk-bind P
              (context "error getting entries by index range"
                (get_entries_by_index_range enc (lookup_shard latest shards) start end))
              _
              λ entries eg.
                IfOk-bind P
                  (context "error matching indices" (
                    matched_indices make re lib read entries mvs config.ca_roots_file
                      config.ca_intermediates_file))
                  _
                  λ found e. (
                    record {
                      start = start;
                      end = end;
                      entries = entries;
                      from_start = deref-ok config.start_index start es;
                      to_end = deref-ok config.end_index end ee;
                      fetched =
                          context-ok _
                            (get_entries_by_index_range enc (lookup_shard latest shards) start end)
                            entries eg;
                      matched = context-ok _ _ found e;
                    },
                    (IfOk-of (SoundFor (create_identities_list mvs) (length entries)) _ found
                        (matched_indices-SoundFor entries mvs config.ca_roots_file
                          config.ca_intermediates_file)
                        (context-ok _ _ found e)).0,
                  )

    -- When IdentitySearch of Rekor v2 returns groups, both indices are configured, the entries of
    -- their range are fetched from the latest shard, and the groups are of what MatchedIndices finds
    -- in them. No match is lost: the group of a value holds, in order, all matches that are for this
    -- value by their kind. The failed entries are returned as they were found.
    pub identity_search-keep_v2 :
        (shards : List (String × ShardInfo)) (latest : String)
        (config : IdentityMonitorConfiguration) (mvs : MonitoredValues) (disk : Disk)
        → IfOk
            (λ r.
              (found : Found) × FetchedV2 shards latest config mvs found
              × (r.1 ≡ found.1)
              × ((v : String) → group_of v r.0 ≡ keep (λ e. matched_with v e) found.0))
            (identity_search make re lib read enc fmt os shards latest config mvs disk).0
    unfolding identity_search
    identity_search-keep_v2 shards latest config mvs disk =
        report_found-keep fmt os
          (fetch_and_match make re lib read enc fmt os shards latest config mvs) config mvs disk
          (FetchedV2 shards latest config mvs) (fetch_and_match-Named shards latest config mvs)
