-- ===== src/Cmd/RekorMain/StartsV1.antt =====
-- Where the searches of rekor-monitor begin over all its starts against a Rekor v1 log.
pub mod Tests
use mathlib.Core.List.{map}
use rekor_monitor.Base.{ℕ, ◌≡◌, refl, ◌∙◌, true, Option, none, Result, ok, String, List, All}
use rekor_monitor.Base.Int.{ℤ}
use rekor_monitor.Cmd.Config.{MonitorFlags}
use rekor_monitor.Cmd.Exits.{Ended, disk_after, optional_tls, rekor_monitored_values}
use rekor_monitor.Cmd.Loop.{monitor_loop}
use rekor_monitor.Cmd.Loop.Lifetimes.{started, GapFree}
use rekor_monitor.Cmd.Loop.Lifetimes.Covered.{Follows-refl}
use rekor_monitor.Cmd.Loop.Lifetimes.Gaps.{monitor_loop-Covers}
use rekor_monitor.Cmd.RekorMain.{Trusted, get_rekor_version, start_version, main_with_return}
use rekor_monitor.Cmd.RekorMain.Program.{
  or_exit_rule, Leaves, no_calls, started_version, starts-GapFree_from, main_with_return-Leaves,
}
use rekor_monitor.Cmd.RekorMain.Starts.{calls_of, starts, MainV1, version_flags}
use rekor_monitor.Cmd.RekorV1.{logic, main_loop_v1}
use rekor_monitor.Cmd.RekorV1.Monitor.{Reached, Called, run_env_v1, position_v1}
use rekor_monitor.Cmd.RekorV1.Positions.{CanStore, AnswersStorable, position_v1-kept}
use rekor_monitor.Cmd.RekorV1.Resumed.{runs_keep}
use rekor_monitor.Cmd.RekorV2.{Shards}
use rekor_monitor.Cmd.TrustedCas.{TempFiles}
use rekor_monitor.Cmd.TrustedCas.Cleanup.{IsFresh}
use rekor_monitor.Cmd.TrustedCas.Spared.{SameSearch, IsNoTemp}
use rekor_monitor.Extensions.Identifiers.{Numerals}
use rekor_monitor.Identity.{MonitoredValues}
use rekor_monitor.Identity.Values.{monitored_values_exist}
use rekor_monitor.Notifications.{IdentityMonitorConfiguration}
use rekor_monitor.Rekor.LogKeys.{KeyLoading}
use rekor_monitor.Rekor.V1.Client.{Rekor}
use rekor_monitor.Rekor.V1.LogVerifier.{get_log_verifier}
use rekor_monitor.Rekor.V1.Search.{Entries}
use rekor_monitor.Rekor.V2.LogVerifier.{Fetching}
use rekor_monitor.Rekor.V2.Shards.{Services}
use rekor_monitor.Search.Kept.{HasOwnFile, HasOwnFile-same}
use rekor_monitor.Util.File.{Disk}
use rekor_monitor.Util.Tls.{TlsConfig}

-- One start: what the TUF repository gives, the client for the server, and what the runs of the loop
-- meet, for that client and the verifier of its log. The rest is for logs of version 2.
pub record StartV1 : Type 0 where
  pub get_trusted : MonitorFlags → Result Trusted
  pub get_rekor_client : String → String → Option TlsConfig → Result (Rekor Entries)
  pub runs : Rekor Entries → String → List Reached
  pub now : ℕ
  pub services : Services
  pub fetch : Fetching
  pub main_v2 : MonitorFlags → IdentityMonitorConfiguration → Shards → Disk → Ended

module _ {F Proposed Implementation : Type 0} (lib : Called F Proposed Implementation)
    (keys : KeyLoading) (tls_of : String → Result TlsConfig) (num : Numerals) (tmp : TempFiles)
    (given : MonitorFlags) (config : IdentityMonitorConfiguration) (inactive : List ℤ) where
  abbrev flags : MonitorFlags
  flags = version_flags num 1 given

  abbrev pub main_v1 : StartV1 → MainV1
  main_v1 x flags' =
      main_loop_v1 lib.chk lib.fl x.get_rekor_client tls_of keys num
        (λ client verifier. map (run_env_v1 lib flags') (x.runs client verifier)) flags'

  abbrev pub program_v1 : StartV1 → Disk → Ended × Disk
  program_v1 x disk =
      main_with_return x.services x.fetch keys tls_of num (main_v1 x) x.main_v2 tmp
        (ok (given, config)) x.get_trusted x.now disk

  -- What a start is assumed to meet: a server of the API version 1, and log infos that can be stored.
  pub record MeetsV1 (x : StartV1) : Type 0 where
    pub version :
        (trusted : Trusted)
        → x.get_trusted given ≡ ok trusted
        → get_rekor_version trusted.rekor_services given.server_url ≡ 1
    pub storable :
        (client : Rekor Entries) (verifier : String)
        → All (AnswersStorable lib flags inactive) (x.runs client verifier)

  module _ (can : CanStore lib flags inactive) (fresh : IsFresh tmp)
      (no_temp : IsNoTemp tmp flags.log_info_file) (own : HasOwnFile flags.log_info_file config)
      (exist : (values : MonitoredValues)
        → rekor_monitored_values num config.monitored_values ≡ ok values
        → monitored_values_exist values ≡ true)
      (start : config.start_index ≡ none) (end : config.end_index ≡ none) where
    loop-Leaves_v1 :
        (nets : List Reached) (values : MonitoredValues)
        (same_config : IdentityMonitorConfiguration) (disk : Disk)
        → All (AnswersStorable lib flags inactive) nets
        → SameSearch config same_config
        → rekor_monitored_values num config.monitored_values ≡ ok values
        → let out =
            monitor_loop
              (logic lib.chk flags values)
              (map (run_env_v1 lib flags) nets)
              (started same_config disk) in
          Leaves
            (position_v1 lib flags inactive)
            (position_v1 lib flags inactive disk)
            out.1
            out.2.disk
    loop-Leaves_v1 nets values same_config disk meets same e =
        monitor_loop-Covers (logic lib.chk flags values) (position_v1 lib flags inactive)
          same_config (map (run_env_v1 lib flags) nets) (started same_config disk) (exist values e)
          (runs_keep lib flags inactive values same_config nets can
            (HasOwnFile-same flags.log_info_file config same_config own
              (same.identities, same.metadata))
            meets)
          (record {
            aligned = rw (same.start ∙ start) tt;
            unbounded = same.end ∙ end;
            same_files = (refl, refl);
          })

    version-Leaves_v1 :
        (x : StartV1) (trusted : Trusted) (with_cas : IdentityMonitorConfiguration) (created : Disk)
        → MeetsV1 x
        → SameSearch config with_cas
        → let ended =
            started_version x.services x.fetch keys tls_of num
              (main_v1 x)
              x.main_v2
              tmp
              given
              config
              x.get_trusted
              x.now
              1
              with_cas
              trusted
              created in
          Leaves
            (position_v1 lib flags inactive)
            (position_v1 lib flags inactive created)
            (calls_of ended)
            (disk_after ended created)
    unfolding start_version main_loop_v1
    version-Leaves_v1 x trusted with_cas created meets same =
        let Q : Ended → Type 0 = λ ended.
          Leaves (position_v1 lib flags inactive) (position_v1 lib flags inactive created)
            (calls_of ended) (disk_after ended created) in
        let nothing = no_calls (position_v1 lib flags inactive) created created refl in
        or_exit_rule Q (optional_tls tls_of flags.https_cert_chain_file) _ nothing (λ p. nothing)
          (λ tls _.
            or_exit_rule Q (x.get_rekor_client flags.server_url flags.user_agent tls) _ nothing
              (λ p. nothing)
              (λ client _.
                or_exit_rule Q (get_log_verifier lib.fl lib.chk keys client trusted.rekor_logs) _
                  nothing (λ p. nothing)
                  (λ verifier _.
                    or_exit_rule Q (rekor_monitored_values num with_cas.monitored_values) _ nothing
                      (λ p. nothing)
                      (λ values e.
                        loop-Leaves_v1 (x.runs client verifier) values with_cas created
                          (meets.storable client verifier) same (rw (← same.values) e)))))

    -- However often rekor-monitor is started against a server of the API version 1, with the same
    -- flags and the same configuration, and whatever happens: the first search of each start begins
    -- where the last search ended that was followed by a write of the checkpoint, at first where
    -- the file on the disk says, and every other search where the one before it ended. Where the
    -- file has no checkpoint at first, nothing is said of where the first search begins. It holds
    -- if no indices are configured but something to look for is, no shard becomes inactive in
    -- between, every log info that passes the check has a checkpoint that can be stored, the
    -- temporary files are new ones and they and the files of identities are not the checkpoint's,
    -- an empty file is not decoded, and os.Stat, os.Open and os.WriteFile do not fail.
    pub starts-GapFree_v1 :
        (xs : List StartV1) (disk : Disk)
        → All MeetsV1 xs
        → GapFree (position_v1 lib flags inactive disk) (starts program_v1 xs disk)
    starts-GapFree_v1 xs disk meets =
        starts-GapFree_from (position_v1 lib flags inactive) program_v1 MeetsV1 xs disk
          (position_v1 lib flags inactive disk)
          (λ x d m.
            main_with_return-Leaves x.services x.fetch keys tls_of num (main_v1 x) x.main_v2 tmp
              given config x.get_trusted x.now (position_v1 lib flags inactive) flags.log_info_file
              1 d (position_v1-kept lib flags inactive) fresh no_temp m.version
              (λ trusted with_cas created t same.
                version-Leaves_v1 x trusted with_cas created m same))
          meets (Follows-refl (position_v1 lib flags inactive disk))
