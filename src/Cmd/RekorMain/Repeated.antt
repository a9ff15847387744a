-- ===== src/Cmd/RekorMain/Repeated.antt =====
-- Where the searches of rekor-monitor begin over all its starts against a shard of Rekor v2.
use mathlib.Core.List.{map}
use rekor_monitor.Base.{String, ◌≡◌, refl, ◌∙◌, true, none, ok, List, All}
use rekor_monitor.Cmd.Config.{MonitorFlags}
use rekor_monitor.Cmd.Exits.{Ended, disk_after, rekor_monitored_values}
use rekor_monitor.Cmd.Loop.{monitor_loop}
use rekor_monitor.Cmd.Loop.Lifetimes.{started, GapFree}
use rekor_monitor.Cmd.Loop.Lifetimes.Covered.{Follows-refl}
use rekor_monitor.Cmd.Loop.Lifetimes.Gaps.{monitor_loop-Covers}
use rekor_monitor.Cmd.RekorMain.{Trusted, main_loop_v2, start_version}
use rekor_monitor.Cmd.RekorMain.Program.{
  or_exit_rule, Leaves, no_calls, started_version, starts-GapFree_from, main_with_return-Leaves,
}
use rekor_monitor.Cmd.RekorV2.{Shards, logic}
use rekor_monitor.Cmd.RekorV2.Monitor.{Packages, run_env, position}
use rekor_monitor.Cmd.RekorV2.Positions.{IsReliable, ServesStorable, position-kept}
use rekor_monitor.Cmd.RekorV2.Resumed.{nets_keep}
use rekor_monitor.Cmd.TrustedCas.{TempFiles}
use rekor_monitor.Cmd.TrustedCas.Cleanup.{IsFresh}
use rekor_monitor.Cmd.TrustedCas.Spared.{SameSearch, IsNoTemp}
use rekor_monitor.Extensions.Identifiers.{Numerals}
use rekor_monitor.Identity.{MonitoredValues}
use rekor_monitor.Identity.Values.{monitored_values_exist}
use rekor_monitor.Notifications.{IdentityMonitorConfiguration}
use rekor_monitor.Rekor.V2.Shards.{get_rekor_shards}
use rekor_monitor.Search.Kept.{HasOwnFile}
use rekor_monitor.Util.File.{Disk}
use rekor_monitor.Cmd.RekorMain.Starts.{Start, calls_of, MainV1, v2_flags, program, starts, MeetsV2}

module _ {Builder Proof : Type 0} (lib : Packages Builder Proof) (num : Numerals) (tmp : TempFiles)
    (main_v1 : MainV1) (given : MonitorFlags) (config : IdentityMonitorConfiguration)
    (shard : String) where
  abbrev pub flags : MonitorFlags
  flags = v2_flags num given

  module _ (reliable : IsReliable lib flags shard) (fresh : IsFresh tmp)
      (no_temp : IsNoTemp tmp flags.log_info_file) (own : HasOwnFile flags.log_info_file config)
      (exist : (values : MonitoredValues)
        → rekor_monitored_values num config.monitored_values ≡ ok values
        → monitored_values_exist values ≡ true)
      (start : config.start_index ≡ none) (end : config.end_index ≡ none) where
    loop-Leaves :
        (x : Start) (s : Shards) (values : MonitoredValues)
        (same_config : IdentityMonitorConfiguration) (disk : Disk)
        → All (ServesStorable lib flags shard s) (x.nets s)
        → SameSearch config same_config
        → rekor_monitored_values num config.monitored_values ≡ ok values
        → let out =
            monitor_loop
              (logic flags values)
              (map (run_env lib flags s) (x.nets s))
              (started same_config disk) in
          Leaves (position lib flags shard) (position lib flags shard disk) out.1 out.2.disk
    loop-Leaves x s values same_config disk meets same e =
        monitor_loop-Covers (logic flags values) (position lib flags shard) same_config
          (map (run_env lib flags s) (x.nets s)) (started same_config disk) (exist values e)
          (nets_keep lib flags shard values same_config s (x.nets s) reliable
            (record {
              from_identities = rw same.identities own.from_identities;
              from_metadata = rw same.metadata own.from_metadata;
            })
            meets)
          (record {
            aligned = rw (same.start ∙ start) tt;
            unbounded = same.end ∙ end;
            same_files = (refl, refl);
          })

    version-Leaves :
        (x : Start) (trusted : Trusted) (with_cas : IdentityMonitorConfiguration) (created : Disk)
        → MeetsV2 lib num given shard x
        → x.get_trusted given ≡ ok trusted
        → SameSearch config with_cas
        → let ended =
            started_version x.services x.fetch lib.keys lib.tls_config_for_ca num main_v1
              (main_loop_v2 num (λ flags' s. map (run_env lib flags' s) (x.nets s)))
              tmp
              given
              config
              x.get_trusted
              x.now
              2
              with_cas
              trusted
              created in
          Leaves
            (position lib flags shard)
            (position lib flags shard created)
            (calls_of ended)
            (disk_after ended created)
    unfolding start_version main_loop_v2
    version-Leaves x trusted with_cas created meets t same =
        let Q : Ended → Type 0 = λ ended.
          Leaves (position lib flags shard) (position lib flags shard created) (calls_of ended)
            (disk_after ended created) in
        let nothing = no_calls (position lib flags shard) created created refl in
        or_exit_rule Q
          (get_rekor_shards x.services x.fetch lib.keys lib.tls_config_for_ca x.now
            trusted.rekor_logs trusted.rekor_services flags.user_agent flags.https_cert_chain_file)
          _ nothing (λ p. nothing)
          (λ r got.
            or_exit_rule Q (rekor_monitored_values num with_cas.monitored_values) _ nothing
              (λ p. nothing)
              (λ values e.
                loop-Leaves x (record { rekor_shards = r.0; latest_shard_origin = r.1 }) values
                  with_cas created (meets.storable trusted r t got) same (rw (← same.values) e)))

    program-Leaves :
        (x : Start) (disk : Disk)
        → MeetsV2 lib num given shard x
        → let r = program lib num tmp main_v1 given config x disk in
          Leaves (position lib flags shard) (position lib flags shard disk) (calls_of r.0) r.1
    program-Leaves x disk meets =
        main_with_return-Leaves x.services x.fetch lib.keys lib.tls_config_for_ca num main_v1
          (main_loop_v2 num (λ flags' s. map (run_env lib flags' s) (x.nets s))) tmp given config
          x.get_trusted x.now (position lib flags shard) flags.log_info_file 2 disk
          (position-kept lib flags shard) fresh no_temp meets.version
          (λ trusted with_cas created t same.
            version-Leaves x trusted with_cas created meets t same)

    -- However often rekor-monitor is started, with the same flags and the same configuration, as long
    -- as it stays in one shard of a server of the API version 2: the first search of each start begins
    -- where the last search ended that was followed by a write of the checkpoint, at first at the last
    -- entry of the checkpoint in the file, and every other search where the one before it ended. Where
    -- the file has no checkpoint at first, nothing is said of where the first search begins. To stay in
    -- the shard means that every start finds it as the latest one and that in every run the checkpoints
    -- that pass the check, that of the file and the current one, are of it and neither empty nor too
    -- large. It holds if no indices are configured but something to look for is, the current
    -- checkpoints can be stored, the temporary files are new ones and they and the files of identities
    -- are not the checkpoint's, an empty file is not decoded, and os.Stat, os.Open and os.WriteFile do
    -- not fail.
    pub starts-GapFree :
        (xs : List Start) (disk : Disk)
        → All (MeetsV2 lib num given shard) xs
        → GapFree
            (position lib flags shard disk)
            (starts (program lib num tmp main_v1 given config) xs disk)
    starts-GapFree xs disk meets =
        starts-GapFree_from (position lib flags shard) (program lib num tmp main_v1 given config)
          (MeetsV2 lib num given shard) xs disk (position lib flags shard disk) program-Leaves meets
          (Follows-refl (position lib flags shard disk))
