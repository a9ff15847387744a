-- ===== src/Cmd/RekorV2/Resumed.antt =====
-- Where the searches of the Rekor v2 monitor begin over all its lifetimes, in one shard.
pub mod Tests
use mathlib.Core.List.{map}
use rekor_monitor.Base.{
  ◌≡◌, refl, sym, subst, ap, ◌∙◌, Bool, true, false, not, Option, none, some, Error, Result, ok,
  err, panic, is_ok, is_some, String, List, [], ◌∷◌, ltb, ◌>>=◌, arith, if◌then◌else◌, All, IfOk,
  IfOk-bind, IfOk-of, IfOk-any, Bool-cases, inl, inr,
}
use rekor_monitor.Base.Classes.{◌==◌, nat_comparable, string_comparable}
use rekor_monitor.Base.Int.{ℤ}
use rekor_monitor.Base.Text.{is_blank}
use rekor_monitor.Cmd.Config.{MonitorFlags}
use rekor_monitor.Cmd.Loop.{MonitorLogic, RunEnv, start_index}
use rekor_monitor.Cmd.Loop.Chains.{Follows}
use rekor_monitor.Cmd.Loop.Lifetimes.{lifetimes, GapFree, SameFiles, KeepsPosition}
use rekor_monitor.Cmd.Loop.Lifetimes.Covered.{Follows-refl}
use rekor_monitor.Cmd.Loop.Lifetimes.Gaps.{lifetimes-GapFree}
use rekor_monitor.Cmd.RekorV2.{
  Shards, logic, head_of, max_int64, last_index, get_start_index, get_end_index, write_checkpoint,
  refresh_signing_config, update_shards, run_consistency_check,
}
use rekor_monitor.Cmd.RekorV2.Monitor.{Net, Packages, serving, run_env, position}
use rekor_monitor.Identity.{MonitoredValues}
use rekor_monitor.Identity.Values.{monitored_values_exist}
use rekor_monitor.Notifications.{IdentityMonitorConfiguration}
use rekor_monitor.Rekor.V2.Client.{Checkpoint, ShardInfo}
use rekor_monitor.Rekor.V2.Search.{lookup_shard, identity_search, fetch_and_match}
use rekor_monitor.Rekor.V2.Verifier as Verifier
use rekor_monitor.Rekor.V2.Verifier.{has_checkpoint}
use rekor_monitor.Rekor.V2.Verifier.Consistency.{Previous, run_consistency_check-Previous_v2}
use rekor_monitor.Search.{Found, report, report_found}
use rekor_monitor.Search.Kept.{HasOwnFile, HasOwnFile-same}
use rekor_monitor.Util.File.{Disk, or_empty}
use rekor_monitor.Util.File.Checkpoints.{heads_differ, write_checkpoint_rekor_v2}
use rekor_monitor.Util.File.Flatten.{IsPlain}
use rekor_monitor.Util.File.Kept.{Apart, write_matched_identity_entries-kept}
use rekor_monitor.Util.File.Reading.{
  read_latest_checkpoint, read_last_checkpoint, last_line, unflatten,
}
use rekor_monitor.Cmd.RekorV2.Positions.{
  IsStorable, IsReliable, ServesStorable, Stored, check-Stored, begins_at, ends_at, writes_to,
  searches_beside, position-kept,
}

module _ {Builder Proof : Type 0} (lib : Packages Builder Proof) (flags : MonitorFlags)
    (shard : String) (values : MonitoredValues) (config : IdentityMonitorConfiguration) where
  keeps_position :
      (s : Shards) (net : Net)
      → IsReliable lib flags shard
      → HasOwnFile flags.log_info_file config
      → ServesStorable lib flags shard s net
      → KeepsPosition
          (logic flags values)
          (position lib flags shard)
          config
          (run_env lib flags s net)
  keeps_position s net reliable own storable =
      let begins : (disk : Disk) (prev : Option Checkpoint) (cur : Checkpoint)
          → (run_env lib flags s net).run_consistency_check disk ≡ ok (prev, cur)
          → start_index (logic flags values) none prev cur ≡ position lib flags shard disk =
        λ disk prev cur e.
          begins_at lib flags shard s net disk prev cur values reliable
            (λ p k. storable.previous disk p cur (e ∙ ap (λ q. ok (q, cur)) k))
            (IfOk-of (Stored lib flags shard disk)
              ((run_env lib flags s net).run_consistency_check disk) (prev, cur)
              (check-Stored lib flags shard s net disk) e) in
      record {
        begins = begins;
        ends =
            λ disk prev cur e. ends_at lib flags shard s net cur (storable.current disk prev cur e);
        searches = λ given disk same. position-kept lib flags shard _ disk (
            searches_beside lib flags shard s net given values disk
              (HasOwnFile-same flags.log_info_file config given own same));
        writes = λ before disk prev cur e same.
            writes_to lib flags shard s net disk prev cur values reliable
              (storable.current before prev cur e) (begins before prev cur e ∙ sym same);
      }

  -- The runs of a lifetime, with the shards at its start.
  abbrev pub envs_of : Shards × List Net → List (RunEnv Checkpoint Checkpoint)
  envs_of life = map (run_env lib flags life.0) life.1

  pub nets_keep :
      (s : Shards) (nets : List Net)
      → IsReliable lib flags shard
      → HasOwnFile flags.log_info_file config
      → All (ServesStorable lib flags shard s) nets
      → All
          (KeepsPosition (logic flags values) (position lib flags shard) config)
          (map (run_env lib flags s) nets)
  nets_keep s [] reliable own h = tt
  nets_keep s (net ∷ nets) reliable own h =
      (keeps_position s net reliable own h.0, nets_keep s nets reliable own h.1)

  lives_keep :
      (lives : List (Shards × List Net))
      → IsReliable lib flags shard
      → HasOwnFile flags.log_info_file config
      → All (λ life. All (ServesStorable lib flags shard life.0) life.1) lives
      → All
          (All (KeepsPosition (logic flags values) (position lib flags shard) config))
          (map envs_of lives)
  lives_keep [] reliable own h = tt
  lives_keep (life ∷ lives) reliable own h =
      (nets_keep life.0 life.1 reliable own h.0, lives_keep lives reliable own h.1)

  -- However often the Rekor v2 monitor is started, with no indices configured, as long as it stays in
  -- one shard: the first search of each start begins where the last search ended that was followed by
  -- a write of the checkpoint, at first at the last entry of the checkpoint in the file, and every
  -- other search where the one before it ended. Where the file has no checkpoint at first, nothing is
  -- said of where the first search begins. To stay in the shard means that every start has it as its
  -- latest one and that in every run the checkpoints that pass the check, that of the file and the
  -- current one, are of it and neither empty nor too large. It holds if there is something to look for,
  -- the current checkpoints can be stored, the identities are written to other files than the
  -- checkpoint, an empty file is not decoded, and no call of os fails.
  pub rekor_v2-GapFree :
      (lives : List (Shards × List Net)) (disk : Disk)
      → monitored_values_exist values ≡ true
      → config.start_index ≡ none
      → config.end_index ≡ none
      → IsReliable lib flags shard
      → HasOwnFile flags.log_info_file config
      → All (λ life. All (ServesStorable lib flags shard life.0) life.1) lives
      → GapFree
          (position lib flags shard disk)
          (lifetimes (logic flags values) config (map envs_of lives) disk)
  rekor_v2-GapFree lives disk exist start end reliable own h =
      lifetimes-GapFree (logic flags values) (position lib flags shard) config (map envs_of lives)
        disk _ exist start end (lives_keep lives reliable own h)
        (Follows-refl (position lib flags shard disk))
