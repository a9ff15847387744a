-- ===== src/Cmd/RekorV1/Resumed.antt =====
-- Where the searches of the Rekor v1 monitor begin over all its lifetimes.
pub mod Tests
use mathlib.Core.List.{map}
use rekor_monitor.Base.{
  ◌≡◌, sym, ap, ◌∙◌, true, Option, none, some, ok, is_some, List, [], ◌∷◌, All,
}
use rekor_monitor.Base.Int.{ℤ}
use rekor_monitor.Cmd.Config.{MonitorFlags}
use rekor_monitor.Cmd.Loop.{start_index}
use rekor_monitor.Cmd.Loop.Lifetimes.{lifetimes, GapFree, KeepsPosition}
use rekor_monitor.Cmd.Loop.Lifetimes.Covered.{Follows-refl}
use rekor_monitor.Cmd.Loop.Lifetimes.Gaps.{lifetimes-GapFree}
use rekor_monitor.Cmd.RekorV1.{logic}
use rekor_monitor.Cmd.RekorV1.Monitor.{Reached, Called, run_env_v1, position_v1}
use rekor_monitor.Cmd.RekorV1.Positions.{
  CanStore, AnswersStorable, position_v1-kept, check-StoredInfo, run_begins, run_ends, run_writes,
  run_searches,
}
use rekor_monitor.Identity.{MonitoredValues}
use rekor_monitor.Identity.Values.{monitored_values_exist}
use rekor_monitor.Notifications.{IdentityMonitorConfiguration}
use rekor_monitor.Rekor.V1.Client.{LogInfo}
use rekor_monitor.Rekor.V1.Search.{SignedCheckpoint}
use rekor_monitor.Search.Kept.{HasOwnFile, HasOwnFile-same}
use rekor_monitor.Util.File.{Disk}

module _ {F Proposed Implementation : Type 0} (lib : Called F Proposed Implementation)
    (flags : MonitorFlags) (inactive : List ℤ) (values : MonitoredValues)
    (config : IdentityMonitorConfiguration) where
  run_keep :
      (net : Reached)
      → CanStore lib flags inactive
      → HasOwnFile flags.log_info_file config
      → AnswersStorable lib flags inactive net
      → KeepsPosition
          (logic lib.chk flags values)
          (position_v1 lib flags inactive)
          config
          (run_env_v1 lib flags net)
  run_keep net can own storable =
      let begins : (disk : Disk) (prev : Option SignedCheckpoint) (cur : LogInfo)
          → (run_env_v1 lib flags net).run_consistency_check disk ≡ ok (prev, cur)
          → start_index (logic lib.chk flags values) none prev cur
            ≡ position_v1 lib flags inactive disk =
        λ disk prev cur e.
          run_begins lib flags inactive disk prev cur values can (storable disk prev cur e)
            (check-StoredInfo lib flags inactive net disk prev cur e) in
      record {
        begins = begins;
        ends = λ disk prev cur e.
            ap is_some (run_ends lib flags inactive cur (storable disk prev cur e));
        searches = λ given disk same. position_v1-kept lib flags inactive _ disk (
            run_searches lib flags inactive net given values disk
              (HasOwnFile-same flags.log_info_file config given own same));
        writes = λ before disk prev cur e same.
            run_writes lib flags inactive disk prev cur values (storable before prev cur e) can
              (begins before prev cur e ∙ sym same);
      }

  pub runs_keep :
      (nets : List Reached)
      → CanStore lib flags inactive
      → HasOwnFile flags.log_info_file config
      → All (AnswersStorable lib flags inactive) nets
      → All
          (KeepsPosition (logic lib.chk flags values) (position_v1 lib flags inactive) config)
          (map (run_env_v1 lib flags) nets)
  runs_keep [] can own h = tt
  runs_keep (net ∷ nets) can own h = (run_keep net can own h.0, runs_keep nets can own h.1)

  starts_keep :
      (lives : List (List Reached))
      → CanStore lib flags inactive
      → HasOwnFile flags.log_info_file config
      → All (All (AnswersStorable lib flags inactive)) lives
      → All
          (All (KeepsPosition (logic lib.chk flags values) (position_v1 lib flags inactive) config))
          (map (map (run_env_v1 lib flags)) lives)
  starts_keep [] can own h = tt
  starts_keep (nets ∷ lives) can own h = (runs_keep nets can own h.0, starts_keep lives can own h.1)

  -- However often the Rekor v1 monitor is started, with no indices configured, and whatever its
  -- checks, searches and notifications return: the first search of each start begins where the last
  -- search ended that was followed by a write of the checkpoint, at first where the file on the
  -- disk says, and every other search where the one before it ended. Where the file has no
  -- checkpoint at first, nothing is said of where the first search begins. It holds if there is
  -- something to look for, no shard becomes inactive in between, every log info that passes the
  -- check has a checkpoint that can be stored, the identities are written to other files than the
  -- checkpoint, an empty file is not decoded, and no call of os fails.
  pub rekor_v1-GapFree :
      (lives : List (List Reached)) (disk : Disk)
      → monitored_values_exist values ≡ true
      → config.start_index ≡ none
      → config.end_index ≡ none
      → CanStore lib flags inactive
      → HasOwnFile flags.log_info_file config
      → All (All (AnswersStorable lib flags inactive)) lives
      → GapFree (position_v1 lib flags inactive disk) (
          lifetimes
            (logic lib.chk flags values)
            config
            (map (map (run_env_v1 lib flags)) lives)
            disk)
  rekor_v1-GapFree lives disk exist start end can own h =
      lifetimes-GapFree (logic lib.chk flags values) (position_v1 lib flags inactive) config
        (map (map (run_env_v1 lib flags)) lives) disk _ exist start end
        (starts_keep lives can own h) (Follows-refl (position_v1 lib flags inactive disk))
