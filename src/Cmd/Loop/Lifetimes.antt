-- ===== src/Cmd/Loop/Lifetimes.antt =====
-- A monitor that is started again and again, as it is by default (`--once`): each start finds the disk
-- that the one before it left. Where the next search has to begin is on the disk, in the checkpoint.
pub mod Covered
pub mod Gaps
use rekor_monitor.Base.{ℕ, ◌≡◌, true, Option, none, Result, ok, List, [], ◌∷◌, is_some}
use rekor_monitor.Base.Int.{ℤ}
use rekor_monitor.Cmd.Loop.{
  MonitorLogic, RunEnv, Call, checked, wrote, searched, sent, LoopState, start_index, monitor_loop,
}
use rekor_monitor.Cmd.Loop.Chains.{ChainFrom}
use rekor_monitor.Notifications.{IdentityMonitorConfiguration}
use rekor_monitor.Util.File.{Disk}

abbrev pub started : IdentityMonitorConfiguration → Disk → LoopState
started config disk = record {
  config = config;
  log_index_verification_total = 0;
  log_index_verification_failure = 0;
  disk = disk;
}

-- The calls of each lifetime; a lifetime is over at the latest when its environments are used up.
unfoldable pub lifetimes :
    {Checkpoint LogInfo : Type 0}
    → MonitorLogic Checkpoint LogInfo
    → IdentityMonitorConfiguration
    → List (List (RunEnv Checkpoint LogInfo))
    → Disk
    → List (List Call)
lifetimes logic config [] disk = []
lifetimes logic config (envs ∷ more) disk =
    let (status, calls, s) = monitor_loop logic envs (started config disk) in
    calls ∷ lifetimes logic config more s.disk

-- The end of the last search that is followed by a write of the checkpoint: `written` so far, and
-- `reached` once the checkpoint is written.
abbrev pub confirmed : Option ℤ → Option ℤ → List Call → Option ℤ
confirmed written reached [] = written
confirmed written reached (searched a b ∷ calls) = confirmed written b calls
confirmed written reached (wrote ∷ calls) = confirmed reached reached calls
confirmed written reached (checked ∷ calls) = confirmed written reached calls
confirmed written reached (sent p l ∷ calls) = confirmed written reached calls

-- In every lifetime the first search starts at the end of the last search that is confirmed, and
-- every other one at the end of the one before it; as long as there is none, one may start anywhere.
abbrev pub GapFree : Option ℤ → List (List Call) → Type 0
GapFree written [] = Unit
GapFree written (calls ∷ more) =
    ChainFrom written calls × GapFree (confirmed written written calls) more

-- The files that a search writes are those of the configuration that the program starts with.
abbrev pub SameFiles : IdentityMonitorConfiguration → IdentityMonitorConfiguration → Type 0
SameFiles given config =
    (config.output_identities_file ≡ given.output_identities_file)
    × (config.identity_metadata_file ≡ given.identity_metadata_file)

-- What the calls of a run do to the position on the disk: a run begins there, a search leaves it
-- alone, and the write of a checkpoint moves it to the end of the run.
pub record KeepsPosition {Checkpoint LogInfo : Type 0} (logic : MonitorLogic Checkpoint LogInfo)
    (position : Disk → Option ℤ) (given : IdentityMonitorConfiguration)
    (env : RunEnv Checkpoint LogInfo) : Type 0 where
  pub begins :
      (disk : Disk) (prev : Option Checkpoint) (cur : LogInfo)
      → env.run_consistency_check disk ≡ ok (prev, cur)
      → start_index logic none prev cur ≡ position disk
  pub ends :
      (disk : Disk) (prev : Option Checkpoint) (cur : LogInfo)
      → env.run_consistency_check disk ≡ ok (prev, cur)
      → is_some (logic.get_end_index cur) ≡ true
  pub searches :
      (config : IdentityMonitorConfiguration) (disk : Disk)
      → SameFiles given config
      → position (env.identity_search config logic.monitored_values disk).1 ≡ position disk
  pub writes :
      (before disk : Disk) (prev : Option Checkpoint) (cur : LogInfo)
      → env.run_consistency_check before ≡ ok (prev, cur)
      → position disk ≡ position before
      → position (env.write_checkpoint prev cur disk).1 ≡ logic.get_end_index cur
