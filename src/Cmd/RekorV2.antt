-- ===== src/Cmd/RekorV2.antt =====
-- RekorV2MonitorLogic of cmd/rekor_monitor/main.go. The client of the TUF repository is what it
-- returns in one run; a checkpoint is the Checkpoint and also the LogInfo of the loop.
pub mod Fresh
pub mod Restart
pub mod Monitor
pub mod Positions
pub mod Resumed
pub mod Tests
use Prim.Native.String.{◌++◌ as text_append}
use rekor_monitor.Base.{
  ℕ, ◌^◌, ◌-◌, Bool, true, false, ◌||◌, Option, none, some, Error, Result, ok, err, panic, ◌>>=◌,
  context, String, List, ltb, if◌then◌else◌,
}
use rekor_monitor.Base.Classes.{◌==◌, nat_comparable}
use rekor_monitor.Base.Int.{ℤ, pos, sub64}
use rekor_monitor.Cmd.Config.{MonitorFlags}
use rekor_monitor.Cmd.Loop.{MonitorLogic}
use rekor_monitor.Identity.{MonitoredValues}
use rekor_monitor.Notifications.{NotificationContext, create_notification_context}
use rekor_monitor.Rekor.LogKeys.{TransparencyLog, KeyLoading}
use rekor_monitor.Rekor.V2.Client.{Checkpoint, ShardInfo}
use rekor_monitor.Rekor.V2.LogVerifier.{Fetching}
use rekor_monitor.Rekor.V2.Shards.{Service, Services, shards_need_updating, get_rekor_shards}
use rekor_monitor.Rekor.V2.Verifier.{Proving}
use rekor_monitor.Rekor.V2.Verifier as Verifier
use rekor_monitor.Util.File.{Disk, Written, Os, then_on}
use rekor_monitor.Util.File.Checkpoints.{Head, write_checkpoint_rekor_v2}
use rekor_monitor.Util.Tls.{TlsConfig}

-- tuf.Client, root.GetSigningConfig and root.GetTrustedRoot
pub record TufClient : Type 0 where
  pub refresh : Result (Unit {0})
  pub get_signing_config : Result (List Service)
  pub get_trusted_root : Result (List (String × TransparencyLog))

-- The fields of the logic that the loop does not read itself.
pub record Shards : Type 0 where
  pub rekor_shards : List (String × ShardInfo)
  pub latest_shard_origin : String

unfoldable pub refresh_signing_config : TufClient → Result (List Service)
refresh_signing_config tuf = context "error refreshing TUF client" tuf.refresh >>= λ _.
    context "error getting SigningConfig target" tuf.get_signing_config

abbrev pub notification_context_new : String → NotificationContext
notification_context_new now =
    create_notification_context "rekor-monitor-v2"
      (text_append "rekor-monitor v2 workflow results for " now)

abbrev max_int64 : ℕ
max_int64 = 2 ^ 63 - 1

-- `int64(size) - 1`, for a size that is neither zero nor too large
unfoldable pub last_index : Checkpoint → Option ℤ
last_index c =
    if c.size == 0 || ltb max_int64 c.size then none else some (sub64 (pos c.size) (pos 1))

unfoldable pub get_start_index : Checkpoint → Checkpoint → Option ℤ
unfolding last_index
get_start_index prev cur = last_index prev

unfoldable pub get_end_index : Checkpoint → Option ℤ
unfolding last_index
get_end_index cur = last_index cur

abbrev pub logic : MonitorFlags → MonitoredValues → MonitorLogic Checkpoint Checkpoint
logic flags values = record {
  once = flags.once;
  monitored_values = values;
  get_start_index = get_start_index;
  get_end_index = get_end_index;
}

abbrev pub head_of : Checkpoint → Head
head_of c = record { origin = c.origin; size = c.size }

-- `marshal` is the method Marshal.
unfoldable pub write_checkpoint :
    Os → (Checkpoint → String) → MonitorFlags → Option Checkpoint → Checkpoint → Disk → Written
unfolding write_checkpoint_rekor_v2
write_checkpoint os marshal flags prev cur disk =
    let previous : Option Head = elim prev [ none ↦ none | some p ↦ some (head_of p) ] in
    then_on "failed to write checkpoint"
      (write_checkpoint_rekor_v2 os (head_of cur) (marshal cur) previous flags.log_info_file false
        disk)
      (λ d. (ok tt, d))

module _ {Builder Proof : Type 0} (prv : Proving Builder Proof) (lib : Services) (fetch : Fetching)
    (keys : KeyLoading) (tls_config_for_ca : String → Result TlsConfig) where
  -- The shards that this run uses. They are not kept: RunConsistencyCheck has a value receiver.
  unfoldable pub update_shards :
      TufClient → MonitorFlags → ℕ → Shards → List Service → Result Shards
  update_shards tuf flags now s services =
      shards_need_updating lib now s.rekor_shards services >>= λ should_update.
      if should_update
      then (context "error getting trusted root" tuf.get_trusted_root >>= λ trusted_logs.
          context "error getting shards" (
            get_rekor_shards lib fetch keys tls_config_for_ca now trusted_logs services
              flags.user_agent flags.https_cert_chain_file)
          >>= λ r. ok (record { rekor_shards = r.0; latest_shard_origin = r.1 }))
      else ok s

  unfoldable pub run_consistency_check :
      TufClient → MonitorFlags → ℕ → Shards → Disk → Result (Option Checkpoint × Checkpoint)
  unfolding refresh_signing_config update_shards
  run_consistency_check tuf flags now s disk = refresh_signing_config tuf >>= λ services.
      update_shards tuf flags now s services >>= λ new.
      Verifier.run_consistency_check prv new.rekor_shards new.latest_shard_origin
        flags.log_info_file disk
