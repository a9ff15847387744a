-- ===== src/Cmd/RekorV1.antt =====
-- RekorV1MonitorLogic and mainLoopV1 of cmd/rekor_monitor/main.go. The checkpoint of the loop is a
-- signed checkpoint, its LogInfo the log info that the server returns.
pub mod Monitor
pub mod Positions
pub mod Resumed
use Prim.Native.String.{◌++◌ as text_append}
use rekor_monitor.Base.{false, Option, none, some, Result, ok, err, panic, context, String, List}
use rekor_monitor.Base.Int.{ℤ}
use rekor_monitor.Cmd.Config.{MonitorFlags}
use rekor_monitor.Cmd.Exits.{exited, Ended, or_exit, optional_tls, rekor_monitored_values}
use rekor_monitor.Cmd.Loop.{MonitorLogic, RunEnv, monitor_loop}
use rekor_monitor.Extensions.Identifiers.{Numerals}
use rekor_monitor.Identity.{MonitoredValues}
use rekor_monitor.Notifications.{
  NotificationContext, create_notification_context, IdentityMonitorConfiguration,
}
use rekor_monitor.Rekor.LogKeys.{TransparencyLog, KeyLoading}
use rekor_monitor.Rekor.V1.Client.{LogInfo, Rekor}
use rekor_monitor.Rekor.V1.LogVerifier.{get_log_verifier}
use rekor_monitor.Rekor.V1.Search.{SignedCheckpoint, get_checkpoint_index}
use rekor_monitor.Rekor.V1.Verifier.{Checking, read_latest_checkpoint_of}
use rekor_monitor.Rekor.V1.Verifier as Verifier
use rekor_monitor.Util.File.{Disk, Written, Os, then_on}
use rekor_monitor.Util.File.Checkpoints.{Head, write_checkpoint_rekor_v1}
use rekor_monitor.Util.Retry.{Float64}
use rekor_monitor.Util.Tls.{TlsConfig}

abbrev pub notification_context_new : String → NotificationContext
notification_context_new now =
    create_notification_context "rekor-monitor"
      (text_append "rekor-monitor workflow results for " now)

unfoldable pub get_start_index : SignedCheckpoint → LogInfo → Option ℤ
get_start_index prev cur = some (get_checkpoint_index cur prev)

abbrev pub head_of : SignedCheckpoint → Head
head_of c = record { origin = c.origin; size = c.size }

module _ (chk : Checking) where
  -- There is no index if the checkpoint of the log info cannot be read.
  unfoldable pub get_end_index : LogInfo → Option ℤ
  get_end_index cur = elim (read_latest_checkpoint_of chk cur) [
    | ok checkpoint ↦ some (get_checkpoint_index cur checkpoint)
    | err e ↦ none
    | panic p ↦ none
  ]

  abbrev pub logic : MonitorFlags → MonitoredValues → MonitorLogic SignedCheckpoint LogInfo
  logic flags values = record {
    once = flags.once;
    monitored_values = values;
    get_start_index = get_start_index;
    get_end_index = get_end_index;
  }

  -- `marshal` is the method MarshalText.
  unfoldable pub write_checkpoint :
      Os
      → (SignedCheckpoint → Result String)
      → MonitorFlags
      → Option SignedCheckpoint
      → LogInfo
      → Disk
      → Written
  unfolding write_checkpoint_rekor_v1
  write_checkpoint os marshal flags prev cur disk =
      let previous : Option Head = elim prev [ none ↦ none | some p ↦ some (head_of p) ] in
      elim (context "failed to read latest checkpoint" (read_latest_checkpoint_of chk cur)) [
        | ok c ↦
            then_on "failed to write checkpoint"
              (write_checkpoint_rekor_v1 os (head_of c) (marshal c) previous flags.log_info_file
                false disk)
              (λ d. (ok tt, d))
        | err e ↦ (err e, disk)
        | panic p ↦ (panic p, disk)
      ]

  module _ {F Entry : Type 0} (fl : Float64 F) where
    unfoldable pub run_consistency_check :
        Rekor Entry → MonitorFlags → Disk → Result (Option SignedCheckpoint × LogInfo)
    run_consistency_check client flags disk =
        Verifier.run_consistency_check chk fl client flags.log_info_file disk

    -- `get_rekor_client` makes a client for a URL, a user agent and a TLS configuration; `runs` is
    -- what happens in the runs of the loop for a client and the verifier of its log.
    unfoldable pub main_loop_v1 :
        (String → String → Option TlsConfig → Result (Rekor Entry))
        → (String → Result TlsConfig)
        → KeyLoading
        → Numerals
        → (Rekor Entry → String → List (RunEnv SignedCheckpoint LogInfo))
        → MonitorFlags
        → IdentityMonitorConfiguration
        → List (String × TransparencyLog)
        → Disk
        → Ended
    main_loop_v1 get_rekor_client tls_of keys num runs flags config trusted_logs disk =
        or_exit (optional_tls tls_of flags.https_cert_chain_file) (λ tls.
          or_exit (get_rekor_client flags.server_url flags.user_agent tls) (λ client.
            or_exit (get_log_verifier fl chk keys client trusted_logs) (λ verifier.
              or_exit (rekor_monitored_values num config.monitored_values) (λ values. (
                exited 0,
                some (
                    monitor_loop (logic flags values) (runs client verifier) (record {
                      config = config;
                      log_index_verification_total = 0;
                      log_index_verification_failure = 0;
                      disk = disk;
                    })),
              )))))
