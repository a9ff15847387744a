-- ===== src/Cmd/CtMonitor.antt =====
-- CTMonitorLogic and mainWithReturn of cmd/ct_monitor/main.go. A signed tree head is the checkpoint
-- and also the LogInfo of the loop.
use Prim.Native.String.{◌++◌ as text_append}
use rekor_monitor.Base.{
  false, Option, none, some, Result, ok, err, panic, context, String, List, [],
}
use rekor_monitor.Base.Int.{ℤ, pos, int64, sub64}
use rekor_monitor.Cmd.Config.{MonitorFlags}
use rekor_monitor.Cmd.Exits.{
  exited, fatal, panicked, Ended, disk_after, or_exit, optional_tls, or_default,
}
use rekor_monitor.Cmd.Loop.{MonitorLogic, RunEnv, monitor_loop}
use rekor_monitor.Cmd.TrustedCas.{FulcioCa, TempFiles, configure_trusted_cas}
use rekor_monitor.Ct.Consistency.{SignedTreeHead, CtLog, SignatureVerifier, LogClient, Verifying}
use rekor_monitor.Ct.Consistency as Consistency
use rekor_monitor.Extensions.Identifiers.{Numerals}
use rekor_monitor.Extensions.Matchers.{render_oid_matchers}
use rekor_monitor.Identity.{MonitoredValues, OidExtension}
use rekor_monitor.Notifications.{
  NotificationContext, create_notification_context, IdentityMonitorConfiguration,
}
use rekor_monitor.Util.File.{Disk, Written, Os, then_on}
use rekor_monitor.Util.File.Checkpoints.{Head, write_ct_signed_tree_head}
use rekor_monitor.Util.Tls.{TlsConfig}

abbrev pub notification_context_new : String → NotificationContext
notification_context_new now =
    create_notification_context "ct-monitor" (text_append "ct-monitor workflow results for " now)

unfoldable pub get_start_index : SignedTreeHead → SignedTreeHead → Option ℤ
get_start_index prev cur = some (sub64 (int64 (pos prev.tree_size)) (pos 1))

unfoldable pub get_end_index : SignedTreeHead → Option ℤ
get_end_index cur = some (int64 (pos cur.tree_size))

abbrev pub logic : MonitorFlags → MonitoredValues → MonitorLogic SignedTreeHead SignedTreeHead
logic flags values = record {
  once = flags.once;
  monitored_values = values;
  get_start_index = get_start_index;
  get_end_index = get_end_index;
}

abbrev pub head_of : SignedTreeHead → Head
head_of sth = record { origin = ""; size = sth.tree_size }

-- `marshal` is json.Marshal.
unfoldable pub write_checkpoint :
    Os
    → (SignedTreeHead → Result String)
    → MonitorFlags
    → Option SignedTreeHead
    → SignedTreeHead
    → Disk
    → Written
unfolding write_ct_signed_tree_head
write_checkpoint os marshal flags prev cur disk =
    let previous : Option Head = elim prev [ none ↦ none | some p ↦ some (head_of p) ] in
    then_on "failed to write checkpoint"
      (write_ct_signed_tree_head os (head_of cur) (marshal cur) previous flags.log_info_file false
        disk)
      (λ d. (ok tt, d))

-- The OID matchers of the configuration; if they cannot be rendered there are none.
abbrev pub rendered_or_none : Result (List OidExtension) → List OidExtension
rendered_or_none (ok all) = all
rendered_or_none (err e) = []
rendered_or_none (panic p) = []

unfoldable pub ct_monitored_values : Numerals → IdentityMonitorConfiguration → MonitoredValues
ct_monitored_values num config = record {
  certificate_identities = config.monitored_values.certificate_identities;
  fingerprints = [];
  subjects = [];
  oid_matchers = rendered_or_none (render_oid_matchers num config.monitored_values.oid_matchers);
}

-- What the program takes from the TUF repository: the authorities of Fulcio and the logs.
pub record TrustedRoot : Type 0 where
  pub fulcio_authorities : List FulcioCa
  pub ct_logs : List (String × CtLog)

module _ {Proof : Type 0} (vfy : Verifying Proof) where
  unfoldable pub run_consistency_check :
      LogClient Proof
      → List (String × CtLog)
      → MonitorFlags
      → Disk
      → Option SignatureVerifier
      → Result (Option SignedTreeHead × SignedTreeHead) × Option SignatureVerifier
  run_consistency_check client ct_logs flags disk verifier =
      Consistency.run_consistency_check vfy client ct_logs flags.log_info_file disk verifier

  -- The set-up of a client and the loop, for `runs` as the runs of the loop.
  unfoldable pub start_monitor :
      (String → String → Option TlsConfig → Result (LogClient Proof))
      → (String → Result TlsConfig)
      → Numerals
      → (LogClient Proof → TrustedRoot → List (RunEnv SignedTreeHead SignedTreeHead))
      → MonitorFlags
      → IdentityMonitorConfiguration
      → TrustedRoot
      → Disk
      → Ended
  unfolding ct_monitored_values
  start_monitor new_client tls_of num runs flags config root disk =
      or_exit (optional_tls tls_of flags.https_cert_chain_file) (λ tls.
        or_exit (new_client flags.server_url flags.user_agent tls) (λ client. (
          exited 0,
          some (
              monitor_loop (logic flags (ct_monitored_values num config)) (runs client root)
                (record {
                  config = config;
                  log_index_verification_total = 0;
                  log_index_verification_failure = 0;
                  disk = disk;
                })),
        )))

  -- `loaded` is what ParseAndLoadConfig returns, `get_trusted_root` GetTUFClient and then
  -- root.GetTrustedRoot. The temporary files are removed when the function returns.
  unfoldable pub main_with_return :
      TempFiles
      → Result (MonitorFlags × IdentityMonitorConfiguration)
      → (MonitorFlags → Result TrustedRoot)
      → (MonitorFlags → IdentityMonitorConfiguration → TrustedRoot → Disk → Ended)
      → Disk
      → Ended × Disk
  main_with_return os loaded get_trusted_root start disk =
      elim (context "error parsing flags and loading config" loaded) [
        | err e ↦ ((fatal e, none), disk)
        | panic p ↦ ((panicked p, none), disk)
        | ok (given, config) ↦
            let flags = record given {
              log_info_file = or_default "ctLogInfo.txt" given.log_info_file;
            } in
            elim (get_trusted_root flags) [
              | err e ↦ ((fatal e, none), disk)
              | panic p ↦ ((panicked p, none), disk)
              | ok root ↦
                  let (cleanup, with_cas, created) =
                    configure_trusted_cas os config root.fulcio_authorities disk in
                  elim cleanup [
                    | err e ↦ ((fatal e, none), created)
                    | panic p ↦ ((panicked p, none), created)
                    | ok remove ↦
                        let ended = start flags with_cas root created in
                        (ended, remove (disk_after ended created))
                  ]
            ]
      ]
