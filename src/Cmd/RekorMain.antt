-- ===== src/Cmd/RekorMain.antt =====
-- getRekorVersion, mainLoopV2 and mainWithReturn of cmd/rekor_monitor/main.go. The loops of the two
-- API versions are arguments of mainWithReturn, since mainLoopV1 and mainLoopV2 depend on different
-- calls.
pub mod Starts
pub mod Program
pub mod StartsV1
pub mod Repeated
pub mod Tests
use Prim.Native.String.{◌++◌ as text_append}
use rekor_monitor.Base.{
  ℕ, none, some, Result, ok, err, panic, context, String, List, [], ◌∷◌, if◌then◌else◌,
}
use rekor_monitor.Base.Classes.{◌==◌, string_comparable, nat_comparable}
use rekor_monitor.Base.Int.{pos}
use rekor_monitor.Cmd.Config.{MonitorFlags}
use rekor_monitor.Cmd.Exits.{
  exited, fatal, panicked, Ended, disk_after, or_exit, rekor_monitored_values, or_default,
}
use rekor_monitor.Cmd.Loop.{RunEnv, monitor_loop}
use rekor_monitor.Cmd.RekorV2.{Shards, logic}
use rekor_monitor.Cmd.TrustedCas.{FulcioCa, TempFiles, configure_trusted_cas}
use rekor_monitor.Extensions.Identifiers.{Numerals}
use rekor_monitor.Notifications.{IdentityMonitorConfiguration}
use rekor_monitor.Rekor.LogKeys.{TransparencyLog, KeyLoading}
use rekor_monitor.Rekor.V2.Client.{Checkpoint}
use rekor_monitor.Rekor.V2.LogVerifier.{Fetching}
use rekor_monitor.Rekor.V2.Shards.{Service, Services, get_rekor_shards}
use rekor_monitor.Util.File.{Disk}
use rekor_monitor.Util.Tls.{TlsConfig}

-- The loop over the services, with the version found so far.
unfoldable pub version_loop : String → List Service → ℕ → ℕ
version_loop server_url [] version = version
version_loop server_url (s ∷ ss) version =
    let changed = version_loop server_url ss s.major_api_version in
    let kept = version_loop server_url ss version in if server_url == s.url then changed else kept

unfoldable pub get_rekor_version : List Service → String → ℕ
unfolding version_loop
get_rekor_version all_rekor_services server_url = version_loop server_url all_rekor_services 1

-- `runs` is what happens in the runs of the loop, which starts with these flags and shards.
unfoldable pub main_loop_v2 :
    Numerals
    → (MonitorFlags → Shards → List (RunEnv Checkpoint Checkpoint))
    → MonitorFlags
    → IdentityMonitorConfiguration
    → Shards
    → Disk
    → Ended
main_loop_v2 num runs flags config shards disk =
    or_exit (rekor_monitored_values num config.monitored_values) (λ values. (
      exited 0,
      some (
          monitor_loop (logic flags values) (runs flags shards) (record {
            config = config;
            log_index_verification_total = 0;
            log_index_verification_failure = 0;
            disk = disk;
          })),
    ))

-- What the program takes from the TUF repository: the authorities of Fulcio, the logs of Rekor and
-- the services of the signing configuration.
pub record Trusted : Type 0 where
  pub fulcio_authorities : List FulcioCa
  pub rekor_logs : List (String × TransparencyLog)
  pub rekor_services : List Service

module _ (lib : Services) (fetch : Fetching) (keys : KeyLoading)
    (tls_of : String → Result TlsConfig) (num : Numerals)
    (main_v1 : MonitorFlags
      → IdentityMonitorConfiguration
      → List (String × TransparencyLog)
      → Disk
      → Ended)
    (main_v2 : MonitorFlags → IdentityMonitorConfiguration → Shards → Disk → Ended) where
  -- The switch over the version of the server's API.
  unfoldable pub start_version :
      ℕ → ℕ → MonitorFlags → IdentityMonitorConfiguration → Trusted → Disk → Ended
  start_version now version flags config trusted disk =
      if version == 1
      then main_v1 flags config trusted.rekor_logs disk
      else if version == 2
      then or_exit
          (get_rekor_shards lib fetch keys tls_of now trusted.rekor_logs trusted.rekor_services
            flags.user_agent flags.https_cert_chain_file)
          (λ r.
            main_v2 flags config (record { rekor_shards = r.0; latest_shard_origin = r.1 }) disk)
      else (exited 1, none)

  -- `loaded` is what ParseAndLoadConfig returns, `get_trusted` GetTUFClient with the trusted root and
  -- the signing configuration of its client. The temporary files are removed when the function
  -- returns.
  unfoldable pub main_with_return :
      TempFiles
      → Result (MonitorFlags × IdentityMonitorConfiguration)
      → (MonitorFlags → Result Trusted)
      → ℕ
      → Disk
      → Ended × Disk
  unfolding get_rekor_version start_version
  main_with_return os loaded get_trusted now disk =
      elim (context "error parsing flags and loading config" loaded) [
        | err e ↦ ((fatal e, none), disk)
        | panic p ↦ ((panicked p, none), disk)
        | ok (given, config) ↦ elim (get_trusted given) [
          | err e ↦ ((fatal e, none), disk)
          | panic p ↦ ((panicked p, none), disk)
          | ok trusted ↦
              let (cleanup, with_cas, created) =
                configure_trusted_cas os config trusted.fulcio_authorities disk in
              let version = get_rekor_version trusted.rekor_services given.server_url in
              let default : String =
                text_append (text_append "logInfo.v" (num.itoa (pos version))) ".txt" in
              let flags = record given { log_info_file = or_default default given.log_info_file } in
              elim cleanup [
                | err e ↦ ((fatal e, none), created)
                | panic p ↦ ((panicked p, none), created)
                | ok remove ↦
                    let ended = start_version now version flags with_cas trusted created in
                    (ended, remove (disk_after ended created))
              ]
        ]
      ]
