-- ===== src/Cmd/RekorMain/Starts.antt =====
-- The program rekor-monitor as it is started again and again against a Rekor v2 log, from its flags to
-- the files that it leaves.
use Prim.Native.String.{◌++◌ as text_append}
use mathlib.Core.List.{map}
use rekor_monitor.Base.{ℕ, ◌≡◌, none, some, Result, ok, String, List, [], ◌∷◌, All}
use rekor_monitor.Base.Int.{pos}
use rekor_monitor.Cmd.Config.{MonitorFlags}
use rekor_monitor.Cmd.Exits.{Ended, or_default}
use rekor_monitor.Cmd.Loop.{Call}
use rekor_monitor.Cmd.RekorMain.{Trusted, get_rekor_version, main_loop_v2, main_with_return}
use rekor_monitor.Cmd.RekorV2.{Shards}
use rekor_monitor.Cmd.RekorV2.Monitor.{Net, Packages, run_env}
use rekor_monitor.Cmd.RekorV2.Positions.{ServesStorable}
use rekor_monitor.Cmd.TrustedCas.{TempFiles}
use rekor_monitor.Extensions.Identifiers.{Numerals}
use rekor_monitor.Notifications.{IdentityMonitorConfiguration}
use rekor_monitor.Rekor.LogKeys.{TransparencyLog}
use rekor_monitor.Rekor.V2.LogVerifier.{Fetching}
use rekor_monitor.Rekor.V2.Shards.{Services, get_rekor_shards}
use rekor_monitor.Rekor.V2.Client.{ShardInfo}
use rekor_monitor.Util.File.{Disk}

-- One start: what the TUF repository gives, the time, the services that are reached, and what the
-- runs of the loop meet, for the shards that are found at the start.
pub record Start : Type 0 where
  pub get_trusted : MonitorFlags → Result Trusted
  pub now : ℕ
  pub services : Services
  pub fetch : Fetching
  pub nets : Shards → List Net

abbrev pub calls_of : Ended → List Call
calls_of (exit, none) = []
calls_of (exit, some out) = out.1

-- The calls of the loop in each start, on the disk that the start before it left.
unfoldable pub starts : {S : Type 0} → (S → Disk → Ended × Disk) → List S → Disk → List (List Call)
starts run [] disk = []
starts run (x ∷ xs) disk = let (ended, left) = run x disk in calls_of ended ∷ starts run xs left

abbrev pub MainV1 : Type 0
MainV1 =
    MonitorFlags → IdentityMonitorConfiguration → List (String × TransparencyLog) → Disk → Ended

-- The flags of a monitor of a log of this version, for the flags that are given.
abbrev pub version_flags : Numerals → ℕ → MonitorFlags → MonitorFlags
version_flags num version given =
    let default : String = text_append (text_append "logInfo.v" (num.itoa (pos version))) ".txt" in
    record given { log_info_file = or_default default given.log_info_file }

abbrev pub v2_flags : Numerals → MonitorFlags → MonitorFlags
v2_flags num given = version_flags num 2 given

-- What a start is assumed to meet: a server of the API version 2, and runs that stay in the shard with
-- this origin.
pub record MeetsV2 {Builder Proof : Type 0} (lib : Packages Builder Proof) (num : Numerals)
    (given : MonitorFlags) (shard : String) (x : Start) : Type 0 where
  pub version :
      (trusted : Trusted)
      → x.get_trusted given ≡ ok trusted
      → get_rekor_version trusted.rekor_services given.server_url ≡ 2
  pub storable :
      (trusted : Trusted) (r : List (String × ShardInfo) × String)
      → x.get_trusted given ≡ ok trusted
      → get_rekor_shards x.services x.fetch lib.keys lib.tls_config_for_ca x.now trusted.rekor_logs
          trusted.rekor_services given.user_agent given.https_cert_chain_file
        ≡ ok r
      → let s : Shards = record { rekor_shards = r.0; latest_shard_origin = r.1 } in
        All (ServesStorable lib (v2_flags num given) shard s) (x.nets s)

module _ {Builder Proof : Type 0} (lib : Packages Builder Proof) (num : Numerals) (tmp : TempFiles)
    (main_v1 : MainV1) (given : MonitorFlags) (config : IdentityMonitorConfiguration) where
  abbrev pub program : Start → Disk → Ended × Disk
  program x disk =
      main_with_return x.services x.fetch lib.keys lib.tls_config_for_ca num main_v1
        (main_loop_v2 num (λ flags s. map (run_env lib flags s) (x.nets s))) tmp
        (ok (given, config)) x.get_trusted x.now disk
