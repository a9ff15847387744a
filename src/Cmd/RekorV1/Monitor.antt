-- ===== src/Cmd/RekorV1/Monitor.antt =====
-- RekorV1MonitorLogic of cmd/rekor_monitor/main.go as the loop sees it: what its methods return in one
-- run, and which disk they leave. What a run meets outside the program is a `Reached`.
use rekor_monitor.Base.{Bool, Option, some, Result, String, List}
use rekor_monitor.Base.Int.{ℤ, pos, int64, add64, sub64}
use rekor_monitor.Cmd.Config.{MonitorFlags}
use rekor_monitor.Cmd.Loop.{RunEnv}
use rekor_monitor.Cmd.RekorV1.{notification_context_new, write_checkpoint, run_consistency_check}
use rekor_monitor.Identity.{Regexp, X509}
use rekor_monitor.Notifications.Senders.{Sending, send}
use rekor_monitor.Rekor.V1.Client.{LogInfo, Rekor}
use rekor_monitor.Rekor.V1.Search.{Entries, SignedCheckpoint, Decoder, total_size, identity_search}
use rekor_monitor.Rekor.V1.Verifier.{Checking}
use rekor_monitor.Util.File.{Disk, Os}
use rekor_monitor.Util.File.Identities.{Format}
use rekor_monitor.Util.File.Position.{file_position}
use rekor_monitor.Util.Retry.{Float64}

-- One run: the text of the time, what the server answers, and the services that notifications are
-- sent by.
pub record Reached : Type 0 where
  pub now_text : String
  pub client : Rekor Entries
  pub sending : Sending
  pub ticks : Bool

-- The packages that the monitor calls, which are the same in every run; `marshal` is MarshalText.
pub record Called (F Proposed Implementation : Type 0) : Type 0 where
  pub chk : Checking
  pub fl : Float64 F
  pub dec : Decoder Proposed Implementation
  pub re : Regexp
  pub x509 : X509
  pub read : String → Result String
  pub fmt : Format
  pub os : Os
  pub marshal : SignedCheckpoint → Result String

module _ {F Proposed Implementation : Type 0} (lib : Called F Proposed Implementation)
    (flags : MonitorFlags) where
  abbrev pub run_env_v1 : Reached → RunEnv SignedCheckpoint LogInfo
  run_env_v1 net = record {
    run_consistency_check = run_consistency_check lib.chk lib.fl net.client flags;
    identity_search = λ config mvs disk.
        identity_search lib.dec lib.re lib.x509 lib.read lib.fl net.client lib.fmt lib.os config mvs
          disk;
    notification_context_new = notification_context_new net.now_text;
    send = send net.sending;
    write_checkpoint = write_checkpoint lib.chk lib.os lib.marshal flags;
    ticks = net.ticks;
  }

  -- The index of the last entry of a checkpoint, for the sizes of the inactive shards.
  abbrev pub index_at : List ℤ → SignedCheckpoint → Option ℤ
  index_at inactive c =
      some (sub64 (add64 (int64 (pos c.size)) (total_size inactive (pos 0))) (pos 1))

  -- The index that the file gives a monitor to start from.
  abbrev pub position_v1 : List ℤ → Disk → Option ℤ
  position_v1 inactive disk =
      file_position lib.chk.unmarshal_text lib.chk.open_error (index_at inactive)
        flags.log_info_file disk
