-- ===== src/Cmd/RekorV2/Monitor.antt =====
-- RekorV2MonitorLogic of cmd/rekor_monitor/main.go as the loop sees it: what its methods return in one
-- run, and which disk they leave. What a run meets outside the program is a `Net`.
use mathlib.Core.List.{map}
use rekor_monitor.Base.Classes.{◌==◌, string_comparable}
use rekor_monitor.Base.{some, none, ◌-◌, if◌then◌else◌, ℕ, Bool, Option, Result, String}
use rekor_monitor.Base.Int.{ℤ, pos}
use rekor_monitor.Cmd.Config.{MonitorFlags}
use rekor_monitor.Cmd.Loop.{RunEnv}
use rekor_monitor.Cmd.RekorV2.{
  TufClient, Shards, notification_context_new, write_checkpoint, run_consistency_check,
}
use rekor_monitor.Identity.{Regexp, X509}
use rekor_monitor.Notifications.Senders.{Sending, send}
use rekor_monitor.Rekor.LogKeys.{KeyLoading}
use rekor_monitor.Rekor.V2.Client.{Checkpoint, ReadClient, ShardInfo, Encoding}
use rekor_monitor.Rekor.V2.LogVerifier.{Fetching}
use rekor_monitor.Rekor.V2.Search.{ProtoEntry, Verifiers, identity_search}
use rekor_monitor.Rekor.V2.Shards.{Services}
use rekor_monitor.Rekor.V2.Verifier.{Proving}
use rekor_monitor.Util.File.{Disk, Os}
use rekor_monitor.Util.File.Identities.{Format}
use rekor_monitor.Util.File.Position.{file_position}
use rekor_monitor.Util.Tls.{TlsConfig}

-- One run: the TUF repository, the time and its text, the services and clients that are reached, what
-- the clients of the shards that the monitor started with answer by now, by their origins, and the
-- services that notifications are sent by.
pub record Net : Type 0 where
  pub tuf : TufClient
  pub now : ℕ
  pub now_text : String
  pub services : Services
  pub fetch : Fetching
  pub answers : String → ReadClient
  pub sending : Sending
  pub ticks : Bool

-- The packages that the monitor calls, which are the same in every run.
pub record Packages (Builder Proof : Type 0) : Type 0 where
  pub prv : Proving Builder Proof
  pub keys : KeyLoading
  pub tls_config_for_ca : String → Result TlsConfig
  pub make : Verifiers
  pub re : Regexp
  pub x509 : X509
  pub read : String → Result String
  pub enc : Encoding ProtoEntry
  pub fmt : Format
  pub os : Os
  pub marshal : Checkpoint → String

abbrev answered : (String → ReadClient) → String × ShardInfo → String × ShardInfo
answered answers (origin, shard) = (origin, record shard { client = answers origin })

abbrev pub serving : (String → ReadClient) → Shards → Shards
serving answers s = record s { rekor_shards = map (answered answers) s.rekor_shards }

module _ {Builder Proof : Type 0} (lib : Packages Builder Proof) (flags : MonitorFlags) where
  -- The methods have a value receiver, so every run starts with the shards `s` of the start, and the
  -- search does not see those that the consistency check refreshed.
  abbrev pub run_env : Shards → Net → RunEnv Checkpoint Checkpoint
  run_env s net =
      let serving_now = serving net.answers s in
      record {
        run_consistency_check =
            run_consistency_check lib.prv net.services net.fetch lib.keys lib.tls_config_for_ca
              net.tuf flags net.now serving_now;
        identity_search = λ config mvs disk.
            identity_search lib.make lib.re lib.x509 lib.read lib.enc lib.fmt lib.os
              serving_now.rekor_shards serving_now.latest_shard_origin config mvs disk;
        notification_context_new = notification_context_new net.now_text;
        send = send net.sending;
        write_checkpoint = write_checkpoint lib.os lib.marshal flags;
        ticks = net.ticks;
      }

  -- The index of the last entry of a checkpoint, if it is of the shard with this origin.
  abbrev pub index_in : String → Checkpoint → Option ℤ
  index_in shard c = if c.origin == shard then some (pos (c.size - 1)) else none

  -- The index in the shard that the file gives a monitor to start from.
  abbrev pub position : String → Disk → Option ℤ
  position shard disk =
      file_position lib.prv.unmarshal lib.prv.open_error (index_in shard) flags.log_info_file disk
