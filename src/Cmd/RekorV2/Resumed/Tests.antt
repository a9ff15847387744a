-- ===== src/Cmd/RekorV2/Resumed/Tests.antt =====
-- A monitor that is started twice: the log has five entries at the first start, and nine at the second.
use mathlib.Core.List.{map}
use rekor_monitor.Base.Int.{pos}
use rekor_monitor.Base.{
  some, if_rule, IfOk, ◌≡◌, ℕ, refl, none, Result, ok, err, msg, String, [], ◌∷◌, arith, true,
  Option, IfOk-bind, IfOk-of, if◌then◌else◌,
}
use rekor_monitor.Base.Classes.{◌==◌, string_comparable, nat_comparable}
use rekor_monitor.Cmd.Config.{MonitorFlags, default_flags}
use rekor_monitor.Cmd.Loop.Lifetimes.{lifetimes, GapFree}
use rekor_monitor.Cmd.RekorV2.{
  Shards, logic, refresh_signing_config, update_shards, run_consistency_check,
}
use rekor_monitor.Cmd.RekorV2.Monitor.{Net, Packages, serving, run_env, position}
use rekor_monitor.Cmd.RekorV2.Positions.{
  InShard, IsStorable, ServesStorable, Stored, Stored-read, check-Stored,
}
use rekor_monitor.Cmd.RekorV2.Resumed.{envs_of, rekor_v2-GapFree}
use rekor_monitor.Identity.Tests.{literal, plain, watched}
use rekor_monitor.Identity.Values.{monitored_values_exist}
use rekor_monitor.Notifications.{IdentityMonitorConfiguration}
use rekor_monitor.Notifications.Senders.Tests.{working}
use rekor_monitor.Notifications.Tests.{config}
use rekor_monitor.Rekor.V1.Search.Tests.{plain_format}
use rekor_monitor.Rekor.V2.Client.{Checkpoint, ReadClient, ShardInfo}
use rekor_monitor.Rekor.V2.LogVerifier.Tests.{fetching, loading, trusted}
use rekor_monitor.Rekor.V2.Search.Tests.{encoding, key_verifiers}
use rekor_monitor.Rekor.V2.Shards.{filter_v2_shards, origin_of, any_changed, shards_need_updating}
use rekor_monitor.Rekor.V2.Shards.Tests.{calls, services}
use rekor_monitor.Rekor.V2.Verifier as Verifier
use rekor_monitor.Rekor.V2.Verifier.{Proving, check_previous}
use rekor_monitor.Util.File.{Disk}
use rekor_monitor.Util.File.Checkpoints.{flatten}
use rekor_monitor.Util.File.Reading.{
  read_latest_checkpoint, read_last_checkpoint, last_line, unflatten,
}
use rekor_monitor.Util.File.Checkpoints.Tests.{reliable}

abbrev pub checkpoint : ℕ → Checkpoint
checkpoint size = record { origin = "log2026"; size = size; hash = "h" }

-- The text of the checkpoint of size 5 is its size; every other text is that of size 9.
abbrev unmarshal : String → Result Checkpoint
unmarshal text =
    if text == ""
    then err (msg "no checkpoint")
    else if text == "5"
    then ok (checkpoint 5)
    else ok (checkpoint 9)

abbrev proving : Proving ℕ ℕ
proving = record {
  unmarshal = unmarshal;
  new_proof_builder = λ size read. ok size;
  consistency_proof = λ b old new. ok new;
  verify_consistency = λ old new p h k. none;
  stat = λ f. none;
  open_error = λ f. none;
}

abbrev client : ℕ → ReadClient
client size = record {
  read_checkpoint = ok (checkpoint size);
  read_entry_bundle = λ t p. ok [];
  read_tile = λ l t p. err (msg "not asked");
}

abbrev info : ReadClient → ShardInfo
info c = record { client = c; verifier = "key"; validity_end = 0 }

-- Two shards, for the clients that they are read with.
abbrev pub shards_of : ReadClient → ReadClient → Shards
shards_of c d = record {
  rekor_shards = ("log2026", info c) ∷ ("log2025", info d) ∷ [];
  latest_shard_origin = "log2026";
}

abbrev shards : Shards
shards = shards_of (client 5) (client 5)

abbrev pub net : ℕ → Net
net size = record {
  tuf = record { refresh = ok tt; get_signing_config = ok services; get_trusted_root = ok trusted };
  now = 30;
  now_text = "now";
  services = calls;
  fetch = fetching;
  answers = λ origin. client size;
  sending = working;
  ticks = true;
}

abbrev pub packages : Packages ℕ ℕ
packages = record {
  prv = proving;
  keys = loading;
  tls_config_for_ca = λ c. err (msg "no file");
  make = key_verifiers;
  re = literal;
  x509 = plain;
  read = λ name. ok name;
  enc = encoding;
  fmt = plain_format;
  os = reliable;
  marshal = λ c. if c.size == 5 then "5" else "9";
}

abbrev pub flags : MonitorFlags
flags = record (default_flags "https://log2026" "default") { log_info_file = "logInfo.v2.txt" }

-- No indices are configured.
abbrev pub unbounded : IdentityMonitorConfiguration
unbounded = record config { start_index = none; end_index = none }

-- The file of the checkpoint holds that of size 5.
abbrev pub stored : Disk
stored = λ name. if name == "logInfo.v2.txt" then some "5\n" else none

abbrev pub five_InShard : InShard packages flags "log2026" (checkpoint 5)
five_InShard = record { of_shard = refl; filled = refl; fits = refl }

abbrev pub nine_InShard : InShard packages flags "log2026" (checkpoint 9)
nine_InShard = record { of_shard = refl; filled = refl; fits = refl }

pub five_IsStorable : IsStorable packages flags "log2026" (checkpoint 5)
unfolding flatten
five_IsStorable = record {
  decoded = refl;
  plain = (refl, refl, omega arith);
  in_shard = five_InShard;
}

pub nine_IsStorable : IsStorable packages flags "log2026" (checkpoint 9)
unfolding flatten
nine_IsStorable = record {
  decoded = refl;
  plain = (refl, refl, omega arith);
  in_shard = nine_InShard;
}

unmarshal-InShard : (text : String) → IfOk (InShard packages flags "log2026") (unmarshal text)
unmarshal-InShard text =
    let P : Checkpoint → Type 0 = InShard packages flags "log2026" in
    if_rule (IfOk P) (text == "") _ _ (λ _. tt)
      (λ _. if_rule (IfOk P) (text == "5") _ _ (λ _. five_InShard) (λ _. nine_InShard))

read-InShard :
    (disk : Disk) (p : Checkpoint)
    → read_latest_checkpoint unmarshal (λ f. none) "logInfo.v2.txt" disk ≡ ok p
    → InShard packages flags "log2026" p
unfolding read_latest_checkpoint
read-InShard disk p e =
    let P : Checkpoint → Type 0 = InShard packages flags "log2026" in
    IfOk-of P _ p
      (IfOk-bind P (read_last_checkpoint (λ f. none) "logInfo.v2.txt" disk) _
        (λ text _. unmarshal-InShard text))
      e

pub served :
    (c d : ReadClient) (size : ℕ)
    → IsStorable packages flags "log2026" (checkpoint size)
    → ServesStorable packages flags "log2026" (shards_of c d) (net size)
unfolding run_consistency_check refresh_signing_config update_shards shards_need_updating
    any_changed origin_of filter_v2_shards Verifier.run_consistency_check
served c d size storable = record {
  searched = refl;
  current = λ disk prev cur e.
      let P : Option Checkpoint × Checkpoint → Type 0 =
        λ r. IsStorable packages flags "log2026" r.1 in
      IfOk-of P ((run_env packages flags (shards_of c d) (net size)).run_consistency_check disk)
        (prev, cur)
        (IfOk-bind P
          (check_previous proving (serving (λ origin. client size) (shards_of c d)).rekor_shards
            "log2026" (checkpoint size) "logInfo.v2.txt" disk)
          (λ before. ok (before, checkpoint size)) (λ before _. storable))
        e;
  previous = λ disk p cur e. read-InShard disk p (
      Stored-read packages flags "log2026" disk p cur (
        IfOk-of (Stored packages flags "log2026" disk)
          ((run_env packages flags (shards_of c d) (net size)).run_consistency_check disk)
          (some p, cur) (check-Stored packages flags "log2026" (shards_of c d) (net size) disk) e));
}

rekor_v2-GapFree_example : GapFree (position packages flags "log2026" stored) (
    lifetimes
      (logic flags watched)
      unbounded
      (map
        (envs_of packages flags "log2026" watched unbounded)
        ((shards, net 5 ∷ []) ∷ (shards, net 9 ∷ []) ∷ []))
      stored)
unfolding monitored_values_exist
rekor_v2-GapFree_example =
    rekor_v2-GapFree packages flags "log2026" watched unbounded
      ((shards, net 5 ∷ []) ∷ (shards, net 9 ∷ []) ∷ []) stored refl refl refl
      (record { stats = λ f. refl; opens = λ f. refl; writes = λ f t. refl; empty = refl })
      (record { from_identities = refl; from_metadata = tt })
      (
        (served (client 5) (client 5) 5 five_IsStorable, tt),
        ((served (client 5) (client 5) 9 nine_IsStorable, tt), tt),
      )

-- The position of the stored checkpoint is its last entry.
stored_position : position packages flags "log2026" stored ≡ some (pos 4)
unfolding read_latest_checkpoint read_last_checkpoint last_line unflatten
stored_position = refl
