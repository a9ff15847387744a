-- ===== src/Cmd/RekorV1/Resumed/Tests.antt =====
-- A monitor that is started twice: behind an inactive shard of three entries, the log has five entries
-- at the first start, and nine at the second.
use mathlib.Core.List.{map}
use rekor_monitor.Base.{
  ℕ, refl, none, Option, Result, ok, err, msg, String, List, [], ◌∷◌, arith, true, IfOk-bind,
  IfOk-of, if◌then◌else◌, context,
}
use rekor_monitor.Base.Classes.{◌==◌, string_comparable, nat_comparable}
use rekor_monitor.Base.Int.{ℤ, pos}
use rekor_monitor.Cmd.Config.{MonitorFlags, default_flags}
use rekor_monitor.Cmd.Loop.Lifetimes.{lifetimes, GapFree}
use rekor_monitor.Cmd.RekorV1.{logic, run_consistency_check}
use rekor_monitor.Cmd.RekorV1.Monitor.{Reached, Called, run_env_v1}
use rekor_monitor.Cmd.RekorV1.Positions.{IsStorableInfo, AnswersStorable}
use rekor_monitor.Cmd.RekorV1.Resumed.{rekor_v1-GapFree}
use rekor_monitor.Identity.Tests.{literal, plain, watched}
use rekor_monitor.Identity.Values.{monitored_values_exist}
use rekor_monitor.Notifications.{IdentityMonitorConfiguration}
use rekor_monitor.Notifications.Senders.Tests.{working}
use rekor_monitor.Notifications.Tests.{config}
use rekor_monitor.Rekor.V1.Client.{LogInfo, Rekor, get_log_info}
use rekor_monitor.Rekor.V1.Client.Tests.{at_once}
use rekor_monitor.Rekor.V1.Search.{Entries, SignedCheckpoint}
use rekor_monitor.Rekor.V1.Search.Tests.{decoder, plain_format}
use rekor_monitor.Rekor.V1.Verifier as Verifier
use rekor_monitor.Rekor.V1.Verifier.{
  Checking, verify_latest_checkpoint_signature, previous_checkpoint,
}
use rekor_monitor.Util.File.{Disk}
use rekor_monitor.Util.File.Checkpoints.{flatten}
use rekor_monitor.Util.File.Checkpoints.Tests.{reliable}
use rekor_monitor.Util.File.Reading.{read_latest_checkpoint}
use rekor_monitor.Util.Retry.{
  default_retry_config, retry, retry_with, retry_loop, validate_retry_config,
}
use rekor_monitor.Util.Retry.Tests.{tenths}

abbrev checkpoint : ℕ → SignedCheckpoint
checkpoint size = record { origin = "log"; size = size; hash = "h"; signatures = 16_909_060 ∷ [] }

-- The text of the checkpoint of size 5 is its size; every other text is that of size 9.
abbrev unmarshal_text : String → Result SignedCheckpoint
unmarshal_text text =
    if text == ""
    then err (msg "no checkpoint")
    else if text == "5"
    then ok (checkpoint 5)
    else ok (checkpoint 9)

abbrev checking : Checking
checking = record {
  unmarshal_text = unmarshal_text;
  verify = λ c. true;
  prove_consistency = λ a b t. none;
  stat = λ f. none;
  open_error = λ f. none;
}

abbrev pub inactive : List ℤ
inactive = pos 3 ∷ []

abbrev pub info : String → LogInfo
info text = record { inactive_shards = inactive; signed_tree_head = text; tree_id = "tree" }

abbrev pub client : String → Rekor Entries
client text = record {
  get_log_info = λ k. ok (info text);
  search_log_query = λ indices k. ok [];
  log_info_clock = at_once;
  query_clock = λ indices. at_once;
  context_done = λ i. none;
}

abbrev pub reached : String → Reached
reached text = record { now_text = "now"; client = client text; sending = working; ticks = true }

abbrev pub called : Called ℕ String String
called = record {
  chk = checking;
  fl = tenths;
  dec = decoder;
  re = literal;
  x509 = plain;
  read = λ name. ok name;
  fmt = plain_format;
  os = reliable;
  marshal = λ c. ok (if c.size == 5 then "5" else "9");
}

abbrev pub flags : MonitorFlags
flags = record (default_flags "https://rekor" "default") { log_info_file = "logInfo.v1.txt" }

-- No indices are configured.
abbrev pub unbounded : IdentityMonitorConfiguration
unbounded = record config { start_index = none; end_index = none }

abbrev pub no_files : Disk
no_files = λ name. none

pub five_IsStorableInfo : IsStorableInfo called flags inactive (info "5")
unfolding flatten
five_IsStorableInfo = record {
  current = checkpoint 5;
  text = "5";
  decoded = refl;
  marshalled = refl;
  read_back = refl;
  plain = (refl, refl, omega arith);
  filled = refl;
  shards = refl;
}

pub nine_IsStorableInfo : IsStorableInfo called flags inactive (info "9")
unfolding flatten
nine_IsStorableInfo = record {
  current = checkpoint 9;
  text = "9";
  decoded = refl;
  marshalled = refl;
  read_back = refl;
  plain = (refl, refl, omega arith);
  filled = refl;
  shards = refl;
}

pub answered :
    (text : String)
    → IsStorableInfo called flags inactive (info text)
    → AnswersStorable called flags inactive (reached text)
unfolding run_consistency_check Verifier.run_consistency_check get_log_info retry retry_with
    retry_loop default_retry_config validate_retry_config
answered text storable disk prev cur e =
    let P : Option SignedCheckpoint × LogInfo → Type 0 =
      λ r. IsStorableInfo called flags inactive r.1 in
    IfOk-of P ((run_env_v1 called flags (reached text)).run_consistency_check disk) (prev, cur)
      (IfOk-bind P
        (context "failed to verify signature of latest checkpoint"
          (verify_latest_checkpoint_signature checking (info text)))
        _
        λ now _.
          IfOk-bind P (previous_checkpoint checking "logInfo.v1.txt" now "tree" disk)
            (λ before. ok (before, info text)) (λ before _. storable))
      e

rekor_v1-GapFree_example : GapFree none (
    lifetimes
      (logic checking flags watched)
      unbounded
      (map (map (run_env_v1 called flags)) ((reached "5" ∷ []) ∷ (reached "9" ∷ []) ∷ []))
      no_files)
unfolding monitored_values_exist read_latest_checkpoint
rekor_v1-GapFree_example =
    rekor_v1-GapFree called flags inactive watched unbounded
      ((reached "5" ∷ []) ∷ (reached "9" ∷ []) ∷ []) no_files refl refl refl
      (record { stats = λ f. refl; opens = λ f. refl; writes = λ f t. refl; empty = refl })
      (record { from_identities = refl; from_metadata = tt })
      ((answered "5" five_IsStorableInfo, tt), ((answered "9" nine_IsStorableInfo, tt), tt))
