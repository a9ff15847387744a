-- ===== src/Rekor/V1/Verifier.antt =====
-- pkg/rekor/v1/verifier.go from ReadLatestCheckpoint on. Checkpoints are decoded and their signatures
-- checked by sigstore's Rekor, which also proves consistency: a record of calls.
pub mod Consistency
pub mod Tests
use rekor_monitor.Base.{
  Bool, true, false, not, ◌||◌, Option, none, some, Error, Result, ok, err, panic, msg, ◌>>=◌, ◌>>◌,
  context, fail_if, return_error, String, List, is_some, if◌then◌else◌,
}
use rekor_monitor.Base.Text.{is_blank}
use rekor_monitor.Rekor.V1.Client.{LogInfo, Rekor, get_log_info}
use rekor_monitor.Rekor.V1.Search.{SignedCheckpoint}
use rekor_monitor.Util.File.{Disk, or_empty}
use rekor_monitor.Util.File.Reading.{read_latest_checkpoint}
use rekor_monitor.Util.Retry.{Float64}

pub record Checking : Type 0 where
  pub unmarshal_text : String → Result SignedCheckpoint
  -- SignedCheckpoint.Verify with the log's verifier
  pub verify : SignedCheckpoint → Bool
  -- verify.ProveConsistency of the first checkpoint and the second, for a tree
  pub prove_consistency : SignedCheckpoint → SignedCheckpoint → String → Option Error
  -- os.Stat and os.Open of a file that exists
  pub stat : String → Option Error
  pub open_error : String → Option Error

module _ (chk : Checking) where
  unfoldable pub read_latest_checkpoint_of : LogInfo → Result SignedCheckpoint
  read_latest_checkpoint_of log_info =
      context "unmarshalling logInfo.SignedTreeHead to Checkpoint"
        (chk.unmarshal_text log_info.signed_tree_head)

  unfoldable pub verify_latest_checkpoint_signature : LogInfo → Result SignedCheckpoint
  unfolding read_latest_checkpoint_of
  verify_latest_checkpoint_signature log_info =
      context "unmarshalling logInfo.SignedTreeHead to Checkpoint"
        (read_latest_checkpoint_of log_info)
      >>= λ checkpoint.
          fail_if (not (chk.verify checkpoint)) (msg "verifying checkpoint failed") >> ok checkpoint

  unfoldable pub verify_checkpoint_consistency :
      String → SignedCheckpoint → String → Disk → Result SignedCheckpoint
  verify_checkpoint_consistency file checkpoint tree_id disk =
      context "reading checkpoint log"
        (read_latest_checkpoint chk.unmarshal_text chk.open_error file disk)
      >>= λ prev.
          fail_if (not (chk.verify prev)) (msg "verifying checkpoint failed")
          >> context "failed to verify log consistency"
              (return_error (chk.prove_consistency prev checkpoint tree_id))
          >> ok prev

  -- `err == nil && fi.Size() != 0`
  abbrev pub has_checkpoint : String → Disk → Bool
  has_checkpoint file disk = elim (chk.stat file) [
    | some _ ↦ false
    | none ↦ not (is_blank (or_empty (disk file)))
  ]

  unfoldable pub previous_checkpoint :
      String → SignedCheckpoint → String → Disk → Result (Option SignedCheckpoint)
  unfolding verify_checkpoint_consistency
  previous_checkpoint file checkpoint tree_id disk =
      if has_checkpoint file disk
      then (context "failed to verify previous checkpoint"
            (verify_checkpoint_consistency file checkpoint tree_id disk)
          >>= λ prev. ok (some prev))
      else ok none

  module _ {F Entry : Type 0} (fl : Float64 F) (client : Rekor Entry) where
    unfoldable pub run_consistency_check :
        String → Disk → Result (Option SignedCheckpoint × LogInfo)
    unfolding verify_latest_checkpoint_signature previous_checkpoint
    run_consistency_check file disk =
        context "failed to get log info" (get_log_info fl client) >>= λ log_info.
        context "failed to verify signature of latest checkpoint"
          (verify_latest_checkpoint_signature log_info)
        >>= λ checkpoint. previous_checkpoint file checkpoint log_info.tree_id disk >>= λ prev.
            ok (prev, log_info)
