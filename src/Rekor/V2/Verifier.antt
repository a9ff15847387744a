-- ===== src/Rekor/V2/Verifier.antt =====
-- RunConsistencyCheck of pkg/rekor/v2/verifier.go. The decoding of a checkpoint, and the building and
-- checking of proofs, are a record of calls.
pub mod Consistency
pub mod Tests
use rekor_monitor.Base.{
  ℕ, Bool, true, false, not, Option, none, some, Error, Result, ok, err, panic, ◌>>=◌, ◌>>◌,
  context, return_error, String, List, if◌then◌else◌,
}
use rekor_monitor.Base.Classes.{◌==◌, string_comparable}
use rekor_monitor.Base.Text.{is_blank}
use rekor_monitor.Rekor.V2.Client.{Bytes, Checkpoint, ReadClient, ShardInfo}
use rekor_monitor.Rekor.V2.Search.{lookup_shard}
use rekor_monitor.Util.File.{Disk, or_empty}
use rekor_monitor.Util.File.Reading.{read_latest_checkpoint}

pub record Proving (Builder Proof : Type 0) : Type 0 where
  pub unmarshal : String → Result Checkpoint
  pub new_proof_builder : ℕ → (ℕ → ℕ → ℕ → Result Bytes) → Result Builder
  pub consistency_proof : Builder → ℕ → ℕ → Result Proof
  pub verify_consistency : ℕ → ℕ → Proof → String → String → Option Error
  -- os.Stat and os.Open of a file that exists
  pub stat : String → Option Error
  pub open_error : String → Option Error

module _ {Builder Proof : Type 0} (prv : Proving Builder Proof)
    (shards : List (String × ShardInfo)) where
  -- `err == nil && fi.Size() != 0`
  abbrev pub has_checkpoint : String → Disk → Bool
  has_checkpoint file disk = elim (prv.stat file) [
    | some _ ↦ false
    | none ↦ not (is_blank (or_empty (disk file)))
  ]

  -- The checkpoint to compare the previous one with: it has to be of the same shard.
  unfoldable pub new_checkpoint : String → Checkpoint → Checkpoint → Result Checkpoint
  new_checkpoint latest_origin latest prev =
      if prev.origin == latest_origin
      then ok latest
      else context "failed to get current checkpoint"
          (lookup_shard prev.origin shards).client.read_checkpoint

  unfoldable pub prove : ReadClient → Checkpoint → Checkpoint → Result (Unit {0})
  prove client prev new =
      context "failed to get proof builder" (prv.new_proof_builder new.size client.read_tile)
      >>= λ pb.
          context "failed to build consistency proof" (prv.consistency_proof pb prev.size new.size)
          >>= λ proof.
              context "consistency check failed"
                (return_error (prv.verify_consistency prev.size new.size proof prev.hash new.hash))

  -- The stored checkpoint, once it is checked.
  unfoldable pub check_stored : String → Checkpoint → String → Disk → Result Checkpoint
  unfolding new_checkpoint prove
  check_stored latest_origin latest file disk =
      context "reading checkpoint log"
        (read_latest_checkpoint prv.unmarshal prv.open_error file disk)
      >>= λ prev. new_checkpoint latest_origin latest prev >>= λ new.
          prove (lookup_shard prev.origin shards).client prev new >>= λ _. ok prev

  unfoldable pub check_previous : String → Checkpoint → String → Disk → Result (Option Checkpoint)
  unfolding check_stored
  check_previous latest_origin latest file disk =
      if has_checkpoint file disk
      then (check_stored latest_origin latest file disk >>= λ prev. ok (some prev))
      else ok none

  unfoldable pub run_consistency_check :
      String → String → Disk → Result (Option Checkpoint × Checkpoint)
  unfolding check_previous
  run_consistency_check latest_origin file disk =
      context "failed to get current checkpoint"
        (lookup_shard latest_origin shards).client.read_checkpoint
      >>= λ latest. check_previous latest_origin latest file disk >>= λ prev. ok (prev, latest)
