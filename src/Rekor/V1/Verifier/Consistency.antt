-- ===== src/Rekor/V1/Verifier/Consistency.antt =====
-- What a consistency check that succeeds has checked.
use rekor_monitor.Base.{
  ◌≡◌, Bool, true, false, not, Option, none, some, Error, ok, msg, ◌>>◌, context, fail_if,
  return_error, sequence_ok, context-return_error, IfOk, IfOk-bind, IfOk-of, context-ok, String,
  arith, if_rule,
}
use rekor_monitor.Rekor.V1.Client.{LogInfo, Rekor, get_log_info}
use rekor_monitor.Rekor.V1.Search.{SignedCheckpoint}
use rekor_monitor.Rekor.V1.Verifier.{
  Checking, verify_latest_checkpoint_signature, verify_checkpoint_consistency, has_checkpoint,
  previous_checkpoint, run_consistency_check,
}
use rekor_monitor.Util.File.{Disk}
use rekor_monitor.Util.File.Reading.{read_latest_checkpoint}
use rekor_monitor.Util.Retry.{Float64}

passed : (b : Bool) (e : Error) → fail_if (not b) e ≡ ok tt → b ≡ true
passed b e h = ground arith

module _ (chk : Checking) where
  -- The checkpoint that follows a file's: it is that of the log info and its signature is valid.
  pub record IsCurrent (log_info : LogInfo) (cur : SignedCheckpoint) : Type 0 where
    pub decoded : chk.unmarshal_text log_info.signed_tree_head ≡ ok cur
    pub signed : chk.verify cur ≡ true

  -- The checkpoint of a file: its signature is valid and the log is proved to extend it.
  pub record IsExtended (file tree_id : String) (disk : Disk) (cur prev : SignedCheckpoint)
      : Type 0 where
    pub stored : read_latest_checkpoint chk.unmarshal_text chk.open_error file disk ≡ ok prev
    pub signed : chk.verify prev ≡ true
    pub consistent : chk.prove_consistency prev cur tree_id ≡ none

  -- A previous checkpoint is returned exactly when the file has one, and is then extended.
  abbrev pub Previous : String → String → Disk → SignedCheckpoint → Option SignedCheckpoint → Type 0
  Previous file tree_id disk cur none = has_checkpoint chk file disk ≡ false
  Previous file tree_id disk cur (some prev) =
      (has_checkpoint chk file disk ≡ true) × IsExtended file tree_id disk cur prev

  verify_latest_checkpoint_signature-IsCurrent :
      (log_info : LogInfo)
      → IfOk (IsCurrent log_info) (verify_latest_checkpoint_signature chk log_info)
  unfolding verify_latest_checkpoint_signature
  verify_latest_checkpoint_signature-IsCurrent log_info =
      let read = chk.unmarshal_text log_info.signed_tree_head in
      let text : String = "unmarshalling logInfo.SignedTreeHead to Checkpoint" in
      IfOk-bind (IsCurrent log_info) (context text (context text read)) _ λ cur e.
        IfOk-bind (IsCurrent log_info)
          (fail_if (not (chk.verify cur)) (msg "verifying checkpoint failed")) _
          λ _ k. record {
            decoded = context-ok _ read cur (context-ok _ (context text read) cur e);
            signed = passed (chk.verify cur) _ k;
          }

  verify_checkpoint_consistency-IsExtended :
      (file tree_id : String) (disk : Disk) (cur : SignedCheckpoint)
      → IfOk
          (IsExtended file tree_id disk cur)
          (verify_checkpoint_consistency chk file cur tree_id disk)
  unfolding verify_checkpoint_consistency
  verify_checkpoint_consistency-IsExtended file tree_id disk cur =
      let P : SignedCheckpoint → Type 0 = IsExtended file tree_id disk cur in
      let read = read_latest_checkpoint chk.unmarshal_text chk.open_error file disk in
      IfOk-bind P (context "reading checkpoint log" read) _ λ prev e.
        let signature = fail_if (not (chk.verify prev)) (msg "verifying checkpoint failed") in
        let proof =
          context "failed to verify log consistency"
            (return_error (chk.prove_consistency prev cur tree_id)) in
        IfOk-bind P (signature >> proof) _ λ _ k. record {
          stored = context-ok _ read prev e;
          signed = passed (chk.verify prev) _ (sequence_ok signature proof k).0;
          consistent =
              context-return_error (chk.prove_consistency prev cur tree_id) _
                (sequence_ok signature proof k).1;
        }

  previous_checkpoint-Previous :
      (file tree_id : String) (disk : Disk) (cur : SignedCheckpoint)
      → IfOk (Previous file tree_id disk cur) (previous_checkpoint chk file cur tree_id disk)
  unfolding previous_checkpoint
  previous_checkpoint-Previous file tree_id disk cur =
      let checked = verify_checkpoint_consistency chk file cur tree_id disk in
      if_rule (IfOk (Previous file tree_id disk cur)) (has_checkpoint chk file disk) _ _
        (λ has.
          IfOk-bind (Previous file tree_id disk cur)
            (context "failed to verify previous checkpoint" checked) _
            λ prev e. (
              has,
              IfOk-of (IsExtended file tree_id disk cur) checked prev
                  (verify_checkpoint_consistency-IsExtended file tree_id disk cur)
                  (context-ok _ checked prev e),
            ))
        (λ has_none. has_none)

  module _ {F Entry : Type 0} (fl : Float64 F) (client : Rekor Entry) where
    -- If the consistency check succeeds, the log's current checkpoint has a valid signature; and if
    -- the file holds a previous checkpoint, exactly then one is returned: it is the one of the file,
    -- its signature is valid, and the log is proved to be consistent from it to the current one.
    pub run_consistency_check-Previous :
        (file : String) (disk : Disk)
        → IfOk
            (λ r.
              (cur : SignedCheckpoint) × IsCurrent r.1 cur × Previous file r.1.tree_id disk cur r.0)
            (run_consistency_check chk fl client file disk)
    unfolding run_consistency_check
    run_consistency_check-Previous file disk =
        let P : Option SignedCheckpoint × LogInfo → Type 0 = λ r.
          (cur : SignedCheckpoint) × IsCurrent r.1 cur × Previous file r.1.tree_id disk cur r.0 in
        IfOk-bind P (context "failed to get log info" (get_log_info fl client)) _ λ log_info _.
          let latest = verify_latest_checkpoint_signature chk log_info in
          IfOk-bind P (context "failed to verify signature of latest checkpoint" latest) _ λ cur e.
            let before = previous_checkpoint chk file cur log_info.tree_id disk in
            IfOk-bind P before _ λ prev k. (
              cur,
              IfOk-of (IsCurrent log_info) latest cur
                  (verify_latest_checkpoint_signature-IsCurrent log_info)
                  (context-ok _ latest cur e),
              IfOk-of (Previous file log_info.tree_id disk cur) before prev
                  (previous_checkpoint-Previous file log_info.tree_id disk cur) k,
            )
