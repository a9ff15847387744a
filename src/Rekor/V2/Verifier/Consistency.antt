-- ===== src/Rekor/V2/Verifier/Consistency.antt =====
-- What a consistency check of Rekor v2 that succeeds has checked.
use rekor_monitor.Base.{
  ◌≡◌, refl, sym, ap, ◌∙◌, arith, Bool-cases, inl, inr, true, false, Option, none, some, Error, ok,
  context, return_error, IfOk, IfOk-bind, IfOk-of, context-ok, String, List, if_rule,
}
use rekor_monitor.Base.Classes.{◌==◌, string_comparable}
use rekor_monitor.Rekor.V2.Client.{Checkpoint, ReadClient, ShardInfo}
use rekor_monitor.Rekor.V2.Search.{lookup_shard}
use rekor_monitor.Rekor.V2.Verifier.{
  Proving, has_checkpoint, new_checkpoint, prove, check_stored, check_previous,
  run_consistency_check,
}
use rekor_monitor.Util.File.{Disk}
use rekor_monitor.Util.File.Reading.{read_latest_checkpoint}

verified_result :
    (o : Option Error) (P : Unit {0} → Type 0) (text : String)
    → (o ≡ none → P tt)
    → IfOk P (context text (return_error o))
verified_result none P text h = h refl
verified_result (some e) P text h = tt

module _ {Builder Proof : Type 0} (prv : Proving Builder Proof)
    (shards : List (String × ShardInfo)) where
  -- A proof is found, and verified, that the log with the checkpoint `new` extends that with `prev`.
  pub record IsProved (client : ReadClient) (prev new : Checkpoint) : Type 0 where
    pub builder : Builder
    pub proof : Proof
    pub built : prv.new_proof_builder new.size client.read_tile ≡ ok builder
    pub found : prv.consistency_proof builder prev.size new.size ≡ ok proof
    pub verified : prv.verify_consistency prev.size new.size proof prev.hash new.hash ≡ none

  -- The stored checkpoint, and the one of its own shard that it is consistent with.
  pub record IsChecked (latest_origin : String) (latest : Checkpoint) (file : String) (disk : Disk)
      (prev : Checkpoint) : Type 0 where
    pub stored : read_latest_checkpoint prv.unmarshal prv.open_error file disk ≡ ok prev
    pub new : Checkpoint
    pub same_shard : (lookup_shard prev.origin shards).client.read_checkpoint ≡ ok new
    pub is_latest : prev.origin ≡ latest_origin → new ≡ latest
    pub proved : IsProved (lookup_shard prev.origin shards).client prev new

  abbrev pub Previous : String → Checkpoint → String → Disk → Option Checkpoint → Type 0
  Previous latest_origin latest file disk none = has_checkpoint prv shards file disk ≡ false
  Previous latest_origin latest file disk (some prev) =
      (has_checkpoint prv shards file disk ≡ true) × IsChecked latest_origin latest file disk prev

  prove-IsProved :
      (client : ReadClient) (prev new : Checkpoint)
      → IfOk (λ _. IsProved client prev new) (prove prv shards client prev new)
  unfolding prove
  prove-IsProved client prev new =
      let P : Unit {0} → Type 0 = λ _. IsProved client prev new in
      let make = prv.new_proof_builder new.size client.read_tile in
      IfOk-bind P (context "failed to get proof builder" make) _ λ pb e.
        let find = prv.consistency_proof pb prev.size new.size in
        IfOk-bind P (context "failed to build consistency proof" find) _ λ proof k.
          verified_result (prv.verify_consistency prev.size new.size proof prev.hash new.hash) P _
            (λ v. record {
              builder = pb;
              proof = proof;
              built = context-ok _ make pb e;
              found = context-ok _ find proof k;
              verified = v;
            })

  new_checkpoint_lem :
      (latest_origin : String) (latest prev new : Checkpoint)
      → (lookup_shard latest_origin shards).client.read_checkpoint ≡ ok latest
      → new_checkpoint prv shards latest_origin latest prev ≡ ok new
      → ((lookup_shard prev.origin shards).client.read_checkpoint ≡ ok new)
        × (prev.origin ≡ latest_origin → new ≡ latest)
  unfolding new_checkpoint
  new_checkpoint_lem latest_origin latest prev new served h =
      let same = string_comparable.same_iff prev.origin latest_origin in
      elim (Bool-cases (prev.origin == latest_origin)) [
        | inl e ↦
            let is_new : latest ≡ new = ground (arith, e, h) in
            (rw (same.0 e) (served ∙ ap (λ c. ok c) is_new), λ k. sym is_new)
        | inr e ↦ (
          context-ok "failed to get current checkpoint"
              (lookup_shard prev.origin shards).client.read_checkpoint new (ground (arith, e, h)),
          λ k. absurd (ground (arith, e, same.1 k)),
        )
      ]

  check_stored-IsChecked :
      (latest_origin : String) (latest : Checkpoint) (file : String) (disk : Disk)
      → (lookup_shard latest_origin shards).client.read_checkpoint ≡ ok latest
      → IfOk
          (IsChecked latest_origin latest file disk)
          (check_stored prv shards latest_origin latest file disk)
  unfolding check_stored
  check_stored-IsChecked latest_origin latest file disk served =
      let P : Checkpoint → Type 0 = IsChecked latest_origin latest file disk in
      let read = read_latest_checkpoint prv.unmarshal prv.open_error file disk in
      IfOk-bind P (context "reading checkpoint log" read) _ λ prev e.
        let fetched = new_checkpoint prv shards latest_origin latest prev in
        IfOk-bind P fetched _ λ new k.
          let client = (lookup_shard prev.origin shards).client in
          let proving = prove prv shards client prev new in
          let found = new_checkpoint_lem latest_origin latest prev new served k in
          IfOk-bind P proving _ λ u l. record {
            stored = context-ok _ read prev e;
            new = new;
            same_shard = found.0;
            is_latest = found.1;
            proved =
                IfOk-of (λ _. IsProved client prev new) proving u (prove-IsProved client prev new)
                  l;
          }

  check_previous-Previous :
      (latest_origin : String) (latest : Checkpoint) (file : String) (disk : Disk)
      → (lookup_shard latest_origin shards).client.read_checkpoint ≡ ok latest
      → IfOk
          (Previous latest_origin latest file disk)
          (check_previous prv shards latest_origin latest file disk)
  unfolding check_previous
  check_previous-Previous latest_origin latest file disk served =
      let P : Option Checkpoint → Type 0 = Previous latest_origin latest file disk in
      let checked = check_stored prv shards latest_origin latest file disk in
      if_rule (IfOk P) (has_checkpoint prv shards file disk) _ _
        (λ has. IfOk-bind P checked _ λ prev e. (
          has,
          IfOk-of (IsChecked latest_origin latest file disk) checked prev
              (check_stored-IsChecked latest_origin latest file disk served) e,
        ))
        (λ has_none. has_none)

  -- If the consistency check of Rekor v2 succeeds, the checkpoint that it returns is that of the
  -- latest shard. If the file holds a previous checkpoint, exactly then one is returned: it is the one
  -- of the file, and a proof was verified that the shard with its origin extends it, up to the
  -- current checkpoint of that shard, which for the latest shard is the one returned.
  pub run_consistency_check-Previous_v2 :
      (latest_origin file : String) (disk : Disk)
      → IfOk
          (λ r.
            ((lookup_shard latest_origin shards).client.read_checkpoint ≡ ok r.1)
            × Previous latest_origin r.1 file disk r.0)
          (run_consistency_check prv shards latest_origin file disk)
  unfolding run_consistency_check
  run_consistency_check-Previous_v2 latest_origin file disk =
      let read = (lookup_shard latest_origin shards).client.read_checkpoint in
      let P : Option Checkpoint × Checkpoint → Type 0 =
        λ r. (read ≡ ok r.1) × Previous latest_origin r.1 file disk r.0 in
      IfOk-bind P (context "failed to get current checkpoint" read) _ λ latest e.
        let before = check_previous prv shards latest_origin latest file disk in
        IfOk-bind P before _ λ prev k. (
          context-ok _ read latest e,
          IfOk-of (Previous latest_origin latest file disk) before prev
              (check_previous-Previous latest_origin latest file disk (context-ok _ read latest e))
              k,
        )
