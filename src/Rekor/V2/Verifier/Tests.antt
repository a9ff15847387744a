-- ===== src/Rekor/V2/Verifier/Tests.antt =====
-- A log that moved to a new shard.
use rekor_monitor.Base.{ℕ, ◌≡◌, none, some, ok, err, msg, IfOk, String, List, [], ◌∷◌}
use rekor_monitor.Rekor.V2.Client.{ShardInfo}
use rekor_monitor.Rekor.V2.Search.{lookup_shard}
use rekor_monitor.Rekor.V2.Verifier.{Proving, run_consistency_check}
use rekor_monitor.Rekor.V2.Verifier.Consistency.{Previous, run_consistency_check-Previous_v2}
use rekor_monitor.Util.File.{Disk}

-- A proof is the size that it leads to.
abbrev pub proving : Proving ℕ ℕ
proving = record {
  unmarshal = λ s. ok (record { origin = s; size = 3; hash = "h" });
  new_proof_builder = λ size read. ok size;
  consistency_proof = λ b old new. ok new;
  verify_consistency = λ old new p h k. none;
  stat = λ f. none;
  open_error = λ f. none;
}

abbrev shard : String → ℕ → ShardInfo
shard origin size = record {
  client = record {
    read_checkpoint = ok (record { origin = origin; size = size; hash = "h" });
    read_entry_bundle = λ t p. err (msg "not asked");
    read_tile = λ l t p. err (msg "not asked");
  };
  verifier = "key";
  validity_end = 0;
}

abbrev shards : List (String × ShardInfo)
shards = ("new", shard "new" 2) ∷ ("old", shard "old" 5) ∷ []

abbrev stored : Disk
stored = λ f. some "old\n"

run_consistency_check-Previous_v2_example :
    IfOk
      (λ r.
        ((lookup_shard "new" shards).client.read_checkpoint ≡ ok r.1)
        × Previous proving shards "new" r.1 "log_info.txt" stored r.0)
      (run_consistency_check proving shards "new" "log_info.txt" stored)
run_consistency_check-Previous_v2_example =
    run_consistency_check-Previous_v2 proving shards "new" "log_info.txt" stored
