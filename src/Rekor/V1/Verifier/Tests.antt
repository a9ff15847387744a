-- ===== src/Rekor/V1/Verifier/Tests.antt =====
-- A log whose checkpoint file holds the text of a checkpoint.
use rekor_monitor.Base.{none, some, ok, IfOk, true, []}
use rekor_monitor.Rekor.V1.Client.Tests.{numbers}
use rekor_monitor.Rekor.V1.Search.{SignedCheckpoint}
use rekor_monitor.Rekor.V1.Verifier.{Checking, run_consistency_check}
use rekor_monitor.Rekor.V1.Verifier.Consistency.{
  IsCurrent, Previous, run_consistency_check-Previous,
}
use rekor_monitor.Util.File.{Disk}
use rekor_monitor.Util.Retry.Tests.{tenths}

abbrev checking : Checking
checking = record {
  unmarshal_text = λ s. ok (record { origin = s; size = 3; hash = "h"; signatures = [] });
  verify = λ c. true;
  prove_consistency = λ a b t. none;
  stat = λ f. none;
  open_error = λ f. none;
}

abbrev stored : Disk
stored = λ f. some "log\n"

run_consistency_check-Previous_example :
    IfOk
      (λ r.
        (cur : SignedCheckpoint) × IsCurrent checking r.1 cur
        × Previous checking "log_info.txt" r.1.tree_id stored cur r.0)
      (run_consistency_check checking tenths numbers "log_info.txt" stored)
run_consistency_check-Previous_example =
    run_consistency_check-Previous checking tenths numbers "log_info.txt" stored
