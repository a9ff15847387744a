-- ===== src/Cmd/Loop/Metrics.antt =====
-- How often the loop runs, and the metrics of pkg/server/metrics.go.
use rekor_monitor.Base.{
  ℕ, suc, ◌≢◌, ◌&&◌, ◌+◌, ◌≤◌, ◌≡◌, Bool, true, false, not, Result, err, is_ok, List, [], ◌∷◌, ◌++◌,
  is_some, arith, if◌then◌else◌,
}
use rekor_monitor.Cmd.Loop.{
  MonitorLogic, RunEnv, Call, checked, wrote, searched, sent, waiting, LoopState, assign_indices,
  advance, run, wait_for_tick, monitor_loop,
}

abbrev pub count_checks : List Call → ℕ
count_checks [] = 0
count_checks (checked ∷ calls) = suc (count_checks calls)
count_checks (wrote ∷ calls) = count_checks calls
count_checks (searched a b ∷ calls) = count_checks calls
count_checks (sent p l ∷ calls) = count_checks calls

count_checks-append :
    (xs ys : List Call) → count_checks (xs ++ ys) ≡ count_checks xs + count_checks ys
count_checks-append [] ys = omega arith
count_checks-append (checked ∷ xs) ys = omega (arith, count_checks-append xs ys)
count_checks-append (wrote ∷ xs) ys = count_checks-append xs ys
count_checks-append (searched a b ∷ xs) ys = count_checks-append xs ys
count_checks-append (sent p l ∷ xs) ys = count_checks-append xs ys

abbrev is_err {ℓ} : {A : Type ℓ} → Result A → Bool
is_err (err _) = true
is_err _ = false

module _ {Checkpoint LogInfo : Type 0} (logic : MonitorLogic Checkpoint LogInfo) where
  run-total :
      (env : RunEnv Checkpoint LogInfo) (s : LoopState)
      → (run logic env s).2.log_index_verification_total ≡ s.log_index_verification_total + 1
  unfolding run advance assign_indices
  run-total env s = ground arith

  run-failure :
      (env : RunEnv Checkpoint LogInfo) (s : LoopState)
      → (run logic env s).2.log_index_verification_failure
        ≡ s.log_index_verification_failure
          + (if is_err (env.run_consistency_check s.disk) && not logic.once then 1 else 0)
  unfolding run advance assign_indices
  run-failure env s = ground arith

  run-checks :
      (env : RunEnv Checkpoint LogInfo) (s : LoopState) → count_checks (run logic env s).1 ≡ 1
  unfolding run
  run-checks env s = ground arith

  -- The metric of all checks grows by the checks that the loop makes, one a run, and the metric
  -- of failed checks by no more than these.
  pub monitor_loop_metrics :
      (envs : List (RunEnv Checkpoint LogInfo)) (s : LoopState)
      → let (status, calls, s') = monitor_loop logic envs s in
        (s'.log_index_verification_total ≡ s.log_index_verification_total + count_checks calls)
        × (s'.log_index_verification_failure
            ≤ s.log_index_verification_failure + count_checks calls)
  unfolding monitor_loop
  monitor_loop_metrics [] s = omega arith
  monitor_loop_metrics (env ∷ envs) s = ground (
    arith,
    run-total env s,
    run-failure env s,
    run-checks env s,
    count_checks-append (run logic env s).1 (monitor_loop logic envs (run logic env s).2).1,
    monitor_loop_metrics envs (run logic env s).2,
  )

  run_ends :
      (env : RunEnv Checkpoint LogInfo) (s : LoopState)
      → logic.once ≡ true
      → (run logic env s).0 ≢ waiting
  unfolding run
  run_ends env s h e = ground arith

  -- A monitor that is to run once ends after one run, whatever happens in it: it makes one
  -- consistency check, does not wait for a tick, and leaves the metric of failures alone.
  pub monitor_loop_once :
      (env : RunEnv Checkpoint LogInfo) (envs : List (RunEnv Checkpoint LogInfo)) (s : LoopState)
      → logic.once ≡ true
      → let (status, calls, s') = monitor_loop logic (env ∷ envs) s in
        (status ≢ waiting)
        × (count_checks calls ≡ 1)
        × (s'.log_index_verification_failure ≡ s.log_index_verification_failure)
  unfolding monitor_loop wait_for_tick
  monitor_loop_once env envs s h =
      ground (arith, run_ends env s h, run-checks env s, run-failure env s)

  run_bounded :
      (env : RunEnv Checkpoint LogInfo) (s : LoopState)
      → is_ok (env.run_consistency_check s.disk) ≡ true
      → is_some s.config.end_index ≡ true
      → (run logic env s).0 ≢ waiting
  unfolding run
  run_bounded env s c h e = ground arith

  -- A run whose check succeeds and for an end index was configured is the last one.
  pub monitor_loop_bounded :
      (env : RunEnv Checkpoint LogInfo) (envs : List (RunEnv Checkpoint LogInfo)) (s : LoopState)
      → is_ok (env.run_consistency_check s.disk) ≡ true
      → is_some s.config.end_index ≡ true
      → let (status, calls, s') = monitor_loop logic (env ∷ envs) s in
        (status ≢ waiting) × (count_checks calls ≡ 1)
  unfolding monitor_loop wait_for_tick
  monitor_loop_bounded env envs s c h = ground (arith, run_bounded env s c h, run-checks env s)
