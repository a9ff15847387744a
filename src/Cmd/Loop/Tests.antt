-- ===== src/Cmd/Loop/Tests.antt =====
-- A monitor of a log that grows by ten entries a run.
use rekor_monitor.Base.{ℕ, ◌+◌, ◌≤◌, ◌≡◌, ◌≢◌, refl, Bool, true, false, none, some, ok, [], ◌∷◌}
use rekor_monitor.Base.Int.{pos}
use rekor_monitor.Identity.Tests.{watched}
use rekor_monitor.Notifications.Tests.{config}
use rekor_monitor.Cmd.Loop.{MonitorLogic, RunEnv, LoopState, waiting, run, monitor_loop}
use rekor_monitor.Cmd.Loop.Chains.{ChainFrom}
use rekor_monitor.Cmd.Loop.Ranges.{monitor_loop-ChainFrom}
use rekor_monitor.Cmd.Loop.Orders.{WritesLast, has_write, MayWrite, run-MayWrite}
use rekor_monitor.Cmd.Loop.Metrics.{
  count_checks, monitor_loop_metrics, monitor_loop_once, monitor_loop_bounded,
}

-- A checkpoint and a log info are sizes.
abbrev logic : Bool → MonitorLogic ℕ ℕ
logic once = record {
  once = once;
  monitored_values = watched;
  get_start_index = λ prev cur. some (pos prev);
  get_end_index = λ cur. some (pos cur);
}

abbrev grown : ℕ → RunEnv ℕ ℕ
grown size = record {
  run_consistency_check = λ d. ok (some size, size + 10);
  identity_search = λ c mvs d. (ok ([], []), d);
  notification_context_new = record { monitor_type = "rekor"; subject = "monitor" };
  send = λ p d. none;
  write_checkpoint = λ prev cur d. (ok tt, d);
  ticks = true;
}

abbrev start : LoopState
start = record {
  config = config;
  log_index_verification_total = 0;
  log_index_verification_failure = 0;
  disk = λ name. none;
}

abbrev bounded : LoopState
bounded = record start { config = record config { end_index = some (pos 8) } }

monitor_loop-ChainFrom_example :
    ChainFrom (some (pos 3)) (monitor_loop (logic false) (grown 10 ∷ grown 20 ∷ []) start).1
monitor_loop-ChainFrom_example =
    monitor_loop-ChainFrom (logic false) (grown 10 ∷ grown 20 ∷ []) start
      ((λ d prev cur e. refl), ((λ d prev cur e. refl), tt))

run-MayWrite_example :
    WritesLast (run (logic false) (grown 10) start).1
    × (has_write (run (logic false) (grown 10) start).1 ≡ true
        → MayWrite (logic false) (grown 10) start (ok (some 10, 20)))
run-MayWrite_example = run-MayWrite (logic false) (grown 10) start

monitor_loop_metrics_example :
    let (status, calls, s') = monitor_loop (logic false) (grown 10 ∷ grown 20 ∷ []) start in
    (s'.log_index_verification_total ≡ 0 + count_checks calls)
    × (s'.log_index_verification_failure ≤ 0 + count_checks calls)
monitor_loop_metrics_example = monitor_loop_metrics (logic false) (grown 10 ∷ grown 20 ∷ []) start

monitor_loop_once_example :
    let (status, calls, s') = monitor_loop (logic true) (grown 10 ∷ []) start in
    (status ≢ waiting) × (count_checks calls ≡ 1) × (s'.log_index_verification_failure ≡ 0)
monitor_loop_once_example = monitor_loop_once (logic true) (grown 10) [] start refl

monitor_loop_bounded_example :
    let (status, calls, s') = monitor_loop (logic false) (grown 10 ∷ []) bounded in
    (status ≢ waiting) × (count_checks calls ≡ 1)
monitor_loop_bounded_example = monitor_loop_bounded (logic false) (grown 10) [] bounded refl refl
