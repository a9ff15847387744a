-- ===== src/Cmd/Loop/Lifetimes/Gaps.antt =====
-- How the searches of a monitor follow on each other over all its lifetimes.
use rekor_monitor.Base.{◌≡◌, refl, sym, subst, true, Option, none, List, [], ◌∷◌, append-nil, All}
use rekor_monitor.Base.Int.{ℤ}
use rekor_monitor.Cmd.Loop.{
  MonitorLogic, RunEnv, Status, waiting, stopped, crashed, LoopState, Outcome, run, wait_for_tick,
  monitor_loop,
}
use rekor_monitor.Cmd.Loop.Chains.{Follows, Status_rule}
use rekor_monitor.Cmd.Loop.Lifetimes.{started, lifetimes, GapFree, KeepsPosition}
use rekor_monitor.Cmd.Loop.Lifetimes.Covered.{
  Follows-refl, Covers, Covers-weaken, IsReady, Rest, IsCovered, run-IsCovered,
}
use rekor_monitor.Cmd.Loop.Ranges.{wait_for_tick-waiting}
use rekor_monitor.Identity.Values.{monitored_values_exist}
use rekor_monitor.Notifications.{IdentityMonitorConfiguration}
use rekor_monitor.Util.File.{Disk}

module _ {Checkpoint LogInfo : Type 0} (logic : MonitorLogic Checkpoint LogInfo)
    (position : Disk → Option ℤ) (given : IdentityMonitorConfiguration) where
  nothing_more : (st : Status) (s : LoopState) → Rest logic position given st s [] (position s.disk)
  nothing_more waiting s = λ ready. (tt, Follows-refl (position s.disk))
  nothing_more stopped s = (refl, refl)
  nothing_more (crashed p) s = (refl, refl)

  -- A lifetime that ends with a run.
  Covers-over :
      {reached : Option ℤ} (out : Outcome)
      → IsCovered logic position given reached reached out
      → Covers reached reached out.1 (position out.2.disk)
  Covers-over {reached} out h =
      rw append-nil at (h.at [] (position out.2.disk) (nothing_more out.0 out.2))

  pub monitor_loop-Covers :
      (envs : List (RunEnv Checkpoint LogInfo)) (s : LoopState)
      → monitored_values_exist logic.monitored_values ≡ true
      → All (KeepsPosition logic position given) envs
      → IsReady logic position given s
      → let (status, calls, s') = monitor_loop logic envs s in
        Covers (position s.disk) (position s.disk) calls (position s'.disk)
  unfolding monitor_loop
  monitor_loop-Covers [] s exist keeps ready = (tt, Follows-refl (position s.disk))
  monitor_loop-Covers (env ∷ envs) s exist keeps ready =
      let here : Option ℤ = position s.disk in
      let out : Outcome = run logic env s in
      let covered : IsCovered logic position given here here out =
        run-IsCovered logic position given env keeps.0 s exist ready in
      Status_rule (λ o. Covers here here o.1 (position o.2.disk)) (wait_for_tick logic env out.0) _
        _ _
        (λ e.
          let (status, calls, s') = monitor_loop logic envs out.2 in
          covered.at calls (position s'.disk) (
            subst (λ st. Rest logic position given st out.2 calls (position s'.disk))
              (sym (wait_for_tick-waiting logic env out.0 e))
              (monitor_loop-Covers envs out.2 exist keeps.1)))
        (Covers-over out covered) (λ p. Covers-over out covered)

  -- However often a monitor is started, with no indices configured, and whatever happens in its
  -- lifetimes: the first search of each starts at the end of the last search before it that was
  -- followed by a write of the checkpoint, and every other one where the one before it ended. It
  -- holds if a run begins at the position on the disk, and only its write of the checkpoint moves
  -- that position, to the end of the run.
  pub lifetimes-GapFree :
      (lives : List (List (RunEnv Checkpoint LogInfo))) (disk : Disk) (last : Option ℤ)
      → monitored_values_exist logic.monitored_values ≡ true
      → given.start_index ≡ none
      → given.end_index ≡ none
      → All (All (KeepsPosition logic position given)) lives
      → Follows last (position disk)
      → GapFree last (lifetimes logic given lives disk)
  unfolding lifetimes
  lifetimes-GapFree [] disk last exist start end keeps f = tt
  lifetimes-GapFree (envs ∷ more) disk last exist start end keeps f =
      let (status, calls, s') = monitor_loop logic envs (started given disk) in
      let covers : Covers last last calls (position s'.disk) =
        Covers-weaken last (position disk) calls (position s'.disk) f (
          monitor_loop-Covers envs (started given disk) exist keeps.0
            (record { aligned = rw start tt; unbounded = end; same_files = (refl, refl) })) in
      (covers.0, lifetimes-GapFree more s'.disk _ exist start end keeps.1 covers.1)
