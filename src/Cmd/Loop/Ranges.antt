-- ===== src/Cmd/Loop/Ranges.antt =====
-- The ranges that the loop searches, from one run to the next.
use rekor_monitor.Base.{
  ◌≡◌, refl, Bool, true, false, not, ◌||◌, if_rule, Result_rule, Result_ok_rule, All, ok, Option,
  none, some, List, [], ◌∷◌, ◌++◌, is_some, arith,
}
use rekor_monitor.Base.Int.{ℤ, ◌≤ℤ◌, ltb_ℤ}
use rekor_monitor.Identity.{MonitoredIdentity, FailedLogEntry}
use rekor_monitor.Identity.Values.{monitored_values_exist}
use rekor_monitor.Notifications.{
  IdentityMonitorConfiguration, Payload, create_notification_pool, trigger_notifications,
}
use rekor_monitor.Cmd.Loop.{
  MonitorLogic, RunEnv, wrote, searched, Status, waiting, LoopState, Outcome, after, start_index,
  end_index, assign_indices, advance, write_phase, notify, search_found, search_range, search_phase,
  checked_phase, run, wait_for_tick, monitor_loop,
}
use rekor_monitor.Util.File.{Disk}
use rekor_monitor.Cmd.Loop.Chains.{
  Follows, ChainFrom, ChainFrom-none, IsChained, stopped-IsChained, crashed-IsChained,
  waiting-IsChained, sent-IsChained, wrote-IsChained, checked-IsChained, ChainFrom-over,
  ChainFrom-then, Status_rule,
}

-- What the checks of a run return, when they succeed, has an end index.
abbrev pub HasEnd :
    {Checkpoint LogInfo : Type 0}
    → MonitorLogic Checkpoint LogInfo
    → RunEnv Checkpoint LogInfo
    → Type 0
HasEnd {Checkpoint} {LogInfo} logic env =
    (disk : Disk) (prev : Option Checkpoint) (cur : LogInfo)
    → env.run_consistency_check disk ≡ ok (prev, cur)
    → is_some (logic.get_end_index cur) ≡ true

module _ {Checkpoint LogInfo : Type 0} (logic : MonitorLogic Checkpoint LogInfo) where
  module _ (env : RunEnv Checkpoint LogInfo) where
    write_phase-IsChained :
        (bounded : Bool) (prev : Option Checkpoint) (cur : LogInfo) (s : LoopState)
        → IsChained s.config.start_index (write_phase logic env bounded prev cur s)
    unfolding write_phase
    write_phase-IsChained bounded prev cur s =
        let s' = record s { disk = (env.write_checkpoint prev cur s.disk).1 } in
        Result_rule (IsChained s.config.start_index) (env.write_checkpoint prev cur s.disk).0 _ _ _
          (λ _.
            if_rule (λ st. IsChained s.config.start_index (st, wrote ∷ [], s'))
              (logic.once || bounded) _ _ (λ _. wrote-IsChained (stopped-IsChained s'))
              (λ _. wrote-IsChained (waiting-IsChained s')))
          (λ e. wrote-IsChained (stopped-IsChained s'))
          (λ p. wrote-IsChained (crashed-IsChained p s'))

    notify-IsChained :
        {last : Option ℤ} (config : IdentityMonitorConfiguration) (wanted : Bool) (p : Payload)
        (s : LoopState) (next : Outcome)
        → IsChained last next
        → IsChained last (notify logic env config wanted p s next)
    unfolding notify
    notify-IsChained {last} config wanted p s next h =
        if_rule (IsChained last) (not wanted) _ _ (λ _. h)
          (λ _.
            Result_rule (IsChained last)
              (trigger_notifications env.send (create_notification_pool config)
                (record { context = env.notification_context_new; payload = p })).1
              _ _ _ (λ _. sent-IsChained p _ h) (λ e. sent-IsChained p _ (stopped-IsChained s))
              (λ q. sent-IsChained p _ (crashed-IsChained q s)))

    search_found-IsChained :
        {last : Option ℤ} (found : List MonitoredIdentity) (failed : List FailedLogEntry)
        (s : LoopState) (next : Outcome)
        → IsChained last next
        → IsChained last (search_found logic env found failed s next)
    unfolding search_found
    search_found-IsChained found failed s next h =
        notify-IsChained s.config _ _ s _ (notify-IsChained s.config _ _ s next h)

    searched-IsChained :
        (a b : ℤ) (last : Option ℤ) (out : Outcome)
        → Follows last (some a)
        → a ≤ℤ b
        → IsChained (some b) out
        → IsChained last (after (searched (some a) (some b) ∷ []) out)
    searched-IsChained a b last out f le h = record { at = λ rest k. (f, le, h.at rest k) }

    search_range-IsChained :
        (a b : ℤ) (last : Option ℤ) (s : LoopState) (next : LoopState → Outcome)
        → Follows last (some a)
        → ((d : Disk) → IsChained (some b) (next (record s { disk = d })))
        → IsChained last (search_range logic env a b s next)
    unfolding search_range
    search_range-IsChained a b last s next f h =
        let (r, d) = env.identity_search s.config logic.monitored_values s.disk in
        let s' = record s { disk = d } in
        if_rule (IsChained last) (ltb_ℤ b a) _ _ (λ _. stopped-IsChained s)
          λ forward. searched-IsChained a b last _ f (ground arith) (
            Result_rule (IsChained (some b)) r _ _ _
              (λ x. search_found-IsChained x.0 x.1 s' (next s') (h d)) (λ e. stopped-IsChained s')
              (λ p. crashed-IsChained p s'))

    search_phase-IsChained :
        (a b last : Option ℤ) (s : LoopState) (next : LoopState → Outcome)
        → is_some b ≡ true
        → (is_some a ≡ true → Follows last a)
        → (is_some a ≡ false → last ≡ none)
        → ((d : Disk) → IsChained b (next (record s { disk = d })))
        → IsChained last (search_phase logic env a b s next)
    unfolding search_phase
    search_phase-IsChained (some a) (some b) last s next w f g h =
        search_range-IsChained a b last s next (f refl) h
    search_phase-IsChained none b last s next w f g h = record {
      at = λ rest k. rw (g refl) (ChainFrom-none b ((next s).1 ++ rest) ((h s.disk).at rest k));
    }
    search_phase-IsChained (some a) none last s next w f g h = cc

    -- The index that a run starts from is the last one, where there is one.
    start_index-Follows :
        (i : Option ℤ) (prev : Option Checkpoint) (cur : LogInfo)
        → Follows i (start_index logic i prev cur)
    start_index-Follows none prev cur = tt
    start_index-Follows (some i) prev cur = refl

    start_index-none :
        (i : Option ℤ) (prev : Option Checkpoint) (cur : LogInfo)
        → is_some (start_index logic i prev cur) ≡ false
        → i ≡ none
    start_index-none none prev cur h = refl
    start_index-none (some i) prev cur h = cc

    end_index-is_some :
        (i : Option ℤ) (cur : LogInfo)
        → is_some (logic.get_end_index cur) ≡ true
        → is_some (end_index logic i cur) ≡ true
    end_index-is_some none cur h = h
    end_index-is_some (some i) cur h = refl

    checked_phase-IsChained :
        (bounded : Bool) (prev : Option Checkpoint) (cur : LogInfo) (s : LoopState)
        → is_some (logic.get_end_index cur) ≡ true
        → IsChained s.config.start_index (checked_phase logic env bounded prev cur s)
    unfolding checked_phase assign_indices advance
    checked_phase-IsChained bounded prev cur s total =
        let last : Option ℤ = s.config.start_index in
        if_rule (IsChained last) (monitored_values_exist logic.monitored_values) _ _
          (λ _.
            search_phase-IsChained _ _ last _ _ (end_index-is_some s.config.end_index cur total)
              (λ _. start_index-Follows last prev cur) (start_index-none last prev cur)
              (λ d. write_phase-IsChained bounded prev cur _))
          (λ _. write_phase-IsChained bounded prev cur s)

    run-IsChained :
        (s : LoopState) → HasEnd logic env → IsChained s.config.start_index (run logic env s)
    unfolding run
    run-IsChained s total = checked-IsChained (
        Result_ok_rule (IsChained s.config.start_index) (env.run_consistency_check s.disk) _ _ _
          (λ x e.
            checked_phase-IsChained (is_some s.config.end_index) x.0 x.1 _ (total s.disk x.0 x.1 e))
          (λ e.
            if_rule (IsChained s.config.start_index) logic.once _ _ (λ _. stopped-IsChained _)
              (λ _. waiting-IsChained _))
          (λ p. crashed-IsChained p _))

module _ {Checkpoint LogInfo : Type 0} (logic : MonitorLogic Checkpoint LogInfo) where
  pub wait_for_tick-waiting :
      (env : RunEnv Checkpoint LogInfo) (st : Status)
      → wait_for_tick logic env st ≡ waiting
      → st ≡ waiting
  unfolding wait_for_tick
  wait_for_tick-waiting env st h = ground arith

  -- Whatever the log, the searches and the notifications do, over all runs of the loop every
  -- search starts at the index where the search before it ended (the first one at the configured
  -- start index, if there is one) and does not go backwards. The condition is that what a
  -- check returns, when it succeeds, has an end index.
  pub monitor_loop-ChainFrom :
      (envs : List (RunEnv Checkpoint LogInfo)) (s : LoopState)
      → All (HasEnd logic) envs
      → ChainFrom s.config.start_index (monitor_loop logic envs s).1
  unfolding monitor_loop
  monitor_loop-ChainFrom [] s total = tt
  monitor_loop-ChainFrom (env ∷ envs) s total =
      let out : Outcome = run logic env s in
      let chained : IsChained s.config.start_index out = run-IsChained logic env s total.0 in
      Status_rule (λ o. ChainFrom s.config.start_index o.1) (wait_for_tick logic env out.0) _ _ _
        (λ e.
          ChainFrom-then out _ chained (wait_for_tick-waiting env out.0 e)
            (monitor_loop-ChainFrom envs out.2 total.1))
        (ChainFrom-over out chained) (λ p. ChainFrom-over out chained)
