-- ===== src/Cmd/Loop/Orders.antt =====
-- What a run of the loop has done before it writes the checkpoint.
use rekor_monitor.Base.{
  ◌≡◌, refl, Bool, true, false, not, Option, none, some, Result, ok, err, panic, is_ok, List, [],
  ◌∷◌, is_some, if◌then◌else◌, if_rule, Result_rule,
}
use rekor_monitor.Base.Int.{ℤ, ltb_ℤ}
use rekor_monitor.Identity.{MonitoredIdentity, FailedLogEntry}
use rekor_monitor.Identity.Values.{monitored_values_exist}
use rekor_monitor.Notifications.{
  IdentityMonitorConfiguration, NotificationPlatform, Payload, create_notification_pool,
  trigger_notifications,
}
use rekor_monitor.Util.File.{Disk}
use rekor_monitor.Cmd.Loop.{
  MonitorLogic, RunEnv, Call, checked, wrote, searched, sent, Status, waiting, stopped, crashed,
  LoopState, Outcome, after, assign_indices, write_phase, notify, search_found, search_range,
  search_phase, checked_phase, run,
}

abbrev pub has_write : List Call → Bool
has_write [] = false
has_write (wrote ∷ calls) = true
has_write (checked ∷ calls) = has_write calls
has_write (searched a b ∷ calls) = has_write calls
has_write (sent p l ∷ calls) = has_write calls

-- A write of the checkpoint is the last call.
abbrev pub WritesLast : List Call → Type 0
WritesLast [] = Unit
WritesLast (wrote ∷ calls) = calls ≡ []
WritesLast (checked ∷ calls) = WritesLast calls
WritesLast (searched a b ∷ calls) = WritesLast calls
WritesLast (sent p l ∷ calls) = WritesLast calls

module _ {Checkpoint LogInfo : Type 0} (logic : MonitorLogic Checkpoint LogInfo) where
  -- The search that a run makes, if it has both indices, returned a result.
  abbrev pub SearchReturned :
      RunEnv Checkpoint LogInfo → IdentityMonitorConfiguration → Disk → Option ℤ → Option ℤ → Type 0
  SearchReturned env config disk (some a) (some b) =
      is_ok (env.identity_search config logic.monitored_values disk).0 ≡ true
  SearchReturned env config disk _ _ = Unit

  -- What holds once the checkpoint is written, for what the consistency check returned.
  abbrev pub MayWrite :
      RunEnv Checkpoint LogInfo → LoopState → Result (Option Checkpoint × LogInfo) → Type 0
  MayWrite env s (ok (prev, cur)) =
      monitored_values_exist logic.monitored_values ≡ true
      → SearchReturned env (assign_indices logic s.config prev cur) s.disk
          (assign_indices logic s.config prev cur).start_index
          (assign_indices logic s.config prev cur).end_index
  MayWrite env s _ = ⊥

  module _ (env : RunEnv Checkpoint LogInfo) where
    record Writes (P : Type 0) (out : Outcome) : Type 0 where
      last : WritesLast out.1
      justified : has_write out.1 ≡ true → P

    silent : (P : Type 0) (st : Status) (s : LoopState) → Writes P (st, [], s)
    silent P st s = record { last = tt; justified = λ h. cc }

    write_phase-Writes :
        (P : Type 0) (bounded : Bool) (prev : Option Checkpoint) (cur : LogInfo) (s : LoopState)
        → P
        → Writes P (write_phase logic env bounded prev cur s)
    unfolding write_phase
    write_phase-Writes P bounded prev cur s h =
        Result_rule (Writes P) (env.write_checkpoint prev cur s.disk).0 _ _ _
          (λ _. record { last = refl; justified = λ w. h })
          (λ e. record { last = refl; justified = λ w. h })
          (λ p. record { last = refl; justified = λ w. h })

    sent-Writes :
        {P : Type 0} (p : Payload) (l : List NotificationPlatform) (out : Outcome)
        → Writes P out
        → Writes P (after (sent p l ∷ []) out)
    sent-Writes p l out h = record { last = h.last; justified = h.justified }

    notify-Writes :
        {P : Type 0} (config : IdentityMonitorConfiguration) (wanted : Bool) (p : Payload)
        (s : LoopState) (next : Outcome)
        → Writes P next
        → Writes P (notify logic env config wanted p s next)
    unfolding notify
    notify-Writes {P} config wanted p s next h =
        if_rule (Writes P) (not wanted) _ _ (λ _. h)
          λ _.
            Result_rule (Writes P)
              (trigger_notifications env.send (create_notification_pool config)
                (record { context = env.notification_context_new; payload = p })).1
              _ _ _ (λ _. sent-Writes p _ next h)
              (λ e. sent-Writes p _ (stopped, [], s) (silent P stopped s))
              (λ q. sent-Writes p _ (crashed q, [], s) (silent P (crashed q) s))

    search_found-Writes :
        {P : Type 0} (found : List MonitoredIdentity) (failed : List FailedLogEntry) (s : LoopState)
        (next : Outcome)
        → Writes P next
        → Writes P (search_found logic env found failed s next)
    unfolding search_found
    search_found-Writes found failed s next h =
        notify-Writes s.config _ _ s _ (notify-Writes s.config _ _ s next h)

    searched-Writes :
        (P : Type 0) (a b : Option ℤ) (out : Outcome)
        → Writes P out
        → Writes P (after (searched a b ∷ []) out)
    searched-Writes P a b out h = record { last = h.last; justified = h.justified }

    -- A search that fails ends the run before the checkpoint is written.
    searched_result :
        (P : Type 0) (r : Result (List MonitoredIdentity × List FailedLogEntry)) (s : LoopState)
        (next : Outcome)
        → (is_ok r ≡ true → Writes P next)
        → Writes P (elim r [
          | ok (found, failed) ↦ search_found logic env found failed s next
          | err e ↦ (stopped, [], s)
          | panic p ↦ (crashed p, [], s)
        ])
    searched_result P (ok x) s next h = search_found-Writes x.0 x.1 s next (h refl)
    searched_result P (err e) s next h = silent P stopped s
    searched_result P (panic p) s next h = silent P (crashed p) s

    search_range-Writes :
        (P : Type 0) (a b : ℤ) (s : LoopState) (next : LoopState → Outcome)
        → (is_ok (env.identity_search s.config logic.monitored_values s.disk).0 ≡ true
            → (s' : LoopState) → Writes P (next s'))
        → Writes P (search_range logic env a b s next)
    unfolding search_range
    search_range-Writes P a b s next h =
        let (r, d) = env.identity_search s.config logic.monitored_values s.disk in
        let s' = record s { disk = d } in
        if_rule (Writes P) (ltb_ℤ b a) _ _ (λ _. silent P stopped s)
          λ _.
            searched-Writes P (some a) (some b) _
              (searched_result P r s' (next s') (λ returned. h returned s'))

    search_phase-Writes :
        (P : Type 0) (a b : Option ℤ) (s : LoopState) (next : LoopState → Outcome)
        → (SearchReturned env s.config s.disk a b → (s' : LoopState) → Writes P (next s'))
        → Writes P (search_phase logic env a b s next)
    unfolding search_phase
    search_phase-Writes P (some a) (some b) s next h = search_range-Writes P a b s next h
    search_phase-Writes P (some a) none s next h = h tt s
    search_phase-Writes P none b s next h = h tt s

    checked_phase-Writes :
        (P : Type 0) (bounded : Bool) (prev : Option Checkpoint) (cur : LogInfo) (s : LoopState)
        → ((monitored_values_exist logic.monitored_values ≡ true
              → SearchReturned env
                  (assign_indices logic s.config prev cur)
                  s.disk
                  (assign_indices logic s.config prev cur).start_index
                  (assign_indices logic s.config prev cur).end_index)
            → P)
        → Writes P (checked_phase logic env bounded prev cur s)
    unfolding checked_phase
    checked_phase-Writes P bounded prev cur s h =
        if_rule (Writes P) (monitored_values_exist logic.monitored_values) _ _
          (λ e.
            search_phase-Writes P _ _ _ _
              (λ returned s'. write_phase-Writes P bounded prev cur _ (h (λ _. returned))))
          (λ e. write_phase-Writes P bounded prev cur s (h (λ e'. cc)))

    after_check :
        (r : Result (Option Checkpoint × LogInfo)) (s total failed : LoopState)
        → total.config ≡ s.config
        → total.disk ≡ s.disk
        → Writes (MayWrite env s r) (
            after (checked ∷ []) (elim r [
              | ok (prev, cur) ↦ checked_phase logic env (is_some s.config.end_index) prev cur total
              | err e ↦ if logic.once then (stopped, [], total) else (waiting, [], failed)
              | panic p ↦ (crashed p, [], total)
            ]))
    after_check (ok x) s total failed e d =
        let w : Writes (MayWrite env s (ok x))
            (checked_phase logic env (is_some s.config.end_index) x.0 x.1 total) =
          checked_phase-Writes _ _ x.0 x.1 total (rw (e, d) (λ h. h)) in
        record { last = w.last; justified = w.justified }
    after_check (err x) s total failed e d =
        if_rule (λ o. Writes (MayWrite env s (err x)) (after (checked ∷ []) o)) logic.once _ _
          (λ _. record { last = tt; justified = λ h. cc })
          (λ _. record { last = tt; justified = λ h. cc })
    after_check (panic p) s total failed e d = record { last = tt; justified = λ h. cc }

    run-Writes :
        (s : LoopState)
        → Writes (MayWrite env s (env.run_consistency_check s.disk)) (run logic env s)
    unfolding run
    run-Writes s = after_check (env.run_consistency_check s.disk) s _ _ refl refl

    -- In a run the checkpoint is written last and at most once, and only after the consistency
    -- check has succeeded and, where there are values to look for and both indices are known,
    -- the search of that range has returned a result.
    pub run-MayWrite :
        (s : LoopState)
        → WritesLast (run logic env s).1
          × (has_write (run logic env s).1 ≡ true
              → MayWrite env s (env.run_consistency_check s.disk))
    run-MayWrite s = ((run-Writes s).last, (run-Writes s).justified)
