-- ===== src/Cmd/Loop.antt =====
-- MonitorLoop of internal/cmd/common.go. The interface MonitorLogic is split in two: what a monitor
-- fixes, and what its calls return in one run, for the disk that they find. A run returns its calls
-- in the order in which they are made, so that orderings can be stated.
pub mod Chains
pub mod Ranges
pub mod Orders
pub mod Metrics
pub mod Lifetimes
pub mod Tests
use rekor_monitor.Base.{
  ℕ, ◌+◌, Bool, true, false, not, ◌||◌, Option, none, some, Error, Result, ok, err, panic, String,
  List, [], ◌∷◌, ◌++◌, is_empty, is_some, if◌then◌else◌,
}
use rekor_monitor.Base.Int.{ℤ, ltb_ℤ}
use rekor_monitor.Identity.{MonitoredValues, MonitoredIdentity, FailedLogEntry}
use rekor_monitor.Identity.Values.{monitored_values_exist}
use rekor_monitor.Notifications.{
  NotificationContext, NotificationPlatform, NotificationData, Payload, monitored_identity_list,
  failed_log_entry_list, IdentityMonitorConfiguration, create_notification_pool,
  trigger_notifications,
}
use rekor_monitor.Util.File.{Disk, Written}

pub record MonitorLogic (Checkpoint LogInfo : Type 0) : Type 0 where
  pub once : Bool
  pub monitored_values : MonitoredValues
  pub get_start_index : Checkpoint → LogInfo → Option ℤ
  pub get_end_index : LogInfo → Option ℤ

pub record RunEnv (Checkpoint LogInfo : Type 0) : Type 0 where
  pub run_consistency_check : Disk → Result (Option Checkpoint × LogInfo)
  pub identity_search :
      IdentityMonitorConfiguration
      → MonitoredValues
      → Disk
      → Result (List MonitoredIdentity × List FailedLogEntry) × Disk
  pub notification_context_new : NotificationContext
  pub send : NotificationPlatform → NotificationData → Option Error
  pub write_checkpoint : Option Checkpoint → LogInfo → Disk → Written
  -- whether the ticker fires before the context is done
  pub ticks : Bool

-- `searched start end` is a call of IdentitySearch for that range.
pub data Call : Type 0 where
  checked wrote : Call
  searched : Option ℤ → Option ℤ → Call
  sent : Payload → List NotificationPlatform → Call

-- `waiting` is `goto waitForTick`, `stopped` is a return.
pub data Status : Type 0 where
  waiting stopped : Status
  crashed : String → Status

-- The configuration, which the loop mutates, the two metrics of pkg/server/metrics.go, and the disk.
pub record LoopState : Type 0 where
  pub config : IdentityMonitorConfiguration
  pub log_index_verification_total : ℕ
  pub log_index_verification_failure : ℕ
  pub disk : Disk

abbrev pub Outcome : Type 0
Outcome = Status × List Call × LoopState

abbrev pub after : List Call → Outcome → Outcome
after calls (status, more, s) = (status, calls ++ more, s)

module _ {Checkpoint LogInfo : Type 0} (logic : MonitorLogic Checkpoint LogInfo) where
  -- The two indices, where the configuration does not give them.
  abbrev pub start_index : Option ℤ → Option Checkpoint → LogInfo → Option ℤ
  start_index (some i) prev cur = some i
  start_index none (some p) cur = logic.get_start_index p cur
  start_index none none cur = none

  abbrev pub end_index : Option ℤ → LogInfo → Option ℤ
  end_index (some i) cur = some i
  end_index none cur = logic.get_end_index cur

  unfoldable pub assign_indices :
      IdentityMonitorConfiguration → Option Checkpoint → LogInfo → IdentityMonitorConfiguration
  assign_indices config prev cur = record config {
    start_index = start_index config.start_index prev cur;
    end_index = end_index config.end_index cur;
  }

  -- `config.StartIndex = config.EndIndex; config.EndIndex = nil`
  unfoldable pub advance : LoopState → LoopState
  advance s = record s {
    config = record s.config { start_index = s.config.end_index; end_index = none };
  }

  module _ (env : RunEnv Checkpoint LogInfo) where
    -- The end of a run: the checkpoint is written.
    pub write_phase : Bool → Option Checkpoint → LogInfo → LoopState → Outcome
    write_phase bounded prev cur s =
        let (written, disk) = env.write_checkpoint prev cur s.disk in
        let s' = record s { disk = disk } in
        elim written [
          | ok _ ↦ (if logic.once || bounded then stopped else waiting, wrote ∷ [], s')
          | err e ↦ (stopped, wrote ∷ [], s')
          | panic p ↦ (crashed p, wrote ∷ [], s')
        ]

    -- One kind of notification, and what follows it if it could be sent.
    pub notify : IdentityMonitorConfiguration → Bool → Payload → LoopState → Outcome → Outcome
    notify config is_wanted payload s next =
        let (platforms, r) =
          trigger_notifications env.send (create_notification_pool config)
            (record { context = env.notification_context_new; payload = payload }) in
        if not is_wanted then next else elim r [
          | ok _ ↦ after (sent payload platforms ∷ []) next
          | err e ↦ (stopped, sent payload platforms ∷ [], s)
          | panic p ↦ (crashed p, sent payload platforms ∷ [], s)
        ]

    pub search_found : List MonitoredIdentity → List FailedLogEntry → LoopState → Outcome → Outcome
    unfolding notify
    search_found found failed s next =
        notify s.config (not (is_empty found)) (monitored_identity_list found) s
          (notify s.config (not (is_empty failed)) (failed_log_entry_list failed) s next)

    -- The search of a range, for a configuration whose indices are assigned; `next` is the rest of
    -- the run.
    pub search_range : ℤ → ℤ → LoopState → (LoopState → Outcome) → Outcome
    unfolding search_found
    search_range start end s next =
        let (found_entries, disk) = env.identity_search s.config logic.monitored_values s.disk in
        let s' = record s { disk = disk } in
        if ltb_ℤ end start
        then (stopped, [], s)
        else after (searched (some start) (some end) ∷ []) (elim found_entries [
          | ok (found, failed) ↦ search_found found failed s' (next s')
          | err e ↦ (stopped, [], s')
          | panic p ↦ (crashed p, [], s')
        ])

    pub search_phase : Option ℤ → Option ℤ → LoopState → (LoopState → Outcome) → Outcome
    unfolding search_range
    search_phase (some start) (some end) s next = search_range start end s next
    search_phase _ _ s next = next s

    -- What follows a consistency check that succeeded.
    pub checked_phase : Bool → Option Checkpoint → LogInfo → LoopState → Outcome
    unfolding search_phase write_phase
    checked_phase bounded prev cur s =
        let s' = record s { config = assign_indices s.config prev cur } in
        if monitored_values_exist logic.monitored_values
        then search_phase s'.config.start_index s'.config.end_index s'
            (λ searched_state. write_phase bounded prev cur (advance searched_state))
        else write_phase bounded prev cur s

    -- One iteration of the loop, up to `waitForTick`.
    unfoldable pub run : LoopState → Outcome
    unfolding checked_phase
    run s =
        let total = record s {
          log_index_verification_total = s.log_index_verification_total + 1;
        } in
        after (checked ∷ []) (elim (env.run_consistency_check s.disk) [
          | ok (prev, cur) ↦ checked_phase (is_some s.config.end_index) prev cur total
          | err e ↦ if logic.once then (stopped, [], total) else (
            waiting,
            [],
            record total {
              log_index_verification_failure = total.log_index_verification_failure + 1;
            },
          )
          | panic p ↦ (crashed p, [], total)
        ])

    -- The `select` at the end: the next tick, or a shutdown.
    unfoldable pub wait_for_tick : Status → Status
    wait_for_tick waiting = if env.ticks then waiting else stopped
    wait_for_tick other = other

  -- The loop over the runs that the environment provides; it is still `waiting` only when these
  -- are used up.
  unfoldable pub monitor_loop : List (RunEnv Checkpoint LogInfo) → LoopState → Outcome
  monitor_loop [] s = (waiting, [], s)
  monitor_loop (env ∷ envs) s =
      let (status, calls, s') = run env s in
      elim (wait_for_tick env status) [
        | waiting ↦ after calls (monitor_loop envs s')
        | stopped ↦ (stopped, calls, s')
        | crashed p ↦ (crashed p, calls, s')
      ]
