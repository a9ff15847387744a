-- ===== src/Cmd/Loop/Lifetimes/Covered.antt =====
-- What the calls of one lifetime search, and where they leave the position on the disk.
use rekor_monitor.Base.{
  ◌+◌, ◌≡◌, refl, sym, subst, ◌∙◌, Bool, true, not, ◌||◌, if_rule, Result_rule, Result_ok_rule,
  Option, none, some, ok, String, List, [], ◌∷◌, ◌++◌, is_some, arith,
}
use rekor_monitor.Base.Int.{ℤ, ◌≤ℤ◌, ltb_ℤ}
use rekor_monitor.Cmd.Loop.{
  MonitorLogic, RunEnv, Call, checked, wrote, searched, sent, Status, waiting, stopped, crashed,
  LoopState, Outcome, after, start_index, end_index, assign_indices, advance, write_phase, notify,
  search_found, search_range, search_phase, checked_phase, run,
}
use rekor_monitor.Cmd.Loop.Chains.{Follows, ChainFrom}
use rekor_monitor.Cmd.Loop.Lifetimes.{confirmed, SameFiles, KeepsPosition}
use rekor_monitor.Identity.{MonitoredIdentity, FailedLogEntry}
use rekor_monitor.Identity.Values.{monitored_values_exist}
use rekor_monitor.Notifications.{
  IdentityMonitorConfiguration, NotificationPlatform, Payload, create_notification_pool,
  trigger_notifications,
}
use rekor_monitor.Util.File.{Disk}

pub Follows-refl : (a : Option ℤ) → Follows a a
Follows-refl none = tt
Follows-refl (some i) = refl

pub Follows-trans : (a b c : Option ℤ) → Follows a b → Follows b c → Follows a c
Follows-trans none b c h k = tt
Follows-trans (some i) none c h k = cc
Follows-trans (some i) (some j) c h k = k ∙ h

-- A chain from a position is one from any position that it follows.
ChainFrom-weaken :
    (a b : Option ℤ) (calls : List Call) → Follows a b → ChainFrom b calls → ChainFrom a calls
ChainFrom-weaken a b [] h k = tt
ChainFrom-weaken a b (searched i j ∷ calls) h k = (Follows-trans a b i h k.0, k.1, k.2)
ChainFrom-weaken a b (checked ∷ calls) h k = ChainFrom-weaken a b calls h k
ChainFrom-weaken a b (wrote ∷ calls) h k = ChainFrom-weaken a b calls h k
ChainFrom-weaken a b (sent p l ∷ calls) h k = ChainFrom-weaken a b calls h k

pub confirmed_weaken :
    (a b i j : Option ℤ) (calls : List Call)
    → Follows a b
    → Follows i j
    → Follows (confirmed a i calls) (confirmed b j calls)
confirmed_weaken a b i j [] h k = h
confirmed_weaken a b i j (searched x y ∷ calls) h k =
    confirmed_weaken a b y y calls h (Follows-refl y)
confirmed_weaken a b i j (wrote ∷ calls) h k = confirmed_weaken i j i j calls k k
confirmed_weaken a b i j (checked ∷ calls) h k = confirmed_weaken a b i j calls h k
confirmed_weaken a b i j (sent p l ∷ calls) h k = confirmed_weaken a b i j calls h k

-- What a run has reached once its search from `a` to `b` is over: nothing, if there was none.
abbrev if_some : Option ℤ → Option ℤ → Option ℤ
if_some none b = none
if_some (some a) b = b

if_some-Follows : (a b end : Option ℤ) → Follows b end → Follows (if_some a b) end
if_some-Follows none b end h = tt
if_some-Follows (some a) b end h = h

-- The calls are a chain from `reached`, and at their end the position is the confirmed one.
abbrev pub Covers : Option ℤ → Option ℤ → List Call → Option ℤ → Type 0
Covers written reached calls end =
    ChainFrom reached calls × Follows (confirmed written reached calls) end

pub Covers-weaken :
    (a b : Option ℤ) (calls : List Call) (end : Option ℤ)
    → Follows a b
    → Covers b b calls end
    → Covers a a calls end
Covers-weaken a b calls end h k = (
  ChainFrom-weaken a b calls h k.0,
  Follows-trans _ _ end (confirmed_weaken a b a b calls h h) k.1,
)

module _ {Checkpoint LogInfo : Type 0} (logic : MonitorLogic Checkpoint LogInfo)
    (position : Disk → Option ℤ) (given : IdentityMonitorConfiguration) where
  -- A state in which the loop goes on from the position on the disk, up to what the log has then.
  pub record IsReady (s : LoopState) : Type 0 where
    pub aligned : Follows s.config.start_index (position s.disk)
    pub unbounded : s.config.end_index ≡ none
    pub same_files : SameFiles given s.config

  -- What follows a run: the rest of the loop, or nothing.
  abbrev pub Rest : Status → LoopState → List Call → Option ℤ → Type 0
  Rest waiting s rest end = IsReady s → Covers (position s.disk) (position s.disk) rest end
  Rest _ s rest end = (rest ≡ []) × (end ≡ position s.disk)

  pub record IsCovered (written reached : Option ℤ) (out : Outcome) : Type 0 where
    pub at :
        (rest : List Call) (end : Option ℤ)
        → Rest out.0 out.2 rest end
        → Covers written reached (out.1 ++ rest) end

  no_rest :
      (written reached : Option ℤ) (rest : List Call) (end : Option ℤ) (s : LoopState)
      → Follows written (position s.disk)
      → (rest ≡ []) × (end ≡ position s.disk)
      → Covers written reached rest end
  no_rest written reached [] end s h k = (tt, rw k.1 h)
  no_rest written reached (x ∷ rest) end s h k = cc (k.0)

  stopped-IsCovered :
      {written reached : Option ℤ} (s : LoopState)
      → Follows written (position s.disk)
      → IsCovered written reached (stopped, [], s)
  stopped-IsCovered {written} {reached} s h = record {
    at = λ rest end k. no_rest written reached rest end s h k;
  }

  crashed-IsCovered :
      {written reached : Option ℤ} (p : String) (s : LoopState)
      → Follows written (position s.disk)
      → IsCovered written reached (crashed p, [], s)
  crashed-IsCovered {written} {reached} p s h = record {
    at = λ rest end k. no_rest written reached rest end s h k;
  }

  waiting-IsCovered :
      {reached : Option ℤ} (s : LoopState)
      → IsReady s
      → Follows reached (position s.disk)
      → IsCovered reached reached (waiting, [], s)
  waiting-IsCovered {reached} s ready h = record {
    at = λ rest end k. Covers-weaken reached (position s.disk) rest end h (k ready);
  }

  wrote-IsCovered :
      {written reached : Option ℤ} {out : Outcome}
      → IsCovered reached reached out
      → IsCovered written reached (after (wrote ∷ []) out)
  wrote-IsCovered h = record { at = h.at }

  checked-IsCovered :
      {written reached : Option ℤ} {out : Outcome}
      → IsCovered written reached out
      → IsCovered written reached (after (checked ∷ []) out)
  checked-IsCovered h = record { at = h.at }

  sent-IsCovered :
      {written reached : Option ℤ} {out : Outcome} (p : Payload) (l : List NotificationPlatform)
      → IsCovered written reached out
      → IsCovered written reached (after (sent p l ∷ []) out)
  sent-IsCovered p l h = record { at = h.at }

  searched-IsCovered :
      {written : Option ℤ} {out : Outcome} (a b : ℤ)
      → a ≤ℤ b
      → IsCovered written (some b) out
      → IsCovered written (some a) (after (searched (some a) (some b) ∷ []) out)
  searched-IsCovered a b le h = record {
    at = λ rest end k. ((refl, le, (h.at rest end k).0), (h.at rest end k).1);
  }

  module _ (env : RunEnv Checkpoint LogInfo) where
    write_phase-IsCovered :
        (written reached : Option ℤ) (bounded : Bool) (prev : Option Checkpoint) (cur : LogInfo)
        (s : LoopState)
        → let s' = record s { disk = (env.write_checkpoint prev cur s.disk).1 } in
          IsReady s'
          → Follows reached (position s'.disk)
          → IsCovered written reached (write_phase logic env bounded prev cur s)
    unfolding write_phase
    write_phase-IsCovered written reached bounded prev cur s ready h =
        let s' = record s { disk = (env.write_checkpoint prev cur s.disk).1 } in
        Result_rule (IsCovered written reached) (env.write_checkpoint prev cur s.disk).0 _ _ _
          (λ _.
            if_rule (λ st. IsCovered written reached (st, wrote ∷ [], s')) (logic.once || bounded) _
              _ (λ _. wrote-IsCovered (stopped-IsCovered s' h))
              (λ _. wrote-IsCovered (waiting-IsCovered s' ready h)))
          (λ e. wrote-IsCovered (stopped-IsCovered s' h))
          (λ p. wrote-IsCovered (crashed-IsCovered p s' h))

    notify-IsCovered :
        {written reached : Option ℤ} (config : IdentityMonitorConfiguration) (wanted : Bool)
        (p : Payload) (s : LoopState) (next : Outcome)
        → Follows written (position s.disk)
        → IsCovered written reached next
        → IsCovered written reached (notify logic env config wanted p s next)
    unfolding notify
    notify-IsCovered {written} {reached} config wanted p s next f h =
        if_rule (IsCovered written reached) (not wanted) _ _ (λ _. h)
          (λ _.
            Result_rule (IsCovered written reached)
              (trigger_notifications env.send (create_notification_pool config)
                (record { context = env.notification_context_new; payload = p })).1
              _ _ _ (λ _. sent-IsCovered p _ h) (λ e. sent-IsCovered p _ (stopped-IsCovered s f))
              (λ q. sent-IsCovered p _ (crashed-IsCovered q s f)))

    search_found-IsCovered :
        {written reached : Option ℤ} (found : List MonitoredIdentity) (failed : List FailedLogEntry)
        (s : LoopState) (next : Outcome)
        → Follows written (position s.disk)
        → IsCovered written reached next
        → IsCovered written reached (search_found logic env found failed s next)
    unfolding search_found
    search_found-IsCovered found failed s next f h =
        notify-IsCovered s.config _ _ s _ f (notify-IsCovered s.config _ _ s next f h)

    module _ (keeps : KeepsPosition logic position given env) where
      search_range-IsCovered :
          (a b : ℤ) (s : LoopState) (next : LoopState → Outcome)
          → SameFiles given s.config
          → position s.disk ≡ some a
          → ((d : Disk)
              → position d ≡ some a
              → IsCovered (some a) (some b) (next (record s { disk = d })))
          → IsCovered (some a) (some a) (search_range logic env a b s next)
      unfolding search_range
      search_range-IsCovered a b s next same e h =
          let (r, d) = env.identity_search s.config logic.monitored_values s.disk in
          let s' = record s { disk = d } in
          let kept : position d ≡ some a = keeps.searches s.config s.disk same ∙ e in
          let here : Follows (some a) (position s.disk) = e in
          let there : Follows (some a) (position s'.disk) = kept in
          if_rule (IsCovered (some a) (some a)) (ltb_ℤ b a) _ _ (λ _. stopped-IsCovered s here)
            λ forward. searched-IsCovered a b (ground arith) (
              Result_rule (IsCovered (some a) (some b)) r _ _ _
                (λ x. search_found-IsCovered x.0 x.1 s' (next s') there (h d kept))
                (λ e. stopped-IsCovered s' there) (λ p. crashed-IsCovered p s' there))

      search_phase-IsCovered :
          (a b : Option ℤ) (s : LoopState) (next : LoopState → Outcome)
          → SameFiles given s.config
          → position s.disk ≡ a
          → is_some b ≡ true
          → ((d : Disk) → position d ≡ a → IsCovered a (if_some a b) (next (record s { disk = d })))
          → IsCovered a a (search_phase logic env a b s next)
      unfolding search_phase
      search_phase-IsCovered (some a) (some b) s next same e f h =
          search_range-IsCovered a b s next same e h
      search_phase-IsCovered none b s next same e f h = h s.disk e
      search_phase-IsCovered (some a) none s next same e f h = cc

      -- A run searches from the position on the disk.
      start_index-position :
          (start : Option ℤ) (disk : Disk) (prev : Option Checkpoint) (cur : LogInfo)
          → Follows start (position disk)
          → env.run_consistency_check disk ≡ ok (prev, cur)
          → start_index logic start prev cur ≡ position disk
      start_index-position none disk prev cur f e = keeps.begins disk prev cur e
      start_index-position (some i) disk prev cur f e = sym f

      checked_phase-IsCovered :
          (s : LoopState) (prev : Option Checkpoint) (cur : LogInfo)
          → monitored_values_exist logic.monitored_values ≡ true
          → IsReady s
          → env.run_consistency_check s.disk ≡ ok (prev, cur)
          → IsCovered
              (position s.disk)
              (position s.disk)
              (checked_phase logic env (is_some s.config.end_index) prev cur s)
      unfolding checked_phase assign_indices advance
      checked_phase-IsCovered s prev cur exist ready e =
          let a = start_index logic s.config.start_index prev cur in
          let b = logic.get_end_index cur in
          let starts : a ≡ position s.disk =
            start_index-position s.config.start_index s.disk prev cur ready.aligned e in
          let ends : end_index logic s.config.end_index cur ≡ b = rw ready.unbounded refl in
          let has_end : is_some (end_index logic s.config.end_index cur) ≡ true =
            rw ends (keeps.ends s.disk prev cur e) in
          subst
            (λ p. IsCovered p p (checked_phase logic env (is_some s.config.end_index) prev cur s))
            starts
            (if_rule (IsCovered a a) (monitored_values_exist logic.monitored_values) _ _
              (λ _.
                search_phase-IsCovered a (end_index logic s.config.end_index cur)
                  (record s { config = assign_indices logic s.config prev cur }) _ ready.same_files
                  (sym starts) has_end
                  (λ d k.
                    let moved : Follows (end_index logic s.config.end_index cur)
                        (position (env.write_checkpoint prev cur d).1) =
                      rw (ends, keeps.writes s.disk d prev cur e (k ∙ starts)) (Follows-refl b) in
                    write_phase-IsCovered a _ (is_some s.config.end_index) prev cur _
                      (record { aligned = moved; unbounded = refl; same_files = ready.same_files })
                      (if_some-Follows a _ _ moved)))
              (λ missing. absurd (cc)))

      pub run-IsCovered :
          (s : LoopState)
          → monitored_values_exist logic.monitored_values ≡ true
          → IsReady s
          → IsCovered (position s.disk) (position s.disk) (run logic env s)
      unfolding run
      run-IsCovered s exist ready =
          let here : Option ℤ = position s.disk in
          let aligned : Follows s.config.start_index here = ready.aligned in
          let unbounded : s.config.end_index ≡ none = ready.unbounded in
          checked-IsCovered (
            Result_ok_rule (IsCovered here here) (env.run_consistency_check s.disk) _ _ _
              (λ x e.
                checked_phase-IsCovered
                  (record s { log_index_verification_total = s.log_index_verification_total + 1 })
                  x.0 x.1 exist
                  (record {
                    aligned = aligned;
                    unbounded = unbounded;
                    same_files = ready.same_files;
                  })
                  e)
              (λ e.
                if_rule (IsCovered here here) logic.once _ _
                  (λ _. stopped-IsCovered _ (Follows-refl here))
                  (λ _.
                    waiting-IsCovered _
                      (record {
                        aligned = aligned;
                        unbounded = unbounded;
                        same_files = ready.same_files;
                      })
                      (Follows-refl here)))
              (λ p. crashed-IsCovered p _ (Follows-refl here)))
