-- ===== src/Util/Retry/Bounds.antt =====
-- How long Retry may go on, and what its result says about the attempts.
use rekor_monitor.Base.{
  ℕ, zero, suc, ◌+◌, ◌-◌, ◌≤◌, ◌<◌, ◌≡◌, false, Option, none, some, List, [], ◌∷◌, arith, Error,
  Result, ok, err, length, All, Result-cases, Result_rule, context, inl, inr,
}
use rekor_monitor.Base.Int.{ℤ, pos_part, ◌≤ℤ◌, ltb_ℤ}
use rekor_monitor.Util.Retry.{
  Float64, RetryConfig, RetryEnv, gives_up, next_interval, validate_retry_config, attempt_step,
  retry_loop, retry_with,
}

-- The first wait is `first`, the later ones are at most `limit`.
abbrev pub WaitsWithin : ℤ → ℤ → List ℤ → Type 0
WaitsWithin first limit [] = Unit
WaitsWithin first limit (w ∷ ws) = (w ≡ first) × All (λ v. v ≤ℤ limit) ws

module _ {F : Type 0} (fl : Float64 F) {A : Type 0} (c : RetryConfig F) (env : RetryEnv A) where
  next_interval-le : (current : ℤ) → next_interval fl c current ≤ℤ c.max_interval
  unfolding next_interval
  next_interval-le current = ground arith

  All-within :
      (first : ℤ) (ws : List ℤ)
      → first ≤ℤ c.max_interval
      → WaitsWithin first c.max_interval ws
      → All (λ v. v ≤ℤ c.max_interval) ws
  All-within first [] le h = tt
  All-within first (w ∷ ws) le h = (ground arith, h.1)

  -- The waits of a round, where the waits after it are within the bounds.
  attempt_step-waits :
      (attempt : ℕ) (interval : ℤ) (last : Option Error) (rest : Error → Result A × List ℤ)
      → ((e : Error) → WaitsWithin (next_interval fl c interval) c.max_interval (rest e).1)
      → WaitsWithin interval c.max_interval (attempt_step fl c env attempt interval last rest).1
  unfolding attempt_step
  attempt_step-waits attempt interval last rest h = elim (Result-cases (env.call attempt)) [
    | inl (a, e) ↦ ground arith
    | inr (inl (x, e)) ↦ ground (
      arith,
      All-within (next_interval fl c interval) (rest x).1 (next_interval-le interval) (h x),
    )
    | inr (inr (p, e)) ↦ ground arith
  ]

  retry_loop-waits :
      (left attempt : ℕ) (interval : ℤ) (last : Option Error)
      → WaitsWithin interval c.max_interval (retry_loop fl c env left attempt interval last).1
  unfolding retry_loop
  retry_loop-waits zero attempt interval last = tt
  retry_loop-waits (suc left) attempt interval last =
      attempt_step-waits attempt interval last _
        (λ e. retry_loop-waits left (attempt + 1) (next_interval fl c interval) (some e))

  attempt_step-count :
      (left attempt : ℕ) (interval : ℤ) (last : Option Error) (rest : Error → Result A × List ℤ)
      → attempt + left ≡ pos_part c.max_attempts
      → ((e : Error) → length (rest e).1 ≤ left - 1)
      → length (attempt_step fl c env attempt interval last rest).1 ≤ suc left - 1
  unfolding attempt_step
  attempt_step-count left attempt interval last rest n h = elim (Result-cases (env.call attempt)) [
    | inl (a, e) ↦ ground arith
    | inr (inl (x, e)) ↦ ground (arith, h x)
    | inr (inr (p, e)) ↦ ground arith
  ]

  -- The number of attempts that are left bounds the waits; in the last attempt there is none.
  retry_loop-count :
      (left attempt : ℕ) (interval : ℤ) (last : Option Error)
      → attempt + left ≡ pos_part c.max_attempts + 1
      → length (retry_loop fl c env left attempt interval last).1 ≤ left - 1
  unfolding retry_loop
  retry_loop-count zero attempt interval last h = omega arith
  retry_loop-count (suc left) attempt interval last h =
      attempt_step-count left attempt interval last _ (omega arith) (λ e.
        retry_loop-count left (attempt + 1) (next_interval fl c interval) (some e) (omega arith))

  -- Retry waits less often than the attempts that are configured, first for the initial interval
  -- and later never longer than the maximal one.
  pub retry_with-waits :
      let waits = (retry_with fl c env).1 in
      WaitsWithin c.initial_interval c.max_interval waits
      × (length waits ≤ pos_part c.max_attempts - 1)
  unfolding retry_with
  retry_with-waits =
      Result_rule
        (λ (r : Result A × List ℤ).
          WaitsWithin c.initial_interval c.max_interval r.1
          × (length r.1 ≤ pos_part c.max_attempts - 1))
        (context "invalid retry configuration" (validate_retry_config fl c)) _ _ _
        (λ _. (
          retry_loop-waits (pos_part c.max_attempts) 1 c.initial_interval none,
          retry_loop-count (pos_part c.max_attempts) 1 c.initial_interval none (omega arith),
        ))
        (λ e. (tt, omega arith)) (λ p. (tt, omega arith))

  -- Attempt k is within the time limit and fails in a way that is tried again.
  abbrev pub InTime : ℕ → Type 0
  InTime k = ltb_ℤ c.max_elapsed_time (env.since_start k) ≡ false

  abbrev pub Transient : ℕ → Type 0
  Transient k = (e : Error) × (env.call k ≡ err e) × (gives_up e ≡ false) × (env.done k ≡ none)

  -- The attempts from `attempt` on: `failures` transient ones, and then one that returns `a`.
  abbrev pub Recovers : ℕ → ℕ → A → Type 0
  Recovers zero attempt a = InTime attempt × (env.call attempt ≡ ok a)
  Recovers (suc failures) attempt a =
      InTime attempt × Transient attempt × Recovers failures (attempt + 1) a

  attempt_step-Transient :
      (attempt : ℕ) (interval : ℤ) (last : Option Error) (rest : Error → Result A × List ℤ) (a : A)
      → attempt < pos_part c.max_attempts
      → InTime attempt
      → Transient attempt
      → ((e : Error) → (rest e).0 ≡ ok a)
      → (attempt_step fl c env attempt interval last rest).0 ≡ ok a
  unfolding attempt_step
  attempt_step-Transient attempt interval last rest a lt time (e, call, again, more) h =
      ground (arith, h e)

  attempt_step_done :
      (attempt : ℕ) (interval : ℤ) (last : Option Error) (rest : Error → Result A × List ℤ) (a : A)
      → InTime attempt
      → env.call attempt ≡ ok a
      → (attempt_step fl c env attempt interval last rest).0 ≡ ok a
  unfolding attempt_step
  attempt_step_done attempt interval last rest a time call = ground arith

  retry_loop-Recovers :
      (left attempt failures : ℕ) (interval : ℤ) (last : Option Error) (a : A)
      → attempt + left ≡ pos_part c.max_attempts + 1
      → failures < left
      → Recovers failures attempt a
      → (retry_loop fl c env left attempt interval last).0 ≡ ok a
  unfolding retry_loop
  retry_loop-Recovers zero attempt failures interval last a n lt h = absurd (omega arith)
  retry_loop-Recovers (suc left) attempt zero interval last a n lt h =
      attempt_step_done attempt interval last _ a h.0 h.1
  retry_loop-Recovers (suc left) attempt (suc failures) interval last a n lt h =
      attempt_step-Transient attempt interval last _ a (omega arith) h.0 h.1 (λ e.
        retry_loop-Recovers left (attempt + 1) failures (next_interval fl c interval) (some e) a
          (omega arith) (omega arith) h.2)

  -- With a valid configuration, fewer transient failures than attempts are survived: Retry returns
  -- what the first attempt after them returns.
  pub retry_with-Recovers :
      (failures : ℕ) (a : A)
      → validate_retry_config fl c ≡ ok tt
      → failures < pos_part c.max_attempts
      → Recovers failures 1 a
      → (retry_with fl c env).0 ≡ ok a
  unfolding retry_with
  retry_with-Recovers failures a valid lt h =
      rw (valid, retry_with)
        (retry_loop-Recovers (pos_part c.max_attempts) 1 failures c.initial_interval none a
          (omega arith) lt h)
