-- ===== src/Util/Retry.antt =====
-- pkg/util/retry.go. Durations and attempts are Go ints; a float64 multiplier is a value of `F`
-- with the operations that the code uses. What one call of Retry meets is `RetryEnv`.
pub mod Bounds
pub mod Tests
use text.Mathlib.Text.{find?}
use Prim.Native.String.{◌++◌ as text_append}
use rekor_monitor.Base.{
  ℕ, zero, suc, ◌+◌, Bool, true, false, not, ◌&&◌, ◌||◌, Option, none, some, is_some, String, List,
  [], ◌∷◌, Error, msg, wrap, status, retryable, Result, ok, err, panic, ◌>>◌, context, fail_if, leb,
  eqb, if◌then◌else◌,
}
use rekor_monitor.Base.Int.{ℤ, pos, pos_part, ltb_ℤ, leb_ℤ}

pub record Float64 (F : Type 0) : Type 0 where
  pub one_and_a_half : F
  pub le_one : F → Bool
  -- `time.Duration(float64(d) * m)`
  pub scale : ℤ → F → ℤ

pub record RetryConfig (F : Type 0) : Type 0 where
  pub max_attempts : ℤ
  pub initial_interval : ℤ
  pub max_interval : ℤ
  pub multiplier : F
  pub max_elapsed_time : ℤ

-- In attempt k: what the function returns, how long Retry has run before it, and the error of the
-- context if that is done before the wait after it is over.
pub record RetryEnv (A : Type 0) : Type 0 where
  pub call : ℕ → Result A
  pub since_start : ℕ → ℤ
  pub done : ℕ → Option Error

-- nanoseconds
abbrev pub second : ℕ
second = 1_000_000_000

-- The text of an error, as `Error()` returns it.
pub error_text : Error → String
error_text (msg s) = s
error_text (wrap s e) = text_append s (text_append ": " (error_text e))
error_text (status code s) = s
error_text (retryable e) = error_text e

-- RetryError.ShouldRetry, for the error that a RetryError holds
unfoldable pub should_retry : Error → Bool
unfolding error_text
should_retry (status code s) = leb 500 code || eqb code 429
should_retry e = is_some (find? (error_text e) "http2: server sent GOAWAY")

-- `retryableErr, ok := err.(RetryError); ok && !retryableErr.ShouldRetry()`
unfoldable pub gives_up : Error → Bool
unfolding should_retry
gives_up (retryable e) = not (should_retry e)
gives_up _ = false

abbrev pub wrap_error : Option Error → Option Error
wrap_error none = none
wrap_error (some e) = some (retryable e)

module _ {F : Type 0} (fl : Float64 F) where
  unfoldable pub default_retry_config : RetryConfig F
  default_retry_config = record {
    max_attempts = pos 5;
    initial_interval = pos second;
    max_interval = pos 5_000_000_000;
    multiplier = fl.one_and_a_half;
    max_elapsed_time = pos 30_000_000_000;
  }

  abbrev pub is_positive : ℤ → Bool
  is_positive d = ltb_ℤ (pos 0) d

  pub with_max_attempts : ℤ → RetryConfig F → RetryConfig F
  with_max_attempts n c = if is_positive n then record c { max_attempts = n } else c

  pub with_initial_interval : ℤ → RetryConfig F → RetryConfig F
  with_initial_interval d c = if is_positive d then record c { initial_interval = d } else c

  pub with_max_interval : ℤ → RetryConfig F → RetryConfig F
  with_max_interval d c = if is_positive d then record c { max_interval = d } else c

  pub with_multiplier : F → RetryConfig F → RetryConfig F
  with_multiplier m c = if not (fl.le_one m) then record c { multiplier = m } else c

  pub with_max_elapsed_time : ℤ → RetryConfig F → RetryConfig F
  with_max_elapsed_time d c = if is_positive d then record c { max_elapsed_time = d } else c

  unfoldable pub validate_retry_config : RetryConfig F → Result (Unit {0})
  validate_retry_config c =
      fail_if (leb_ℤ c.max_attempts (pos 0)) (msg "MaxAttempts must be greater than zero")
      >> fail_if (leb_ℤ c.initial_interval (pos 0))
          (msg "InitialInterval must be greater than zero")
      >> fail_if (leb_ℤ c.max_interval (pos 0)) (msg "MaxInterval must be greater than zero")
      >> fail_if (fl.le_one c.multiplier) (msg "multiplier must be greater than one")
      >> fail_if (leb_ℤ c.max_elapsed_time (pos 0)) (msg "MaxElapsedTime must be greater than zero")

  unfoldable pub next_interval : RetryConfig F → ℤ → ℤ
  next_interval c current =
      let scaled = fl.scale current c.multiplier in
      if ltb_ℤ c.max_interval scaled then c.max_interval else scaled

  abbrev pub deadline_exceeded : Error
  deadline_exceeded = msg "context deadline exceeded"

  abbrev pub last_or_nil : Option Error → Error
  last_or_nil none = msg "<nil>"
  last_or_nil (some e) = e

  module _ {A : Type 0} (c : RetryConfig F) (env : RetryEnv A) where
    -- The result, and the intervals that were waited for.
    abbrev pub Retried : Type 0
    Retried = Result A × List ℤ

    -- One round of the loop; `rest` is the rounds after it, for the error of this one.
    pub attempt_step : ℕ → ℤ → Option Error → (Error → Retried) → Retried
    attempt_step attempt interval last rest =
        if is_positive c.max_elapsed_time && ltb_ℤ c.max_elapsed_time (env.since_start attempt)
        then (err (wrap "max elapsed time exceeded" (last_or_nil last)), [])
        else elim (env.call attempt) [
          | ok a ↦ (ok a, [])
          | panic p ↦ (panic p, [])
          | err e ↦
              let (r, waits) = rest e in
              if gives_up e
              then (err (wrap "non-retryable error encountered" e), [])
              else if eqb attempt (pos_part c.max_attempts)
              then (err (wrap "retry cancelled" deadline_exceeded), [])
              else elim (env.done attempt) [
                | some x ↦ (err (wrap "retry cancelled" x), interval ∷ [])
                | none ↦ (r, interval ∷ waits)
              ]
        ]

    -- `left` attempts are left; `attempt` is the number of this one.
    unfoldable pub retry_loop : ℕ → ℕ → ℤ → Option Error → Retried
    retry_loop zero attempt interval last =
        (err (wrap "retry logic exited unexpectedly, last error" (last_or_nil last)), [])
    retry_loop (suc left) attempt interval last =
        attempt_step attempt interval last
          (λ e. retry_loop left (attempt + 1) (next_interval c interval) (some e))

    unfoldable pub retry_with : Retried
    unfolding retry_loop attempt_step next_interval
    retry_with = elim (context "invalid retry configuration" (validate_retry_config c)) [
      | ok _ ↦ retry_loop (pos_part c.max_attempts) 1 c.initial_interval none
      | err e ↦ (err e, [])
      | panic p ↦ (panic p, [])
    ]

  -- The options are applied to the default configuration in order.
  pub apply_options : List (RetryConfig F → RetryConfig F) → RetryConfig F → RetryConfig F
  apply_options [] c = c
  apply_options (o ∷ os) c = apply_options os (o c)

  unfoldable pub retry :
      {A : Type 0} → List (RetryConfig F → RetryConfig F) → RetryEnv A → Result A × List ℤ
  unfolding retry_with apply_options default_retry_config
  retry opts env = retry_with (apply_options opts default_retry_config) env
