-- ===== src/Util/Retry/Tests.antt =====
-- Retry on a function that fails once with a transient error.
use rekor_monitor.Base.{
  ℕ, ◌*◌, ◌/◌, ◌≤◌, ◌-◌, ◌≡◌, refl, leb, eqb, if◌then◌else◌, none, Result, ok, err, msg, length,
  arith,
}
use rekor_monitor.Base.Int.{pos, pos_part}
use rekor_monitor.Util.Retry.{
  Float64, RetryEnv, gives_up, default_retry_config, retry_with, validate_retry_config,
}
use rekor_monitor.Util.Retry.Bounds.{WaitsWithin, retry_with-waits, retry_with-Recovers}

-- Multipliers in tenths.
abbrev pub tenths : Float64 ℕ
tenths = record {
  one_and_a_half = 15;
  le_one = λ m. leb m 10;
  scale = λ d m. pos (pos_part d * m / 10);
}

abbrev attempts : ℕ → Result ℕ
attempts k = if eqb k 1 then err (msg "connection reset") else ok k

abbrev flaky : RetryEnv ℕ
flaky = record { call = attempts; since_start = λ k. pos k; done = λ k. none }

retry_with-waits_example :
    let config = default_retry_config tenths in
    WaitsWithin config.initial_interval config.max_interval (retry_with tenths config flaky).1
    × (length (retry_with tenths config flaky).1 ≤ pos_part config.max_attempts - 1)
retry_with-waits_example = retry_with-waits tenths (default_retry_config tenths) flaky

retry_with-Recovers_example : (retry_with tenths (default_retry_config tenths) flaky).0 ≡ ok 2
unfolding default_retry_config
retry_with-Recovers_example =
    retry_with-Recovers tenths (default_retry_config tenths) flaky 1 2
      (unfold validate_retry_config in refl) (omega arith)
      (refl, (msg "connection reset", refl, unfold gives_up in refl, refl), (refl, refl))
