-- ===== src/Rekor/V1/Client/Ranges.antt =====
-- GetEntriesByIndexRange asks for exactly the indices of (start, end], in order, ten at a time.
use mathlib.Core.List.{map, map-append}
use rekor_monitor.Base.{
  ℕ, zero, suc, ◌+◌, ◌-◌, ◌≤◌, ◌<◌, ◌^◌, ◌≡◌, refl, ap, none, List, ◌∷◌, ◌++◌, arith, ok, false,
  if◌then◌else◌, leb, Bool-cases, inl, inr, sym, append-nil, upto, upto-append, ltb,
}
use rekor_monitor.Base.Int.{ℤ, pos, pos_part, ◌-ℤ◌, add64, add64-pos}
use rekor_monitor.Util.Retry.{Float64, RetryEnv, retry, default_retry_config, validate_retry_config}
use rekor_monitor.Util.Retry.Bounds.{Recovers, retry_with-Recovers}
use rekor_monitor.Rekor.V1.Client.{
  Rekor, compute_min, log_indices, next_batch, search_batch, entries_loop,
  get_entries_by_index_range,
}

log_indices-upto :
    (rounds j : ℕ) → j + rounds < 2 ^ 63 → log_indices rounds (pos j) ≡ map pos (upto j rounds)
unfolding log_indices
log_indices-upto zero j h = refl
log_indices-upto (suc rounds) j h =
    rw (add64-pos j 1 (omega arith))
      (ap (λ (l : List ℤ). pos j ∷ l) (log_indices-upto rounds (j + 1) (omega arith)))

-- The number of indices in the batch from i.
abbrev batch_size : ℕ → ℕ → ℕ
batch_size i end = if ltb (i + 10) (end + 1) then 10 else end + 1 - i

next_batch-rounds :
    (i end : ℕ)
    → i ≤ end
    → end + 11 < 2 ^ 63
    → pos_part (compute_min (add64 (pos i) (pos 10)) (add64 (pos end) (pos 1)) -ℤ pos i)
      ≡ batch_size i end
unfolding compute_min
next_batch-rounds i end le h =
    rw (add64-pos i 10 (omega arith), add64-pos end 1 (omega arith)) (ground arith)

batch_size-le : (i end : ℕ) → i ≤ end → (batch_size i end ≤ 10) × (i + batch_size i end ≤ end + 1)
batch_size-le i end h = ground arith

-- A batch is at most ten indices, from i on and up to the end.
pub next_batch-upto :
    (i end : ℕ)
    → i ≤ end
    → end + 11 < 2 ^ 63
    → next_batch (pos i) (pos end) ≡ map pos (upto i (batch_size i end))
unfolding next_batch
next_batch-upto i end le h =
    rw (next_batch-rounds i end le h)
      (log_indices-upto (batch_size i end) i (ground (arith, batch_size-le i end le)))

-- The indices that are left are those of the batch and those after it.
upto_batch :
    (i end : ℕ)
    → i ≤ end
    → upto i (end + 1 - i) ≡ upto i (batch_size i end) ++ upto (i + 10) (end + 1 - (i + 10))
upto_batch i end h = elim (Bool-cases (ltb (i + 10) (end + 1))) [
  | inl more ↦ rw more (
      let e : end + 1 - i ≡ 10 + (end + 1 - (i + 10)) = ground arith in
      rw e (upto-append i 10 (end + 1 - (i + 10))))
  | inr last ↦ rw last (
      let e : end + 1 - (i + 10) ≡ 0 = ground arith in
      rw e (sym (append-nil (upto i (end + 1 - i)))))
]

module _ {F : Type 0} (fl : Float64 F) {Entry : Type 0} (client : Rekor Entry)
    (log : ℕ → Entry) where
  abbrev query : List ℤ → RetryEnv (List Entry)
  query indices = record {
    call = client.search_log_query indices;
    since_start = (client.query_clock indices).since_start;
    done = (client.query_clock indices).done;
  }

  -- The log `log` answers a query for indices with its entries there, in order, after fewer than
  -- five transient failures; and the context is not done.
  pub record Serves : Type 0 where
    pub failures : List ℕ → ℕ
    pub few : (ix : List ℕ) → failures ix < 5
    pub answers :
        (ix : List ℕ)
        → Recovers fl (default_retry_config fl) (query (map pos ix)) (failures ix) 1 (map log ix)
    pub not_done : (i : ℤ) → client.context_done i ≡ none

  module _ (half : fl.le_one fl.one_and_a_half ≡ false) (served : Serves) where
    search_batch_served : (ix : List ℕ) → search_batch fl client (map pos ix) ≡ ok (map log ix)
    unfolding search_batch retry
    search_batch_served ix =
        retry_with-Recovers fl (default_retry_config fl) (query (map pos ix)) (served.failures ix)
          (map log ix) (unfold validate_retry_config default_retry_config in rw half)
          (unfold default_retry_config in served.few ix) (served.answers ix)

    entries_loop_served :
        (fuel i end : ℕ)
        → end + 1 - i < fuel
        → i ≤ end + 10
        → end + 11 < 2 ^ 63
        → entries_loop fl client fuel (pos i) (pos end) ≡ ok (map log (upto i (end + 1 - i)))
    unfolding entries_loop
    entries_loop_served zero i end f le h = absurd (omega arith)
    entries_loop_served (suc fuel) i end f le h = elim (Bool-cases (leb (i + 0) (end + 0))) [
      | inl more ↦
          let within : i ≤ end = ground arith in
          rw (
            more,
            served.not_done (pos i),
            next_batch-upto i end within h,
            search_batch_served (upto i (batch_size i end)),
            add64-pos i 10 (omega arith),
            entries_loop_served fuel (i + 10) end (omega arith) (omega arith) h,
            upto_batch i end within,
            map-append,
          )
      | inr over ↦ let e : end + 1 - i ≡ 0 = ground arith in rw (over, e)
    ]

    -- From a log that answers its queries, after fewer than five transient failures each, the
    -- entries of (start, end] are fetched: those with the indices start + 1, …, end, each once
    -- and in order. The indices are far from the end of int64.
    pub get_entries_by_index_range_served :
        (start end : ℕ)
        → start ≤ end
        → end + 11 < 2 ^ 63
        → get_entries_by_index_range fl client (pos start) (pos end)
          ≡ ok (map log (upto (start + 1) (end - start)))
    unfolding get_entries_by_index_range
    get_entries_by_index_range_served start end le h =
        let forward : ltb (end + 0) (start + 0) ≡ false = ground arith in
        let rounds : pos_part (pos end -ℤ pos start) ≡ end - start = ground arith in
        let count : end - start ≡ end + 1 - (start + 1) = omega arith in
        rw (
          forward,
          rounds,
          add64-pos start 1 (omega arith),
          count,
          entries_loop_served (suc (end + 1 - (start + 1))) (start + 1) end (omega arith)
              (omega arith) h,
        )
