-- ===== src/Rekor/V1/Client.antt =====
-- pkg/rekor/v1/client.go. The generated Rekor client is a record of calls: what the k-th attempt of
-- a call returns, and what Retry meets meanwhile.
pub mod Ranges
pub mod Tests
use rekor_monitor.Base.{
  ℕ, zero, suc, Bool, Option, none, some, String, List, [], ◌∷◌, ◌++◌, Result, ok, err, panic, msg,
  ◌>>=◌, Error, if◌then◌else◌,
}
use rekor_monitor.Base.Int.{ℤ, pos, pos_part, ltb_ℤ, leb_ℤ, add64, ◌-ℤ◌}
use rekor_monitor.Util.Retry.{Float64, RetryEnv, retry}

-- models.LogInfo; an inactive shard stands for its tree size.
pub record LogInfo : Type 0 where
  pub inactive_shards : List ℤ
  pub signed_tree_head : String
  pub tree_id : String

-- Retry's view of one call: its attempts, the clock and the context.
pub record Clock : Type 0 where
  pub since_start : ℕ → ℤ
  pub done : ℕ → Option Error

pub record Rekor (Entry : Type 0) : Type 0 where
  pub get_log_info : ℕ → Result LogInfo
  pub search_log_query : List ℤ → ℕ → Result (List Entry)
  pub log_info_clock : Clock
  pub query_clock : List ℤ → Clock
  -- the error of the context, if it is done before the batch from this index
  pub context_done : ℤ → Option Error

unfoldable pub compute_min : ℤ → ℤ → ℤ
compute_min a b = if ltb_ℤ a b then a else b

-- `for j := i; j < minVal; j++`, with the rounds that are left.
pub log_indices : ℕ → ℤ → List ℤ
log_indices zero j = []
log_indices (suc rounds) j = j ∷ log_indices rounds (add64 j (pos 1))

-- The indices from i up to the smaller of i + 10 and end + 1.
unfoldable pub next_batch : ℤ → ℤ → List ℤ
unfolding log_indices compute_min
next_batch i end =
    log_indices (pos_part (compute_min (add64 i (pos 10)) (add64 end (pos 1)) -ℤ i)) i

module _ {F : Type 0} (fl : Float64 F) {Entry : Type 0} (client : Rekor Entry) where
  unfoldable pub get_log_info : Result LogInfo
  get_log_info =
      (retry fl [] (record {
        call = client.get_log_info;
        since_start = client.log_info_clock.since_start;
        done = client.log_info_clock.done;
      })).0

  unfoldable pub search_batch : List ℤ → Result (List Entry)
  search_batch indices =
      (retry fl [] (record {
        call = client.search_log_query indices;
        since_start = (client.query_clock indices).since_start;
        done = (client.query_clock indices).done;
      })).0

  -- `for i := start + 1; i <= end; i += 10`. The fuel is a bound on the rounds.
  unfoldable pub entries_loop : ℕ → ℤ → ℤ → Result (List Entry)
  entries_loop zero i end = panic "out of fuel"
  entries_loop (suc fuel) i end =
      let rest = entries_loop fuel (add64 i (pos 10)) end in
      if leb_ℤ i end
      then elim (client.context_done i) [
        | some e ↦ err e
        | none ↦ search_batch (next_batch i end) >>= λ batch. rest >>= λ more. ok (batch ++ more)
      ]
      else ok []

  unfoldable pub get_entries_by_index_range : ℤ → ℤ → Result (List Entry)
  get_entries_by_index_range start end =
      if ltb_ℤ end start
      then err (msg "start must be less than or equal to end")
      else entries_loop (suc (pos_part (end -ℤ start))) (add64 start (pos 1)) end
