-- ===== src/Rekor/V1/Client/Tests.antt =====
-- GetEntriesByIndexRange on a log that answers at once.
use mathlib.Core.List.{map}
use rekor_monitor.Base.{ℕ, ◌≡◌, refl, none, List, [], ◌∷◌, ok, arith, upto}
use rekor_monitor.Base.Int.{pos, pos_part}
use rekor_monitor.Util.Retry.{default_retry_config}
use rekor_monitor.Util.Retry.Tests.{tenths}
use rekor_monitor.Rekor.V1.Client.{Clock, Rekor, get_entries_by_index_range}
use rekor_monitor.Rekor.V1.Client.Ranges.{Serves, get_entries_by_index_range_served}

abbrev pub at_once : Clock
at_once = record { since_start = λ k. pos k; done = λ k. none }

-- The entry at an index is the index.
abbrev pub numbers : Rekor ℕ
numbers = record {
  get_log_info = λ k. ok (record { inactive_shards = []; signed_tree_head = ""; tree_id = "" });
  search_log_query = λ indices k. ok (map pos_part indices);
  log_info_clock = at_once;
  query_clock = λ indices. at_once;
  context_done = λ i. none;
}

numbers_back : (ix : List ℕ) → map pos_part (map pos ix) ≡ map (λ i. i) ix
numbers_back [] = refl
numbers_back (i ∷ ix) = rw (numbers_back ix)

abbrev served : Serves tenths numbers (λ i. i)
served = record {
  failures = λ ix. 0;
  few = λ ix. omega arith;
  answers = λ ix. (unfold default_retry_config in refl, rw (numbers_back ix));
  not_done = λ i. refl;
}

get_entries_by_index_range_served_example :
    get_entries_by_index_range tenths numbers (pos 7) (pos 20) ≡ ok (map (λ i. i) (upto 8 13))
get_entries_by_index_range_served_example =
    get_entries_by_index_range_served tenths numbers (λ i. i) refl served 7 20 (omega arith)
      (omega arith)
