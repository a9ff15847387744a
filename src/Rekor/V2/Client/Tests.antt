-- ===== src/Rekor/V2/Client/Tests.antt =====
-- GetEntriesByIndexRange on a shard whose bundles are their tile numbers and widths.
use mathlib.Core.List.{map}
use rekor_monitor.Base.{ℕ, ◌-◌, ◌*◌, ◌≡◌, refl, List, [], ◌∷◌, Result, ok, err, msg, arith, upto}
use rekor_monitor.Base.Int.{pos}
use rekor_monitor.Rekor.V2.Client.{Bytes, ShardInfo, Encoding, get_entries_by_index_range}
use rekor_monitor.Rekor.V2.Client.Tiles.{ServesTiles, width, entry_at}
use rekor_monitor.Rekor.V2.Client.Ranges.{first_index, get_entries_by_index_range_tiles}

abbrev split_bundle : Bytes → Result (List Bytes)
split_bundle (t ∷ p ∷ []) = ok (map (λ i. i ∷ []) (upto (t * 256) (width p)))
split_bundle _ = err (msg "malformed bundle")

abbrev read_entry : Bytes → Result ℕ
read_entry (i ∷ []) = ok i
read_entry _ = err (msg "malformed entry")

abbrev encoding : Encoding ℕ
encoding = record { unmarshal_bundle = split_bundle; unmarshal_entry = read_entry }

abbrev shard : ShardInfo
shard = record {
  client = record {
    read_checkpoint = ok (record { origin = "log"; size = 600; hash = "" });
    read_entry_bundle = λ t p. ok (t ∷ p ∷ []);
    read_tile = λ l t p. err (msg "no such tile");
  };
  verifier = "key";
  validity_end = 0;
}

abbrev served : ServesTiles encoding shard (λ i. i)
served = record {
  raw = λ i. i ∷ [];
  bundle = λ t p. t ∷ p ∷ [];
  reads = λ t p. refl;
  unmarshals = λ t p. refl;
  entries = λ i. refl;
}

get_entries_by_index_range_tiles_example :
    get_entries_by_index_range encoding shard (pos 250) (pos 600)
    ≡ ok (map (entry_at (λ i. i)) (upto (first_index 250 600) (601 - first_index 250 600)))
get_entries_by_index_range_tiles_example =
    get_entries_by_index_range_tiles encoding shard (λ i. i) served 250 600 (omega arith)
      (omega arith)
