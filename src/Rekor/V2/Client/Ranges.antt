-- ===== src/Rekor/V2/Client/Ranges.antt =====
-- Which entries GetEntriesByIndexRange of Rekor v2 returns.
use mathlib.Core.List.{map, map-append}
use rekor_monitor.Base.{
  ℕ, ◌+◌, ◌-◌, ◌*◌, ◌/◌, ◌%◌, ◌≤◌, ◌<◌, ◌^◌, ◌≡◌, refl, ap, sym, [], ◌++◌, arith, ok, length, upto,
  ltb, leb, eqb, true, false, inl, inr, Bool-cases, if◌then◌else◌,
}
use rekor_monitor.Base.Int.{pos, pos_part, ◌-ℤ◌, add64-pos, sub64-pos}
use rekor_monitor.Rekor.V2.Client.{
  ShardInfo, Encoding, get_tile_index, start_entries, get_entries_by_index_range,
}
use rekor_monitor.Rekor.V2.Client.Tiles.{
  width, length-map-upto, drop-upto, upto-join, entry_at, ServesTiles, tile_served,
  full_tiles_served,
}

-- The tile of a checkpoint's last entry is the one that holds that entry.
get_tile_index-div : (i : ℕ) → i + 1 < 2 ^ 63 → get_tile_index (pos i) ≡ pos (i / 256)
unfolding get_tile_index
get_tile_index-div i h = rw (add64-pos i 1 h) (elim (Bool-cases (eqb ((i + 1) % 256) 0)) [
  | inl full ↦
      rw (full, sub64-pos ((i + 1) / 256) 1 (ground arith) (omega arith)) (ap pos (ground arith))
  | inr partial ↦ rw partial (ap pos (ground arith))
])

-- How many entries the start tile holds after the entry s.
abbrev unread : ℕ → ℕ
unread s = (s / 256 + 1) * 256 - (s + 1)

-- The first index of the entries that are returned: the one after the start, or that of the first
-- entry of the tile that the start and the end share.
abbrev pub first_index : ℕ → ℕ → ℕ
first_index start end = if ltb (start / 256) (end / 256) then start + 1 else end / 256 * 256

module _ {Proto : Type 0} (enc : Encoding Proto) (shard : ShardInfo) (log : ℕ → Proto)
    (served : ServesTiles enc shard log) where
  start_entries_served :
      (s e : ℕ)
      → s / 256 < e / 256
      → s + 512 < 2 ^ 63
      → start_entries enc shard (pos (s / 256)) (pos (e / 256)) (pos (s + 1))
        ≡ ok (map (entry_at log) (upto (s + 1) (unread s)))
  unfolding start_entries
  start_entries_served s e lt h =
      let tiles : ltb (s / 256 + 0) (e / 256 + 0) ≡ true = ground arith in
      elim (Bool-cases (ltb 0 ((s + 1) % 256 + 0))) [
        | inl some_read ↦
            let r = (s + 1) % 256 in
            let parts : 256 ≡ r + unread s = ground arith in
            let from : s / 256 * 256 + r ≡ s + 1 = ground arith in
            let fits : leb r (length (map (entry_at log) (upto (s / 256 * 256) 256))) ≡ true =
              rw (length-map-upto (entry_at log) (s / 256 * 256) 256) (ground arith) in
            rw
              (
                tiles,
                some_read,
                tile_served enc shard log served (s / 256) 0 (omega arith) (ground arith),
                fits,
              )
              (ap ok (
                drop-upto (entry_at log) r (s / 256 * 256) (unread s) 256 (s + 1) parts (sym from)))
        | inr all_read ↦
            let none_left : unread s ≡ 0 = ground arith in rw (tiles, all_read, none_left)
      ]

  start_entries_shared :
      (s e size : ℕ)
      → e / 256 ≤ s / 256
      → start_entries enc shard (pos (s / 256)) (pos (e / 256)) (pos size) ≡ ok []
  unfolding start_entries
  start_entries_shared s e size le =
      let tiles : ltb (s / 256 + 0) (e / 256 + 0) ≡ false = ground arith in rw tiles

  pieces_joined :
      (s e : ℕ)
      → s / 256 < e / 256
      → map (entry_at log) (upto (s + 1) (unread s))
          ++ map (entry_at log) (upto ((s / 256 + 1) * 256) ((e / 256 - (s / 256 + 1)) * 256))
          ++ map (entry_at log) (upto (e / 256 * 256) (width ((e + 1) % 256)))
        ≡ map (entry_at log) (upto (s + 1) (e + 1 - (s + 1)))
  pieces_joined s e lt =
      let start = (s / 256 + 1) * 256 in
      let full = (e / 256 - (s / 256 + 1)) * 256 in
      let join = upto-join (s + 1) (unread s) start full (unread s + full) (ground arith) refl in
      let join_last =
        upto-join (s + 1) (unread s + full) (e / 256 * 256) (width ((e + 1) % 256))
          (e + 1 - (s + 1)) (ground arith) (ground arith) in
      rw (← map-append, join, ← map-append, join_last)

  -- From a shard that serves a log, GetEntriesByIndexRange gets the entries up to the end, each
  -- once, in order and with its index: from the one after the start on, if the end is in a later
  -- tile than the start, and from the first one of their tile if they share it. The indices are
  -- far from the end of int64.
  pub get_entries_by_index_range_tiles :
      (start end : ℕ)
      → start < end
      → end + 512 < 2 ^ 63
      → get_entries_by_index_range enc shard (pos start) (pos end)
        ≡ ok (map (entry_at log) (upto (first_index start end) (end + 1 - first_index start end)))
  unfolding get_entries_by_index_range
  get_entries_by_index_range_tiles start end lt h =
      let forward : ltb (end + 0) (start + 0) ≡ false = ground arith in
      let differ : eqb start end ≡ false = ground arith in
      let tiles : start / 256 ≤ end / 256 = ground arith in
      let rounds : pos_part (pos (end / 256) -ℤ pos (start / 256 + 1))
          ≡ end / 256 - (start / 256 + 1) =
        ground arith in
      let p = (end + 1) % 256 in
      let p_fits : p % 2 ^ 64 % 256 ≡ p = ground arith in
      let last = tile_served enc shard log served (end / 256) p (ground arith) (ground arith) in
      let full =
        full_tiles_served enc shard log served (end / 256 - (start / 256 + 1)) (start / 256 + 1)
          (ground arith) in
      rw
        (
          forward,
          differ,
          get_tile_index-div start (omega arith),
          get_tile_index-div end (omega arith),
          add64-pos (start / 256) 1 (ground arith),
          add64-pos start 1 (omega arith),
          add64-pos end 1 (omega arith),
          rounds,
          full,
          p_fits,
          last,
        )
        (elim (Bool-cases (ltb (start / 256) (end / 256))) [
          | inl later ↦
              rw (start_entries_served start end (ground arith) (omega arith), later)
                (ap ok (pieces_joined start end (ground arith)))
          | inr shared ↦
              let none_full : (end / 256 - (start / 256 + 1)) * 256 ≡ 0 = ground arith in
              let count : end + 1 - end / 256 * 256 ≡ width p = ground arith in
              rw (
                start_entries_shared start end (start + 1) (ground arith),
                shared,
                none_full,
                count,
              )
        ])
