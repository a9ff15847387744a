-- ===== src/Rekor/V2/Client/Tiles.antt =====
-- What GetEntriesFromTile of Rekor v2 returns, for one tile and for a row of full tiles.
use mathlib.Core.List.{map, map-append}
use rekor_monitor.Base.{
  ℕ, zero, suc, ◌+◌, ◌*◌, ◌%◌, ◌<◌, ◌^◌, ◌≡◌, refl, ap, sym, subst, ◌++◌, arith, ok, length, drop,
  upto, upto-append, drop-append, eqb, if◌then◌else◌,
}
use rekor_monitor.Base.Int.{pos, add64-pos, mul64-pos}
use rekor_monitor.Rekor.V2.Client.{
  Bytes, ShardInfo, Entry, Encoding, parse_entries, get_entries_from_tile, full_tiles,
}

-- How many entries a bundle holds, by the width that is asked for.
abbrev pub width : ℕ → ℕ
width p = if eqb p 0 then 256 else p

module _ {ℓ} {A : Type ℓ} (f : ℕ → A) where
  pub length-map-upto : (n count : ℕ) → length (map f (upto n count)) ≡ count
  length-map-upto n zero = refl
  length-map-upto n (suc count) = ap suc (length-map-upto (n + 1) count)

  drop-map-upto : (a n b : ℕ) → drop a (map f (upto n (a + b))) ≡ map f (upto (n + a) b)
  drop-map-upto a n b =
      let cut : drop a (map f (upto n a) ++ map f (upto (n + a) b)) ≡ map f (upto (n + a) b) =
        subst
          (λ (k : ℕ). drop k (map f (upto n a) ++ map f (upto (n + a) b)) ≡ map f (upto (n + a) b))
          (length-map-upto n a) (drop-append (map f (upto n a)) (map f (upto (n + a) b))) in
      rw (upto-append n a b, map-append) cut

  pub drop-upto :
      (a n b c m : ℕ) → c ≡ a + b → m ≡ n + a → drop a (map f (upto n c)) ≡ map f (upto m b)
  drop-upto a n b c m parts start = rw (parts, start) (drop-map-upto a n b)

-- Two runs of numbers, the second from where the first ends.
pub upto-join :
    (a b m n count : ℕ) → m ≡ a + b → count ≡ b + n → upto a b ++ upto m n ≡ upto a count
upto-join a b m n count seam total = rw (seam, total) (sym (upto-append a b n))

-- The entry i of a log.
abbrev pub entry_at : {Proto : Type 0} (log : ℕ → Proto) → ℕ → Entry Proto
entry_at log i = record { proto_entry = log i; index = pos i }

module _ {Proto : Type 0} (enc : Encoding Proto) (shard : ShardInfo) (log : ℕ → Proto) where
  -- The shard serves the log `log`: the bundle of tile t is that of its entries, from 256 t on,
  -- all of them or as many as are asked for.
  pub record ServesTiles : Type 0 where
    pub raw : ℕ → Bytes
    pub bundle : ℕ → ℕ → Bytes
    pub reads : (t p : ℕ) → shard.client.read_entry_bundle t p ≡ ok (bundle t p)
    pub unmarshals :
        (t p : ℕ) → enc.unmarshal_bundle (bundle t p) ≡ ok (map raw (upto (t * 256) (width p)))
    pub entries : (i : ℕ) → enc.unmarshal_entry (raw i) ≡ ok (log i)

  module _ (served : ServesTiles) where
    parse_entries_served :
        (first i n : ℕ)
        → first + i + n < 2 ^ 63
        → parse_entries enc (pos first) (pos i) (map served.raw (upto (first + i) n))
          ≡ ok (map (entry_at log) (upto (first + i) n))
    unfolding parse_entries
    parse_entries_served first i zero h = refl
    parse_entries_served first i (suc n) h =
        let next : first + i + 1 ≡ first + (i + 1) = omega arith in
        rw (
          served.entries (first + i),
          add64-pos i 1 (omega arith),
          add64-pos first i (omega arith),
          next,
          parse_entries_served first (i + 1) n (omega arith),
        )

    parse_bundle_served :
        (first n : ℕ)
        → first + n < 2 ^ 63
        → parse_entries enc (pos first) (pos 0) (map served.raw (upto first n))
          ≡ ok (map (entry_at log) (upto first n))
    parse_bundle_served first n h =
        let e : first + 0 ≡ first = omega arith in
        subst
          (λ (k : ℕ).
            parse_entries enc (pos first) (pos 0) (map served.raw (upto k n))
            ≡ ok (map (entry_at log) (upto k n)))
          e (parse_entries_served first 0 n (omega arith))

    pub tile_served :
        (t p : ℕ)
        → p < 256
        → t * 256 + 256 < 2 ^ 63
        → get_entries_from_tile enc shard (pos t) p
          ≡ ok (map (entry_at log) (upto (t * 256) (width p)))
    unfolding get_entries_from_tile
    tile_served t p small h =
        let fits : t % 2 ^ 64 ≡ t = ground arith in
        rw (fits, served.reads t p, served.unmarshals t p, mul64-pos t 256 (omega arith))
          (parse_bundle_served (t * 256) (width p) (ground arith))

    pub full_tiles_served :
        (rounds t : ℕ)
        → (t + rounds) * 256 + 256 < 2 ^ 63
        → full_tiles enc shard rounds (pos t)
          ≡ ok (map (entry_at log) (upto (t * 256) (rounds * 256)))
    unfolding full_tiles
    full_tiles_served zero t h = refl
    full_tiles_served (suc rounds) t h =
        let next : (t + 1) * 256 ≡ t * 256 + 256 = omega arith in
        let count : suc rounds * 256 ≡ 256 + rounds * 256 = omega arith in
        rw (
          tile_served t 0 (omega arith) (omega arith),
          add64-pos t 1 (omega arith),
          full_tiles_served rounds (t + 1) (omega arith),
          next,
          count,
          upto-append (t * 256) 256 (rounds * 256),
          map-append,
        )
