-- ===== src/Rekor/V2/Client.antt =====
-- pkg/rekor/v2/client.go: entries by index range, from tiles of 256 entries. The tile client and the
-- encodings of bundles and entries are records of calls.
pub mod Tiles
pub mod Ranges
pub mod Tests
use rekor_monitor.Base.{
  ℕ, zero, suc, Bool, true, false, Option, none, some, String, List, [], ◌∷◌, ◌++◌, Result, ok, err,
  panic, msg, wrap, ◌>>=◌, context, Error, length, drop, leb, ltb, if◌then◌else◌,
}
use rekor_monitor.Base.Classes.{◌==◌, int_comparable}
use rekor_monitor.Base.Int.{
  ℤ, pos, pos_part, ltb_ℤ, add64, sub64, mul64, quot, rem, uint64, uint8, ◌-ℤ◌,
}

-- log.Checkpoint
pub record Checkpoint : Type 0 where
  pub origin : String
  pub size : ℕ
  pub hash : String

-- []byte
abbrev pub Bytes : Type 0
Bytes = List ℕ

-- read.Client
pub record ReadClient : Type 0 where
  pub read_checkpoint : Result Checkpoint
  pub read_entry_bundle : ℕ → ℕ → Result Bytes
  pub read_tile : ℕ → ℕ → ℕ → Result Bytes

-- A time is the nanoseconds since the zero time; `verifier` stands for the key that it verifies with.
pub record ShardInfo : Type 0 where
  pub client : ReadClient
  pub verifier : String
  pub validity_end : ℕ

pub record Entry (Proto : Type 0) : Type 0 where
  pub proto_entry : Proto
  pub index : ℤ

-- EntryBundle.UnmarshalText and protojson.Unmarshal
pub record Encoding (Proto : Type 0) : Type 0 where
  pub unmarshal_bundle : Bytes → Result (List Bytes)
  pub unmarshal_entry : Bytes → Result Proto

-- layout.TileWidth
abbrev pub tile_width : ℕ
tile_width = 256

unfoldable pub get_tile_index : ℤ → ℤ
get_tile_index checkpoint_index =
    let tree_size = add64 checkpoint_index (pos 1) in
    let full_tiles_count = quot tree_size tile_width in
    if rem tree_size tile_width == pos 0 then sub64 full_tiles_count (pos 1) else full_tiles_count

-- `if err != nil { return nil, fmt.Errorf(text) }`: the cause is dropped.
abbrev pub replace_error {ℓ} : {A : Type ℓ} → String → Result A → Result A
replace_error text (ok a) = ok a
replace_error text (err e) = err (msg text)
replace_error text (panic p) = panic p

module _ {Proto : Type 0} (enc : Encoding Proto) where
  -- The loop over the entries of a bundle, with the index of the next one.
  unfoldable pub parse_entries : ℤ → ℤ → List Bytes → Result (List (Entry Proto))
  parse_entries first i [] = ok []
  parse_entries first i (bytes ∷ rest) =
      let more = parse_entries first (add64 i (pos 1)) rest in
      replace_error "failed to parse entry" (enc.unmarshal_entry bytes) >>= λ p.
      more >>= λ es. ok (record { proto_entry = p; index = add64 first i } ∷ es)

  unfoldable pub get_entries_from_tile : ShardInfo → ℤ → ℕ → Result (List (Entry Proto))
  get_entries_from_tile shard full_tile_index partial_tile_width =
      replace_error "failed to fetch entry bundle"
        (shard.client.read_entry_bundle (uint64 full_tile_index) partial_tile_width)
      >>= λ bytes.
          replace_error "failed to parse entry bundle" (enc.unmarshal_bundle bytes) >>= λ bundle.
          parse_entries (mul64 full_tile_index tile_width) (pos 0) bundle

  -- `entries[n:]`, which panics past the end
  abbrev pub slice_from : ℕ → List (Entry Proto) → Result (List (Entry Proto))
  slice_from n es = if leb n (length es) then ok (drop n es) else panic "slice bounds out of range"

  module _ (shard : ShardInfo) where
    -- The unread entries of the start tile.
    unfoldable pub start_entries : ℤ → ℤ → ℤ → Result (List (Entry Proto))
    start_entries start_tile_index end_tile_index start_log_size =
        let partial_bundle_size = rem start_log_size tile_width in
        if ltb_ℤ start_tile_index end_tile_index
        then if ltb_ℤ (pos 0) partial_bundle_size
          then (context "error getting bundle for tile"
                (get_entries_from_tile shard start_tile_index 0)
              >>= λ all. slice_from (pos_part partial_bundle_size) all)
          else ok []
        else ok []

    -- `for i := startTileIndex + 1; i < endTileIndex; i++`, with the rounds that are left.
    unfoldable pub full_tiles : ℕ → ℤ → Result (List (Entry Proto))
    full_tiles zero i = ok []
    full_tiles (suc rounds) i =
        let rest = full_tiles rounds (add64 i (pos 1)) in
        context "error getting bundle for tile" (get_entries_from_tile shard i 0) >>= λ current.
        rest >>= λ more. ok (current ++ more)

    unfoldable pub get_entries_by_index_range : ℤ → ℤ → Result (List (Entry Proto))
    get_entries_by_index_range start end =
        if ltb_ℤ end start
        then err (msg "start must be less than or equal to end")
        else if start == end
        then ok []
        else (let start_tile_index = get_tile_index start in
            let end_tile_index = get_tile_index end in
            let first_full = add64 start_tile_index (pos 1) in
            start_entries start_tile_index end_tile_index (add64 start (pos 1)) >>= λ unread.
            full_tiles (pos_part (end_tile_index -ℤ first_full)) first_full >>= λ full.
            context "error getting bundle for tile" (
              get_entries_from_tile shard end_tile_index
                (uint8 (rem (add64 end (pos 1)) tile_width)))
            >>= λ last. ok ((unread ++ full) ++ last))
