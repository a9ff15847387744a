-- ===== src/Cmd/RekorV1/Positions.antt =====
-- What the calls of the Rekor v1 monitor do to the position that its file gives.
use rekor_monitor.Base.{
  ◌≡◌, refl, sym, ap, ◌∙◌, true, false, Option, none, some, ok, is_ok, String, List, arith, IfOk-of,
  Bool-cases, inl, inr,
}
use rekor_monitor.Base.Classes.{◌==◌, nat_comparable, string_comparable}
use rekor_monitor.Base.Int.{ℤ}
use rekor_monitor.Cmd.Config.{MonitorFlags}
use rekor_monitor.Cmd.Loop.{start_index}
use rekor_monitor.Cmd.RekorV1.{
  head_of, logic, get_start_index, get_end_index, write_checkpoint, run_consistency_check,
}
use rekor_monitor.Cmd.RekorV1.Monitor.{Reached, Called, run_env_v1, index_at, position_v1}
use rekor_monitor.Identity.{MonitoredValues}
use rekor_monitor.Notifications.{IdentityMonitorConfiguration}
use rekor_monitor.Rekor.V1.Client.{LogInfo}
use rekor_monitor.Rekor.V1.Search.{
  SignedCheckpoint, get_checkpoint_index, identity_search, fetch_and_match,
}
use rekor_monitor.Rekor.V1.Verifier.{has_checkpoint, read_latest_checkpoint_of}
use rekor_monitor.Rekor.V1.Verifier as Verifier
use rekor_monitor.Rekor.V1.Verifier.Consistency.{
  IsCurrent, Previous, run_consistency_check-Previous,
}
use rekor_monitor.Search.Kept.{HasOwnFile, report_found-kept}
use rekor_monitor.Util.File.{Disk}
use rekor_monitor.Util.File.Checkpoints.{Head, sizes_differ, is_due, write_checkpoint_rekor_v1}
use rekor_monitor.Util.File.Flatten.{IsPlain}
use rekor_monitor.Util.File.Position.{index_of, file_position-kept, file_position-none}
use rekor_monitor.Util.File.Reading.{read_latest_checkpoint}
use rekor_monitor.Util.File.RoundTrip.{write_checkpoint_rekor_v1-read}

module _ {F Proposed Implementation : Type 0} (lib : Called F Proposed Implementation)
    (flags : MonitorFlags) (inactive : List ℤ) where
  -- Log infos that the monitor can store: they have a checkpoint of a shard that is not empty, with
  -- a text that the file can hold and that is decoded to it; the inactive shards are the given ones.
  pub record IsStorableInfo (cur : LogInfo) : Type 0 where
    pub current : SignedCheckpoint
    pub text : String
    pub decoded : lib.chk.unmarshal_text cur.signed_tree_head ≡ ok current
    pub marshalled : lib.marshal current ≡ ok text
    pub read_back : lib.chk.unmarshal_text text ≡ ok current
    pub plain : IsPlain text
    pub filled : (current.size == 0) ≡ false
    pub shards : cur.inactive_shards ≡ inactive

  -- The calls of os do not fail, and an empty file is no checkpoint.
  pub record CanStore : Type 0 where
    pub stats : (file : String) → lib.chk.stat file ≡ none
    pub opens : (file : String) → lib.chk.open_error file ≡ none
    pub writes : (file text : String) → lib.os.write_file file text ≡ none
    pub empty : is_ok (lib.chk.unmarshal_text "") ≡ false

  -- Every log info that passes the check in a run can be stored.
  abbrev pub AnswersStorable : Reached → Type 0
  AnswersStorable net =
      (disk : Disk) (prev : Option SignedCheckpoint) (cur : LogInfo)
      → (run_env_v1 lib flags net).run_consistency_check disk ≡ ok (prev, cur)
      → IsStorableInfo cur

  pub position_v1-kept :
      (d disk : Disk)
      → d flags.log_info_file ≡ disk flags.log_info_file
      → position_v1 lib flags inactive d ≡ position_v1 lib flags inactive disk
  position_v1-kept d disk e =
      file_position-kept lib.chk.unmarshal_text lib.chk.open_error (index_at lib flags inactive)
        flags.log_info_file d disk e

  -- The checkpoint that a check returns is that of the file.
  pub StoredInfo : Disk → Option SignedCheckpoint → Type 0
  StoredInfo disk none = has_checkpoint lib.chk flags.log_info_file disk ≡ false
  StoredInfo disk (some prev) =
      read_latest_checkpoint lib.chk.unmarshal_text lib.chk.open_error flags.log_info_file disk
      ≡ ok prev

  Previous-StoredInfo :
      (tree_id : String) (disk : Disk) (cur : SignedCheckpoint) (prev : Option SignedCheckpoint)
      → Previous lib.chk flags.log_info_file tree_id disk cur prev
      → StoredInfo disk prev
  unfolding StoredInfo
  Previous-StoredInfo tree_id disk cur none h = h
  Previous-StoredInfo tree_id disk cur (some prev) h = h.1.stored

  pub check-StoredInfo :
      (net : Reached) (disk : Disk) (prev : Option SignedCheckpoint) (cur : LogInfo)
      → (run_env_v1 lib flags net).run_consistency_check disk ≡ ok (prev, cur)
      → StoredInfo disk prev
  unfolding run_consistency_check
  check-StoredInfo net disk prev cur e =
      let h =
        IfOk-of
          (λ r.
            (now : SignedCheckpoint) × IsCurrent lib.chk r.1 now
            × Previous lib.chk flags.log_info_file r.1.tree_id disk now r.0)
          (Verifier.run_consistency_check lib.chk lib.fl net.client flags.log_info_file disk)
          (prev, cur)
          (run_consistency_check-Previous lib.chk lib.fl net.client flags.log_info_file disk) e in
      Previous-StoredInfo cur.tree_id disk h.0 prev h.2

  started_at :
      (p : SignedCheckpoint) (cur : LogInfo)
      → IsStorableInfo cur
      → get_start_index p cur ≡ index_at lib flags inactive p
  unfolding get_start_index get_checkpoint_index
  started_at p cur storable = ap (λ l. index_at lib flags l p) storable.shards

  -- A run begins at the position on the disk.
  pub run_begins :
      (disk : Disk) (prev : Option SignedCheckpoint) (cur : LogInfo) (values : MonitoredValues)
      → CanStore
      → IsStorableInfo cur
      → StoredInfo disk prev
      → start_index (logic lib.chk flags values) none prev cur ≡ position_v1 lib flags inactive disk
  unfolding StoredInfo
  run_begins disk none cur values can storable h = sym (
      file_position-none lib.chk.unmarshal_text lib.chk.open_error (index_at lib flags inactive)
        flags.log_info_file (can.opens flags.log_info_file) can.empty disk
        (ground (arith, h, can.stats flags.log_info_file)))
  run_begins disk (some p) cur values can storable h =
      started_at p cur storable ∙ sym (ap (index_of (index_at lib flags inactive)) h)

  -- It ends at the checkpoint of the log info.
  pub run_ends :
      (cur : LogInfo) (storable : IsStorableInfo cur)
      → get_end_index lib.chk cur ≡ index_at lib flags inactive storable.current
  unfolding get_end_index read_latest_checkpoint_of get_checkpoint_index
  run_ends cur storable = ground (arith, storable.decoded, storable.shards)

  previous_head : Option SignedCheckpoint → Option Head
  previous_head none = none
  previous_head (some p) = some (head_of p)

  write_checkpoint-disk :
      (prev : Option SignedCheckpoint) (cur : LogInfo) (disk : Disk) (storable : IsStorableInfo cur)
      → (write_checkpoint lib.chk lib.os lib.marshal flags prev cur disk).1
        ≡ (write_checkpoint_rekor_v1 lib.os
            (head_of storable.current)
            (ok storable.text)
            (previous_head prev)
            flags.log_info_file
            false
            disk).1
  unfolding write_checkpoint read_latest_checkpoint_of previous_head
  write_checkpoint-disk none cur disk storable =
      ground (arith, storable.decoded, storable.marshalled)
  write_checkpoint-disk (some p) cur disk storable =
      ground (arith, storable.decoded, storable.marshalled)

  written_index :
      (prev : Option SignedCheckpoint) (cur : LogInfo) (disk : Disk) (storable : IsStorableInfo cur)
      → CanStore
      → is_due sizes_differ false (head_of storable.current) (previous_head prev) ≡ true
      → position_v1 lib flags inactive
          (write_checkpoint lib.chk lib.os lib.marshal flags prev cur disk).1
        ≡ index_at lib flags inactive storable.current
  written_index prev cur disk storable can due =
      ap (position_v1 lib flags inactive) (write_checkpoint-disk prev cur disk storable)
      ∙ ap (index_of (index_at lib flags inactive)) (
          write_checkpoint_rekor_v1-read lib.os (head_of storable.current) storable.text
            (previous_head prev) flags.log_info_file false disk lib.chk.unmarshal_text
            storable.current lib.chk.open_error (can.writes _ _) (can.opens flags.log_info_file)
            storable.read_back storable.plain storable.filled due)

  kept_disk :
      (c p : SignedCheckpoint) (text : String) (disk : Disk)
      → sizes_differ (head_of p) (head_of c) ≡ false
      → (write_checkpoint_rekor_v1 lib.os
          (head_of c)
          (ok text)
          (some (head_of p))
          flags.log_info_file
          false
          disk).1
        ≡ disk
  unfolding write_checkpoint_rekor_v1
  kept_disk c p text disk e = ground (arith, e)

  same_index_at :
      (c p : SignedCheckpoint)
      → sizes_differ (head_of p) (head_of c) ≡ false
      → index_at lib flags inactive p ≡ index_at lib flags inactive c
  same_index_at c p e = ground (arith, e)

  -- The write of a checkpoint moves the position to its end.
  pub run_writes :
      (disk : Disk) (prev : Option SignedCheckpoint) (cur : LogInfo) (values : MonitoredValues)
      → (storable : IsStorableInfo cur) → CanStore
      → start_index (logic lib.chk flags values) none prev cur ≡ position_v1 lib flags inactive disk
      → position_v1 lib flags inactive
          (write_checkpoint lib.chk lib.os lib.marshal flags prev cur disk).1
        ≡ get_end_index lib.chk cur
  unfolding previous_head
  run_writes disk none cur values storable can h =
      written_index none cur disk storable can refl ∙ sym (run_ends cur storable)
  run_writes disk (some p) cur values storable can h =
      elim (Bool-cases (sizes_differ (head_of p) (head_of storable.current))) [
        | inl e ↦ written_index (some p) cur disk storable can e ∙ sym (run_ends cur storable)
        | inr e ↦
            ap (position_v1 lib flags inactive) (
              write_checkpoint-disk (some p) cur disk storable
              ∙ kept_disk storable.current p storable.text disk e)
            ∙ sym h
            ∙ started_at p cur storable
            ∙ same_index_at storable.current p e
            ∙ sym (run_ends cur storable)
      ]

  -- A search leaves the file of the checkpoint alone.
  pub run_searches :
      (net : Reached) (config : IdentityMonitorConfiguration) (values : MonitoredValues)
      (disk : Disk)
      → HasOwnFile flags.log_info_file config
      → ((run_env_v1 lib flags net).identity_search config values disk).1 flags.log_info_file
        ≡ disk flags.log_info_file
  unfolding identity_search
  run_searches net config values disk own =
      report_found-kept lib.fmt lib.os flags.log_info_file
        (fetch_and_match lib.dec lib.re lib.x509 lib.read lib.fl net.client lib.fmt lib.os config
          values)
        config values disk own
