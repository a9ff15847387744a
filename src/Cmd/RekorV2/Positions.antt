-- ===== src/Cmd/RekorV2/Positions.antt =====
-- What the calls of the Rekor v2 monitor do to the position that its file gives.
use rekor_monitor.Base.{
  ◌≡◌, refl, sym, ap, ◌∙◌, true, false, Option, none, some, ok, is_ok, is_some, String, List, [],
  ltb, arith, IfOk, IfOk-bind, IfOk-of, IfOk-any, Bool-cases, inl, inr,
}
use rekor_monitor.Base.Classes.{◌==◌, nat_comparable, string_comparable}
use rekor_monitor.Cmd.Config.{MonitorFlags}
use rekor_monitor.Cmd.Loop.{start_index}
use rekor_monitor.Cmd.RekorV2.{
  Shards, logic, head_of, max_int64, last_index, get_start_index, get_end_index, write_checkpoint,
  refresh_signing_config, update_shards, run_consistency_check,
}
use rekor_monitor.Cmd.RekorV2.Monitor.{Net, Packages, serving, run_env, index_in, position}
use rekor_monitor.Cmd.RekorV2.Restart.{last_index_known, same_index, unchanged, reads}
use rekor_monitor.Identity.{MonitoredValues}
use rekor_monitor.Notifications.{IdentityMonitorConfiguration}
use rekor_monitor.Rekor.V2.Client.{Checkpoint, ShardInfo}
use rekor_monitor.Rekor.V2.Search.{lookup_shard, identity_search, fetch_and_match}
use rekor_monitor.Rekor.V2.Verifier as Verifier
use rekor_monitor.Rekor.V2.Verifier.{has_checkpoint}
use rekor_monitor.Rekor.V2.Verifier.Consistency.{Previous, run_consistency_check-Previous_v2}
use rekor_monitor.Search.Kept.{HasOwnFile, report_found-kept}
use rekor_monitor.Util.File.{Disk}
use rekor_monitor.Util.File.Checkpoints.{heads_differ, write_checkpoint_rekor_v2}
use rekor_monitor.Util.File.Flatten.{IsPlain}
use rekor_monitor.Util.File.Kept.{then_on-disk}
use rekor_monitor.Util.File.Position.{index_of, file_position-kept, file_position-none}
use rekor_monitor.Util.File.Reading.{read_latest_checkpoint}

module _ {Builder Proof : Type 0} (lib : Packages Builder Proof) (flags : MonitorFlags)
    (shard : String) where
  -- A checkpoint of the shard, which is neither empty nor too large.
  pub record InShard (c : Checkpoint) : Type 0 where
    pub of_shard : c.origin ≡ shard
    pub filled : (c.size == 0) ≡ false
    pub fits : ltb max_int64 c.size ≡ false

  -- A checkpoint that the monitor can store: with a text that the file can hold and that is decoded to
  -- it.
  pub record IsStorable (c : Checkpoint) : Type 0 where
    pub decoded : lib.prv.unmarshal (lib.marshal c) ≡ ok c
    pub plain : IsPlain (lib.marshal c)
    pub in_shard : InShard c

  -- The calls of os do not fail, and an empty file is no checkpoint.
  pub record IsReliable : Type 0 where
    pub stats : (file : String) → lib.prv.stat file ≡ none
    pub opens : (file : String) → lib.prv.open_error file ≡ none
    pub writes : (file text : String) → lib.os.write_file file text ≡ none
    pub empty : is_ok (lib.prv.unmarshal "") ≡ false

  -- A run stays in the shard: it is the one that is searched, and those checkpoints that pass the
  -- check are of it, that of the file as well as the current one, which can be stored.
  pub record ServesStorable (s : Shards) (net : Net) : Type 0 where
    pub searched : s.latest_shard_origin ≡ shard
    pub current :
        (disk : Disk) (prev : Option Checkpoint) (cur : Checkpoint)
        → (run_env lib flags s net).run_consistency_check disk ≡ ok (prev, cur)
        → IsStorable cur
    pub previous :
        (disk : Disk) (p cur : Checkpoint)
        → (run_env lib flags s net).run_consistency_check disk ≡ ok (some p, cur)
        → InShard p

  pub position-kept :
      (d disk : Disk)
      → d flags.log_info_file ≡ disk flags.log_info_file
      → position lib flags shard d ≡ position lib flags shard disk
  position-kept d disk e =
      file_position-kept lib.prv.unmarshal lib.prv.open_error (index_in lib flags shard)
        flags.log_info_file d disk e

  -- Where no checkpoint is found there is no position.
  position-none :
      (disk : Disk)
      → IsReliable
      → has_checkpoint lib.prv [] flags.log_info_file disk ≡ false
      → position lib flags shard disk ≡ none
  position-none disk reliable h =
      file_position-none lib.prv.unmarshal lib.prv.open_error (index_in lib flags shard)
        flags.log_info_file (reliable.opens flags.log_info_file) reliable.empty disk
        (ground (arith, h, reliable.stats flags.log_info_file))

  -- The checkpoint that a check returns is that of the file.
  pub Stored : Disk → Option Checkpoint × Checkpoint → Type 0
  Stored disk (none, cur) = has_checkpoint lib.prv [] flags.log_info_file disk ≡ false
  Stored disk (some prev, cur) =
      read_latest_checkpoint lib.prv.unmarshal lib.prv.open_error flags.log_info_file disk ≡ ok prev

  pub Stored-read :
      (disk : Disk) (p cur : Checkpoint)
      → Stored disk (some p, cur)
      → read_latest_checkpoint lib.prv.unmarshal lib.prv.open_error flags.log_info_file disk ≡ ok p
  unfolding Stored
  Stored-read disk p cur h = h

  Previous-Stored :
      (shards : List (String × ShardInfo)) (latest_origin : String) (disk : Disk)
      (r : Option Checkpoint × Checkpoint)
      → Previous lib.prv shards latest_origin r.1 flags.log_info_file disk r.0
      → Stored disk r
  unfolding Stored
  Previous-Stored shards latest_origin disk (none, cur) h = h
  Previous-Stored shards latest_origin disk (some prev, cur) h = h.1.stored

  last_index_lem : (c : Checkpoint) → InShard c → last_index c ≡ index_in lib flags shard c
  last_index_lem c h =
      last_index_known c h.filled h.fits
      ∙ ground (arith, (string_comparable.same_iff c.origin shard).1 h.of_shard)

  module _ (s : Shards) (net : Net) where
    pub check-Stored :
        (disk : Disk) → IfOk (Stored disk) ((run_env lib flags s net).run_consistency_check disk)
    unfolding run_consistency_check Stored
    check-Stored disk =
        let now_served = serving net.answers s in
        let P : Option Checkpoint × Checkpoint → Type 0 = Stored disk in
        IfOk-bind P (refresh_signing_config net.tuf) _ λ services _.
          IfOk-bind P
            (update_shards lib.prv net.services net.fetch lib.keys lib.tls_config_for_ca net.tuf
              flags net.now now_served services)
            _
            λ new _.
              let shards = new.rekor_shards in
              let latest = new.latest_shard_origin in
              let checking =
                Verifier.run_consistency_check lib.prv shards latest flags.log_info_file disk in
              IfOk-any P checking (λ r e.
                Previous-Stored shards latest disk r
                  (IfOk-of
                    (λ r'.
                      ((lookup_shard latest shards).client.read_checkpoint ≡ ok r'.1)
                      × Previous lib.prv shards latest r'.1 flags.log_info_file disk r'.0)
                    checking r
                    (run_consistency_check-Previous_v2 lib.prv shards latest flags.log_info_file
                      disk)
                    e).1)

    -- A run begins at the position on the disk.
    pub begins_at :
        (disk : Disk) (prev : Option Checkpoint) (cur : Checkpoint) (values : MonitoredValues)
        → IsReliable
        → ((p : Checkpoint) → prev ≡ some p → InShard p)
        → Stored disk (prev, cur)
        → start_index (logic flags values) none prev cur ≡ position lib flags shard disk
    unfolding Stored get_start_index
    begins_at disk none cur values reliable inside h = sym (position-none disk reliable h)
    begins_at disk (some p) cur values reliable inside h =
        last_index_lem p (inside p refl) ∙ sym (ap (index_of (index_in lib flags shard)) h)

    pub ends_at : (cur : Checkpoint) → IsStorable cur → is_some (get_end_index cur) ≡ true
    unfolding get_end_index last_index
    ends_at cur storable =
        ap is_some (last_index_known cur storable.in_shard.filled storable.in_shard.fits)

    -- The write of a checkpoint moves the position to its end.
    pub writes_to :
        (disk : Disk) (prev : Option Checkpoint) (cur : Checkpoint) (values : MonitoredValues)
        → IsReliable
        → IsStorable cur
        → start_index (logic flags values) none prev cur ≡ position lib flags shard disk
        → position lib flags shard (write_checkpoint lib.os lib.marshal flags prev cur disk).1
          ≡ get_end_index cur
    unfolding write_checkpoint get_start_index get_end_index
    writes_to disk none cur values reliable storable h =
        ap (index_of (index_in lib flags shard)) (
          reads lib.os lib.marshal lib.prv.unmarshal lib.prv.open_error flags none cur disk
            reliable.writes reliable.opens storable.decoded storable.plain storable.in_shard.filled
            refl)
        ∙ sym (last_index_lem cur storable.in_shard)
    writes_to disk (some p) cur values reliable storable h =
        elim (Bool-cases (heads_differ (head_of p) (head_of cur))) [
          | inl e ↦
              ap (index_of (index_in lib flags shard)) (
                reads lib.os lib.marshal lib.prv.unmarshal lib.prv.open_error flags
                  (some (head_of p)) cur disk reliable.writes reliable.opens storable.decoded
                  storable.plain storable.in_shard.filled e)
              ∙ sym (last_index_lem cur storable.in_shard)
          | inr e ↦
              ap (position lib flags shard) (
                then_on-disk "failed to write checkpoint" (
                  write_checkpoint_rekor_v2 lib.os (head_of cur) (lib.marshal cur)
                    (some (head_of p)) flags.log_info_file false disk)
                ∙ unchanged lib.os cur (lib.marshal cur) p flags.log_info_file disk e)
              ∙ sym h
              ∙ same_index p cur e
        ]

    -- A search leaves the file of the checkpoint alone.
    pub searches_beside :
        (config : IdentityMonitorConfiguration) (values : MonitoredValues) (disk : Disk)
        → HasOwnFile flags.log_info_file config
        → ((run_env lib flags s net).identity_search config values disk).1 flags.log_info_file
          ≡ disk flags.log_info_file
    unfolding identity_search
    searches_beside config values disk own =
        report_found-kept lib.fmt lib.os flags.log_info_file
          (fetch_and_match lib.make lib.re lib.x509 lib.read lib.enc lib.fmt lib.os
            (serving net.answers s).rekor_shards s.latest_shard_origin config values)
          config values disk own
