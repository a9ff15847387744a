-- ===== src/Cmd/RekorV2/Restart.antt =====
-- The write of a checkpoint by the Rekor v2 monitor, and what its file gives afterwards.
use rekor_monitor.Base.{
  ltb, ◌-◌, ◌≡◌, ap, ◌∙◌, true, false, Option, none, some, Error, Result, ok, String, arith,
}
use rekor_monitor.Base.Int.{pos, sub64-pos}
use rekor_monitor.Base.Classes.{◌==◌, nat_comparable, string_comparable}
use rekor_monitor.Cmd.Config.{MonitorFlags}
use rekor_monitor.Cmd.RekorV2.{head_of, max_int64, last_index}
use rekor_monitor.Rekor.V2.Client.{Checkpoint}
use rekor_monitor.Util.File.{Disk, Os, then_on}
use rekor_monitor.Util.File.Checkpoints.{Head, is_due, heads_differ, write_checkpoint_rekor_v2}
use rekor_monitor.Util.File.Reading.{read_latest_checkpoint}
use rekor_monitor.Util.File.Kept.{then_on-disk}
use rekor_monitor.Util.File.Flatten.{IsPlain}
use rekor_monitor.Util.File.RoundTrip.{write_checkpoint_rekor_v2-read}

pub unchanged :
    (os : Os) (cur : Checkpoint) (text : String) (p : Checkpoint) (file : String) (disk : Disk)
    → heads_differ (head_of p) (head_of cur) ≡ false
    → (write_checkpoint_rekor_v2 os (head_of cur) text (some (head_of p)) file false disk).1 ≡ disk
unfolding write_checkpoint_rekor_v2
unchanged os cur text p file disk e = ground (arith, e)

pub reads :
    (os : Os) (marshal : Checkpoint → String) (unmarshal : String → Result Checkpoint)
    (open_error : String → Option Error) (flags : MonitorFlags) (prev : Option Head)
    (cur : Checkpoint) (disk : Disk)
    → ((f t : String) → os.write_file f t ≡ none)
    → ((f : String) → open_error f ≡ none)
    → unmarshal (marshal cur) ≡ ok cur
    → IsPlain (marshal cur)
    → (cur.size == 0) ≡ false
    → is_due heads_differ false (head_of cur) prev ≡ true
    → read_latest_checkpoint unmarshal open_error flags.log_info_file
        (then_on "failed to write checkpoint"
          (write_checkpoint_rekor_v2 os
            (head_of cur)
            (marshal cur)
            prev
            flags.log_info_file
            false
            disk)
          (λ d. (ok tt, d))).1
      ≡ ok cur
reads os marshal unmarshal open_error flags prev cur disk w o d plain size due =
    ap (read_latest_checkpoint unmarshal open_error flags.log_info_file) (
      then_on-disk "failed to write checkpoint" (
        write_checkpoint_rekor_v2 os (head_of cur) (marshal cur) prev flags.log_info_file false
          disk))
    ∙ write_checkpoint_rekor_v2-read os (head_of cur) (marshal cur) prev flags.log_info_file false
        disk unmarshal cur open_error (w _ _) (o flags.log_info_file) d plain size due

-- The index of the last entry of a log that is neither empty nor too large.
pub last_index_known :
    (c : Checkpoint)
    → (c.size == 0) ≡ false
    → ltb max_int64 c.size ≡ false
    → last_index c ≡ some (pos (c.size - 1))
unfolding last_index
last_index_known c filled fits =
    ground (arith, filled, fits, sub64-pos c.size 1 (ground (arith, filled)) (ground (arith, fits)))

pub same_index :
    (p cur : Checkpoint)
    → heads_differ (head_of p) (head_of cur) ≡ false
    → last_index p ≡ last_index cur
unfolding last_index
same_index p cur e = ground (arith, e)
