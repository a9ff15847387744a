-- ===== src/Util/File/Checkpoints/Tests.antt =====
-- A checkpoint of the same size from a new shard, and checkpoints and tree heads read back.
use rekor_monitor.Base.{◌≡◌, refl, true, false, none, some, Error, ok, Option, String, arith}
use rekor_monitor.Base.Classes.{string_comparable, nat_comparable}
use rekor_monitor.Util.File.{Disk, Os}
use rekor_monitor.Util.File.Checkpoints.{
  Head, flatten, write_ct_signed_tree_head, write_checkpoint_rekor_v2,
}
use rekor_monitor.Util.File.Reading.{read_latest_checkpoint, read_latest_ct_signed_tree_head}
use rekor_monitor.Util.File.Flatten.{IsPlain}
use rekor_monitor.Util.File.RoundTrip.{
  write_checkpoint_rekor_v2-read_latest_checkpoint, write_ct_signed_tree_head-read,
}

abbrev pub reliable : Os
reliable = record { open_append = λ f. none; write = λ f t. none; write_file = λ f t. none }

abbrev empty_disk : Disk
empty_disk = λ f. none

abbrev new_shard : Head
new_shard = record { origin = "log2026"; size = 9 }

abbrev old_shard : Head
old_shard = record { origin = "log2025"; size = 9 }

abbrev note : String
note = "log2026\n9\nx7Hk\n\n- log2026 Yw==\n"

abbrev pub no_error : String → Option Error
no_error = λ f. none

note-IsPlain : IsPlain note
unfolding flatten
note-IsPlain = (refl, refl, omega arith)

-- The size is that of the old shard.
write_checkpoint_rekor_v2-read_latest_checkpoint_example :
    read_latest_checkpoint
      (λ s. ok s)
      no_error
      "log_info.txt"
      (write_checkpoint_rekor_v2 reliable new_shard note
        (some old_shard)
        "log_info.txt"
        false
        empty_disk).1
    ≡ ok note
write_checkpoint_rekor_v2-read_latest_checkpoint_example =
    write_checkpoint_rekor_v2-read_latest_checkpoint reliable new_shard note (some old_shard)
      "log_info.txt" false empty_disk (λ s. ok s) note no_error refl refl refl note-IsPlain refl
      refl

write_ct_signed_tree_head-read_example :
    read_latest_ct_signed_tree_head
      (λ s. ok s)
      no_error
      "sth.txt"
      (write_ct_signed_tree_head reliable new_shard
        (ok "{9}")
        (some old_shard)
        "sth.txt"
        true
        empty_disk).1
    ≡ ok "{9}\n"
write_ct_signed_tree_head-read_example =
    write_ct_signed_tree_head-read reliable new_shard "{9}" (some old_shard) "sth.txt" true
      empty_disk (λ s. ok s) "{9}\n" no_error refl refl refl refl refl refl
