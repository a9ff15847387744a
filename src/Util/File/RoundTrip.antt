-- ===== src/Util/File/RoundTrip.antt =====
-- What is read back from a checkpoint file after a checkpoint was written to it.
use Prim.Native.String.{◌++◌ as text_append}
use text.Mathlib.TextLemmas.{nil-append}
use rekor_monitor.Base.{
  ◌≡◌, ◌∙◌, Bool, true, false, Option, none, some, Error, Result, ok, String, arith,
}
use rekor_monitor.Base.Classes.{◌==◌, string_comparable, nat_comparable, same_refl}
use rekor_monitor.Base.Text.{lacks}
use rekor_monitor.Util.File.{Disk, Os, write_file}
use rekor_monitor.Util.File.Checkpoints.{
  Head, flatten, is_due, sizes_differ, heads_differ, is_new, is_new_lem, write_checkpoint_bytes,
  write_checkpoint_bytes-disk, write_checkpoint_rekor_v1, write_checkpoint_rekor_v2,
  write_ct_signed_tree_head,
}
use rekor_monitor.Util.File.Reading.{
  unflatten, read_last_checkpoint, read_latest_checkpoint, read_file,
  read_latest_ct_signed_tree_head,
}
use rekor_monitor.Util.File.Flatten.{
  IsPlain, drop_return_lem, last_line_lem, flatten-lacks, unflatten-flatten, flatten-returns,
  unflatten_flat,
}

-- A file that holds the line of a checkpoint is read as that checkpoint's text.
read_last_checkpoint_line :
    (open_error : String → Option Error) (s file : String) (disk : Disk)
    → IsPlain s
    → open_error file ≡ none
    → disk file ≡ some (text_append (flatten s) "\n")
    → read_last_checkpoint open_error file disk ≡ ok s
unfolding read_last_checkpoint
read_last_checkpoint_line open_error s file disk (b, r, k) o d = ground (
  arith,
  o,
  d,
  last_line_lem 0 "" "" (flatten s) (flatten-lacks s),
  nil-append (flatten s),
  drop_return_lem (flatten s),
  flatten-returns s r,
  unflatten_flat s b,
)

write_checkpoint_bytes-read :
    (os : Os) (open_error : String → Option Error) (s file : String) (disk : Disk)
    → IsPlain s
    → open_error file ≡ none
    → os.write_file file (text_append (flatten s) "\n") ≡ none
    → read_last_checkpoint open_error file (write_checkpoint_bytes os s file disk).1 ≡ ok s
write_checkpoint_bytes-read os open_error s file disk plain o w =
    read_last_checkpoint_line open_error s file (write_checkpoint_bytes os s file disk).1 plain o
      (ground (arith, write_checkpoint_bytes-disk os s file file disk w, same_refl file))

module _ {C : Type 0} (os : Os) (cur : Head) (marshalled : String) (prev : Option Head)
    (file : String) (force : Bool) (disk : Disk) (unmarshal : String → Result C) (c : C)
    (open_error : String → Option Error)
    (w : os.write_file file (text_append (flatten marshalled) "\n") ≡ none)
    (o : open_error file ≡ none) (d : unmarshal marshalled ≡ ok c) (plain : IsPlain marshalled)
    (size : (cur.size == 0) ≡ false) where
  pub write_checkpoint_rekor_v2-read :
      is_due heads_differ force cur prev ≡ true
      → read_latest_checkpoint unmarshal open_error file
          (write_checkpoint_rekor_v2 os cur marshalled prev file force disk).1
        ≡ ok c
  unfolding write_checkpoint_rekor_v2 read_latest_checkpoint
  write_checkpoint_rekor_v2-read due = ground (
    arith,
    size,
    due,
    d,
    write_checkpoint_bytes-read os open_error marshalled file disk plain o w,
  )

  pub write_checkpoint_rekor_v1-read :
      is_due sizes_differ force cur prev ≡ true
      → read_latest_checkpoint unmarshal open_error file
          (write_checkpoint_rekor_v1 os cur (ok marshalled) prev file force disk).1
        ≡ ok c
  unfolding write_checkpoint_rekor_v1 read_latest_checkpoint
  write_checkpoint_rekor_v1-read due = ground (
    arith,
    size,
    due,
    d,
    write_checkpoint_bytes-read os open_error marshalled file disk plain o w,
  )

  -- A v2 checkpoint of a log that is not empty is read back as it was, from the file that it was
  -- written to, if it is forced, the first one, or of another origin or size than the last one, and
  -- if no call of os fails, the decoder undoes the encoder, and the encoded text has no backslash, no
  -- carriage return and less than 65536 bytes when flattened.
  pub write_checkpoint_rekor_v2-read_latest_checkpoint :
      is_new force cur prev ≡ true
      → read_latest_checkpoint unmarshal open_error file
          (write_checkpoint_rekor_v2 os cur marshalled prev file force disk).1
        ≡ ok c
  write_checkpoint_rekor_v2-read_latest_checkpoint due =
      write_checkpoint_rekor_v2-read (is_new_lem force cur prev ∙ due)

-- A signed tree head of a log that is not empty is read back as it was, from the file that it was
-- written to, where the writing was due, no call of os fails, the encoded text has no backslash and
-- the decoder, given a newline behind that text, undoes the encoder.
pub write_ct_signed_tree_head-read :
    {C : Type 0} (os : Os) (cur : Head) (marshalled : String) (prev : Option Head) (file : String)
    (force : Bool) (disk : Disk) (unmarshal : String → Result C) (c : C)
    (read_error : String → Option Error)
    → os.write_file file (text_append (flatten marshalled) "\n") ≡ none
    → read_error file ≡ none
    → unmarshal (text_append marshalled "\n") ≡ ok c
    → lacks "\\" marshalled ≡ true
    → (cur.size == 0) ≡ false
    → is_due sizes_differ force cur prev ≡ true
    → read_latest_ct_signed_tree_head unmarshal read_error file
        (write_ct_signed_tree_head os cur (ok marshalled) prev file force disk).1
      ≡ ok c
unfolding write_ct_signed_tree_head read_latest_ct_signed_tree_head read_file write_file unflatten
write_ct_signed_tree_head-read os cur m prev file force disk unmarshal c read_error w r d p size
      due =
    ground (arith, w, r, d, size, due, same_refl file, unflatten-flatten m "\n" p)
