-- ===== src/Util/File/Checkpoints.antt =====
-- Writing and reading the last checkpoint: WriteCheckpointRekorV1, WriteCheckpointRekorV2,
-- WriteCTSignedTreeHead, readLastCheckpoint. A file holds the checkpoint on one line, its newlines
-- written as a backslash and the letter n.
pub mod Tests
use Prim.Native.String.{◌++◌ as text_append}
use rekor_monitor.Base.{
  ℕ, ◌≡◌, ◌≢◌, refl, Bool, true, false, not, ◌||◌, ◌&&◌, Option, none, some, Error, Result, ok, err,
  panic, context, String, List, [], ◌∷◌, arith, eqb, if◌then◌else◌, Bool-cases, inl, inr,
  Result-cases, Option-cases,
}
use rekor_monitor.Base.Classes.{◌==◌, string_comparable, nat_comparable, same_refl}
use rekor_monitor.Util.File.{Disk, Written, Os, put, write_file, then_on}

-- What a checkpoint is compared by; the CT log's signed tree heads have no origin.
pub record Head : Type 0 where
  pub origin : String
  pub size : ℕ

-- strings.ReplaceAll(s, "\n", "\\n")
unfoldable pub flatten : String → String
flatten String.[] = ""
flatten (String.◌∷◌ c s) =
    text_append (if String.◌∷◌ c String.[] == "\n" then "\\n" else String.◌∷◌ c String.[])
      (flatten s)

-- A checkpoint is written if `differs` says so for the one before it, or if that is not there.
abbrev pub is_due : (Head → Head → Bool) → Bool → Head → Option Head → Bool
is_due differs force cur none = true
is_due differs force cur (some prev) = force || differs prev cur

abbrev pub sizes_differ : Head → Head → Bool
sizes_differ prev cur = not (prev.size == cur.size)

abbrev pub heads_differ : Head → Head → Bool
heads_differ prev cur = not (prev.origin == cur.origin) || not (prev.size == cur.size)

-- A checkpoint that is forced, the first one, or not of the origin and the size of the last one.
abbrev pub is_new : Bool → Head → Option Head → Bool
is_new force cur none = true
is_new force cur (some prev) =
    not (not force && (prev.origin == cur.origin && prev.size == cur.size))

pub is_new_lem :
    (force : Bool) (cur : Head) (prev : Option Head)
    → is_due heads_differ force cur prev ≡ is_new force cur prev
is_new_lem force cur none = refl
is_new_lem force cur (some prev) = ground arith

module _ (os : Os) where
  unfoldable pub write_checkpoint_bytes : String → String → Disk → Written
  unfolding flatten write_file
  write_checkpoint_bytes checkpoint file disk =
      then_on "failed to write to file"
        (write_file os file (text_append (flatten checkpoint) "\n") disk) (λ d. (ok tt, d))

  -- `marshalled` is what MarshalText returns for the checkpoint.
  unfoldable pub write_checkpoint_rekor_v1 :
      Head → Result String → Option Head → String → Bool → Disk → Written
  unfolding write_checkpoint_bytes
  write_checkpoint_rekor_v1 cur marshalled prev file force disk =
      if cur.size == 0
      then (ok tt, disk)
      else if is_due sizes_differ force cur prev
      then elim (context "failed to marshal checkpoint" marshalled) [
        | ok s ↦ write_checkpoint_bytes s file disk
        | err e ↦ (err e, disk)
        | panic p ↦ (panic p, disk)
      ]
      else (ok tt, disk)

  unfoldable pub write_checkpoint_rekor_v2 :
      Head → String → Option Head → String → Bool → Disk → Written
  unfolding write_checkpoint_bytes
  write_checkpoint_rekor_v2 cur marshalled prev file force disk =
      if cur.size == 0
      then (ok tt, disk)
      else if is_due heads_differ force cur prev
      then write_checkpoint_bytes marshalled file disk
      else (ok tt, disk)

  -- `marshalled` is what json.Marshal returns for the tree head.
  unfoldable pub write_ct_signed_tree_head :
      Head → Result String → Option Head → String → Bool → Disk → Written
  unfolding flatten write_file
  write_ct_signed_tree_head cur marshalled prev file force disk =
      if cur.size == 0
      then (ok tt, disk)
      else if is_due sizes_differ force cur prev
      then elim marshalled [
        | ok s ↦
            then_on "failed to write to file"
              (write_file os file (text_append (flatten s) "\n") disk) (λ d. (ok tt, d))
        | err e ↦ (err e, disk)
        | panic p ↦ (panic p, disk)
      ]
      else (ok tt, disk)

  pub write_checkpoint_bytes-disk :
      (s file name : String) (disk : Disk)
      → os.write_file file (text_append (flatten s) "\n") ≡ none
      → (write_checkpoint_bytes s file disk).1 name
        ≡ (if name == file then some (text_append (flatten s) "\n") else disk name)
  unfolding write_checkpoint_bytes
  write_checkpoint_bytes-disk s file name disk h = ground arith
