-- ===== src/Util/File/Position.antt =====
-- The index that a checkpoint file gives a monitor to start from.
use rekor_monitor.Base.{
  ◌≡◌, refl, ap, ◌∙◌, true, false, not, Option, none, some, Error, Result, ok, err, panic, is_ok,
  String, ◌>>=◌, arith,
}
use rekor_monitor.Base.Int.{ℤ}
use rekor_monitor.Base.Text.{is_blank}
use rekor_monitor.Util.File.{Disk, or_empty}
use rekor_monitor.Util.File.Reading.{
  read_latest_checkpoint, read_last_checkpoint, last_line, unflatten,
}

abbrev pub index_of : {C : Type 0} → (C → Option ℤ) → Result C → Option ℤ
index_of index (ok c) = index c
index_of index (err e) = none
index_of index (panic p) = none

index_of-not_ok :
    {C : Type 0} (index : C → Option ℤ) (r : Result C) → is_ok r ≡ false → index_of index r ≡ none
index_of-not_ok index (ok c) h = cc
index_of-not_ok index (err e) h = refl
index_of-not_ok index (panic p) h = refl

module _ {C : Type 0} (unmarshal : String → Result C) (open_error : String → Option Error)
    (index : C → Option ℤ) (file : String) where
  abbrev pub file_position : Disk → Option ℤ
  file_position disk = index_of index (read_latest_checkpoint unmarshal open_error file disk)

  -- It depends on that file alone.
  pub file_position-kept :
      (d disk : Disk) → d file ≡ disk file → file_position d ≡ file_position disk
  unfolding read_latest_checkpoint read_last_checkpoint
  file_position-kept d disk e = ap (λ t. file_position (λ name. t)) e

  read_blank :
      open_error file ≡ none → read_last_checkpoint open_error file (λ name. some "") ≡ ok ""
  unfolding read_last_checkpoint last_line unflatten
  read_blank opens = ground (arith, opens)

  module _ (opens : open_error file ≡ none) (empty : is_ok (unmarshal "") ≡ false) where
    blank_text : (t : String) → is_blank t ≡ true → file_position (λ name. some t) ≡ none
    unfolding read_latest_checkpoint
    blank_text String.[] h =
        ap (λ r. index_of index (r >>= λ text. unmarshal text)) (read_blank opens)
        ∙ index_of-not_ok index (unmarshal "") empty
    blank_text (String.◌∷◌ c t) h = cc

    blank_file :
        (text : Option String)
        → is_blank (or_empty text) ≡ true
        → file_position (λ name. text) ≡ none
    unfolding read_latest_checkpoint read_last_checkpoint
    blank_file none h = refl
    blank_file (some t) h = blank_text t h

    -- A file that is empty or does not exist gives none.
    pub file_position-none :
        (disk : Disk) → not (is_blank (or_empty (disk file))) ≡ false → file_position disk ≡ none
    file_position-none disk h =
        file_position-kept disk (λ name. disk file) refl
        ∙ blank_file (disk file) (ground (arith, h))
