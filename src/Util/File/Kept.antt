-- ===== src/Util/File/Kept.antt =====
-- Writing the identities that were found changes no file but those that it names.
use rekor_monitor.Base.{
  ◌≡◌, refl, ◌∙◌, false, Option, none, some, ok, err, panic, String, List, [], ◌∷◌, arith,
}
use rekor_monitor.Base.Classes.{◌==◌, string_comparable}
use rekor_monitor.Base.Int.{ℤ}
use rekor_monitor.Identity.{LogEntry}
use rekor_monitor.Util.File.{Disk, Written, Os, write_file, append_text, then_on}
use rekor_monitor.Util.File.Identities.{
  Format, IdentityMetadata, write_identity, write_identity_metadata, write_entries,
  write_matched_identity_entries,
}

-- A file that is not the one of the identities' metadata, if there is one.
abbrev pub Apart : String → Option String → Type 0
Apart name none = Unit
Apart name (some file) = (name == file) ≡ false

then_on-kept :
    (text name : String) (w : Written) (next : Disk → Written) (disk : Disk)
    → w.1 name ≡ disk name
    → ((d : Disk) → d name ≡ disk name → (next d).1 name ≡ disk name)
    → (then_on text w next).1 name ≡ disk name
then_on-kept text name (ok _, d) next disk h k = k d h
then_on-kept text name (err e, d) next disk h k = h
then_on-kept text name (panic p, d) next disk h k = h

pub then_on-disk : (text : String) (w : Written) → (then_on text w (λ d. (ok tt, d))).1 ≡ w.1
then_on-disk text (ok _, d) = refl
then_on-disk text (err e, d) = refl
then_on-disk text (panic p, d) = refl

module _ (fmt : Format) (os : Os) (name : String) where
  write_identity-kept :
      (file format : String) (e : LogEntry) (disk : Disk)
      → (name == file) ≡ false
      → (write_identity fmt os file format e disk).1 name ≡ disk name
  unfolding write_identity append_text
  write_identity-kept file format e disk h = ground (arith, h)

  write_identity_metadata-kept :
      (file : String) (m : IdentityMetadata) (disk : Disk)
      → (name == file) ≡ false
      → (write_identity_metadata fmt os file m disk).1 name ≡ disk name
  unfolding write_identity_metadata write_file
  write_identity_metadata-kept file m disk h = ground (arith, h)

  write_entries-kept :
      (file format : String) (es : List LogEntry) (last : Disk → Written) (before disk : Disk)
      → (name == file) ≡ false
      → disk name ≡ before name
      → ((d : Disk) → d name ≡ before name → (last d).1 name ≡ before name)
      → (write_entries fmt os file format es last disk).1 name ≡ before name
  unfolding write_entries
  write_entries-kept file format [] last before disk h e k = k disk e
  write_entries-kept file format (x ∷ es) last before disk h e k =
      then_on-kept _ name (write_identity fmt os file format x disk) _ before
        (write_identity-kept file format x disk h ∙ e)
        (λ d same. write_entries-kept file format es last before d h same k)

  pub write_matched_identity_entries-kept :
      (file format : String) (matched : List LogEntry) (metadata : Option String) (end_index : ℤ)
      (disk : Disk)
      → (name == file) ≡ false
      → Apart name metadata
      → (write_matched_identity_entries fmt os file format matched metadata end_index disk).1 name
        ≡ disk name
  unfolding write_matched_identity_entries
  write_matched_identity_entries-kept file format matched none end_index disk h a =
      write_entries-kept file format matched _ disk disk h refl (λ d same. same)
  write_matched_identity_entries-kept file format matched (some metadata) end_index disk h a =
      write_entries-kept file format matched _ disk disk h refl (λ d same.
        then_on-kept _ name
          (write_identity_metadata fmt os metadata (record { latest_index = end_index }) d) _ disk
          (write_identity_metadata-kept metadata _ d a ∙ same) (λ d' same'. same'))
