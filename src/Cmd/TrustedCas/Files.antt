-- ===== src/Cmd/TrustedCas/Files.antt =====
-- The two temporary files of ConfigureTrustedCAs: how they are filled, and removed again.
use text.Mathlib.TextLemmas.{nil-append}
use rekor_monitor.Base.{
  ◌≡◌, refl, sym, ◌∙◌, ap, false, none, some, Error, ok, err, String, List, arith, if◌then◌else◌,
  ok_injective, Result-cases, Bool-cases, inl, inr,
}
use rekor_monitor.Base.Classes.{◌==◌, string_comparable, same_refl, differ_sym}
use rekor_monitor.Cmd.TrustedCas.{
  FulcioCa, TempFiles, Configured, write_authorities, cleanup_files, fill_files, remove_file,
}
use rekor_monitor.Cmd.TrustedCas.Writes.{
  roots, intermediates, pem_bundle, write_authorities-other, write_authorities-text,
}
use rekor_monitor.Notifications.{IdentityMonitorConfiguration}
use rekor_monitor.Util.File.{Disk, put}

module _ (os : TempFiles) where
  pub remove_file-at :
      (file name : String) (d : Disk)
      → os.remove file ≡ none
      → remove_file os file d name ≡ (if name == file then none else d name)
  remove_file-at file name d h = rw (remove_file, h) refl

  module _ (root_file file : String) (apart : (root_file == file) ≡ false) where
    -- Once both files are there and empty, whatever is written to them, their cleanup leaves the disk
    -- that was there without them.
    pub cleanup_files_lem :
        (name : String) (cas : List FulcioCa) (d : Disk)
        → ((n : String) → os.remove n ≡ none)
        → d root_file ≡ none
        → d file ≡ none
        → cleanup_files os root_file
            (some file)
            (write_authorities os root_file file cas (put file "" (put root_file "" d))).1
            name
          ≡ d name
    unfolding cleanup_files
    cleanup_files_lem name cas d removed r f =
        let written =
          (write_authorities os root_file file cas (put file "" (put root_file "" d))).1 in
        let without_root = remove_file os root_file written in
        let end : remove_file os file without_root name
            ≡ (if name == file then none else if name == root_file then none else written name) =
          ground (
            arith,
            remove_file-at file name without_root (removed file),
            remove_file-at root_file name written (removed root_file),
          ) in
        elim (Bool-cases (name == file)) [
          | inl e ↦
              let same : name ≡ file = (string_comparable.same_iff name file).0 e in
              ground (arith, end, e, ap d same, f)
          | inr e ↦ elim (Bool-cases (name == root_file)) [
            | inl g ↦
                let same : name ≡ root_file = (string_comparable.same_iff name root_file).0 g in
                ground (arith, end, e, g, ap d same, r)
            | inr g ↦ ground (
              arith,
              end,
              e,
              g,
              write_authorities-other os root_file file apart name cas
                  (put file "" (put root_file "" d)) g e,
            )
          ]
        ]

  pub names_apart :
      (root_file file : String) (disk : Disk)
      → put root_file "" disk file ≡ none
      → ((root_file == file) ≡ false) × (disk file ≡ none)
  names_apart root_file file disk h = elim (Bool-cases (file == root_file)) [
    | inl e ↦ absurd (ground (arith, e, h))
    | inr e ↦ (differ_sym file root_file e, ground (arith, e, h))
  ]

  pub fill_files-err :
      (root_file file : String) (cas : List FulcioCa) (config : IdentityMonitorConfiguration)
      (disk : Disk) (e : Error)
      → (fill_files os root_file file cas config disk).0 ≡ err e
      → (fill_files os root_file file cas config disk).2
        ≡ cleanup_files os root_file (some file) (write_authorities os root_file file cas disk).1
  unfolding fill_files
  fill_files-err root_file file cas config disk e h =
      elim (Result-cases (write_authorities os root_file file cas disk).0) [
        | inl (x, w) ↦ absurd (ground (arith, w, h))
        | inr (inl (x, w)) ↦ ground (arith, w)
        | inr (inr (x, w)) ↦ absurd (ground (arith, w, h))
      ]

  pub first_removed :
      (root_file name : String) (disk : Disk)
      → os.remove root_file ≡ none
      → disk root_file ≡ none
      → cleanup_files os root_file none (put root_file "" disk) name ≡ disk name
  unfolding cleanup_files
  first_removed root_file name disk r f =
      let end = remove_file-at root_file name (put root_file "" disk) r in
      elim (Bool-cases (name == root_file)) [
        | inl e ↦
            let same : name ≡ root_file = (string_comparable.same_iff name root_file).0 e in
            ground (arith, end, e, ap disk same, f)
        | inr e ↦ ground (arith, end, e)
      ]

  pub fill_files-ok :
      (root_file file : String) (cas : List FulcioCa) (config : IdentityMonitorConfiguration)
      (disk : Disk) (cleanup : Disk → Disk)
      → (fill_files os root_file file cas config disk).0 ≡ ok cleanup
      → ((write_authorities os root_file file cas disk).0 ≡ ok tt)
        × (cleanup_files os root_file (some file) ≡ cleanup)
        × ((fill_files os root_file file cas config disk).1 ≡ config)
        × ((fill_files os root_file file cas config disk).2
            ≡ (write_authorities os root_file file cas disk).1)
  unfolding fill_files
  fill_files-ok root_file file cas config disk cleanup h =
      elim (Result-cases (write_authorities os root_file file cas disk).0) [
        | inl (_, w) ↦ (
          w,
          ok_injective (cleanup_files os root_file (some file)) cleanup
              (sym (rw (fill_files, w) refl) ∙ h),
          ground (arith, w),
          ground (arith, w),
        )
        | inr (inl (x, w)) ↦ absurd (ground (arith, w, h))
        | inr (inr (x, w)) ↦ absurd (ground (arith, w, h))
      ]

  -- What the call has left when it succeeded: the two files with their certificates, and a function
  -- that restores the disk.
  abbrev pub Restores : List FulcioCa → Disk → (Disk → Disk) → Configured os → Type 0
  Restores cas disk cleanup r =
      (r.2 r.1.ca_roots_file ≡ some (pem_bundle os (roots cas)))
      × (r.2 r.1.ca_intermediates_file ≡ some (pem_bundle os (intermediates cas)))
      × ((name : String) → cleanup r.2 name ≡ disk name)

  pub fill_files-Restores :
      (root_file file : String) (cas : List FulcioCa) (config : IdentityMonitorConfiguration)
      (disk : Disk) (cleanup : Disk → Disk)
      → (root_file == file) ≡ false
      → disk root_file ≡ none
      → disk file ≡ none
      → ((n : String) → os.remove n ≡ none)
      → config.ca_roots_file ≡ root_file
      → config.ca_intermediates_file ≡ file
      → (fill_files os root_file file cas config (put file "" (put root_file "" disk))).0
        ≡ ok cleanup
      → Restores cas disk cleanup
          (fill_files os root_file file cas config (put file "" (put root_file "" disk)))
  fill_files-Restores root_file file cas config disk cleanup apart r f removed named_root named_file
        h =
      let ready = put file "" (put root_file "" disk) in
      let (w, same, kept, end) = fill_files-ok root_file file cas config ready cleanup h in
      let (x, y) =
        write_authorities-text os root_file file apart "" "" cas ready
          (ground (arith, apart, same_refl root_file)) (ground (arith, same_refl file)) w in
      let result = fill_files os root_file file cas config ready in
      (
        ap (λ (i : IdentityMonitorConfiguration). result.2 i.ca_roots_file) kept
            ∙ ap result.2 named_root
            ∙ ap (λ (d : Disk). d root_file) end
            ∙ x
            ∙ ap (λ t. some t) (nil-append (pem_bundle os (roots cas))),
        ap (λ (i : IdentityMonitorConfiguration). result.2 i.ca_intermediates_file) kept
            ∙ ap result.2 named_file
            ∙ ap (λ (d : Disk). d file) end
            ∙ y
            ∙ ap (λ t. some t) (nil-append (pem_bundle os (intermediates cas))),
        (λ name.
            ap (λ (k : Disk → Disk). k result.2 name) (sym same)
            ∙ ap (λ (d : Disk). cleanup_files os root_file (some file) d name) end
            ∙ cleanup_files_lem root_file file apart name cas disk removed r f),
      )
