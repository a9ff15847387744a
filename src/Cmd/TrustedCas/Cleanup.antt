-- ===== src/Cmd/TrustedCas/Cleanup.antt =====
-- What ConfigureTrustedCAs leaves on the disk, on success and on an error.
use rekor_monitor.Base.{
  subst, ◌≡◌, refl, sym, ◌∙◌, ap, true, none, some, Error, ok, err, String, List, arith,
  Result-cases, Bool-cases, inl, inr,
}
use rekor_monitor.Base.Classes.{string_comparable}
use rekor_monitor.Base.Text.{is_blank}
use rekor_monitor.Cmd.TrustedCas.{
  FulcioCa, TempFiles, Configured, cleanup_files, fill_files, configure_trusted_cas,
}
use rekor_monitor.Cmd.TrustedCas.Writes.{roots, intermediates, pem_bundle}
use rekor_monitor.Notifications.{IdentityMonitorConfiguration}
use rekor_monitor.Util.File.{Disk, put}
use rekor_monitor.Cmd.TrustedCas.Files.{
  names_apart, fill_files-err, cleanup_files_lem, first_removed, Restores, fill_files-Restores,
}

module _ (os : TempFiles) where
  -- The temporary files are new ones.
  abbrev pub IsFresh : Type 0
  IsFresh = (p n : String) (d : Disk) → os.create_temp p d ≡ ok n → d n ≡ none

  -- If the trusted authorities cannot be configured, no temporary file is left on the disk, where
  -- os.CreateTemp gives new files and os.Remove does not fail.
  pub configure_trusted_cas-err :
      (config : IdentityMonitorConfiguration) (cas : List FulcioCa) (disk : Disk) (e : Error)
      (name : String)
      → IsFresh
      → ((n : String) → os.remove n ≡ none)
      → (configure_trusted_cas os config cas disk).0 ≡ err e
      → (configure_trusted_cas os config cas disk).2 name ≡ disk name
  unfolding configure_trusted_cas
  configure_trusted_cas-err config cas disk e name fresh removed h =
      let first : String = "fulcio-root-*.pem" in
      let second : String = "fulcio-intermediate-*.pem" in
      elim (Bool-cases (is_blank config.ca_roots_file)) [
        | inr b ↦ absurd (ground (arith, b, h))
        | inl b ↦ elim (Result-cases (os.create_temp first disk)) [
          | inl (root, c) ↦
              let created = put root "" disk in
              elim (Result-cases (os.create_temp second created)) [
                | inl (file, f) ↦
                    let (apart, none_there) =
                      names_apart os root file disk (fresh second file created f) in
                    let both = record config {
                      ca_roots_file = root;
                      ca_intermediates_file = file;
                    } in
                    let ready = put file "" created in
                    let run : configure_trusted_cas os config cas disk
                        ≡ fill_files os root file cas both ready =
                      ground (arith, b, c, f) in
                    ap (λ (r : Configured os). r.2 name) run
                    ∙ ap (λ (d : Disk). d name)
                        (fill_files-err os root file cas both ready e
                          (ap (λ (r : Configured os). r.0) (sym run) ∙ h))
                    ∙ cleanup_files_lem os root file apart name cas disk removed
                        (fresh first root disk c) none_there
                | inr (inl (x, f)) ↦
                    let end : (configure_trusted_cas os config cas disk).2
                        ≡ cleanup_files os root none created =
                      ground (arith, b, c, f) in
                    ap (λ (d : Disk). d name) end
                    ∙ first_removed os root name disk (removed root) (fresh first root disk c)
                | inr (inr (x, f)) ↦ absurd (ground (arith, b, c, f, h))
              ]
          | inr (inl (x, c)) ↦ ground (arith, b, c)
          | inr (inr (x, c)) ↦ absurd (ground (arith, b, c, h))
        ]
      ]

  -- Where no file of root authorities is configured and the call succeeds, the two files that the
  -- configuration then names hold the root and the intermediate certificates of all authorities, in
  -- their order, and the function that is returned restores the disk as it was before, where
  -- os.CreateTemp gives new files and os.Remove does not fail.
  pub configure_trusted_cas-ok :
      (config : IdentityMonitorConfiguration) (cas : List FulcioCa) (disk : Disk)
      (cleanup : Disk → Disk)
      → IsFresh
      → ((n : String) → os.remove n ≡ none)
      → is_blank config.ca_roots_file ≡ true
      → (configure_trusted_cas os config cas disk).0 ≡ ok cleanup
      → ((configure_trusted_cas os config cas disk).2
            (configure_trusted_cas os config cas disk).1.ca_roots_file
          ≡ some (pem_bundle os (roots cas)))
        × ((configure_trusted_cas os config cas disk).2
              (configure_trusted_cas os config cas disk).1.ca_intermediates_file
            ≡ some (pem_bundle os (intermediates cas)))
        × ((name : String) → cleanup (configure_trusted_cas os config cas disk).2 name ≡ disk name)
  unfolding configure_trusted_cas
  configure_trusted_cas-ok config cas disk cleanup fresh removed b h =
      let first : String = "fulcio-root-*.pem" in
      let second : String = "fulcio-intermediate-*.pem" in
      elim (Result-cases (os.create_temp first disk)) [
        | inl (root, c) ↦
            let created = put root "" disk in
            elim (Result-cases (os.create_temp second created)) [
              | inl (file, f) ↦
                  let (apart, none_there) =
                    names_apart os root file disk (fresh second file created f) in
                  let both = record config { ca_roots_file = root; ca_intermediates_file = file } in
                  let ready = put file "" created in
                  let run : configure_trusted_cas os config cas disk
                      ≡ fill_files os root file cas both ready =
                    ground (arith, b, c, f) in
                  let filled = fill_files os root file cas both ready in
                  let done : Restores os cas disk cleanup filled =
                    fill_files-Restores os root file cas both disk cleanup apart
                      (fresh first root disk c) none_there removed refl refl
                      (ap (λ (r : Configured os). r.0) (sym run) ∙ h) in
                  subst (Restores os cas disk cleanup) (sym run) done
              | inr (inl (x, f)) ↦ absurd (ground (arith, b, c, f, h))
              | inr (inr (x, f)) ↦ absurd (ground (arith, b, c, f, h))
            ]
        | inr (inl (x, c)) ↦ absurd (ground (arith, b, c, h))
        | inr (inr (x, c)) ↦ absurd (ground (arith, b, c, h))
      ]
