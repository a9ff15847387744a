-- ===== src/Cmd/TrustedCas/Spared.antt =====
-- What ConfigureTrustedCAs and the function that it returns leave alone: every file that is not one of
-- the new temporary ones, and all of the configuration but the names of these.
use rekor_monitor.Base.{
  ◌≡◌, ◌≢◌, refl, subst, ◌∙◌, not, false, some, Result, ok, err, panic, String, List, arith,
  if_rule, Result_rule, Result_ok_rule, ok_injective,
}
use rekor_monitor.Base.Classes.{◌==◌, string_comparable}
use rekor_monitor.Base.Text.{is_blank}
use rekor_monitor.Cmd.TrustedCas.{
  FulcioCa, TempFiles, Configured, write_authorities, cleanup_files, fill_files,
  configure_trusted_cas, remove_file,
}
use rekor_monitor.Cmd.TrustedCas.Cleanup.{IsFresh}
use rekor_monitor.Cmd.TrustedCas.Files.{names_apart}
use rekor_monitor.Cmd.TrustedCas.Writes.{write_authorities-other}
use rekor_monitor.Notifications.{IdentityMonitorConfiguration}
use rekor_monitor.Util.File.{Disk, put}

-- The parts of the configuration that say what is searched and where the result is written.
pub record SameSearch (given config : IdentityMonitorConfiguration) : Type 0 where
  pub start : config.start_index ≡ given.start_index
  pub end : config.end_index ≡ given.end_index
  pub values : config.monitored_values ≡ given.monitored_values
  pub identities : config.output_identities_file ≡ given.output_identities_file
  pub metadata : config.identity_metadata_file ≡ given.identity_metadata_file

pub same_search : (config : IdentityMonitorConfiguration) → SameSearch config config
same_search config = record {
  start = refl;
  end = refl;
  values = refl;
  identities = refl;
  metadata = refl;
}

module _ (os : TempFiles) (name : String) where
  -- No temporary file gets this name.
  abbrev pub IsNoTemp : Type 0
  IsNoTemp = (p n : String) (d : Disk) → os.create_temp p d ≡ ok n → (name == n) ≡ false

  pub record IsSpared (given : IdentityMonitorConfiguration) (disk : Disk) (c : Configured os)
      : Type 0 where
    pub kept : c.2 name ≡ disk name
    pub cleaned : (cleanup : Disk → Disk) → c.0 ≡ ok cleanup → (d : Disk) → cleanup d name ≡ d name
    pub same : SameSearch given c.1

  remove_file-other :
      (file : String) (d : Disk) → (name == file) ≡ false → remove_file os file d name ≡ d name
  remove_file-other file d h = ground (arith, h)

  cleanup_files-other :
      (root_file file : String) (d : Disk)
      → (name == root_file) ≡ false
      → (name == file) ≡ false
      → cleanup_files os root_file (some file) d name ≡ d name
  unfolding cleanup_files
  cleanup_files-other root_file file d h k =
      remove_file-other file (remove_file os root_file d) k ∙ remove_file-other root_file d h

  stopped-IsSpared :
      (given config : IdentityMonitorConfiguration) (before disk : Disk) (e : Result (Disk → Disk))
      → ((cleanup : Disk → Disk) → e ≢ ok cleanup)
      → disk name ≡ before name
      → SameSearch given config
      → IsSpared given before (e, config, disk)
  stopped-IsSpared given config before disk e no_cleanup h same = record {
    kept = h;
    cleaned = λ cleanup k. absurd (no_cleanup cleanup k);
    same = same;
  }

  module _ (root_file file : String) (apart : (root_file == file) ≡ false)
      (h : (name == root_file) ≡ false) (k : (name == file) ≡ false) where
    fill_files-IsSpared :
        (cas : List FulcioCa) (given config : IdentityMonitorConfiguration) (before disk : Disk)
        → disk name ≡ before name
        → SameSearch given config
        → IsSpared given before (fill_files os root_file file cas config disk)
    unfolding fill_files
    fill_files-IsSpared cas given config before disk e same =
        let d = (write_authorities os root_file file cas disk).1 in
        let here : d name ≡ before name =
          write_authorities-other os root_file file apart name cas disk h k ∙ e in
        Result_rule (IsSpared given before) (write_authorities os root_file file cas disk).0 _ _ _
          (λ _. record {
            kept = here;
            cleaned = λ cleanup c d'.
                subst (λ (f : Disk → Disk). f d' name ≡ d' name)
                  (ok_injective (cleanup_files os root_file (some file)) cleanup c)
                  (cleanup_files-other root_file file d' h k);
            same = same;
          })
          (λ x.
            stopped-IsSpared given config before _ (err x) (λ cleanup c. cc)
              (cleanup_files-other root_file file d h k ∙ here) same)
          (λ p. stopped-IsSpared given config before d (panic p) (λ cleanup c. cc) here same)

  put-other :
      (file text : String) (d : Disk) → (name == file) ≡ false → put file text d name ≡ d name
  put-other file text d h = ground (arith, h)

  -- A file that is no temporary one is left alone by ConfigureTrustedCAs and by the clean-up, and the
  -- configuration keeps all but the names of the files of authorities.
  pub configure_trusted_cas-IsSpared :
      (config : IdentityMonitorConfiguration) (cas : List FulcioCa) (disk : Disk)
      → IsFresh os
      → IsNoTemp
      → IsSpared config disk (configure_trusted_cas os config cas disk)
  unfolding configure_trusted_cas
  configure_trusted_cas-IsSpared config cas disk fresh no_temp =
      let P : Configured os → Type 0 = IsSpared config disk in
      let first : String = "fulcio-root-*.pem" in
      let second : String = "fulcio-intermediate-*.pem" in
      if_rule P (not (is_blank config.ca_roots_file)) _ _
        (λ _. record {
          kept = refl;
          cleaned = λ cleanup c d.
              subst (λ (f : Disk → Disk). f d name ≡ d name) (ok_injective (λ d'. d') cleanup c)
                refl;
          same = same_search config;
        })
        (λ _.
          Result_ok_rule P (os.create_temp first disk) _ _ _
            (λ root c.
              let created = put root "" disk in
              let h = no_temp first root disk c in
              let with_root = record config { ca_roots_file = root } in
              let same : SameSearch config with_root = record {
                start = refl;
                end = refl;
                values = refl;
                identities = refl;
                metadata = refl;
              } in
              Result_ok_rule P (os.create_temp second created) _ _ _
                (λ file f.
                  let k = no_temp second file created f in
                  let apart = (names_apart os root file disk (fresh second file created f)).0 in
                  fill_files-IsSpared root file apart h k cas config
                    (record with_root { ca_intermediates_file = file }) disk (put file "" created)
                    (put-other file "" created k ∙ put-other root "" disk h)
                    (record {
                      start = refl;
                      end = refl;
                      values = refl;
                      identities = refl;
                      metadata = refl;
                    }))
                (λ e.
                  stopped-IsSpared config with_root disk _ (err _) (λ cleanup x. cc)
                    (remove_file-other root created h ∙ put-other root "" disk h) same)
                (λ p.
                  stopped-IsSpared config with_root disk created (panic p) (λ cleanup x. cc)
                    (put-other root "" disk h) same))
            (λ e.
              stopped-IsSpared config config disk disk (err _) (λ cleanup x. cc) refl
                (same_search config))
            (λ p.
              stopped-IsSpared config config disk disk (panic p) (λ cleanup x. cc) refl
                (same_search config)))
