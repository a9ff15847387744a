-- ===== src/Cmd/TrustedCas.antt =====
-- ConfigureTrustedCAs of internal/cmd/common.go: where no file of root authorities is configured, the
-- authorities of the TUF root are written to two temporary files. The package os is a record of
-- calls; opened files need no state, since a file is closed on every path that leaves the function.
pub mod Writes
pub mod Files
pub mod Cleanup
pub mod Spared
pub mod Tests
use Prim.Native.String.{◌++◌ as text_append}
use rekor_monitor.Base.{
  ℕ, Bool, true, false, not, Option, none, some, Error, Result, ok, err, panic, wrap, msg, context,
  String, List, [], ◌∷◌, if◌then◌else◌,
}
use rekor_monitor.Base.Classes.{◌==◌, string_comparable}
use rekor_monitor.Base.Text.{is_blank}
use rekor_monitor.Notifications.{IdentityMonitorConfiguration}
use rekor_monitor.Util.File.{Disk, Written, put, or_empty, then_on, then_do}

-- root.FulcioCertificateAuthority: its certificates in DER
pub record FulcioCa : Type 0 where
  pub root : String
  pub intermediates : List String

pub record TempFiles : Type 0 where
  -- os.CreateTemp: the name of the new file, which depends on what files there are
  pub create_temp : String → Disk → Result String
  -- a write to an open file, and os.Remove
  pub write : String → String → Option Error
  pub remove : String → Option Error
  -- pem.Encode of a block of type CERTIFICATE
  pub encode_pem : String → String

module _ (os : TempFiles) where
  abbrev pub remove_file : String → Disk → Disk
  remove_file name disk = elim (os.remove name) [
    | some e ↦ disk
    | none ↦ λ n. if n == name then none else disk n
  ]

  -- A failing write may leave a part of the block, which is left out: the file is then removed.
  unfoldable pub encode_to : String → String → Disk → Written
  encode_to file der disk =
      let block = os.encode_pem der in
      elim (os.write file block) [
        | some e ↦ (err e, disk)
        | none ↦ (ok tt, put file (text_append (or_empty (disk file)) block) disk)
      ]

  unfoldable pub write_intermediates : String → List String → Disk → Written
  unfolding encode_to
  write_intermediates file [] disk = (ok tt, disk)
  write_intermediates file (der ∷ ders) disk =
      then_on "failed to write Fulcio CA intermediate to temp file" (encode_to file der disk)
        (write_intermediates file ders)

  -- The loop over the authorities.
  unfoldable pub write_authorities : String → String → List FulcioCa → Disk → Written
  unfolding write_intermediates
  write_authorities root_file intermediate_file [] disk = (ok tt, disk)
  write_authorities root_file intermediate_file (ca ∷ cas) disk =
      let rest = write_authorities root_file intermediate_file cas in
      then_on "failed to write Fulcio CA root to temp file" (encode_to root_file ca.root disk)
        (λ d. then_do (write_intermediates intermediate_file ca.intermediates d) rest)

  -- The function that a success returns, and what is done on an error.
  unfoldable pub cleanup_files : String → Option String → Disk → Disk
  cleanup_files root_file none disk = remove_file root_file disk
  cleanup_files root_file (some file) disk = remove_file file (remove_file root_file disk)

  abbrev pub Configured : Type 0
  Configured = Result (Disk → Disk) × IdentityMonitorConfiguration × Disk

  unfoldable pub fill_files :
      String → String → List FulcioCa → IdentityMonitorConfiguration → Disk → Configured
  unfolding write_authorities cleanup_files
  fill_files root_file file cas config disk =
      let (r, d) = write_authorities root_file file cas disk in
      elim r [
        | ok _ ↦ (ok (cleanup_files root_file (some file)), config, d)
        | err e ↦ (err e, config, cleanup_files root_file (some file) d)
        | panic p ↦ (panic p, config, d)
      ]

  unfoldable pub configure_trusted_cas :
      IdentityMonitorConfiguration → List FulcioCa → Disk → Configured
  unfolding fill_files
  configure_trusted_cas config cas disk =
      if not (is_blank config.ca_roots_file)
      then (ok (λ d. d), config, disk)
      else elim (os.create_temp "fulcio-root-*.pem" disk) [
        | err e ↦ (err (wrap "failed to create temp file for Fulcio CA" e), config, disk)
        | panic p ↦ (panic p, config, disk)
        | ok root_file ↦
            let with_root = record config { ca_roots_file = root_file } in
            let created = put root_file "" disk in
            elim (os.create_temp "fulcio-intermediate-*.pem" created) [
              | err e ↦ (
                err (wrap "failed to create temp file for Fulcio CA intermediate" e),
                with_root,
                cleanup_files root_file none created,
              )
              | panic p ↦ (panic p, with_root, created)
              | ok file ↦
                  fill_files root_file file cas (record with_root { ca_intermediates_file = file })
                    (put file "" created)
            ]
      ]
