-- ===== src/Cmd/TrustedCas/Tests.antt =====
-- One authority, first on a disk where its certificates can be written and then on one where the
-- second write fails.
use rekor_monitor.Base.{
  ◌≡◌, refl, arith, Option, none, some, Error, ok, err, msg, wrap, Option-cases, inl, inr, subst,
  String, List, [], ◌∷◌, if◌then◌else◌,
}
use rekor_monitor.Base.Classes.{◌==◌, string_comparable}
use rekor_monitor.Cmd.TrustedCas.{
  FulcioCa, TempFiles, encode_to, write_intermediates, write_authorities, cleanup_files, fill_files,
  configure_trusted_cas,
}
use rekor_monitor.Cmd.TrustedCas.Cleanup.{
  IsFresh, configure_trusted_cas-err, configure_trusted_cas-ok,
}
use rekor_monitor.Cmd.TrustedCas.Writes.{pem_bundle}
use rekor_monitor.Notifications.{IdentityMonitorConfiguration}
use rekor_monitor.Notifications.Tests.{config}
use rekor_monitor.Util.File.{Disk}

-- The name is the pattern, if there is no such file.
abbrev temp_files : Option Error → TempFiles
temp_files failure = record {
  create_temp = λ p d. elim (d p) [ none ↦ ok p | some t ↦ err (msg "file exists") ];
  write = λ f t. if t == "der2" then failure else none;
  remove = λ f. none;
  encode_pem = λ der. der;
}

fresh : (failure : Option Error) → IsFresh (temp_files failure)
fresh failure p n d h = elim (Option-cases (d p)) [
  | inl e ↦ let same : p ≡ n = ground (arith, e, h) in subst (λ m. d m ≡ none) same e
  | inr (t, e) ↦ absurd (ground (arith, e, h))
]

abbrev authorities : List FulcioCa
authorities = record { root = "der1"; intermediates = "der2" ∷ [] } ∷ []

abbrev empty_disk : Disk
empty_disk = λ n. none

abbrev unset : IdentityMonitorConfiguration
unset = record config { ca_roots_file = ""; ca_intermediates_file = "" }

configure_trusted_cas-err_example :
    (configure_trusted_cas (temp_files (some (msg "disk full"))) unset authorities empty_disk).2
      "fulcio-root-*.pem"
    ≡ none
unfolding configure_trusted_cas fill_files write_authorities write_intermediates encode_to
configure_trusted_cas-err_example =
    configure_trusted_cas-err (temp_files (some (msg "disk full"))) unset authorities empty_disk
      (wrap "failed to write Fulcio CA intermediate to temp file" (msg "disk full"))
      "fulcio-root-*.pem" (fresh (some (msg "disk full"))) (λ n. refl) refl

configure_trusted_cas-ok_example :
    ((configure_trusted_cas (temp_files none) unset authorities empty_disk).2
        (configure_trusted_cas (temp_files none) unset authorities empty_disk).1.ca_roots_file
      ≡ some (pem_bundle (temp_files none) ("der1" ∷ [])))
    × ((configure_trusted_cas (temp_files none) unset authorities empty_disk).2
          (configure_trusted_cas
            (temp_files none)
            unset
            authorities
            empty_disk).1.ca_intermediates_file
        ≡ some (pem_bundle (temp_files none) ("der2" ∷ [])))
    × ((name : String)
        → cleanup_files
            (temp_files none)
            "fulcio-root-*.pem"
            (some "fulcio-intermediate-*.pem")
            (configure_trusted_cas (temp_files none) unset authorities empty_disk).2
            name
          ≡ none)
unfolding configure_trusted_cas fill_files write_authorities write_intermediates encode_to
configure_trusted_cas-ok_example =
    configure_trusted_cas-ok (temp_files none) unset authorities empty_disk
      (cleanup_files (temp_files none) "fulcio-root-*.pem" (some "fulcio-intermediate-*.pem"))
      (fresh none) (λ n. refl) refl refl
