-- ===== src/Notifications/Validate.antt =====
-- IdentityMonitorConfiguration.Validate and validatePEMFile. A file is read by `read`; `stat` says
-- what os.Stat reports, and `pem_block` whether pem.Decode finds a block.
use rekor_monitor.Base.{
  ◌≡◌, Bool, true, not, ◌&&◌, ◌||◌, Option, none, some, Error, Result, ok, err, msg, wrap, ◌>>◌,
  ◌>>=◌, context, fail_if, String, List, [], ◌∷◌, arith, all, if◌then◌else◌, Bool-cases,
  Option-cases, Result-cases, inl, inr,
}
use rekor_monitor.Base.Classes.{◌==◌, string_comparable}
use rekor_monitor.Base.Text.{is_blank}
use rekor_monitor.Identity.{CertificateIdentity, Regexp}
use rekor_monitor.Identity.Policy.{compile, compiles}
use rekor_monitor.Notifications.{IdentityMonitorConfiguration}

pub record PemFiles : Type 0 where
  pub stat : String → Option Error
  pub read : String → Result String
  pub has_pem_block : String → Bool

pub validate_pem_file : PemFiles → String → Result (Unit {0})
validate_pem_file files pem_file = if is_blank pem_file then ok tt else elim (files.stat pem_file) [
  | some e ↦ err (wrap "invalid trusted CA file" e)
  | none ↦ context "failed to read trusted CA file" (files.read pem_file) >>= λ ca_bytes.
      if files.has_pem_block ca_bytes
      then ok tt
      else err (msg "invalid trusted CA file: not a valid PEM file")
]

module _ (re : Regexp) where
  -- Every expression of the list compiles.
  pub compile_all : String → List String → Result (Unit {0})
  unfolding compile
  compile_all text [] = ok tt
  compile_all text (e ∷ es) = let rest = compile_all text es in compile re text e >> rest

  pub compile_identities : List CertificateIdentity → Result (Unit {0})
  unfolding compile_all
  compile_identities [] = ok tt
  compile_identities (c ∷ cs) =
      let rest = compile_identities cs in
      compile re "invalid certSubject regex" c.cert_subject
      >> compile_all "invalid issuer regex" c.issuers
      >> rest

  abbrev pub is_known_format : String → Bool
  is_known_format format = format == "text" || format == "json" || format == ""

  unfoldable pub validate : PemFiles → IdentityMonitorConfiguration → Result (Unit {0})
  unfolding compile_identities compile_all validate_pem_file
  validate files c =
      compile_identities c.monitored_values.certificate_identities
      >> compile_all "invalid subject regex" c.monitored_values.subjects
      >> fail_if (not (is_blank c.ca_intermediates_file) && is_blank c.ca_roots_file)
          (msg "intermediates CA file is set but roots CA file is not set")
      >> context "invalid CARoots file" (validate_pem_file files c.ca_roots_file)
      >> context "invalid CAIntermediates file" (validate_pem_file files c.ca_intermediates_file)
      >> fail_if (not (is_known_format c.output_identities_format))
          (msg "invalid OutputIdentitiesFormat: must be 'text' or 'json'")

  compile_all-compiles :
      (text : String) (es : List String) → compile_all text es ≡ ok tt → all (compiles re) es ≡ true
  unfolding compile_all
  compile_all-compiles text [] h = ground arith
  compile_all-compiles text (e ∷ es) h = ground (arith, compile_all-compiles text es)

  abbrev pub identity_compiles : CertificateIdentity → Bool
  identity_compiles c = compiles re c.cert_subject && all (compiles re) c.issuers

  compile_identities-compiles :
      (cs : List CertificateIdentity)
      → compile_identities cs ≡ ok tt
      → all identity_compiles cs ≡ true
  unfolding compile_identities
  compile_identities-compiles [] h = ground arith
  compile_identities-compiles (c ∷ cs) h =
      ground (
        arith,
        compile_all-compiles "invalid issuer regex" c.issuers,
        compile_identities-compiles cs,
      )

  -- No file is named, or one that exists and has a PEM block.
  pub data IsPem (files : PemFiles) (file : String) : Type 0 where
    not_named : is_blank file ≡ true → IsPem files file
    has_block :
        (bytes : String)
        → files.stat file ≡ none
        → files.read file ≡ ok bytes
        → files.has_pem_block bytes ≡ true
        → IsPem files file

  pub record IsValid (files : PemFiles) (c : IdentityMonitorConfiguration) : Type 0 where
    pub identities_compile : all identity_compiles c.monitored_values.certificate_identities ≡ true
    pub subjects_compile : all (compiles re) c.monitored_values.subjects ≡ true
    pub roots_with_intermediates :
        is_blank c.ca_roots_file ≡ true → is_blank c.ca_intermediates_file ≡ true
    pub roots_pem : IsPem files c.ca_roots_file
    pub intermediates_pem : IsPem files c.ca_intermediates_file
    pub known_format : is_known_format c.output_identities_format ≡ true

  validate_pem_file-IsPem :
      (files : PemFiles) (text file : String)
      → context text (validate_pem_file files file) ≡ ok tt
      → IsPem files file
  unfolding validate_pem_file
  validate_pem_file-IsPem files text file h = elim (Bool-cases (is_blank file)) [
    | inl b ↦ not_named b
    | inr b ↦ elim (Option-cases (files.stat file)) [
      | inl s ↦ elim (Result-cases (files.read file)) [
        | inl (bytes, e) ↦ has_block bytes s e (ground (arith, b, s, e, h))
        | inr (inl (x, e)) ↦ absurd (ground (arith, b, s, e, h))
        | inr (inr (x, e)) ↦ absurd (ground (arith, b, s, e, h))
      ]
      | inr (x, s) ↦ absurd (ground (arith, b, s, h))
    ]
  ]

  -- A configuration that passes validation has only expressions that compile, names no
  -- intermediate authorities without root ones, names only files with a PEM block, and has a
  -- known output format.
  pub validate-IsValid :
      (files : PemFiles) (c : IdentityMonitorConfiguration)
      → validate files c ≡ ok tt
      → IsValid files c
  unfolding validate
  validate-IsValid files c h = record {
    identities_compile =
        ground (arith, compile_identities-compiles c.monitored_values.certificate_identities);
    subjects_compile =
        ground (arith, compile_all-compiles "invalid subject regex" c.monitored_values.subjects);
    roots_with_intermediates = ground arith;
    roots_pem = validate_pem_file-IsPem files "invalid CARoots file" c.ca_roots_file (ground arith);
    intermediates_pem =
        validate_pem_file-IsPem files "invalid CAIntermediates file" c.ca_intermediates_file
          (ground arith);
    known_format = ground arith;
  }
