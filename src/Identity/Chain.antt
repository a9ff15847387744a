-- ===== src/Identity/Chain.antt =====
-- getCertPool, ValidateCertificateChain, ValidatePreCertificateChain. Files are read by `read`
-- (os.ReadFile), and `now` is time.Now().
use rekor_monitor.Base.{
  ℕ, ◌≡◌, refl, ◌↔◌, Bool, true, false, ◌&&◌, ◌||◌, String, List, [], ◌∷◌, arith, Option, none,
  some, Result, ok, err, msg, ◌>>=◌, context, any, is_empty, is_none, if◌then◌else◌,
}
use rekor_monitor.Base.Text.{is_blank}
use rekor_monitor.Identity.{
  CertificateFields, Certificate, x509, google_x509, CertPool, VerifyOptions, code_signing, X509,
}

abbrev pub Pools : Type 0
Pools = Option CertPool × Option CertPool

module _ (lib : X509) (read : String → Result String) where
  -- AppendCertsFromPEM fails when it parses no certificate.
  unfoldable pub get_cert_pool : String → Result CertPool
  get_cert_pool pem_file = context "failed to read trusted CA file" (read pem_file) >>= λ ca_bytes.
      let parsed = lib.parse_pem ca_bytes in
      if is_empty parsed
      then err (msg "failed to append trusted CA certificate")
      else ok (record { certificates = parsed })

  -- A pool is loaded if its file is named.
  unfoldable pub optional_pool : String → Result (Option CertPool)
  unfolding get_cert_pool
  optional_pool file = if is_blank file then ok none else (get_cert_pool file >>= λ p. ok (some p))

  unfoldable pub load_pools : String → String → Result Pools
  unfolding optional_pool
  load_pools ca_roots ca_intermediates =
      optional_pool ca_roots >>= λ r. optional_pool ca_intermediates >>= λ i. ok (r, i)

  -- The loop over the certificates: one that verifies is enough.
  unfoldable pub verify_loop :
      (CertificateFields → Certificate × VerifyOptions) → List CertificateFields → Result (Unit {0})
  verify_loop request [] = err (msg "no certificate in the chain is signed by a trusted CA")
  verify_loop request (c ∷ cs) =
      let rest = verify_loop request cs in
      let (cert, opts) = request c in if is_none (lib.verify cert opts) then ok tt else rest

  abbrev pub chain_request : Pools → CertificateFields → Certificate × VerifyOptions
  chain_request (roots, intermediates) c = (
    x509 c,
    record {
      current_time = c.not_before;
      roots = roots;
      intermediates = intermediates;
      key_usages = code_signing ∷ [];
      disable_time_checks = false;
      disable_critical_extension_checks = false;
      disable_eku_checks = false;
      disable_path_len_checks = false;
      disable_name_constraint_checks = false;
      disable_name_checks = false;
    },
  )

  abbrev pub pre_chain_request : ℕ → Pools → CertificateFields → Certificate × VerifyOptions
  pre_chain_request now (roots, intermediates) c = (
    google_x509 c,
    record {
      current_time = now;
      roots = roots;
      intermediates = intermediates;
      key_usages = code_signing ∷ [];
      disable_time_checks = true;
      disable_critical_extension_checks = true;
      disable_eku_checks = true;
      disable_path_len_checks = true;
      disable_name_constraint_checks = true;
      disable_name_checks = false;
    },
  )

  unfoldable pub validate_certificate_chain :
      List CertificateFields → String → String → Result (Unit {0})
  unfolding load_pools verify_loop
  validate_certificate_chain certs ca_roots ca_intermediates =
      if is_blank ca_roots && is_blank ca_intermediates || is_empty certs
      then ok tt
      else (load_pools ca_roots ca_intermediates >>= λ pools.
          verify_loop (chain_request pools) certs)

  unfoldable pub validate_pre_certificate_chain :
      ℕ → List CertificateFields → String → String → Result (Unit {0})
  unfolding load_pools verify_loop
  validate_pre_certificate_chain now certs ca_roots ca_intermediates =
      if is_blank ca_roots && is_blank ca_intermediates || is_empty certs
      then ok tt
      else (load_pools ca_roots ca_intermediates >>= λ pools.
          verify_loop (pre_chain_request now pools) certs)

  pub verifies : (CertificateFields → Certificate × VerifyOptions) → CertificateFields → Bool
  verifies request c = let (cert, opts) = request c in is_none (lib.verify cert opts)

  verify_loop-any :
      (request : CertificateFields → Certificate × VerifyOptions) (cs : List CertificateFields)
      → (verify_loop request cs ≡ ok tt) ↔ (any (verifies request) cs ≡ true)
  unfolding verify_loop verifies
  verify_loop-any request [] = ground arith
  verify_loop-any request (c ∷ cs) = ground (arith, verify_loop-any request cs)

  -- The pool of a file: none if no file is named, else that of the certificates in it, of which there
  -- is one at least.
  pub data IsPool (file : String) : Option CertPool → Type 0 where
    unnamed : is_blank file ≡ true → IsPool file none
    parsed :
        (bytes : String)
        → is_blank file ≡ false
        → read file ≡ ok bytes
        → is_empty (lib.parse_pem bytes) ≡ false
        → IsPool file (some (record { certificates = lib.parse_pem bytes }))

  optional_pool-IsPool :
      (file : String) (pool : Option CertPool) → IsPool file pool → optional_pool file ≡ ok pool
  unfolding optional_pool get_cert_pool
  optional_pool-IsPool file none (unnamed b) = ground (arith, b)
  optional_pool-IsPool file (some p) (parsed bytes b r e) = ground (arith, b, r, e)

  -- The certificate verifies for code signing against these pools, at the start of its validity, with
  -- no check disabled.
  pub signed_for_code : Option CertPool → Option CertPool → CertificateFields → Bool
  signed_for_code roots intermediates c = is_none (
      lib.verify (x509 c) (record {
        current_time = c.not_before;
        roots = roots;
        intermediates = intermediates;
        key_usages = code_signing ∷ [];
        disable_time_checks = false;
        disable_critical_extension_checks = false;
        disable_eku_checks = false;
        disable_path_len_checks = false;
        disable_name_constraint_checks = false;
        disable_name_checks = false;
      }))

  any_signed :
      (roots intermediates : Option CertPool) (cs : List CertificateFields)
      → any (verifies (chain_request (roots, intermediates))) cs
        ≡ any (signed_for_code roots intermediates) cs
  unfolding verifies signed_for_code
  any_signed roots intermediates [] = refl
  any_signed roots intermediates (c ∷ cs) = ground (arith, any_signed roots intermediates cs)

  -- Where the files of certificate authorities that are named hold certificates, a chain is accepted
  -- exactly when no file is named, the chain is empty, or some certificate of it verifies for code
  -- signing, at the start of its validity and with all checks, against the roots of the first file and
  -- the intermediates of the second.
  pub validate_certificate_chain_iff :
      (certs : List CertificateFields) (ca_roots ca_intermediates : String)
      (roots intermediates : Option CertPool)
      → IsPool ca_roots roots
      → IsPool ca_intermediates intermediates
      → (validate_certificate_chain certs ca_roots ca_intermediates ≡ ok tt) ↔ (
          (is_blank ca_roots && is_blank ca_intermediates
            || is_empty certs
            || any (signed_for_code roots intermediates) certs)
          ≡ true)
  unfolding validate_certificate_chain load_pools
  validate_certificate_chain_iff certs ca_roots ca_intermediates roots intermediates r i =
      rw
        (
          optional_pool-IsPool ca_roots roots r,
          optional_pool-IsPool ca_intermediates intermediates i,
        )
        (ground (
          arith,
          verify_loop-any (chain_request (roots, intermediates)) certs,
          any_signed roots intermediates certs,
        ))
