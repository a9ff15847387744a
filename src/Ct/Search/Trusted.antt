-- ===== src/Ct/Search/Trusted.antt =====
-- Entries of a CT log whose certificates no configured authority has signed.
use rekor_monitor.Base.{
  ◌≡◌, refl, ℕ, none, some, Error, Result, ok, err, panic, String, List, [], ◌∷◌, ◌++◌,
}
use rekor_monitor.Identity.{MonitoredValues, CertificateFields, Regexp, X509}
use rekor_monitor.Identity.Chain.{validate_certificate_chain, validate_pre_certificate_chain}
use rekor_monitor.Search.{Found, found_then}
use rekor_monitor.Ct.Search.{CtLogEntry, Precertificate, Parsers, validate_entry, matched_indices}

found_then-nothing : (rest : Result Found) → found_then (ok ([], [])) rest ≡ rest
found_then-nothing (ok f) = refl
found_then-nothing (err e) = refl
found_then-nothing (panic p) = refl

module _ (re : Regexp) (lib : X509) (parsers : Parsers) (now : ℕ) (read : String → Result String)
    (ca_roots ca_intermediates : String) where
  -- The certificate of an entry is parsed, or that of its precertificate, and no authority is found
  -- that has signed it.
  pub data IsUntrusted (e : CtLogEntry) : Type 0 where
    certificate :
        (c cert : CertificateFields) (error : Error)
        → e.x509_cert ≡ some c
        → parsers.parse_certificate c.raw ≡ ok cert
        → validate_certificate_chain lib read (cert ∷ []) ca_roots ca_intermediates ≡ err error
        → IsUntrusted e
    precertificate :
        (p : Precertificate) (cert : CertificateFields) (error : Error)
        → e.x509_cert ≡ none
        → e.precert ≡ some p
        → parsers.google_parse_certificate p.submitted ≡ ok cert
        → validate_pre_certificate_chain lib read now (cert ∷ []) ca_roots ca_intermediates
          ≡ err error
        → IsUntrusted e

  found_untrusted :
      (e : CtLogEntry) (es : List CtLogEntry) (mvs : MonitoredValues)
      → IsUntrusted e
      → matched_indices re lib parsers now read (e ∷ es) mvs ca_roots ca_intermediates
        ≡ matched_indices re lib parsers now read es mvs ca_roots ca_intermediates
  unfolding matched_indices validate_entry
  found_untrusted e es mvs (certificate c cert x h parsed invalid) =
      rw (h, parsed, invalid)
        (found_then-nothing
          (matched_indices re lib parsers now read es mvs ca_roots ca_intermediates))
  found_untrusted e es mvs (precertificate p cert x h k parsed invalid) =
      rw (h, k, parsed, invalid)
        (found_then-nothing
          (matched_indices re lib parsers now read es mvs ca_roots ca_intermediates))

  -- An entry whose certificate, or the one submitted for its precertificate, is parsed but does not
  -- verify against the configured authorities changes nothing in what MatchedIndices returns,
  -- wherever it stands in the log: it is as if it were not there.
  pub matched_indices_untrusted :
      (before : List CtLogEntry) (e : CtLogEntry) (es : List CtLogEntry) (mvs : MonitoredValues)
      → IsUntrusted e
      → matched_indices re lib parsers now read (before ++ (e ∷ es)) mvs ca_roots ca_intermediates
        ≡ matched_indices re lib parsers now read (before ++ es) mvs ca_roots ca_intermediates
  unfolding matched_indices
  matched_indices_untrusted [] e es mvs h = found_untrusted e es mvs h
  matched_indices_untrusted (b ∷ before) e es mvs h =
      rw (matched_indices_untrusted before e es mvs h)
