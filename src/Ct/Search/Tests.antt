-- ===== src/Ct/Search/Tests.antt =====
-- A CT log of one precertificate.
use rekor_monitor.Base.{
  ◌≡◌, refl, none, some, Result, ok, err, msg, IfOk, String, List, [], ◌∷◌, keep,
}
use rekor_monitor.Base.Classes.{string_comparable}
use rekor_monitor.Base.Int.{ℤ, pos}
use rekor_monitor.Identity.Group.{matched_with, group_of}
use rekor_monitor.Identity.Tests.{literal, plain, leaf, watched}
use rekor_monitor.Rekor.V1.Search.Tests.{plain_format, no_errors, no_files, range_config}
use rekor_monitor.Ct.Search.{CtLogEntry, Parsers, matched_indices, identity_search}
use rekor_monitor.Ct.Search.Reports.{FetchedCt, identity_search-keep_ct}
use rekor_monitor.Ct.Search.Trusted.{certificate, matched_indices_untrusted}
use rekor_monitor.Identity.{X509}
use rekor_monitor.Identity.Chain.{
  get_cert_pool, optional_pool, load_pools, verify_loop, validate_certificate_chain,
}
use rekor_monitor.Search.{Found}

abbrev parsers : Parsers
parsers = record {
  parse_certificate = λ raw. ok leaf;
  google_parse_certificate = λ raw. err (msg "trailing data");
}

abbrev log : ℤ → ℤ → Result (List CtLogEntry)
log start end = ok (
    record {
      index = start;
      x509_cert = none;
      precert = some (record { submitted = "der"; tbs_certificate = some leaf });
    }
    ∷ [])

abbrev read_file : String → Result String
read_file name = ok name

identity_search-keep_ct_example :
    IfOk
      (λ r.
        (found : Found) × FetchedCt literal plain parsers 9 read_file log plain_format no_errors
          range_config watched found
        × (r.1 ≡ found.1)
        × ((v : String) → group_of v r.0 ≡ keep (λ e. matched_with v e) found.0))
      (identity_search literal plain parsers 9 read_file log plain_format no_errors range_config
        watched no_files).0
identity_search-keep_ct_example =
    identity_search-keep_ct literal plain parsers 9 read_file log plain_format no_errors
      range_config watched no_files

-- No certificate verifies.
abbrev strict : X509
strict = record plain { verify = λ c opts. some (msg "unknown authority") }

abbrev certified : CtLogEntry
certified = record { index = pos 7; x509_cert = some leaf; precert = none }

matched_indices_untrusted_example :
    matched_indices literal strict parsers 9 read_file
      (certified ∷ certified ∷ [])
      watched
      "roots.pem"
      ""
    ≡ matched_indices literal strict parsers 9 read_file (certified ∷ []) watched "roots.pem" ""
unfolding validate_certificate_chain load_pools optional_pool get_cert_pool verify_loop
matched_indices_untrusted_example =
    matched_indices_untrusted literal strict parsers 9 read_file "roots.pem" "" (certified ∷ [])
      certified [] watched
      (certificate leaf leaf (msg "no certificate in the chain is signed by a trusted CA") refl refl
        refl)
