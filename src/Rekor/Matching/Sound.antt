-- ===== src/Rekor/Matching/Sound.antt =====
-- What a scan of an entry finds.
use rekor_monitor.Base.{
  ◌≡◌, refl, true, Result, ok, err, panic, IfOk, IfOk-of, IfOk-bind, String, List, [], ◌∷◌, ◌≤◌,
  length, length-append, arith, All-append, keep, ◌&&◌, ◌∙◌, ℕ, ◌+◌,
}
use rekor_monitor.Identity.{MonitoredValues, LogEntry, Regexp, X509}
use rekor_monitor.Base.Classes.{string_comparable}
use rekor_monitor.Identity.Group.{
  is_monitored, matched_with, group_of, create_monitored_identities,
  create_monitored_identities-keep,
}
use rekor_monitor.Identity.Values.{cert_identities, oid_values, create_identities_list}
use rekor_monitor.Search.{Found, found_then, report, report_found}
use rekor_monitor.Base.Int.{ℤ}
use rekor_monitor.Notifications.{IdentityMonitorConfiguration}
use rekor_monitor.Util.File.{Disk, Os}
use rekor_monitor.Util.File.Identities.{Format, write_matched_identity_entries}
use rekor_monitor.Rekor.Matching.{
  Place, Identities, or_failed, append_matched, if_trusted, match_subjects,
  match_certificate_identities, match_oids, match_entry, scan_entry,
}
use rekor_monitor.Rekor.Matching.Monitored.{
  Named, Named-left, Named-right, match_fingerprints-Named, match_subjects-Named,
  match_certificate_identities-Named, match_oids-Named,
}

module _ (re : Regexp) where
  module _ (lib : X509) where
    -- Matches recorded under monitored identities, and at most one failure.
    abbrev pub Sound : List String → Found → Type 0
    Sound ids f = Named ids f.0 × (length f.1 ≤ 1)

    pub or_failed-Sound :
        {A : Type 0} (ids : List String) (at : Place) (text : String) (r : Result A)
        (next : A → Result Found)
        → ((a : A) → r ≡ ok a → IfOk (Sound ids) (next a))
        → IfOk (Sound ids) (or_failed re lib at text r next)
    or_failed-Sound ids at text (ok a) next h = h a refl
    or_failed-Sound ids at text (err e) next h = (tt, omega arith)
    or_failed-Sound ids at text (panic p) next h = tt

    pub append_matched-Sound :
        (ids : List String) (matched : List LogEntry) (rest : Result Found)
        → Named ids matched
        → IfOk (Sound ids) rest
        → IfOk (Sound ids) (append_matched re lib matched rest)
    append_matched-Sound ids matched (ok f) h k =
        (All-append (λ e. is_monitored ids e ≡ true) matched f.0 h k.0, k.1)
    append_matched-Sound ids matched (err e) h k = tt
    append_matched-Sound ids matched (panic p) h k = tt

    module _ (read : String → Result String) (mvs : MonitoredValues)
        (ca_roots ca_intermediates : String) where
      abbrev ids_of : List String
      ids_of = create_identities_list mvs

      fingerprints-Named : (es : List LogEntry) → Named mvs.fingerprints es → Named ids_of es
      unfolding create_identities_list
      fingerprints-Named es h =
          Named-right (cert_identities mvs.certificate_identities) _ es
            (Named-left mvs.fingerprints _ es h)

      subjects-Named : (es : List LogEntry) → Named mvs.subjects es → Named ids_of es
      unfolding create_identities_list
      subjects-Named es h =
          Named-right (cert_identities mvs.certificate_identities) _ es
            (Named-right mvs.fingerprints _ es (Named-left mvs.subjects _ es h))

      pub certs-Named :
          (es : List LogEntry)
          → Named (cert_identities mvs.certificate_identities) es
          → Named ids_of es
      unfolding create_identities_list
      certs-Named es h = Named-left (cert_identities mvs.certificate_identities) _ es h

      pub oids-Named :
          (es : List LogEntry) → Named (oid_values mvs.oid_matchers) es → Named ids_of es
      unfolding create_identities_list
      oids-Named es h =
          Named-right (cert_identities mvs.certificate_identities) _ es
            (Named-right mvs.fingerprints _ es (Named-right mvs.subjects _ es h))

      match_entry-Sound :
          (at : Place) (ids : Identities)
          → IfOk (Sound ids_of) (match_entry re lib read mvs ca_roots ca_intermediates at ids)
      unfolding match_entry
      match_entry-Sound at ids =
          append_matched-Sound ids_of _ _
            (fingerprints-Named _ (match_fingerprints-Named at ids.fingerprints mvs.fingerprints))
            (or_failed-Sound ids_of at _ (match_subjects re at ids.subjects mvs.subjects) _
              λ subs e.
                append_matched-Sound ids_of subs _
                  (subjects-Named subs (
                    IfOk-of (Named mvs.subjects) _ subs
                      (match_subjects-Named re at ids.subjects mvs.subjects) e))
                  (or_failed-Sound ids_of at _
                    (match_certificate_identities re lib at ids.certificates
                      mvs.certificate_identities)
                    _
                    λ certs k.
                      append_matched-Sound ids_of certs _
                        (certs-Named certs (
                          IfOk-of (Named (cert_identities mvs.certificate_identities)) _ certs
                            (match_certificate_identities-Named re lib at ids.certificates
                              mvs.certificate_identities)
                            k))
                        (or_failed-Sound ids_of at _
                          (match_oids re lib at ids.certificates mvs.oid_matchers) _
                          λ oids l. (
                            oids-Named oids (
                                IfOk-of (Named (oid_values mvs.oid_matchers)) _ oids
                                  (match_oids-Named re lib at ids.certificates mvs.oid_matchers) l),
                            omega arith,
                          ))))

      pub if_trusted-Sound :
          (r : Result (Unit {0})) (next : Result Found)
          → IfOk (Sound ids_of) next
          → IfOk (Sound ids_of) (if_trusted re lib read mvs ca_roots ca_intermediates r next)
      if_trusted-Sound (ok x) next h = h
      if_trusted-Sound (err e) next h = (tt, omega arith)
      if_trusted-Sound (panic p) next h = tt

      pub scan_entry-Sound :
          {V : Type 0} (at : Place) (verifiers : Result (List V))
          (extract : List V → Result Identities)
          → IfOk
              (Sound ids_of)
              (scan_entry re lib read mvs ca_roots ca_intermediates at verifiers extract)
      unfolding scan_entry
      scan_entry-Sound at verifiers extract = or_failed-Sound ids_of at _ verifiers _ λ vs _.
          or_failed-Sound ids_of at _ (extract vs) _
            λ ids _. if_trusted-Sound _ _ (match_entry-Sound at ids)

keep-Named :
    (ids : List String) (v : String) (es : List LogEntry)
    → Named ids es
    → keep (λ e. is_monitored ids e && matched_with v e) es ≡ keep (λ e. matched_with v e) es
keep-Named ids v [] h = refl
keep-Named ids v (e ∷ es) h = ground (arith, keep-Named ids v es h.1)

-- Grouping loses no entry that is recorded under a monitored identity.
pub group_of-Named :
    (ids : List String) (es : List LogEntry) (v : String)
    → Named ids es
    → group_of v (create_monitored_identities es ids) ≡ keep (λ e. matched_with v e) es
group_of-Named ids es v h = (create_monitored_identities-keep es ids v).0 ∙ keep-Named ids v es h

-- What is found in two parts of a log, with `m` and `n` entries.
module _ (ids : List String) where
  abbrev pub SoundFor : ℕ → Found → Type 0
  SoundFor n f = Named ids f.0 × (length f.1 ≤ n)

  pub found_then-SoundFor :
      (m n total : ℕ) (r rest : Result Found)
      → total ≡ m + n
      → IfOk (SoundFor m) r
      → IfOk (SoundFor n) rest
      → IfOk (SoundFor total) (found_then r rest)
  found_then-SoundFor m n total (ok f) (ok g) e h k = (
    All-append (λ e. is_monitored ids e ≡ true) f.0 g.0 h.0 k.0,
    ground (arith, length-append f.1 g.1),
  )
  found_then-SoundFor m n total (ok f) (err e) q h k = tt
  found_then-SoundFor m n total (ok f) (panic p) q h k = tt
  found_then-SoundFor m n total (err e) rest q h k = tt
  found_then-SoundFor m n total (panic p) rest q h k = tt

module _ (fmt : Format) (os : Os) where
  -- The groups that a search reports lose no match.
  pub report_found-keep :
      (r : Result (ℤ × Found)) (config : IdentityMonitorConfiguration) (mvs : MonitoredValues)
      (disk : Disk) (F : Found → Type 0)
      → IfOk (λ x. F x.1 × Named (create_identities_list mvs) x.1.0) r
      → IfOk
          (λ g.
            (found : Found) × F found
            × (g.1 ≡ found.1)
            × ((v : String) → group_of v g.0 ≡ keep (λ e. matched_with v e) found.0))
          (report_found fmt os r config mvs disk).0
  unfolding report
  report_found-keep (ok x) config mvs disk F h =
      IfOk-bind _
        (write_matched_identity_entries fmt os config.output_identities_file
          config.output_identities_format x.1.0 config.identity_metadata_file x.0 disk).0
        _ (λ _ _. (x.1, h.0, refl, λ v. group_of-Named (create_identities_list mvs) x.1.0 v h.1))
  report_found-keep (err e) config mvs disk F h = tt
  report_found-keep (panic p) config mvs disk F h = tt
