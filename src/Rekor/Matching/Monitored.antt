-- ===== src/Rekor/Matching/Monitored.antt =====
-- The identities that matches are recorded under.
use rekor_monitor.Base.{
  ◌≡◌, true, context, IfOk, IfOk-bind, IfOk-of, context-ok, String, List, [], ◌∷◌, ◌++◌, arith,
  any-append, All, All-append, All-imp, if_rule,
}
use rekor_monitor.Base.Classes.{◌==◌, string_comparable, same_refl}
use rekor_monitor.Identity.{
  OidExtension, CertificateIdentity, LogEntry, CertificateFields, x509, Regexp, X509,
}
use rekor_monitor.Identity.Certs.{oid_matches_policy, oid_matches_policy-listed}
use rekor_monitor.Identity.Group.{is_monitored}
use rekor_monitor.Identity.Policy.{compile, cert_matches_policy}
use rekor_monitor.Identity.Values.{cert_identities, oid_values}
use rekor_monitor.Rekor.Matching.{
  Place, fingerprint_hits, match_fingerprints, subject_hits, match_subjects, cert_hits,
  match_certificate_identities, oid_hits, match_oids,
}

-- The entries are recorded under one of the identities `ids`.
abbrev pub Named : List String → List LogEntry → Type 0
Named ids es = All (λ e. is_monitored ids e ≡ true) es

pub Named-left :
    (ids more : List String) (es : List LogEntry) → Named ids es → Named (ids ++ more) es
Named-left ids more es h =
    All-imp (λ e. is_monitored ids e ≡ true) (λ e. is_monitored (ids ++ more) e ≡ true)
      (λ e k. ground (arith, any-append (λ i. i == e.matched_identity) ids more)) es h

pub Named-right :
    (more ids : List String) (es : List LogEntry) → Named ids es → Named (more ++ ids) es
Named-right more ids es h =
    All-imp (λ e. is_monitored ids e ≡ true) (λ e. is_monitored (more ++ ids) e ≡ true)
      (λ e k. ground (arith, any-append (λ i. i == e.matched_identity) more ids)) es h

pub Named-join :
    (ids more : List String) (xs ys : List LogEntry)
    → Named ids xs
    → Named more ys
    → Named (ids ++ more) (xs ++ ys)
Named-join ids more xs ys h k =
    All-append (λ e. is_monitored (ids ++ more) e ≡ true) xs ys (Named-left ids more xs h)
      (Named-right ids more ys k)

fingerprint_hits-Named :
    (at : Place) (m : String) (fps : List String) → Named (m ∷ []) (fingerprint_hits at m fps)
unfolding fingerprint_hits
fingerprint_hits-Named at m [] = tt
fingerprint_hits-Named at m (fp ∷ fps) =
    ground (arith, fingerprint_hits-Named at m fps, same_refl m)

pub match_fingerprints-Named :
    (at : Place) (fps ms : List String) → Named ms (match_fingerprints at fps ms)
unfolding match_fingerprints
match_fingerprints-Named at fps [] = tt
match_fingerprints-Named at fps (m ∷ ms) =
    Named-join (m ∷ []) ms _ _ (fingerprint_hits-Named at m fps)
      (match_fingerprints-Named at fps ms)

module _ (re : Regexp) where
  subject_hits-Named :
      (at : Place) (m : String) (ss : List String) → Named (m ∷ []) (subject_hits re at m ss)
  unfolding subject_hits
  subject_hits-Named at m [] = tt
  subject_hits-Named at m (s ∷ ss) = ground (arith, subject_hits-Named at m ss, same_refl m)

  pub match_subjects-Named :
      (at : Place) (subs ms : List String) → IfOk (Named ms) (match_subjects re at subs ms)
  unfolding match_subjects
  match_subjects-Named at subs [] = tt
  match_subjects-Named at subs (m ∷ ms) =
      IfOk-bind (Named (m ∷ ms)) (compile re "error compiling regex" m) _ λ _ _.
        IfOk-bind (Named (m ∷ ms)) (match_subjects re at subs ms) _ λ more e.
          Named-join (m ∷ []) ms _ _ (subject_hits-Named at m subs)
            (IfOk-of (Named ms) _ more (match_subjects-Named at subs ms) e)

  module _ (lib : X509) where
    cert_hits-Named :
        (at : Place) (id : CertificateIdentity) (cs : List CertificateFields)
        → IfOk (Named (id.cert_subject ∷ [])) (cert_hits re lib at id cs)
    unfolding cert_hits
    cert_hits-Named at id [] = tt
    cert_hits-Named at id (c ∷ cs) =
        let P : List LogEntry → Type 0 = Named (id.cert_subject ∷ []) in
        IfOk-bind P
          (context "error with policy matching"
            (cert_matches_policy re lib (x509 c) id.cert_subject id.issuers))
          _
          λ m _. IfOk-bind P (cert_hits re lib at id cs) _ λ more e.
            if_rule P m.0 _ more
              (λ _. (
                rw (same_refl id.cert_subject),
                IfOk-of P (cert_hits re lib at id cs) more (cert_hits-Named at id cs) e,
              ))
              (λ _. IfOk-of P (cert_hits re lib at id cs) more (cert_hits-Named at id cs) e)

    pub match_certificate_identities-Named :
        (at : Place) (certs : List CertificateFields) (ids : List CertificateIdentity)
        → IfOk (Named (cert_identities ids)) (match_certificate_identities re lib at certs ids)
    unfolding match_certificate_identities cert_identities
    match_certificate_identities-Named at certs [] = tt
    match_certificate_identities-Named at certs (id ∷ ids) =
        let P : List LogEntry → Type 0 =
          Named (id.cert_subject ∷ (id.issuers ++ cert_identities ids)) in
        IfOk-bind P (cert_hits re lib at id certs) _ λ hits e.
          IfOk-bind P (match_certificate_identities re lib at certs ids) _ λ more k.
            Named-join (id.cert_subject ∷ []) (id.issuers ++ cert_identities ids) hits more
              (IfOk-of (Named (id.cert_subject ∷ [])) _ hits (cert_hits-Named at id certs) e)
              (Named-right id.issuers (cert_identities ids) more (
                IfOk-of (Named (cert_identities ids)) _ more
                  (match_certificate_identities-Named at certs ids) k))

    oid_hits-Named :
        (at : Place) (m : OidExtension) (cs : List CertificateFields)
        → IfOk (Named m.extension_values) (oid_hits re lib at m cs)
    unfolding oid_hits
    oid_hits-Named at m [] = tt
    oid_hits-Named at m (c ∷ cs) =
        let P : List LogEntry → Type 0 = Named m.extension_values in
        let policy = oid_matches_policy lib (x509 c) m.object_identifier m.extension_values in
        IfOk-bind P (context "error with policy matching" policy) _ λ r e.
          IfOk-bind P (oid_hits re lib at m cs) _ λ more k.
            let rest : P more =
              IfOk-of P (oid_hits re lib at m cs) more (oid_hits-Named at m cs) k in
            if_rule P r.0 _ more
              (λ matched. (
                oid_matches_policy-listed lib (x509 c) m.object_identifier m.extension_values r
                    (context-ok _ policy r e) matched,
                rest,
              ))
              (λ _. rest)

    pub match_oids-Named :
        (at : Place) (certs : List CertificateFields) (ms : List OidExtension)
        → IfOk (Named (oid_values ms)) (match_oids re lib at certs ms)
    unfolding match_oids oid_values
    match_oids-Named at certs [] = tt
    match_oids-Named at certs (m ∷ ms) =
        let P : List LogEntry → Type 0 = Named (m.extension_values ++ oid_values ms) in
        IfOk-bind P (oid_hits re lib at m certs) _ λ hits e.
          IfOk-bind P (match_oids re lib at certs ms) _ λ more k.
            Named-join m.extension_values (oid_values ms) hits more
              (IfOk-of (Named m.extension_values) _ hits (oid_hits-Named at m certs) e)
              (IfOk-of (Named (oid_values ms)) _ more (match_oids-Named at certs ms) k)
