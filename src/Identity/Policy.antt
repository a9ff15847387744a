-- ===== src/Identity/Policy.antt =====
-- CertMatchesPolicy.
use rekor_monitor.Base.{
  ◌≡◌, Bool, true, false, ◌&&◌, ◌||◌, String, List, [], ◌∷◌, arith, none, some, Result, ok, err,
  panic, wrap, ◌>>=◌, Any, inl, inr, any, all, is_empty, Returns, is_none, ◌⊎◌, sym, if◌then◌else◌,
}
use rekor_monitor.Base.Int.{pos}
use rekor_monitor.Base.Text.{is_blank}
use rekor_monitor.Identity.{ObjectIdentifier, Certificate, Regexp, X509}
use rekor_monitor.Identity.Certs.{
  get_extension, get_deprecated_extension, get_subject_alternate_names,
}

abbrev cert_extension_oidc_issuer : ObjectIdentifier
cert_extension_oidc_issuer =
    pos 1 ∷ pos 3 ∷ pos 6 ∷ pos 1 ∷ pos 4 ∷ pos 1 ∷ pos 57264 ∷ pos 1 ∷ pos 1 ∷ []

abbrev pub cert_extension_oidc_issuer_v2 : ObjectIdentifier
cert_extension_oidc_issuer_v2 =
    pos 1 ∷ pos 3 ∷ pos 6 ∷ pos 1 ∷ pos 4 ∷ pos 1 ∷ pos 57264 ∷ pos 1 ∷ pos 8 ∷ []

-- `r` if it is there and not empty, otherwise what `next` gives.
fallback : Result String → Result String → Result String
fallback (ok s) next = if is_blank s then next else ok s
fallback (err e) next = next
fallback (panic p) next = panic p

-- The issuer of a certificate, the empty text if it has none.
unfoldable pub issuer_of : X509 → Certificate → Result String
unfolding fallback
issuer_of lib cert =
    fallback (get_extension lib cert cert_extension_oidc_issuer_v2)
      (get_deprecated_extension cert cert_extension_oidc_issuer)

-- Whether the policy holds, the matched subject, and the issuer.
abbrev pub PolicyMatch : Type 0
PolicyMatch = Bool × String × String

module _ (re : Regexp) where
  -- `regexp.Compile`, with the error that the caller wraps
  unfoldable pub compile : String → String → Result (Unit {0})
  compile text expr = elim (re.compile_error expr) [ none ↦ ok tt | some e ↦ err (wrap text e) ]

  -- The loop over the subjects: the last one that matches is kept.
  subject_loop : String → List String → Bool × String → Bool × String
  subject_loop expected [] acc = acc
  subject_loop expected (s ∷ ss) acc =
      subject_loop expected ss (if re.match_string expected s then (true, s) else acc)

  issuer_loop : String → List String → Bool → Result Bool
  unfolding compile
  issuer_loop issuer [] acc = ok acc
  issuer_loop issuer (e ∷ es) acc =
      let rest = issuer_loop issuer es (if re.match_string e issuer then true else acc) in
      compile "malformed issuer regex" e >>= λ _. rest

  unfoldable pub cert_matches_policy :
      X509 → Certificate → String → List String → Result PolicyMatch
  unfolding compile issuer_of subject_loop issuer_loop
  cert_matches_policy lib cert expected_sub expected_issuers = issuer_of lib cert >>= λ issuer.
      if is_blank issuer
      then ok (false, "", "")
      else (compile "malformed subject regex" expected_sub >>= λ _.
          let (subject_matches, matched_sub) =
            subject_loop expected_sub (get_subject_alternate_names lib cert) (false, "") in
          if is_empty expected_issuers
          then ok (subject_matches, matched_sub, issuer)
          else (issuer_loop issuer expected_issuers false >>= λ issuer_matches.
              ok (subject_matches && issuer_matches, matched_sub, issuer)))

  abbrev pub compiles : String → Bool
  compiles expr = is_none (re.compile_error expr)

  subject_loop-any :
      (expected : String) (ss : List String) (acc : Bool × String)
      → (subject_loop expected ss acc).0 ≡ (acc.0 || any (re.match_string expected) ss)
  unfolding subject_loop
  subject_loop-any expected [] acc = ground arith
  subject_loop-any expected (s ∷ ss) acc =
      ground (arith, subject_loop-any expected ss acc, subject_loop-any expected ss (true, s))

  issuer_loop-any :
      (issuer : String) (es : List String) (acc : Bool)
      → all compiles es ≡ true
      → issuer_loop issuer es acc ≡ ok (acc || any (λ e. re.match_string e issuer) es)
  unfolding issuer_loop
  issuer_loop-any issuer [] acc h = ground arith
  issuer_loop-any issuer (e ∷ es) acc h =
      ground (arith, issuer_loop-any issuer es acc, issuer_loop-any issuer es true)

  subject_loop_member :
      (expected : String) (ss : List String) (acc r : Bool × String)
      → subject_loop expected ss acc ≡ r
      → (r ≡ acc) ⊎ Any (λ s. (s ≡ r.1) × (re.match_string expected s ≡ true)) ss
  unfolding subject_loop
  subject_loop_member expected [] acc r h = inl (sym h)
  subject_loop_member expected (s ∷ ss) acc r h = ground (
    arith,
    subject_loop_member expected ss (if re.match_string expected s then (true, s) else acc) r h,
  )

  module _ (lib : X509) (cert : Certificate) (sub : String) (issuers : List String) where
    abbrev sans : List String
    sans = get_subject_alternate_names lib cert

    -- For a certificate with an issuer, and expressions that all compile, the policy is decided
    -- and holds exactly when some alternative name matches the subject and either no issuer is
    -- expected or some expected issuer matches the certificate's; the issuer is returned.
    pub cert_matches_policy_decides :
        {iss : String}
        → issuer_of lib cert ≡ ok iss
        → is_blank iss ≡ false
        → compiles sub ≡ true
        → all compiles issuers ≡ true
        → Returns
            (λ r.
              (r.0 ≡ (
                any (re.match_string sub) sans
                && (is_empty issuers || any (λ e. re.match_string e iss) issuers)))
              × (r.2 ≡ iss))
            (cert_matches_policy lib cert sub issuers)
    unfolding cert_matches_policy
    cert_matches_policy_decides {iss} h nonblank cs ci = rw h (
        rw nonblank (
          ground (arith, subject_loop-any sub sans (false, ""), issuer_loop-any iss issuers false)))

    matched_loop :
        (s iss : String)
        → cert_matches_policy lib cert sub issuers ≡ ok (true, s, iss)
        → subject_loop sub sans (false, "") ≡ (true, s)
    unfolding cert_matches_policy
    matched_loop s iss h = ground arith

    -- The subject that a successful match returns is an alternative name of the certificate that
    -- matches the expected subject.
    cert_matches_policy_subject :
        (s iss : String)
        → cert_matches_policy lib cert sub issuers ≡ ok (true, s, iss)
        → Any (λ n. (n ≡ s) × (re.match_string sub n ≡ true)) sans
    cert_matches_policy_subject s iss h =
        elim (subject_loop_member sub sans (false, "") (true, s) (matched_loop s iss h)) [
          | inl e ↦ cc
          | inr m ↦ m
        ]
