-- ===== src/Identity/Values.antt =====
-- CreateIdentitiesList, MonitoredValuesExist, VerifyMonitoredValues.
use rekor_monitor.Base.{
  ◌≡◌, ◌↔◌, Bool, true, not, ◌||◌, ◌&&◌, String, List, [], ◌∷◌, ◌++◌, arith, Result, ok, err, msg,
  ◌>>◌, fail_if, is_empty, all, if◌then◌else◌,
}
use rekor_monitor.Base.Text.{is_blank}
use rekor_monitor.Identity.{OidExtension, CertificateIdentity, MonitoredValues}

unfoldable pub cert_identities : List CertificateIdentity → List String
cert_identities [] = []
cert_identities (c ∷ cs) = c.cert_subject ∷ (c.issuers ++ cert_identities cs)

unfoldable pub oid_values : List OidExtension → List String
oid_values [] = []
oid_values (m ∷ ms) = m.extension_values ++ oid_values ms

unfoldable pub create_identities_list : MonitoredValues → List String
unfolding cert_identities oid_values
create_identities_list mvs =
    cert_identities mvs.certificate_identities
    ++ (mvs.fingerprints ++ (mvs.subjects ++ oid_values mvs.oid_matchers))

unfoldable pub monitored_values_exist : MonitoredValues → Bool
monitored_values_exist mvs =
    if not (is_empty mvs.certificate_identities)
    then true
    else if not (is_empty mvs.fingerprints)
    then true
    else if not (is_empty mvs.oid_matchers)
    then true
    else not (is_empty mvs.subjects)

-- `for _, s := range texts { if len(s) == 0 { return errors.New(text) } }`
none_blank : String → List String → Result (Unit {0})
none_blank text [] = ok tt
none_blank text (s ∷ ss) =
    let rest = none_blank text ss in if is_blank s then err (msg text) else rest

verify_oids : List OidExtension → Result (Unit {0})
unfolding none_blank
verify_oids [] = ok tt
verify_oids (m ∷ ms) =
    let rest = verify_oids ms in
    fail_if (is_empty m.object_identifier) (msg "oid extension empty")
    >> fail_if (is_empty m.extension_values) (msg "oid matched values empty")
    >> none_blank "oid matched value empty" m.extension_values
    >> rest

verify_monitored_oids : MonitoredValues → Result (Unit {0})
unfolding verify_oids
verify_monitored_oids mvs = verify_oids mvs.oid_matchers

verify_cert_identities : List CertificateIdentity → Result (Unit {0})
unfolding none_blank
verify_cert_identities [] = ok tt
verify_cert_identities (c ∷ cs) =
    let rest = verify_cert_identities cs in
    fail_if (is_blank c.cert_subject) (msg "certificate subject empty")
    >> none_blank "issuer empty" c.issuers
    >> rest

unfoldable pub verify_monitored_values : MonitoredValues → Result (Unit {0})
unfolding monitored_values_exist verify_cert_identities none_blank verify_monitored_oids
verify_monitored_values mvs =
    fail_if (not (monitored_values_exist mvs)) (msg "no identities provided to monitor")
    >> verify_cert_identities mvs.certificate_identities
    >> none_blank "fingerprint empty" mvs.fingerprints
    >> none_blank "subject empty" mvs.subjects
    >> verify_monitored_oids mvs

abbrev filled : String → Bool
filled s = not (is_blank s)

-- What valid monitored values are: something to look for, and no empty text in them.
abbrev pub are_valid : MonitoredValues → Bool
are_valid mvs =
    (not (is_empty mvs.certificate_identities)
      || not (is_empty mvs.fingerprints)
      || not (is_empty mvs.oid_matchers)
      || not (is_empty mvs.subjects))
    && (all (λ c. filled c.cert_subject && all filled c.issuers) mvs.certificate_identities
        && (all filled mvs.fingerprints
            && (all filled mvs.subjects
                && all
                    (λ m.
                      not (is_empty m.object_identifier)
                      && (not (is_empty m.extension_values) && all filled m.extension_values))
                    mvs.oid_matchers)))

abbrev Decides : Result (Unit {0}) → Bool → Type 0
Decides r b = (r ≡ ok tt) ↔ (b ≡ true)

none_blank-all : (text : String) (ss : List String) → Decides (none_blank text ss) (all filled ss)
unfolding none_blank
none_blank-all text [] = ground arith
none_blank-all text (s ∷ ss) = ground (arith, none_blank-all text ss)

verify_oids-all :
    (ms : List OidExtension)
    → Decides (verify_oids ms) (
        all
          (λ m.
            not (is_empty m.object_identifier)
            && (not (is_empty m.extension_values) && all filled m.extension_values))
          ms)
unfolding verify_oids
verify_oids-all [] = ground arith
verify_oids-all (m ∷ ms) =
    ground (arith, none_blank-all "oid matched value empty" m.extension_values, verify_oids-all ms)

verify_cert_identities-all :
    (cs : List CertificateIdentity)
    → Decides
        (verify_cert_identities cs)
        (all (λ c. filled c.cert_subject && all filled c.issuers) cs)
unfolding verify_cert_identities
verify_cert_identities-all [] = ground arith
verify_cert_identities-all (c ∷ cs) =
    ground (arith, none_blank-all "issuer empty" c.issuers, verify_cert_identities-all cs)

-- Monitored values are accepted exactly when there is something to look for and no certificate
-- subject, issuer, fingerprint, subject, object identifier, list of extension values or
-- extension value is empty.
pub verify_monitored_values-are_valid :
    (mvs : MonitoredValues) → (verify_monitored_values mvs ≡ ok tt) ↔ (are_valid mvs ≡ true)
unfolding verify_monitored_values
verify_monitored_values-are_valid mvs = ground (
  arith,
  verify_cert_identities-all mvs.certificate_identities,
  none_blank-all "fingerprint empty" mvs.fingerprints,
  none_blank-all "subject empty" mvs.subjects,
  verify_oids-all mvs.oid_matchers,
)
