-- ===== src/Identity/Certs.antt =====
-- getExtension, getDeprecatedExtension, OIDMatchesPolicy, getSubjectAlternateNames. The generic
-- functions treat the two certificate types alike, which is one function by clauses here.
use mathlib.Core.List.{map}
use rekor_monitor.Base.{
  ◌≡◌, refl, Bool, true, false, not, ◌&&◌, String, List, [], ◌∷◌, ◌++◌, arith, Result, ok, err, msg,
  ◌>>=◌, context, any, Result-cases, inl, inr, if◌then◌else◌,
}
use rekor_monitor.Base.Classes.{◌==◌, list_comparable, int_comparable, string_comparable}
use rekor_monitor.Base.Text.{is_blank}
use rekor_monitor.Identity.{
  ObjectIdentifier, Extension, CertificateFields, Certificate, x509, google_x509, X509,
}

abbrev pub fields_of : Certificate → CertificateFields
fields_of (x509 c) = c
fields_of (google_x509 c) = c

module _ (lib : X509) where
  -- The loop over the extensions: the first one with the identifier decides.
  extension_loop : ObjectIdentifier → List Extension → Result String
  extension_loop oid [] = ok ""
  extension_loop oid (e ∷ es) =
      let rest = extension_loop oid es in
      if not (e.id == oid)
      then rest
      else (context "" (lib.unmarshal e.value) >>= λ r.
          if not (is_blank r.1) then err (msg "unmarshalling extension had rest") else ok r.0)

  unfoldable pub get_extension : Certificate → ObjectIdentifier → Result String
  unfolding extension_loop
  get_extension (x509 c) oid = extension_loop oid c.extensions
  get_extension (google_x509 c) oid = extension_loop oid c.extensions

  -- What `UnmarshalOtherNameSAN` returns beside an error is the empty text.
  abbrev or_blank : Result String → String
  or_blank (ok s) = s
  or_blank _ = ""

  other_name_san : List Extension → List String
  other_name_san exts =
      let name = or_blank (lib.unmarshal_other_name_san exts) in
      if is_blank name then [] else name ∷ []

  -- The copy of an extension of the fork.
  to_pkix : Extension → Extension
  to_pkix e = record { id = e.id; critical = e.critical; value = e.value }

  unfoldable pub get_subject_alternate_names : Certificate → List String
  unfolding other_name_san to_pkix
  get_subject_alternate_names (x509 c) =
      c.dns_names
      ++ (c.email_addresses ++ (c.ip_addresses ++ (c.uris ++ other_name_san c.extensions)))
  get_subject_alternate_names (google_x509 c) =
      c.dns_names
      ++ (c.email_addresses
          ++ (c.ip_addresses ++ (c.uris ++ other_name_san (map to_pkix c.extensions))))

-- The extension with the raw text as its value; it never fails.
deprecated_loop : ObjectIdentifier → List Extension → String
deprecated_loop oid [] = ""
deprecated_loop oid (e ∷ es) = if e.id == oid then e.value else deprecated_loop oid es

unfoldable pub get_deprecated_extension : Certificate → ObjectIdentifier → Result String
unfolding deprecated_loop
get_deprecated_extension (x509 c) oid = ok (deprecated_loop oid c.extensions)
get_deprecated_extension (google_x509 c) oid = ok (deprecated_loop oid c.extensions)

-- Whether the value was matched, and the identifier and the value if it was.
abbrev pub OidMatch : Type 0
OidMatch = Bool × ObjectIdentifier × String

oid_value_loop : ObjectIdentifier → String → List String → OidMatch
oid_value_loop oid ext_value [] = (false, [], "")
oid_value_loop oid ext_value (v ∷ vs) =
    let rest = oid_value_loop oid ext_value vs in
    if ext_value == v then (true, oid, ext_value) else rest

unfoldable pub oid_matches_policy :
    X509 → Certificate → ObjectIdentifier → List String → Result OidMatch
unfolding oid_value_loop get_extension
oid_matches_policy lib cert oid extension_values =
    context "error getting extension value" (get_extension lib cert oid) >>= λ ext_value.
    if is_blank ext_value
    then ok (false, [], "")
    else ok (oid_value_loop oid ext_value extension_values)

oid_value_loop-any :
    (oid : ObjectIdentifier) (ext_value : String) (vs : List String)
    → oid_value_loop oid ext_value vs
      ≡ (if any (λ v. ext_value == v) vs then (true, oid, ext_value) else (false, [], ""))
unfolding oid_value_loop
oid_value_loop-any oid ext_value [] = refl
oid_value_loop-any oid ext_value (v ∷ vs) = ground (arith, oid_value_loop-any oid ext_value vs)

-- A certificate whose extension decodes to a text matches an identifier's policy exactly when the
-- text is not empty and is one of the listed values; then the identifier and the text are returned.
oid_matches_policy-any :
    (lib : X509) (cert : Certificate) (oid : ObjectIdentifier) (vs : List String) (v : String)
    → get_extension lib cert oid ≡ ok v
    → oid_matches_policy lib cert oid vs
      ≡ ok (if not (is_blank v) && any (λ w. v == w) vs then (true, oid, v) else (false, [], ""))
unfolding oid_matches_policy
oid_matches_policy-any lib cert oid vs v h = rw h (ground (arith, oid_value_loop-any oid v vs))

oid_value_loop-listed :
    (oid : ObjectIdentifier) (ext_value : String) (vs : List String)
    → (oid_value_loop oid ext_value vs).0 ≡ true
    → any (λ w. w == (oid_value_loop oid ext_value vs).2) vs ≡ true
unfolding oid_value_loop
oid_value_loop-listed oid ext_value [] h = h
oid_value_loop-listed oid ext_value (v ∷ vs) h = ground (
  arith,
  string_comparable.same_iff ext_value v,
  string_comparable.same_iff v ext_value,
  oid_value_loop-listed oid ext_value vs,
)

-- The value that a match returns is one of those listed.
pub oid_matches_policy-listed :
    (lib : X509) (cert : Certificate) (oid : ObjectIdentifier) (vs : List String) (r : OidMatch)
    → oid_matches_policy lib cert oid vs ≡ ok r
    → r.0 ≡ true
    → any (λ w. w == r.2) vs ≡ true
unfolding oid_matches_policy
oid_matches_policy-listed lib cert oid vs r e h = elim (Result-cases (get_extension lib cert oid)) [
  | inl (v, k) ↦ ground (arith, oid_value_loop-listed oid v vs)
  | inr (inl (x, k)) ↦ ground arith
  | inr (inr (p, k)) ↦ ground arith
]
