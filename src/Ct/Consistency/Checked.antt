-- ===== src/Ct/Consistency/Checked.antt =====
-- What a consistency check of a certificate transparency log has checked when it succeeds.
use rekor_monitor.Base.Maps.{find}
use rekor_monitor.Base.Classes.{◌==◌, string_comparable}
use rekor_monitor.Base.{
  ◌≢◌, IfOk-any, err, msg, subst, [], ◌∷◌, ◌≡◌, ◌⊎◌, inl, inr, refl, true, false, Option, none,
  some, ok, ◌>>=◌, context, return_error, context-return_error, IfOk, IfOk-bind, IfOk-of,
  context-ok, String, List, arith, if_rule, Result-cases, Option-cases, sym,
}
use rekor_monitor.Ct.Consistency.{
  SignedTreeHead, CtLog, SignatureVerifier, LogClient, Verifying, get_ct_log_verifier, key_id_at,
  ct_log_id_from_public_key, ensure_verifier, verify_certificate_transparency_consistency,
  has_tree_head, previous_tree_head, with_log_id, run_consistency_check,
}
use rekor_monitor.Util.File.{Disk}
use rekor_monitor.Util.File.Reading.{read_latest_ct_signed_tree_head}

module _ {Proof : Type 0} (vfy : Verifying Proof) (client : LogClient Proof)
    (ct_logs : List (String × CtLog)) where
  -- The ID of a key, for the first log at the URL; there may be none.
  pub data IsKeyAt (uri : String) : List (String × CtLog) → String → Type 0 where
    no_log : IsKeyAt uri [] ""
    at_url :
        (name : String) (log : CtLog) (logs : List (String × CtLog)) (der : String)
        → log.base_url ≡ uri
        → vfy.marshal_pkix log.public_key ≡ ok der
        → IsKeyAt uri ((name, log) ∷ logs) (vfy.encode_hex (vfy.sum256 der))
    elsewhere :
        (name : String) (log : CtLog) (logs : List (String × CtLog)) (id : String)
        → log.base_url ≢ uri
        → IsKeyAt uri logs id
        → IsKeyAt uri ((name, log) ∷ logs) id

  -- A verifier of the trusted root: for the key of the log that is listed under the hash of the key
  -- that belongs to the client's URL.
  pub record IsTrustedKey (v : SignatureVerifier) : Type 0 where
    pub id : String
    pub log : CtLog
    pub at_uri : IsKeyAt client.base_uri ct_logs id
    pub listed : find id ct_logs ≡ some log
    pub made : vfy.new_signature_verifier log.public_key ≡ ok v

  -- The verifier that the client has, or where it has none, that of the trusted root.
  abbrev pub IsVerifier : Option SignatureVerifier → SignatureVerifier → Type 0
  IsVerifier verifier v = (verifier ≡ some v) ⊎ ((verifier ≡ none) × IsTrustedKey v)

  -- The tree head of the file: both tree heads are signed, and the log is proved to extend it.
  pub record IsExtended (file : String) (disk : Disk) (v : SignatureVerifier)
      (cur prev : SignedTreeHead) : Type 0 where
    pub stored : read_latest_ct_signed_tree_head vfy.unmarshal vfy.read_error file disk ≡ ok prev
    pub signed : vfy.verify_sth_signature v prev ≡ none
    pub current_signed : vfy.verify_sth_signature v cur ≡ none
    pub proof : Proof
    pub served : client.get_sth_consistency prev.tree_size cur.tree_size ≡ ok proof
    pub consistent :
        vfy.verify_consistency prev.tree_size cur.tree_size proof prev.root_hash cur.root_hash
        ≡ none

  -- A previous tree head is returned exactly when the file has one, and is then extended.
  abbrev pub Previous :
      String → Disk → SignatureVerifier → SignedTreeHead → Option SignedTreeHead → Type 0
  Previous file disk v cur none = has_tree_head vfy client ct_logs file disk ≡ false
  Previous file disk v cur (some prev) =
      (has_tree_head vfy client ct_logs file disk ≡ true) × IsExtended file disk v cur prev

  -- The tree head under the hash of the verifier's key, or as it is if the verifier has none.
  pub data IsNamed (v : SignatureVerifier) (sth : SignedTreeHead) : SignedTreeHead → Type 0 where
    unnamed : v.pub_key ≡ none → IsNamed v sth sth
    under :
        (key der : String)
        → v.pub_key ≡ some key
        → vfy.marshal_pkix key ≡ ok der
        → IsNamed v sth (record sth { log_id = vfy.sum256 der })

  der_of :
      (key hash : String)
      → ct_log_id_from_public_key vfy key ≡ ok hash
      → (der : String) × (vfy.marshal_pkix key ≡ ok der) × (hash ≡ vfy.sum256 der)
  unfolding ct_log_id_from_public_key
  der_of key hash h = elim (Result-cases (vfy.marshal_pkix key)) [
    | inl (der, e) ↦ (der, e, ground (arith, e, h))
    | inr (inl (x, e)) ↦ absurd (ground (arith, e, h))
    | inr (inr (x, e)) ↦ absurd (ground (arith, e, h))
  ]

  found_key :
      (id : String)
      → IsKeyAt client.base_uri ct_logs id
      → (o : Option CtLog) → find id ct_logs ≡ o
      → IfOk IsTrustedKey (elim o [
        | some log ↦ vfy.new_signature_verifier log.public_key
        | none ↦ err (msg "could not find certificate transparency log in trusted root")
      ])
  found_key id at none e = tt
  found_key id at (some log) e =
      IfOk-any IsTrustedKey (vfy.new_signature_verifier log.public_key)
        (λ v made. record { id = id; log = log; at_uri = at; listed = e; made = made })

  key_id_at-IsKeyAt :
      (uri : String) (logs : List (String × CtLog))
      → IfOk (IsKeyAt uri logs) (key_id_at vfy uri logs)
  unfolding key_id_at ct_log_id_from_public_key
  key_id_at-IsKeyAt uri [] = no_log
  key_id_at-IsKeyAt uri ((name, log) ∷ logs) =
      let P : String → Type 0 = IsKeyAt uri ((name, log) ∷ logs) in
      let same = string_comparable.same_iff log.base_url uri in
      let rest = key_id_at vfy uri logs in
      if_rule (IfOk P) (log.base_url == uri) _ rest
        (λ e. IfOk-bind P (ct_log_id_from_public_key vfy log.public_key) _ λ hash h.
          let d = der_of log.public_key hash h in
          subst (λ x. P (vfy.encode_hex x)) (sym d.2) (at_url name log logs d.0 (same.0 e) d.1))
        (λ e. IfOk-any P rest (λ id k.
          elsewhere name log logs id (λ q. absurd (ground (arith, e, same.1 q)))
            (IfOk-of (IsKeyAt uri logs) rest id (key_id_at-IsKeyAt uri logs) k)))

  get_ct_log_verifier-IsTrustedKey :
      IfOk IsTrustedKey (get_ct_log_verifier vfy client.base_uri ct_logs)
  unfolding get_ct_log_verifier
  get_ct_log_verifier-IsTrustedKey =
      IfOk-bind IsTrustedKey (key_id_at vfy client.base_uri ct_logs) _ λ id h.
        found_key id
          (IfOk-of (IsKeyAt client.base_uri ct_logs) _ id
            (key_id_at-IsKeyAt client.base_uri ct_logs) h)
          (find id ct_logs) refl

  ensure_verifier-IsVerifier :
      (verifier : Option SignatureVerifier) (v : SignatureVerifier)
      → ensure_verifier vfy client ct_logs verifier ≡ ok v
      → IsVerifier verifier v
  unfolding ensure_verifier
  ensure_verifier-IsVerifier none v h = inr (
    refl,
    IfOk-of IsTrustedKey (get_ct_log_verifier vfy client.base_uri ct_logs) v
        get_ct_log_verifier-IsTrustedKey
        (context-ok "error loading public key" (get_ct_log_verifier vfy client.base_uri ct_logs) v
          h),
  )
  ensure_verifier-IsVerifier (some w) v h = inl (ground (arith, h))

  verify-IsExtended :
      (file : String) (disk : Disk) (v : SignatureVerifier) (cur : SignedTreeHead)
      → IfOk
          (IsExtended file disk v cur)
          (verify_certificate_transparency_consistency vfy client ct_logs file cur (some v) disk)
  unfolding verify_certificate_transparency_consistency ensure_verifier
  verify-IsExtended file disk v cur =
      let P : SignedTreeHead → Type 0 = IsExtended file disk v cur in
      let read = read_latest_ct_signed_tree_head vfy.unmarshal vfy.read_error file disk in
      IfOk-bind P (context "error reading checkpoint" read) _ λ prev e.
        IfOk-bind P
          (context "error verifying previous STH signature"
            (return_error (vfy.verify_sth_signature v prev)))
          _
          λ _ a.
            IfOk-bind P
              (context "error verifying current STH signature"
                (return_error (vfy.verify_sth_signature v cur)))
              _
              λ _ b.
                let proof = client.get_sth_consistency prev.tree_size cur.tree_size in
                IfOk-bind P (context "error getting consistency proof" proof) _ λ pf c.
                  let checked =
                    vfy.verify_consistency prev.tree_size cur.tree_size pf prev.root_hash
                      cur.root_hash in
                  IfOk-bind P (context "error verifying consistency" (return_error checked)) _
                    λ _ d. record {
                      stored = context-ok _ read prev e;
                      signed = context-return_error (vfy.verify_sth_signature v prev) _ a;
                      current_signed = context-return_error (vfy.verify_sth_signature v cur) _ b;
                      proof = pf;
                      served = context-ok _ proof pf c;
                      consistent = context-return_error checked _ d;
                    }

  previous_tree_head-Previous :
      (file : String) (disk : Disk) (v : SignatureVerifier) (cur : SignedTreeHead)
      → IfOk (Previous file disk v cur) (previous_tree_head vfy client ct_logs file cur v disk)
  unfolding previous_tree_head
  previous_tree_head-Previous file disk v cur =
      let checked =
        verify_certificate_transparency_consistency vfy client ct_logs file cur (some v) disk in
      if_rule (IfOk (Previous file disk v cur)) (has_tree_head vfy client ct_logs file disk) _ _
        (λ has.
          IfOk-bind (Previous file disk v cur)
            (context "error verifying consistency between previous and current STHs" checked) _
            λ prev e. (
              has,
              IfOk-of (IsExtended file disk v cur) checked prev (verify-IsExtended file disk v cur)
                  (context-ok _ checked prev e),
            ))
        (λ has_none. has_none)

  with_log_id-IsNamed :
      (v : SignatureVerifier) (sth named : SignedTreeHead)
      → with_log_id vfy client ct_logs v sth ≡ ok named
      → IsNamed v sth named
  unfolding with_log_id
  with_log_id-IsNamed v sth named h = elim (Option-cases v.pub_key) [
    | inl e ↦
        let same : sth ≡ named = ground (arith, e, h) in subst (IsNamed v sth) same (unnamed e)
    | inr (key, e) ↦ elim (Result-cases (ct_log_id_from_public_key vfy key)) [
      | inl (id, f) ↦
          let same : record sth { log_id = id } ≡ named = ground (arith, e, f, h) in
          let d = der_of key id f in
          subst (IsNamed v sth) same
            (subst (λ x. IsNamed v sth (record sth { log_id = x })) (sym d.2) (under key d.0 e d.1))
      | inr (inl (x, f)) ↦ absurd (ground (arith, e, f, h))
      | inr (inr (x, f)) ↦ absurd (ground (arith, e, f, h))
    ]
  ]

  results :
      (file : String) (disk : Disk) (v : SignatureVerifier) (cur : SignedTreeHead)
      (r : Option SignedTreeHead × SignedTreeHead)
      → (previous_tree_head vfy client ct_logs file cur v disk >>= λ prev.
          with_log_id vfy client ct_logs v cur >>= λ named. ok (prev, named))
        ≡ ok r
      → Previous file disk v cur r.0 × IsNamed v cur r.1
  results file disk v cur r h =
      let P : Option SignedTreeHead × SignedTreeHead → Type 0 =
        λ q. Previous file disk v cur q.0 × IsNamed v cur q.1 in
      let before = previous_tree_head vfy client ct_logs file cur v disk in
      IfOk-of P _ r
        (IfOk-bind P before _ λ prev b.
          IfOk-bind P (with_log_id vfy client ct_logs v cur) _ λ named n. (
            IfOk-of (Previous file disk v cur) before prev
                (previous_tree_head-Previous file disk v cur) b,
            with_log_id-IsNamed v cur named n,
          ))
        h

  -- If the check succeeds, the client has a verifier from then on, the one it had, or else one for the
  -- key of the log of the trusted root that is listed under the hash of the key at the client's URL;
  -- and the tree head returned is the one that the log serves, its ID replaced by the hash of the
  -- verifier's key where it has one. If the file holds a previous tree head, exactly then one is
  -- returned: it is the one of the file, that verifier accepts the signatures of both, and a proof that
  -- the log serves for their sizes shows that the current one extends it.
  pub run_consistency_check-Previous_ct :
      (file : String) (disk : Disk) (verifier : Option SignatureVerifier)
      (r : Option SignedTreeHead × SignedTreeHead)
      → (run_consistency_check vfy client ct_logs file disk verifier).0 ≡ ok r
      → (v : SignatureVerifier) × (cur : SignedTreeHead) × ((run_consistency_check vfy client
            ct_logs file disk verifier).1
          ≡ some v)
        × IsVerifier verifier v
        × (client.get_sth ≡ ok cur)
        × IsNamed v cur r.1
        × Previous file disk v cur r.0
  unfolding run_consistency_check
  run_consistency_check-Previous_ct file disk verifier r h = elim (Result-cases client.get_sth) [
    | inl (cur, e) ↦ elim (Result-cases (ensure_verifier vfy client ct_logs verifier)) [
      | inl (v, f) ↦
          let (p, n) = results file disk v cur r (ground (arith, e, f, h)) in
          (v, cur, ground (arith, e, f), ensure_verifier-IsVerifier verifier v f, e, n, p)
      | inr (inl (x, f)) ↦ absurd (ground (arith, e, f, h))
      | inr (inr (x, f)) ↦ absurd (ground (arith, e, f, h))
    ]
    | inr (inl (x, e)) ↦ absurd (ground (arith, e, h))
    | inr (inr (x, e)) ↦ absurd (ground (arith, e, h))
  ]
