-- ===== src/Ct/Consistency.antt =====
-- pkg/ct/consistency.go. The log client is a record of calls; its verifier, which the check sets where
-- it is missing, is state that a call takes and returns. Keys are parsed and signatures and proofs are
-- checked by a record of calls.
pub mod Checked
pub mod Tests
use rekor_monitor.Base.{
  ℕ, Bool, true, false, not, Option, none, some, Error, Result, ok, err, panic, msg, ◌>>=◌, ◌>>◌,
  context, return_error, String, List, [], ◌∷◌, if◌then◌else◌,
}
use rekor_monitor.Base.Classes.{◌==◌, string_comparable}
use rekor_monitor.Base.Maps.{find}
use rekor_monitor.Base.Text.{is_blank}
use rekor_monitor.Util.File.{Disk, or_empty}
use rekor_monitor.Util.File.Reading.{read_latest_ct_signed_tree_head}

-- ct.SignedTreeHead
pub record SignedTreeHead : Type 0 where
  pub tree_size : ℕ
  pub root_hash : String
  pub signature : String
  pub log_id : String

-- A log of the trusted root: its URL and its key.
pub record CtLog : Type 0 where
  pub base_url : String
  pub public_key : String

-- ct.SignatureVerifier, whose key may be missing
pub record SignatureVerifier : Type 0 where
  pub pub_key : Option String

pub record LogClient (Proof : Type 0) : Type 0 where
  pub base_uri : String
  pub get_sth : Result SignedTreeHead
  pub get_sth_consistency : ℕ → ℕ → Result Proof

pub record Verifying (Proof : Type 0) : Type 0 where
  -- x509.MarshalPKIXPublicKey, sha256.Sum256, hex.EncodeToString and ct.NewSignatureVerifier
  pub marshal_pkix : String → Result String
  pub sum256 : String → String
  pub encode_hex : String → String
  pub new_signature_verifier : String → Result SignatureVerifier
  -- LogClient.VerifySTHSignature with this verifier, and proof.VerifyConsistency
  pub verify_sth_signature : SignatureVerifier → SignedTreeHead → Option Error
  pub verify_consistency : ℕ → ℕ → Proof → String → String → Option Error
  pub unmarshal : String → Result SignedTreeHead
  -- os.Stat and os.ReadFile of a file that exists
  pub stat : String → Option Error
  pub read_error : String → Option Error

module _ {Proof : Type 0} (vfy : Verifying Proof) where
  unfoldable pub ct_log_id_from_public_key : String → Result String
  ct_log_id_from_public_key pub_key = vfy.marshal_pkix pub_key >>= λ der. ok (vfy.sum256 der)

  -- The loop over the logs, up to the first one at the URL.
  unfoldable pub key_id_at : String → List (String × CtLog) → Result String
  unfolding ct_log_id_from_public_key
  key_id_at server_url [] = ok ""
  key_id_at server_url ((k, l) ∷ logs) =
      let rest = key_id_at server_url logs in
      if l.base_url == server_url
      then (ct_log_id_from_public_key l.public_key >>= λ log_id. ok (vfy.encode_hex log_id))
      else rest

  unfoldable pub get_ct_log_verifier : String → List (String × CtLog) → Result SignatureVerifier
  unfolding key_id_at
  get_ct_log_verifier server_url ct_logs = key_id_at server_url ct_logs >>= λ key_id.
      elim (find key_id ct_logs) [
        | some log ↦ vfy.new_signature_verifier log.public_key
        | none ↦ err (msg "could not find certificate transparency log in trusted root")
      ]

  module _ (client : LogClient Proof) (ct_logs : List (String × CtLog)) where
    -- `if logClient.Verifier == nil`: the verifier that the client has from there on.
    unfoldable pub ensure_verifier : Option SignatureVerifier → Result SignatureVerifier
    unfolding get_ct_log_verifier
    ensure_verifier (some v) = ok v
    ensure_verifier none =
        context "error loading public key" (get_ct_log_verifier client.base_uri ct_logs)

    unfoldable pub verify_certificate_transparency_consistency :
        String → SignedTreeHead → Option SignatureVerifier → Disk → Result SignedTreeHead
    unfolding ensure_verifier
    verify_certificate_transparency_consistency file sth verifier disk =
        context "error reading checkpoint"
          (read_latest_ct_signed_tree_head vfy.unmarshal vfy.read_error file disk)
        >>= λ prev. ensure_verifier verifier >>= λ v.
            context "error verifying previous STH signature"
              (return_error (vfy.verify_sth_signature v prev))
            >> (context "error verifying current STH signature"
                  (return_error (vfy.verify_sth_signature v sth))
                >> (context "error getting consistency proof"
                      (client.get_sth_consistency prev.tree_size sth.tree_size)
                    >>= λ pf.
                        context "error verifying consistency" (
                          return_error (
                            vfy.verify_consistency prev.tree_size sth.tree_size pf prev.root_hash
                              sth.root_hash))
                        >> ok prev))

    -- `err == nil && fi.Size() != 0`
    abbrev pub has_tree_head : String → Disk → Bool
    has_tree_head file disk = elim (vfy.stat file) [
      | some _ ↦ false
      | none ↦ not (is_blank (or_empty (disk file)))
    ]

    unfoldable pub previous_tree_head :
        String → SignedTreeHead → SignatureVerifier → Disk → Result (Option SignedTreeHead)
    unfolding verify_certificate_transparency_consistency
    previous_tree_head file sth verifier disk =
        if has_tree_head file disk
        then (context "error verifying consistency between previous and current STHs"
              (verify_certificate_transparency_consistency file sth (some verifier) disk)
            >>= λ prev. ok (some prev))
        else ok none

    -- The tree head with the ID of the verifier's key.
    unfoldable pub with_log_id : SignatureVerifier → SignedTreeHead → Result SignedTreeHead
    unfolding ct_log_id_from_public_key
    with_log_id verifier sth = elim verifier.pub_key [
      | none ↦ ok sth
      | some key ↦ context "error computing log ID" (ct_log_id_from_public_key key) >>= λ log_id.
          ok (record sth { log_id = log_id })
    ]

    -- The result, and the verifier that the client is left with.
    unfoldable pub run_consistency_check :
        String
        → Disk
        → Option SignatureVerifier
        → Result (Option SignedTreeHead × SignedTreeHead) × Option SignatureVerifier
    unfolding previous_tree_head with_log_id
    run_consistency_check file disk verifier =
        elim (context "error fetching latest STH" client.get_sth) [
          | err e ↦ (err e, verifier)
          | panic p ↦ (panic p, verifier)
          | ok current ↦ elim (ensure_verifier verifier) [
            | err e ↦ (err e, verifier)
            | panic p ↦ (panic p, verifier)
            | ok v ↦ (
              previous_tree_head file current v disk >>= λ prev.
                  with_log_id v current >>= λ cur. ok (prev, cur),
              some v,
            )
          ]
        ]
