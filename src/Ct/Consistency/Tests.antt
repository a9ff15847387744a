-- ===== src/Ct/Consistency/Tests.antt =====
-- A client without a verifier, for a log of the trusted root, and a stored tree head of size 3.
use rekor_monitor.Base.{ℕ, ◌≡◌, refl, none, some, ok, String, List, [], ◌∷◌}
use rekor_monitor.Base.Classes.{string_comparable}
use rekor_monitor.Ct.Consistency.{
  SignedTreeHead, CtLog, SignatureVerifier, LogClient, Verifying, ct_log_id_from_public_key,
  key_id_at, get_ct_log_verifier, ensure_verifier, verify_certificate_transparency_consistency,
  previous_tree_head, with_log_id, run_consistency_check,
}
use rekor_monitor.Ct.Consistency.Checked.{
  IsVerifier, IsNamed, Previous, run_consistency_check-Previous_ct,
}
use rekor_monitor.Util.File.{Disk}
use rekor_monitor.Util.File.Reading.{read_file, unflatten, read_latest_ct_signed_tree_head}

abbrev head : ℕ → String → SignedTreeHead
head size id = record { tree_size = size; root_hash = "h"; signature = "s"; log_id = id }

abbrev log_client : LogClient ℕ
log_client = record {
  base_uri = "https://ct";
  get_sth = ok (head 5 "");
  get_sth_consistency = λ m n. ok n;
}

abbrev verifying : Verifying ℕ
verifying = record {
  marshal_pkix = λ k. ok k;
  sum256 = λ s. s;
  encode_hex = λ s. s;
  new_signature_verifier = λ k. ok (record { pub_key = some k });
  verify_sth_signature = λ v s. none;
  verify_consistency = λ m n p a b. none;
  unmarshal = λ s. ok (head 3 "key");
  stat = λ f. none;
  read_error = λ f. none;
}

abbrev ct_logs : List (String × CtLog)
ct_logs = ("key", record { base_url = "https://ct"; public_key = "key" }) ∷ []

abbrev stored : Disk
stored = λ f. some "{3}\n"

run_consistency_check-Previous_ct_example :
    (v : SignatureVerifier) × (cur : SignedTreeHead) × ((run_consistency_check verifying log_client
        ct_logs "sth.txt" stored none).1
      ≡ some v)
    × IsVerifier verifying log_client ct_logs none v
    × (log_client.get_sth ≡ ok cur)
    × IsNamed verifying log_client ct_logs v cur (head 5 "key")
    × Previous verifying log_client ct_logs "sth.txt" stored v cur (some (head 3 "key"))
unfolding run_consistency_check ensure_verifier get_ct_log_verifier key_id_at
    ct_log_id_from_public_key previous_tree_head verify_certificate_transparency_consistency
    read_latest_ct_signed_tree_head read_file unflatten with_log_id
run_consistency_check-Previous_ct_example =
    run_consistency_check-Previous_ct verifying log_client ct_logs "sth.txt" stored none
      (some (head 3 "key"), head 5 "key") refl
