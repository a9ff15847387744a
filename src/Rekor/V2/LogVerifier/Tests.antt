-- ===== src/Rekor/V2/LogVerifier/Tests.antt =====
-- A shard whose checkpoint is signed with the key 1 2 3 4.
use rekor_monitor.Base.{ℕ, refl, none, ok, String, List, [], ◌∷◌}
use rekor_monitor.Base.Classes.{string_comparable}
use rekor_monitor.Rekor.LogKeys.{TransparencyLog, KeyLoading, verifier_of}
use rekor_monitor.Rekor.LogKeys.Found.{Trusted}
use rekor_monitor.Rekor.V2.LogVerifier.{Url, unverified, Fetching, get_log_verifier}
use rekor_monitor.Rekor.V2.LogVerifier.Trust.{IsKeyId, get_log_verifier-Trusted_v2}

abbrev pub fetching : Fetching
fetching = record {
  new_http_fetcher = λ url agent tls. ok (ok "checkpoint");
  open_note = λ raw. unverified ("sig" ∷ []);
  decode_base64 = λ s. ok (1 ∷ 2 ∷ 3 ∷ 4 ∷ 9 ∷ []);
}

abbrev pub loading : KeyLoading
loading = record {
  decode_hex = λ k. ok (1 ∷ 2 ∷ 3 ∷ 4 ∷ 5 ∷ 6 ∷ []);
  load_verifier = λ key hash. ok key;
}

abbrev pub trusted : List (String × TransparencyLog)
trusted = ("010203040506", record { public_key = "key"; hash_func = "sha256" }) ∷ []

abbrev url : Url
url = record { scheme = "https"; text = "https://log2026" }

get_log_verifier-Trusted_v2_example :
    (key_id : List ℕ) × IsKeyId fetching "monitor" none url key_id
    × Trusted loading key_id trusted "key"
unfolding get_log_verifier verifier_of
get_log_verifier-Trusted_v2_example =
    get_log_verifier-Trusted_v2 fetching "monitor" none loading url trusted "key" refl
