-- ===== src/Rekor/V1/LogVerifier/Tests.antt =====
-- A log whose checkpoint is signed with the key 1 2 3 4.
use rekor_monitor.Base.{ℕ, ◌≡◌, refl, true, none, ok, List, [], ◌∷◌}
use rekor_monitor.Rekor.LogKeys.{verifier_of}
use rekor_monitor.Rekor.LogKeys.Found.{Trusted}
use rekor_monitor.Rekor.V1.Client.{LogInfo, get_log_info}
use rekor_monitor.Rekor.V1.Client.Tests.{numbers}
use rekor_monitor.Rekor.V1.LogVerifier.{big_endian, get_log_verifier}
use rekor_monitor.Rekor.V1.LogVerifier.Trust.{get_log_verifier-Trusted_v1}
use rekor_monitor.Rekor.V1.Search.{SignedCheckpoint}
use rekor_monitor.Rekor.V1.Verifier.{Checking, read_latest_checkpoint_of}
use rekor_monitor.Rekor.V2.LogVerifier.Tests.{loading, trusted}
use rekor_monitor.Util.Retry.{retry, validate_retry_config}
use rekor_monitor.Util.Retry.Tests.{tenths}

abbrev signed : Checking
signed = record {
  unmarshal_text =
      λ s. ok (record { origin = s; size = 3; hash = "h"; signatures = 16_909_060 ∷ [] });
  verify = λ c. true;
  prove_consistency = λ a b t. none;
  stat = λ f. none;
  open_error = λ f. none;
}

get_log_verifier-Trusted_v1_example :
    (info : LogInfo) × (cp : SignedCheckpoint) × (s : ℕ) × (ss : List ℕ) × (get_log_info tenths
        numbers
      ≡ ok info)
    × (read_latest_checkpoint_of signed info ≡ ok cp)
    × (cp.signatures ≡ s ∷ ss)
    × Trusted loading (big_endian s) trusted "key"
unfolding get_log_verifier get_log_info read_latest_checkpoint_of verifier_of retry
    validate_retry_config
get_log_verifier-Trusted_v1_example =
    get_log_verifier-Trusted_v1 tenths signed loading numbers trusted "key" refl
