-- ===== src/Rekor/V1/LogVerifier.antt =====
-- GetLogVerifier of pkg/rekor/v1/verifier.go: the verifier of the log that signed the latest
-- checkpoint, from the trusted root.
pub mod Trust
pub mod Tests
use rekor_monitor.Base.{ℕ, ◌/◌, ◌%◌, ◌^◌, Result, err, ok, panic, msg, ◌>>=◌, String, List, [], ◌∷◌}
use rekor_monitor.Rekor.LogKeys.{TransparencyLog, KeyLoading, verifier_of}
use rekor_monitor.Rekor.V1.Client.{Rekor, get_log_info}
use rekor_monitor.Rekor.V1.Verifier.{Checking, read_latest_checkpoint_of}
use rekor_monitor.Util.Retry.{Float64}

-- binary.BigEndian.PutUint32
abbrev pub big_endian : ℕ → List ℕ
big_endian n = (n / 2 ^ 24) % 256 ∷ (n / 2 ^ 16) % 256 ∷ (n / 2 ^ 8) % 256 ∷ n % 256 ∷ []

module _ {F Entry : Type 0} (fl : Float64 F) (chk : Checking) (keys : KeyLoading) where
  unfoldable pub get_log_verifier : Rekor Entry → List (String × TransparencyLog) → Result String
  get_log_verifier client rekor_logs = get_log_info fl client >>= λ log_info.
      read_latest_checkpoint_of chk log_info >>= λ latest. elim latest.signatures [
        | [] ↦ err (msg "couldn't get signatures from checkpoint")
        | s ∷ ss ↦
            verifier_of keys (big_endian s) "couldn't find matching log instance with keyID"
              rekor_logs
      ]
