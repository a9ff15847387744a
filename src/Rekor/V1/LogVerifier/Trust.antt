-- ===== src/Rekor/V1/LogVerifier/Trust.antt =====
-- Whose key the verifier of a Rekor v1 log has.
use rekor_monitor.Base.{◌≡◌, ok, String, List, ◌∷◌, arith, inl, inr, Result-cases, List-cases, ℕ}
use rekor_monitor.Rekor.LogKeys.{TransparencyLog, KeyLoading}
use rekor_monitor.Rekor.LogKeys.Found.{Trusted, verifier_of-Trusted}
use rekor_monitor.Rekor.V1.Client.{LogInfo, Rekor, get_log_info}
use rekor_monitor.Rekor.V1.LogVerifier.{big_endian, get_log_verifier}
use rekor_monitor.Rekor.V1.Search.{SignedCheckpoint}
use rekor_monitor.Rekor.V1.Verifier.{Checking, read_latest_checkpoint_of}
use rekor_monitor.Util.Retry.{Float64}

module _ {F Entry : Type 0} (fl : Float64 F) (chk : Checking) (keys : KeyLoading) where
  -- A verifier is made from the key of a log of the trusted root only, whose ID starts with the key
  -- hash of the first signature of the latest checkpoint, its bytes from the highest to the lowest.
  pub get_log_verifier-Trusted_v1 :
      (client : Rekor Entry) (logs : List (String × TransparencyLog)) (verifier : String)
      → get_log_verifier fl chk keys client logs ≡ ok verifier
      → (info : LogInfo) × (cp : SignedCheckpoint) × (s : ℕ) × (ss : List ℕ) × (get_log_info fl
            client
          ≡ ok info)
        × (read_latest_checkpoint_of chk info ≡ ok cp)
        × (cp.signatures ≡ s ∷ ss)
        × Trusted keys (big_endian s) logs verifier
  unfolding get_log_verifier
  get_log_verifier-Trusted_v1 client logs verifier h =
      elim (Result-cases (get_log_info fl client)) [
        | inl (info, e) ↦ elim (Result-cases (read_latest_checkpoint_of chk info)) [
          | inl (cp, f) ↦ elim (List-cases cp.signatures) [
            | inl n ↦ absurd (ground (arith, e, f, n, h))
            | inr (s, ss, c) ↦ (
              info,
              cp,
              s,
              ss,
              e,
              f,
              c,
              verifier_of-Trusted keys (big_endian s)
                  "couldn't find matching log instance with keyID" logs verifier
                  (ground (arith, e, f, c, h)),
            )
          ]
          | inr (inl (x, f)) ↦ absurd (ground (arith, e, f, h))
          | inr (inr (x, f)) ↦ absurd (ground (arith, e, f, h))
        ]
        | inr (inl (x, e)) ↦ absurd (ground (arith, e, h))
        | inr (inr (x, e)) ↦ absurd (ground (arith, e, h))
      ]
