-- ===== src/Rekor/LogKeys.antt =====
-- The search of the trusted root for the log that signed a checkpoint, which GetLogVerifier of both
-- API versions does. The trusted root and the loading of its keys are arguments.
pub mod Found
use rekor_monitor.Base.{
  ℕ, Bool, Option, none, some, Result, ok, err, panic, msg, ◌>>=◌, String, List, [], ◌∷◌, length,
  take, leb, if◌then◌else◌,
}
use rekor_monitor.Base.Classes.{◌==◌, nat_comparable, list_comparable}

-- root.TransparencyLog: its key and its hash function, as names
pub record TransparencyLog : Type 0 where
  pub public_key : String
  pub hash_func : String

pub record KeyLoading : Type 0 where
  -- hex.DecodeString
  pub decode_hex : String → Result (List ℕ)
  -- signature.LoadVerifier, which a verifier's name stands for
  pub load_verifier : String → String → Result String

-- `logID[:4]`
unfoldable pub key_id_of : List ℕ → Result (List ℕ)
key_id_of log_id =
    if leb 4 (length log_id) then ok (take 4 log_id) else panic "slice bounds out of range"

module _ (keys : KeyLoading) (key_id : List ℕ) where
  -- `for k, v := range rekorLogs`, in the order in which the map is walked: a later log replaces an
  -- earlier one.
  unfoldable pub find_log :
      List (String × TransparencyLog) → Option TransparencyLog → Result (Option TransparencyLog)
  unfolding key_id_of
  find_log [] matching = ok matching
  find_log ((k, v) ∷ logs) matching =
      let replaced = find_log logs (some v) in
      let kept = find_log logs matching in
      keys.decode_hex k >>= λ log_id.
      key_id_of log_id >>= λ id. if id == key_id then replaced else kept

  unfoldable pub verifier_of : String → List (String × TransparencyLog) → Result String
  unfolding find_log
  verifier_of missing logs = find_log logs none >>= λ matching. elim matching [
    | none ↦ err (msg missing)
    | some l ↦ keys.load_verifier l.public_key l.hash_func
  ]
