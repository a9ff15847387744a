-- ===== src/Rekor/V2/LogVerifier.antt =====
-- GetCheckpointKeyIDUnverified and GetLogVerifier of pkg/rekor/v2/verifier.go. The HTTP client, the
-- parser of notes and the base64 decoder are a record of calls.
pub mod Trust
pub mod Tests
use rekor_monitor.Base.{
  ℕ, Option, none, some, Error, Result, ok, err, msg, wrap, panic, ◌>>=◌, context, String, List, [],
  ◌∷◌, length, take, ltb, if◌then◌else◌,
}
use rekor_monitor.Rekor.LogKeys.{TransparencyLog, KeyLoading, verifier_of}
use rekor_monitor.Util.Tls.{TlsConfig}

-- url.URL: its scheme, and what its method String returns
pub record Url : Type 0 where
  pub scheme : String
  pub text : String

-- What note.Open returns, given no verifiers: the note, the texts of the unverified signatures of a
-- note that it could parse, or another error.
pub data Opened : Type 0 where
  verified : Opened
  unverified : List String → Opened
  refused : Error → Opened

pub record Fetching : Type 0 where
  -- tclient.NewHTTPFetcher with the client for these settings, and its method ReadCheckpoint
  pub new_http_fetcher : Url → String → Option TlsConfig → Result (Result String)
  pub open_note : String → Opened
  pub decode_base64 : String → Result (List ℕ)

module _ (fetch : Fetching) where
  -- The signatures of the note, which note.Open refuses.
  unfoldable pub unverified_signatures : String → Result (List String)
  unverified_signatures cp_raw = elim (fetch.open_note cp_raw) [
    | verified ↦ err (msg "error parsing checkpoint")
    | unverified sigs ↦ ok sigs
    | refused e ↦ err (wrap "error parsing checkpoint" e)
  ]

  unfoldable pub first_key_id : List String → Result (List ℕ)
  first_key_id [] = err (msg "no signatures found in checkpoint")
  first_key_id (base64 ∷ sigs) =
      context "error decoding checkpoint signature" (fetch.decode_base64 base64) >>= λ bytes.
      if ltb (length bytes) 4
      then err (msg "signature too short, expected >=4 bytes")
      else ok (take 4 bytes)

  module _ (user_agent : String) (tls_config : Option TlsConfig) where
    unfoldable pub get_checkpoint_key_id_unverified : Url → Result (List ℕ)
    unfolding unverified_signatures first_key_id
    get_checkpoint_key_id_unverified base_url =
        context "creating tile client" (fetch.new_http_fetcher base_url user_agent tls_config)
        >>= λ checkpoint. context "error fetching checkpoint" checkpoint >>= λ cp_raw.
            unverified_signatures cp_raw >>= λ sigs. first_key_id sigs

    unfoldable pub get_log_verifier :
        KeyLoading → Url → List (String × TransparencyLog) → Result String
    unfolding get_checkpoint_key_id_unverified
    get_log_verifier keys base_url rekor_logs =
        get_checkpoint_key_id_unverified base_url >>= λ key_id.
        verifier_of keys key_id "couldn't find matching log instance" rekor_logs
