-- ===== src/Rekor/V2/LogVerifier/Trust.antt =====
-- Whose key the verifier of a Rekor v2 shard has.
use rekor_monitor.Base.{
  ◌≡◌, Option, ok, String, List, [], ◌∷◌, arith, inl, inr, Result-cases, ℕ, context, context-ok,
  take, IfOk, IfOk-bind, IfOk-of, IfOk-any, ap, ◌∙◌, refl, ◌⊎◌, Error,
}
use rekor_monitor.Rekor.LogKeys.{TransparencyLog, KeyLoading}
use rekor_monitor.Rekor.LogKeys.Found.{Trusted, verifier_of-Trusted}
use rekor_monitor.Rekor.V2.LogVerifier.{
  Url, Opened, verified, unverified, refused, Fetching, unverified_signatures, first_key_id,
  get_checkpoint_key_id_unverified, get_log_verifier,
}
use rekor_monitor.Util.Tls.{TlsConfig}

Opened-cases :
    (o : Opened)
    → (o ≡ verified) ⊎ ((s : List String) × (o ≡ unverified s)) ⊎ ((e : Error) × (o ≡ refused e))
Opened-cases verified = inl refl
Opened-cases (unverified s) = inr (inl (s, refl))
Opened-cases (refused e) = inr (inr (e, refl))

module _ (fetch : Fetching) (user_agent : String) (tls_config : Option TlsConfig) where
  -- The first four bytes of the first signature of the note that the shard serves.
  abbrev pub IsKeyId : Url → List ℕ → Type 0
  IsKeyId url key_id =
      (raw base64 : String) × (sigs : List String) × (bytes : List ℕ) × (fetch.new_http_fetcher url
          user_agent tls_config
        ≡ ok (ok raw))
      × (fetch.open_note raw ≡ unverified (base64 ∷ sigs))
      × (fetch.decode_base64 base64 ≡ ok bytes)
      × (take 4 bytes ≡ key_id)

  unverified_signatures_lem :
      (raw : String) (sigs : List String)
      → unverified_signatures fetch raw ≡ ok sigs
      → fetch.open_note raw ≡ unverified sigs
  unfolding unverified_signatures
  unverified_signatures_lem raw sigs h = elim (Opened-cases (fetch.open_note raw)) [
    | inl e ↦ absurd (ground (arith, e, h))
    | inr (inl (s, e)) ↦ ground (arith, e, h)
    | inr (inr (x, e)) ↦ absurd (ground (arith, e, h))
  ]

  first_key_id_lem :
      (sigs : List String) (key_id : List ℕ)
      → first_key_id fetch sigs ≡ ok key_id
      → (base64 : String) × (rest : List String) × (bytes : List ℕ) × (sigs ≡ base64 ∷ rest)
        × (fetch.decode_base64 base64 ≡ ok bytes)
        × (take 4 bytes ≡ key_id)
  unfolding first_key_id
  first_key_id_lem [] key_id h = absurd (ground (arith, h))
  first_key_id_lem (base64 ∷ rest) key_id h = elim (Result-cases (fetch.decode_base64 base64)) [
    | inl (bytes, e) ↦ (base64, rest, bytes, refl, e, ground (arith, e, h))
    | inr (inl (x, e)) ↦ absurd (ground (arith, e, h))
    | inr (inr (x, e)) ↦ absurd (ground (arith, e, h))
  ]

  get_checkpoint_key_id_lem :
      (url : Url)
      → IfOk (IsKeyId url) (get_checkpoint_key_id_unverified fetch user_agent tls_config url)
  unfolding get_checkpoint_key_id_unverified
  get_checkpoint_key_id_lem url =
      let made = fetch.new_http_fetcher url user_agent tls_config in
      IfOk-bind (IsKeyId url) (context "creating tile client" made) _ (λ fetched m.
        IfOk-bind (IsKeyId url) (context "error fetching checkpoint" fetched) _ (λ raw f.
          IfOk-bind (IsKeyId url) (unverified_signatures fetch raw) _ (λ sigs s.
            IfOk-any (IsKeyId url) (first_key_id fetch sigs) (λ key_id k.
              let (base64, rest, bytes, e, d, t) = first_key_id_lem sigs key_id k in
              (
                raw,
                base64,
                rest,
                bytes,
                context-ok "creating tile client" made fetched m
                    ∙ ap (λ r. ok r) (context-ok "error fetching checkpoint" fetched raw f),
                unverified_signatures_lem raw sigs s ∙ ap (λ l. unverified l) e,
                d,
                t,
              )))))

  -- A verifier is made from the key of a log of the trusted root only, whose ID starts with the first
  -- four bytes of the first signature on the checkpoint that the shard serves.
  pub get_log_verifier-Trusted_v2 :
      (keys : KeyLoading) (url : Url) (logs : List (String × TransparencyLog)) (verifier : String)
      → get_log_verifier fetch user_agent tls_config keys url logs ≡ ok verifier
      → (key_id : List ℕ) × IsKeyId url key_id × Trusted keys key_id logs verifier
  unfolding get_log_verifier
  get_log_verifier-Trusted_v2 keys url logs verifier h =
      elim (Result-cases (get_checkpoint_key_id_unverified fetch user_agent tls_config url)) [
        | inl (key_id, e) ↦ (
          key_id,
          IfOk-of (IsKeyId url) (get_checkpoint_key_id_unverified fetch user_agent tls_config url)
              key_id (get_checkpoint_key_id_lem url) e,
          verifier_of-Trusted keys key_id "couldn't find matching log instance" logs verifier
              (ground (arith, e, h)),
        )
        | inr (inl (x, e)) ↦ absurd (ground (arith, e, h))
        | inr (inr (x, e)) ↦ absurd (ground (arith, e, h))
      ]
