-- ===== src/Cmd/RekorV2/Fresh.antt =====
-- Which shards a run of the Rekor v2 monitor checks.
use mathlib.Core.List.{map}
use rekor_monitor.Base.{
  ℕ, ◌≡◌, true, false, Option, Result, ok, context, String, List, arith, Result-cases, inl, inr,
  IfOk, IfOk-bind, IfOk-of, context-ok, if_rule, ap, ◌∙◌,
}
use rekor_monitor.Cmd.Config.{MonitorFlags}
use rekor_monitor.Cmd.RekorV2.{
  TufClient, Shards, refresh_signing_config, update_shards, run_consistency_check,
}
use rekor_monitor.Rekor.LogKeys.{KeyLoading}
use rekor_monitor.Rekor.V2.Client.{Checkpoint}
use rekor_monitor.Rekor.V2.LogVerifier.{Fetching}
use rekor_monitor.Rekor.V2.Shards.{
  Service, Services, filter_v2_shards, shards_need_updating, get_rekor_shards,
}
use rekor_monitor.Rekor.V2.Shards.Reads.{ChecksOrigin, distinct, origin_text}
use rekor_monitor.Rekor.V2.Shards.Fresh.{get_rekor_shards-IsCurrent}
use rekor_monitor.Rekor.V2.Verifier.{Proving}
use rekor_monitor.Rekor.V2.Verifier as Verifier
use rekor_monitor.Util.File.{Disk}
use rekor_monitor.Util.Tls.{TlsConfig}

module _ {Builder Proof : Type 0} (prv : Proving Builder Proof) (lib : Services) (fetch : Fetching)
    (keys : KeyLoading) (tls_of : String → Result TlsConfig) (checks : ChecksOrigin lib) where
  update_shards_lem :
      (tuf : TufClient) (flags : MonitorFlags) (now : ℕ) (s : Shards) (services : List Service)
      → distinct (map (origin_text lib) (filter_v2_shards lib.sort_func now services)) ≡ true
      → IfOk
          (λ new. shards_need_updating lib now new.rekor_shards services ≡ ok false)
          (update_shards prv lib fetch keys tls_of tuf flags now s services)
  unfolding update_shards
  update_shards_lem tuf flags now s services d =
      let P : Shards → Type 0 =
        λ new. shards_need_updating lib now new.rekor_shards services ≡ ok false in
      IfOk-bind P (shards_need_updating lib now s.rekor_shards services) _ λ update u.
        if_rule (IfOk P) update _ _
          (λ _.
            IfOk-bind P (context "error getting trusted root" tuf.get_trusted_root) _ λ trusted _.
              let read =
                get_rekor_shards lib fetch keys tls_of now trusted services flags.user_agent
                  flags.https_cert_chain_file in
              IfOk-bind P (context "error getting shards" read) _ λ r g.
                (get_rekor_shards-IsCurrent lib fetch keys tls_of now trusted services
                  flags.user_agent flags.https_cert_chain_file r checks d
                  (context-ok _ read r g)).0)
          (λ e. u ∙ ap (λ b. ok b) e)

  -- A run of the consistency check that succeeds has refreshed the signing configuration, and is the
  -- check of Verifier.run_consistency_check of shards that need no updating for that configuration,
  -- provided that a client gives out a checkpoint only of the origin that it was made for, and that no
  -- two shards of the configuration have the same origin.
  pub run_consistency_check-refreshed :
      (tuf : TufClient) (flags : MonitorFlags) (now : ℕ) (s : Shards) (disk : Disk)
      (r : Option Checkpoint × Checkpoint)
      → ((services : List Service)
          → refresh_signing_config tuf ≡ ok services
          → distinct (map (origin_text lib) (filter_v2_shards lib.sort_func now services)) ≡ true)
      → run_consistency_check prv lib fetch keys tls_of tuf flags now s disk ≡ ok r
      → (services : List Service) × (new : Shards) × (refresh_signing_config tuf ≡ ok services)
        × (shards_need_updating lib now new.rekor_shards services ≡ ok false)
        × (Verifier.run_consistency_check prv new.rekor_shards new.latest_shard_origin
              flags.log_info_file disk
            ≡ ok r)
  unfolding run_consistency_check
  run_consistency_check-refreshed tuf flags now s disk r d h =
      elim (Result-cases (refresh_signing_config tuf)) [
        | inl (services, e) ↦
            let updated = update_shards prv lib fetch keys tls_of tuf flags now s services in
            elim (Result-cases updated) [
              | inl (new, f) ↦ (
                services,
                new,
                e,
                IfOk-of
                    (λ (n : Shards).
                      shards_need_updating lib now n.rekor_shards services ≡ ok false)
                    updated new (update_shards_lem tuf flags now s services (d services e)) f,
                ground (arith, e, f, h),
              )
              | inr (inl (x, f)) ↦ absurd (ground (arith, e, f, h))
              | inr (inr (x, f)) ↦ absurd (ground (arith, e, f, h))
            ]
        | inr (inl (x, e)) ↦ absurd (ground (arith, e, h))
        | inr (inr (x, e)) ↦ absurd (ground (arith, e, h))
      ]
