-- ===== src/Rekor/V2/Shards/Fresh.antt =====
-- GetRekorShards: the map that it builds is up to date for ShardsNeedUpdating, and its latest origin
-- is that of the newest shard.
use mathlib.Core.List.{map}
use rekor_monitor.Base.{
  context, subst, ℕ, ◌≡◌, refl, true, false, none, some, Result, ok, ◌>>=◌, String, List, [], ◌∷◌,
  is_empty, arith, if◌then◌else◌, Result-cases, inl, inr,
}
use rekor_monitor.Base.Classes.{string_comparable, nat_comparable}
use rekor_monitor.Base.Text.{is_blank}
use rekor_monitor.Rekor.LogKeys.{TransparencyLog, KeyLoading}
use rekor_monitor.Rekor.V2.Client.{ShardInfo}
use rekor_monitor.Rekor.V2.LogVerifier.{Fetching}
use rekor_monitor.Rekor.V2.Shards.{
  Service, Services, filter_v2_shards, shards_need_updating, read_shards, get_rekor_shards,
}
use rekor_monitor.Rekor.V2.Shards.Updates.{shard_origin, shards_need_updating_iff}
use rekor_monitor.Util.Tls.{TlsConfig}
use rekor_monitor.Rekor.V2.Shards.Reads.{
  ChecksOrigin, origin_text, distinct, read_shards-IsCurrent, read_shards-newest, first_of,
}

module _ (lib : Services) where
  -- Where GetRekorShards returns a map of shards, ShardsNeedUpdating asks for no update of it for the
  -- same services at the same time, and the latest origin is that of the first service that
  -- filterV2Shards keeps, provided that a client gives out a checkpoint only of the origin that it
  -- was made for, and that no two of the services kept have the same origin.
  pub get_rekor_shards-IsCurrent :
      (fetch : Fetching) (keys : KeyLoading) (tls_config_for_ca : String → Result TlsConfig)
      (now : ℕ) (trusted_logs : List (String × TransparencyLog)) (services : List Service)
      (user_agent cert_chain : String) (r : List (String × ShardInfo) × String)
      → ChecksOrigin lib
      → distinct (map (origin_text lib) (filter_v2_shards lib.sort_func now services)) ≡ true
      → get_rekor_shards lib fetch keys tls_config_for_ca now trusted_logs services user_agent
          cert_chain
        ≡ ok r
      → (shards_need_updating lib now r.0 services ≡ ok false)
        × (s : Service) × (ss : List Service) × (filter_v2_shards lib.sort_func now services
            ≡ s ∷ ss)
        × (shard_origin lib s ≡ ok r.1)
  unfolding get_rekor_shards
  get_rekor_shards-IsCurrent fetch keys tls_of now trusted services agent chain r checks d h =
      let new = filter_v2_shards lib.sort_func now services in
      let tls =
        if is_blank chain
        then ok none
        else (context "getting TLS config" (tls_of chain) >>= λ c. ok (some c)) in
      elim (Result-cases tls) [
        | inl (c, e) ↦
            let run : read_shards lib fetch keys trusted agent c new "" [] ≡ ok r =
              ground (arith, e, h) in
            let some_new : is_empty new ≡ false = ground (arith, e, h) in
            let (size, others, current) =
              read_shards-IsCurrent lib fetch keys trusted agent c checks new "" [] r run d
                (λ k a. refl) in
            let (s, ss, f) = first_of new some_new in
            (
              (shards_need_updating_iff lib now r.0 services).1
                  (some_new, omega (arith, size), current),
              s,
              ss,
              f,
              read_shards-newest lib fetch keys trusted agent c checks s ss r
                  (subst (λ l. read_shards lib fetch keys trusted agent c l "" [] ≡ ok r) f run),
            )
        | inr (inl (x, e)) ↦ absurd (ground (arith, e, h))
        | inr (inr (x, e)) ↦ absurd (ground (arith, e, h))
      ]
