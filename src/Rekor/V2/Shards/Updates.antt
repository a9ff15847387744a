-- ===== src/Rekor/V2/Shards/Updates.antt =====
-- ShardsNeedUpdating: what it means that no update is needed.
use rekor_monitor.Base.{
  ℕ, ◌≡◌, refl, ◌↔◌, false, some, Result, ok, String, List, [], ◌∷◌, length, is_empty, All, arith,
  Result-cases, Option-cases, inl, inr,
}
use rekor_monitor.Base.Classes.{string_comparable, nat_comparable}
use rekor_monitor.Base.Maps.{find}
use rekor_monitor.Rekor.V2.Client.{ShardInfo}
use rekor_monitor.Rekor.V2.Shards.{
  Service, Services, filter_v2_shards, origin_of, any_changed, shards_need_updating,
}

module _ (lib : Services) where
  abbrev pub shard_origin : Service → Result String
  shard_origin = origin_of lib "error parsing rekor shard URL"

  -- The service has a shard under its origin, with the end of validity that it has itself.
  abbrev pub IsCurrent : List (String × ShardInfo) → Service → Type 0
  IsCurrent current s =
      (o : String) × (i : ShardInfo) × (shard_origin s ≡ ok o)
      × (find o current ≡ some i)
      × (i.validity_end ≡ s.validity_end)

  pub origin_of-text :
      (a b : String) (s : Service) (o : String)
      → origin_of lib a s ≡ ok o
      → origin_of lib b s ≡ ok o
  unfolding origin_of
  origin_of-text a b s o h = elim (Result-cases (lib.parse_url s.url)) [
    | inl (u, e) ↦ ground (arith, e, h)
    | inr (inl (x, e)) ↦ ground (arith, e, h)
    | inr (inr (x, e)) ↦ ground (arith, e, h)
  ]

  any_changed_sound :
      (current : List (String × ShardInfo)) (ss : List Service)
      → any_changed lib current ss ≡ ok false
      → All (IsCurrent current) ss
  unfolding any_changed
  any_changed_sound current [] h = tt
  any_changed_sound current (s ∷ ss) h = elim (Result-cases (shard_origin s)) [
    | inl (o, e) ↦ elim (Option-cases (find o current)) [
      | inl n ↦ absurd (ground (arith, e, n, h))
      | inr (i, f) ↦
          let same : i.validity_end ≡ s.validity_end = ground (arith, e, f, h) in
          let rest : any_changed lib current ss ≡ ok false = ground (arith, e, f, h) in
          ((o, i, e, f, same), any_changed_sound current ss rest)
    ]
    | inr (inl (x, e)) ↦ absurd (ground (arith, e, h))
    | inr (inr (x, e)) ↦ absurd (ground (arith, e, h))
  ]

  pub any_changed_complete :
      (current : List (String × ShardInfo)) (ss : List Service)
      → All (IsCurrent current) ss
      → any_changed lib current ss ≡ ok false
  unfolding any_changed
  any_changed_complete current [] h = refl
  any_changed_complete current (s ∷ ss) ((o, i, e, f, same), rest) =
      ground (arith, e, f, same, any_changed_complete current ss rest)

  -- No update is needed exactly if there are shards, as many in the current map as in the signing
  -- configuration, and each of the configuration is in the map under the origin of its URL, with
  -- the same end of validity.
  pub shards_need_updating_iff :
      (now : ℕ) (current : List (String × ShardInfo)) (services : List Service)
      → (shards_need_updating lib now current services ≡ ok false) ↔ (
          (is_empty (filter_v2_shards lib.sort_func now services) ≡ false)
          × (length current ≡ length (filter_v2_shards lib.sort_func now services))
          × All (IsCurrent current) (filter_v2_shards lib.sort_func now services))
  unfolding shards_need_updating
  shards_need_updating_iff now current services =
      let new = filter_v2_shards lib.sort_func now services in
      (
        (λ h.
            let some_new : is_empty new ≡ false = ground (arith, h) in
            let as_many : length current ≡ length new = ground (arith, h) in
            (some_new, as_many, any_changed_sound current new (ground (arith, h)))),
        (λ (some_new, as_many, h).
            ground (arith, some_new, as_many, any_changed_complete current new h)),
      )
