-- ===== src/Rekor/V2/Shards/Reads.antt =====
-- The loop of GetRekorShards: what is in the map that it builds, and the origin that it keeps.
use Prim.Native.String.{count}
use mathlib.Core.List.{map}
use mathlib.Core.Bool.{false≢true}
use text.Mathlib.TextLemmas.{length-cons}
use rekor_monitor.Base.{
  IfOk-of, IfOk-bind, context, subst, ◌∙◌, ℕ, zero, suc, ◌+◌, ◌≡◌, refl, sym, Bool, true, false,
  not, ◌&&◌, Option, none, some, ok, err, panic, String, List, [], ◌∷◌, length, any, is_empty, leb,
  All, arith, if◌then◌else◌, Result-cases, Bool-cases, inl, inr, context-ok,
}
use rekor_monitor.Base.Classes.{◌==◌, string_comparable, nat_comparable, same_refl}
use rekor_monitor.Base.Maps.{find, put, find-put_same, find-put_other, length-put}
use rekor_monitor.Base.Text.{is_blank, text_drop}
use rekor_monitor.Rekor.LogKeys.{TransparencyLog, KeyLoading}
use rekor_monitor.Rekor.V2.Client.{Checkpoint, ReadClient, ShardInfo}
use rekor_monitor.Rekor.V2.LogVerifier.{Url, Fetching, get_log_verifier}
use rekor_monitor.Rekor.V2.Shards.{
  Service, Services, get_origin, origin_of, read_shard, read_shards,
}
use rekor_monitor.Rekor.V2.Shards.Updates.{shard_origin, IsCurrent}
use rekor_monitor.Util.Tls.{TlsConfig}

text_drop-blank : (n : ℕ) (s : String) → leb (count s) n ≡ false → is_blank (text_drop n s) ≡ false
text_drop-blank zero String.[] h = ground arith
text_drop-blank zero (String.◌∷◌ c s) h = refl
text_drop-blank (suc n) String.[] h = ground arith
text_drop-blank (suc n) (String.◌∷◌ c s) h = ground (arith, text_drop-blank n s, length-cons c s)

pub first_of {ℓ} :
    {A : Type ℓ} (xs : List A) → is_empty xs ≡ false → (x : A) × (ys : List A) × (xs ≡ x ∷ ys)
first_of [] h = absurd (false≢true (sym h))
first_of (x ∷ xs) h = (x, xs, refl)

abbrev pub has : String → List String → Bool
has k = any (λ y. y == k)

get_origin-blank : (u : Url) (o : String) → get_origin u ≡ ok o → is_blank o ≡ false
unfolding get_origin
get_origin-blank u o h = ground (arith, text_drop-blank (count u.scheme + 3) u.text, h)

-- No two of the texts are the same.
abbrev pub distinct : List String → Bool
distinct [] = true
distinct (x ∷ xs) = not (has x xs) && distinct xs

has-other :
    (a b : String) (xs : List String) → has a xs ≡ true → has b xs ≡ false → (b == a) ≡ false
has-other a b xs x y = elim (Bool-cases (b == a)) [
  | inr e ↦ e
  | inl e ↦
      let same : a ≡ b = sym ((string_comparable.same_iff b a).0 e) in
      absurd (false≢true (sym y ∙ subst (λ k. has k xs ≡ true) same x))
]

module _ (lib : Services) where
  -- The origin of the service's URL, where it has one.
  abbrev pub origin_text : Service → String
  origin_text s = elim (shard_origin lib s) [ ok o ↦ o | err e ↦ "" | panic p ↦ "" ]

  -- A client gives out a checkpoint only if its origin is the one that the client was made for.
  abbrev pub ChecksOrigin : Type 0
  ChecksOrigin =
      (url origin verifier user_agent : String) (tls : Option TlsConfig) (c : ReadClient)
      → lib.new_reader url origin verifier user_agent tls ≡ ok c
      → (cp : Checkpoint) → c.read_checkpoint ≡ ok cp
      → cp.origin ≡ origin

  module _ (fetch : Fetching) (keys : KeyLoading) (trusted_logs : List (String × TransparencyLog))
      (user_agent : String) (tls_config : Option TlsConfig) (checks : ChecksOrigin) where
    read_shard_lem :
        (s : Service) (r : String × String × ShardInfo)
        → read_shard lib fetch keys trusted_logs user_agent tls_config s ≡ ok r
        → (shard_origin lib s ≡ ok r.0) × (r.1 ≡ r.0) × (r.2.validity_end ≡ s.validity_end)
    unfolding read_shard origin_of
    read_shard_lem s r h =
        let P = λ (q : String × String × ShardInfo).
          (shard_origin lib s ≡ ok q.0) × (q.1 ≡ q.0) × (q.2.validity_end ≡ s.validity_end) in
        IfOk-of P (read_shard lib fetch keys trusted_logs user_agent tls_config s) r
          (IfOk-bind P (context "error parsing Rekor url" (lib.parse_url s.url)) _ (λ url e.
            IfOk-bind P (get_origin url) _ (λ origin g.
              IfOk-bind P (get_log_verifier fetch user_agent tls_config keys url trusted_logs) _
                (λ v _.
                  IfOk-bind P
                    (context "getting Rekor client"
                      (lib.new_reader s.url origin v user_agent tls_config))
                    _
                    (λ client made.
                      IfOk-bind P
                        (context "failed to get current checkpoint for log" client.read_checkpoint)
                        _
                        (λ c got. (
                          ground (
                            arith,
                            g,
                            context-ok "error parsing Rekor url" (lib.parse_url s.url) url e,
                          ),
                          checks s.url origin v user_agent tls_config client
                              (context-ok "getting Rekor client"
                                (lib.new_reader s.url origin v user_agent tls_config) client made)
                              c
                              (context-ok "failed to get current checkpoint for log"
                                client.read_checkpoint c got),
                          refl,
                        )))))))
          h

    pub read_shards-IsCurrent :
        (ss : List Service) (latest : String) (m : List (String × ShardInfo))
        (r : List (String × ShardInfo) × String)
        → read_shards lib fetch keys trusted_logs user_agent tls_config ss latest m ≡ ok r
        → distinct (map origin_text ss) ≡ true
        → ((k : String) → has k (map origin_text ss) ≡ true → find k m ≡ none)
        → (length r.0 ≡ length m + length ss)
          × ((k : String) → has k (map origin_text ss) ≡ false → find k r.0 ≡ find k m)
          × All (IsCurrent lib r.0) ss
    unfolding read_shards
    read_shards-IsCurrent [] latest m r h d fresh =
        let same : m ≡ r.0 = ground (arith, h) in
        (ground (arith, same), (λ k a. ground (arith, same)), tt)
    read_shards-IsCurrent (s ∷ ss) latest m r h d fresh =
        elim (Result-cases (read_shard lib fetch keys trusted_logs user_agent tls_config s)) [
          | inl (q, e) ↦
              let new = put q.1 q.2 m in
              let next = if is_blank latest then q.0 else latest in
              let run : read_shards lib fetch keys trusted_logs user_agent tls_config ss next new
                  ≡ ok r =
                ground (arith, e, h) in
              let (origin, own, end) = read_shard_lem s q e in
              let here : origin_text s ≡ q.1 = ground (arith, origin, own) in
              let absent : has q.1 (map origin_text ss) ≡ false =
                subst (λ k. has k (map origin_text ss) ≡ false) here (ground (arith, d)) in
              let fresh' : (k : String) → has k (map origin_text ss) ≡ true → find k new ≡ none =
                λ k a.
                  find-put_other q.1 k q.2 m (has-other k q.1 (map origin_text ss) a absent)
                  ∙ fresh k (ground (arith, a)) in
              let (size, others, current) =
                read_shards-IsCurrent ss next new r run (ground (arith, d)) fresh' in
              let unseen : find q.1 m ≡ none = fresh q.1 (ground (arith, here, same_refl q.1)) in
              let found : find q.0 r.0 ≡ some q.2 =
                subst (λ k. find k r.0 ≡ some q.2) (own)
                  (others q.1 absent ∙ find-put_same q.1 q.2 m) in
              (
                omega (arith, size, length-put q.1 q.2 m unseen),
                (λ k a.
                    let apart : (q.1 == k) ≡ false = ground (arith, here, a) in
                    others k (ground (arith, a)) ∙ find-put_other q.1 k q.2 m apart),
                ((q.0, q.2, origin, found, end), current),
              )
          | inr (inl (x, e)) ↦ absurd (ground (arith, e, h))
          | inr (inr (x, e)) ↦ absurd (ground (arith, e, h))
        ]

    read_shards-latest :
        (ss : List Service) (latest : String) (m : List (String × ShardInfo))
        (r : List (String × ShardInfo) × String)
        → read_shards lib fetch keys trusted_logs user_agent tls_config ss latest m ≡ ok r
        → is_blank latest ≡ false
        → r.1 ≡ latest
    unfolding read_shards
    read_shards-latest [] latest m r h b = ground (arith, h)
    read_shards-latest (s ∷ ss) latest m r h b =
        elim (Result-cases (read_shard lib fetch keys trusted_logs user_agent tls_config s)) [
          | inl (q, e) ↦ read_shards-latest ss latest (put q.1 q.2 m) r (ground (arith, e, h, b)) b
          | inr (inl (x, e)) ↦ absurd (ground (arith, e, h))
          | inr (inr (x, e)) ↦ absurd (ground (arith, e, h))
        ]

    shard_origin-blank : (s : Service) (o : String) → shard_origin lib s ≡ ok o → is_blank o ≡ false
    unfolding origin_of
    shard_origin-blank s o h = elim (Result-cases (lib.parse_url s.url)) [
      | inl (u, e) ↦ get_origin-blank u o (ground (arith, e, h))
      | inr (inl (x, e)) ↦ absurd (ground (arith, e, h))
      | inr (inr (x, e)) ↦ absurd (ground (arith, e, h))
    ]

    pub read_shards-newest :
        (s : Service) (ss : List Service) (r : List (String × ShardInfo) × String)
        → read_shards lib fetch keys trusted_logs user_agent tls_config (s ∷ ss) "" [] ≡ ok r
        → shard_origin lib s ≡ ok r.1
    unfolding read_shards
    read_shards-newest s ss r h =
        elim (Result-cases (read_shard lib fetch keys trusted_logs user_agent tls_config s)) [
          | inl (q, e) ↦
              let (origin, own, end) = read_shard_lem s q e in
              let rest : r.1 ≡ q.0 =
                read_shards-latest ss q.0 (put q.1 q.2 []) r (ground (arith, e, h))
                  (shard_origin-blank s q.0 origin) in
              ground (arith, origin, rest)
          | inr (inl (x, e)) ↦ absurd (ground (arith, e, h))
          | inr (inr (x, e)) ↦ absurd (ground (arith, e, h))
        ]
