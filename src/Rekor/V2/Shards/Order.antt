-- ===== src/Rekor/V2/Shards/Order.antt =====
-- filterV2Shards: which services it keeps, and in what order.
use mathlib.Core.List.{reverse, Perm, Pairwise, filter, Pairwise-reverse, reverse_perm}
use mathlib.Core.List.Perm
use mathlib.Core.List.Pairwise
use mathlib.Core.Logic.{ite}
use native.Mathlib.Bridge.{le_prop}
use mathlib.Core.Bool.{false≢true}
use rekor_monitor.Base.Classes.{◌==◌, nat_comparable}
use rekor_monitor.Base.{arith, ltb, ◌&&◌, ℕ, ◌≤◌, ◌≡◌, refl, Bool, true, false, List, [], ◌∷◌, keep}
use rekor_monitor.Rekor.V2.Shards.{Service, is_shard, filter_v2_shards}

-- Services by the start of their validity, the oldest and the newest first.
abbrev pub OldestFirst : List Service → Type 0
OldestFirst = Pairwise (λ a b. a.validity_start ≤ b.validity_start)

abbrev pub NewestFirst : List Service → Type 0
NewestFirst = Pairwise (λ a b. b.validity_start ≤ a.validity_start)

abbrev is_true : (b : Bool) → Dec (b ≡ true)
is_true true = yes refl
is_true false = no (λ e. false≢true e)

keep_step {ℓ} :
    {A : Type ℓ} (b : Bool) (x : A) (xs ys : List A)
    → xs ≡ ys
    → elim b [ true ↦ x ∷ xs | false ↦ xs ] ≡ ite {C = List A} (is_true b) (x ∷ ys) ys
keep_step true x xs ys e = cc
keep_step false x xs ys e = e

keep-filter {ℓ} :
    {A : Type ℓ} (f : A → Bool) (xs : List A) → keep f xs ≡ filter (λ a. is_true (f a)) xs
keep-filter f [] = refl
keep-filter f (x ∷ xs) =
    keep_step (f x) x (keep f xs) (filter (λ a. is_true (f a)) xs) (keep-filter f xs)

-- The major version is 2, and the validity has a start, which is over.
abbrev pub started_v2 : ℕ → Service → Bool
started_v2 now s = s.major_api_version == 2 && (ltb 0 s.validity_start && ltb s.validity_start now)

started_v2_lem :
    (now : ℕ) (services : List Service)
    → keep (is_shard now) services ≡ keep (started_v2 now) services
started_v2_lem now [] = refl
started_v2_lem now (s ∷ ss) = ground (arith, started_v2_lem now ss)

-- The services that are kept are the v2 services whose validity has started, each as often as the
-- signing configuration lists it, and the newest first, where slices.SortFunc orders its argument.
pub filter_v2_shards-NewestFirst :
    (sort_func : List Service → List Service) (now : ℕ) (services : List Service)
    → Perm (sort_func services) services × OldestFirst (sort_func services)
    → Perm (filter_v2_shards sort_func now services) (keep (started_v2 now) services)
      × NewestFirst (filter_v2_shards sort_func now services)
unfolding filter_v2_shards
filter_v2_shards-NewestFirst sort_func now services (same, ordered) =
    let kept = λ (s : Service). is_true (is_shard now s) in
    rw
      (
        ← started_v2_lem now services,
        keep-filter (is_shard now) (reverse (sort_func services)),
        keep-filter (is_shard now) services,
      )
      ((
        Perm.filter kept (Perm.trans (reverse_perm (sort_func services)) same),
        Pairwise.filter kept ((Pairwise-reverse (λ a b. le_prop)).1 ordered),
      ))
