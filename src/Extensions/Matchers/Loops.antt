-- ===== src/Extensions/Matchers/Loops.antt =====
-- What the loops of RenderOIDMatchers put into its map.
use rekor_monitor.Base.{
  ◌≡◌, refl, ◌∙◌, subst, true, ◌||◌, Option, none, some, String, List, [], ◌∷◌, ◌++◌, any-append,
  All, All-imp, if_rule, arith, if◌then◌else◌, Bool-cases, Option-cases, inl, inr,
}
use rekor_monitor.Base.Classes.{◌==◌, string_comparable, same_refl, differ_sym}
use rekor_monitor.Base.Maps.{find, put, find-put_same, find-put_other, Distinct}
use rekor_monitor.Extensions.Matchers.{has, insert, insert_all, put_matchers}

insert-has : (v w : String) (set : List String) → has v (insert set w) ≡ (has v set || (w == v))
insert-has v w set = elim (Bool-cases (has w set)) [
  | inl e ↦ elim (Bool-cases (w == v)) [
    | inl f ↦
        let same : w ≡ v = (string_comparable.same_iff w v).0 f in
        let there : has v set ≡ true = subst (λ u. has u set ≡ true) same e in
        ground (arith, e, f, there)
    | inr f ↦ ground (arith, e, f)
  ]
  | inr e ↦ ground (arith, e, any-append (λ u. u == v) set (w ∷ []))
]

pub insert_all-has :
    (v : String) (vs set : List String) → has v (insert_all vs set) ≡ (has v set || has v vs)
unfolding insert_all
insert_all-has v [] set = ground arith
insert_all-has v (w ∷ vs) set =
    ground (arith, insert_all-has v vs (insert set w), insert-has v w set)

Distinct-put :
    {A : Type 0} (k : String) (a : A) (m : List (String × A)) → Distinct m → Distinct (put k a m)
Distinct-put k a [] h = (refl, tt)
Distinct-put k a ((j, b) ∷ m) (fresh, d) =
    if_rule Distinct (j == k) _ _ (λ _. (fresh, d))
      (λ e. (find-put_other k j a m (differ_sym j k e) ∙ fresh, Distinct-put k a m d))

-- The values of the last entry for an identifier, if it has one.
abbrev pub last_values : String → List (String × List String) → Option (List String)
last_values k [] = none
last_values k ((oid, vs) ∷ rest) = elim (last_values k rest) [
  | some ws ↦ some ws
  | none ↦ if oid == k then some vs else none
]

-- What the entries leave for an identifier in a map.
abbrev pub in_map : Option (List String) → Option (List String) → Option (List String)
in_map (some vs) before = some (insert_all vs [])
in_map none before = before

pub put_matchers-find :
    (k : String) (entries m : List (String × List String))
    → find k (put_matchers entries m) ≡ in_map (last_values k entries) (find k m)
unfolding put_matchers
put_matchers-find k [] m = refl
put_matchers-find k ((oid, vs) ∷ rest) m =
    let values = insert_all vs [] in
    let ih = put_matchers-find k rest (put oid values m) in
    elim (Bool-cases (oid == k)) [
      | inl e ↦
          let same : oid ≡ k = (string_comparable.same_iff oid k).0 e in
          let here : find k (put oid values m) ≡ some values =
            subst (λ j. find j (put oid values m) ≡ some values) same
              (find-put_same oid values m) in
          ground (arith, ih, e, here)
      | inr e ↦ ground (arith, ih, e, find-put_other oid k values m e)
    ]

pub put_matchers-Distinct :
    (entries m : List (String × List String)) → Distinct m → Distinct (put_matchers entries m)
unfolding put_matchers
put_matchers-Distinct [] m d = d
put_matchers-Distinct ((oid, vs) ∷ rest) m d =
    put_matchers-Distinct rest (put oid (insert_all vs []) m)
      (Distinct-put oid (insert_all vs []) m d)

pub last_values-append :
    (k : String) (xs ys : List (String × List String))
    → last_values k (xs ++ ys)
      ≡ elim (last_values k ys) [ some vs ↦ some vs | none ↦ last_values k xs ]
last_values-append k [] ys = elim (Option-cases (last_values k ys)) [
  | inl e ↦ ground (arith, e)
  | inr (vs, e) ↦ ground (arith, e)
]
last_values-append k ((oid, vs) ∷ xs) ys = elim (Option-cases (last_values k ys)) [
  | inl e ↦ ground (arith, e, last_values-append k xs ys)
  | inr (ws, e) ↦ ground (arith, e, last_values-append k xs ys)
]

pub Distinct-All :
    {A : Type 0} (m : List (String × A)) → Distinct m → All (λ e. find e.0 m ≡ some e.1) m
Distinct-All [] d = tt
Distinct-All {A = A} ((k, a) ∷ m) (fresh, d) = (
  ground (arith, same_refl k),
  All-imp (λ (e : String × A). find e.0 m ≡ some e.1)
      (λ (e : String × A). find e.0 ((k, a) ∷ m) ≡ some e.1)
      (λ e p. elim (Bool-cases (k == e.0)) [
        | inr f ↦ ground (arith, f, p)
        | inl f ↦
            let same : k ≡ e.0 = (string_comparable.same_iff k e.0).0 f in
            let missing : find e.0 m ≡ none = subst (λ j. find j m ≡ none) same fresh in
            absurd (ground (arith, missing, p))
      ])
      m (Distinct-All m d),
)
