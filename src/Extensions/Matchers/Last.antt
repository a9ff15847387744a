-- ===== src/Extensions/Matchers/Last.antt =====
-- What RenderOIDMatchers makes of several matchers for one identifier.
use rekor_monitor.Base.{
  ◌≡◌, ◌∙◌, ap, subst, none, some, ok, context, context-ok, String, List, [], ◌∷◌, ◌++◌, All, Any,
  All-imp, arith, Bool-cases, Option-cases, IfOk, IfOk-bind, IfOk-of, Any-imp, inl, inr,
}
use rekor_monitor.Base.Classes.{◌==◌, string_comparable}
use rekor_monitor.Base.Maps.{find, Distinct}
use rekor_monitor.Extensions.{OidMatchers, render_fulcio_oid_matchers}
use rekor_monitor.Extensions.Identifiers.{Numerals, parse_object_identifier}
use rekor_monitor.Extensions.Matchers.{
  has, insert_all, put_matchers, oid_entries, custom_entries, oid_map, list_matchers,
  render_oid_matchers,
}
use rekor_monitor.Identity.{OidExtension}
use rekor_monitor.Extensions.Matchers.Loops.{
  insert_all-has, last_values, in_map, put_matchers-find, put_matchers-Distinct, last_values-append,
  Distinct-All,
}

module _ (num : Numerals) where
  -- A rendered matcher has an identifier of the map, and its values.
  abbrev Listed : List (String × List String) → OidExtension → Type 0
  Listed m x =
      (k : String) × (parse_object_identifier num k ≡ ok x.object_identifier)
      × (find k m ≡ some x.extension_values)

  abbrev Renders : String → List String → OidExtension → Type 0
  Renders k vs x =
      (parse_object_identifier num k ≡ ok x.object_identifier) × (x.extension_values ≡ vs)

  list_matchers-All :
      (full m : List (String × List String))
      → All (λ e. find e.0 full ≡ some e.1) m
      → IfOk (All (Listed full)) (list_matchers num m)
  unfolding list_matchers
  list_matchers-All full [] a = tt
  list_matchers-All full ((k, vs) ∷ m) (here, a) =
      let P : List OidExtension → Type 0 = All (Listed full) in
      let parse = parse_object_identifier num k in
      IfOk-bind P (context "error parsing OID from extension" parse) _ λ oid e.
        IfOk-bind P (list_matchers num m) _ λ ms g. (
          (k, context-ok _ parse oid e, here),
          IfOk-of P (list_matchers num m) ms (list_matchers-All full m a) g,
        )

  list_matchers-Any :
      (k : String) (vs : List String) (m : List (String × List String))
      → find k m ≡ some vs
      → IfOk (Any (Renders k vs)) (list_matchers num m)
  unfolding list_matchers
  list_matchers-Any k vs [] f = absurd (ground (arith, f))
  list_matchers-Any k vs ((j, ws) ∷ m) f =
      let P : List OidExtension → Type 0 = Any (Renders k vs) in
      let parse = parse_object_identifier num j in
      IfOk-bind P (context "error parsing OID from extension" parse) _ λ oid e.
        IfOk-bind P (list_matchers num m) _ λ ms g. elim (Bool-cases (j == k)) [
          | inl same ↦
              let equal : j ≡ k = (string_comparable.same_iff j k).0 same in
              let values : ws ≡ vs = ground (arith, same, f) in
              inl (
                subst (λ i. parse_object_identifier num i ≡ ok oid) equal
                    (context-ok _ parse oid e),
                values,
              )
          | inr other ↦
              let later : find k m ≡ some vs = ground (arith, other, f) in
              inr (IfOk-of P (list_matchers num m) ms (list_matchers-Any k vs m later) g)
        ]

  -- The matchers of the configuration, in the order in which they are put into the map.
  abbrev pub all_entries : OidMatchers → List (String × List String)
  all_entries matchers =
      (oid_entries num matchers.oid_extensions
        ++ oid_entries num (render_fulcio_oid_matchers matchers.fulcio_extensions))
      ++ custom_entries num matchers.custom_extensions

  three_maps :
      (k : String) (a b c : List (String × List String))
      → find k (put_matchers c (put_matchers b (put_matchers a [])))
        ≡ in_map (last_values k ((a ++ b) ++ c)) none
  three_maps k a b c =
      let x = put_matchers a [] in
      let y = put_matchers b x in
      elim (Option-cases (last_values k c)) [
        | inr (vs, e) ↦ ground (arith, e, put_matchers-find k c y, last_values-append k (a ++ b) c)
        | inl e ↦ elim (Option-cases (last_values k b)) [
          | inr (vs, f) ↦ ground (
            arith,
            e,
            f,
            put_matchers-find k c y,
            put_matchers-find k b x,
            last_values-append k (a ++ b) c,
            last_values-append k a b,
          )
          | inl f ↦ ground (
            arith,
            e,
            f,
            put_matchers-find k c y,
            put_matchers-find k b x,
            put_matchers-find k a [],
            last_values-append k (a ++ b) c,
            last_values-append k a b,
          )
        ]
      ]

  oid_map-find :
      (matchers : OidMatchers) (k : String)
      → find k (oid_map num matchers) ≡ in_map (last_values k (all_entries matchers)) none
  unfolding oid_map
  oid_map-find matchers k =
      let a = oid_entries num matchers.oid_extensions in
      let b = oid_entries num (render_fulcio_oid_matchers matchers.fulcio_extensions) in
      let c = custom_entries num matchers.custom_extensions in three_maps k a b c

  oid_map-Distinct : (matchers : OidMatchers) → Distinct (oid_map num matchers)
  unfolding oid_map
  oid_map-Distinct matchers =
      put_matchers-Distinct (custom_entries num matchers.custom_extensions) _ (
        put_matchers-Distinct
          (oid_entries num (render_fulcio_oid_matchers matchers.fulcio_extensions)) _
          (put_matchers-Distinct (oid_entries num matchers.oid_extensions) [] tt))

  -- The matcher is for the identifier, and matches these values and no others.
  abbrev pub IsMatcher : String → List String → OidExtension → Type 0
  IsMatcher k vs x =
      (parse_object_identifier num k ≡ ok x.object_identifier)
      × ((v : String) → has v x.extension_values ≡ has v vs)

  -- If the matchers can be rendered, each rendered one is for an identifier of the configuration, and
  -- has the values of the last entry for it, where the extensions come before those of Fulcio and
  -- these before the custom ones; and every identifier of the configuration has such a matcher.
  pub render_oid_matchers-IsMatcher :
      (matchers : OidMatchers) (ms : List OidExtension)
      → render_oid_matchers num matchers ≡ ok ms
      → All
          (λ x.
            (k : String) × (vs : List String) × (last_values k (all_entries matchers) ≡ some vs)
            × IsMatcher k vs x)
          ms
        × ((k : String) (vs : List String)
            → last_values k (all_entries matchers) ≡ some vs
            → Any (IsMatcher k vs) ms)
  unfolding render_oid_matchers
  render_oid_matchers-IsMatcher matchers ms h =
      let full = oid_map num matchers in
      let sound : All (Listed full) ms =
        IfOk-of (All (Listed full)) (list_matchers num full) ms
          (list_matchers-All full full (Distinct-All full (oid_map-Distinct matchers))) h in
      (
        All-imp (Listed full) _
            (λ x (k, p, g). elim (Option-cases (last_values k (all_entries matchers))) [
              | inl e ↦ absurd (ground (arith, e, g, oid_map-find matchers k))
              | inr (vs, e) ↦
                  let same : x.extension_values ≡ insert_all vs [] =
                    ground (arith, e, g, oid_map-find matchers k) in
                  (k, vs, e, (p, (λ v. ap (has v) same ∙ insert_all-has v vs [])))
            ])
            ms sound,
        (λ k vs e.
            let here : find k full ≡ some (insert_all vs []) =
              ground (arith, e, oid_map-find matchers k) in
            Any-imp (Renders k (insert_all vs [])) (IsMatcher k vs)
              (λ x (p, q). (p, (λ v. ap (has v) q ∙ insert_all-has v vs []))) ms
              (IfOk-of (Any (Renders k (insert_all vs []))) (list_matchers num full) ms
                (list_matchers-Any k (insert_all vs []) full here) h)),
      )
