-- ===== src/Extensions/Matchers.antt =====
-- RenderOIDMatchers. A map from identifiers to sets of values is a list of entries, and a set a list
-- without duplicates. The code walks its maps in an order that is not fixed; here it is that of the
-- first occurrence.
pub mod Loops
pub mod Last
use rekor_monitor.Base.{
  Bool, true, false, Option, none, some, Result, ok, err, panic, ◌>>=◌, context, String, List, [],
  ◌∷◌, ◌++◌, any, if◌then◌else◌,
}
use rekor_monitor.Base.Classes.{◌==◌, string_comparable}
use rekor_monitor.Base.Maps.{put}
use rekor_monitor.Extensions.{OidMatchers, CustomExtension, render_fulcio_oid_matchers}
use rekor_monitor.Extensions.Identifiers.{Numerals, oid_string, parse_object_identifier}
use rekor_monitor.Identity.{OidExtension}

abbrev pub has : String → List String → Bool
has v = any (λ w. w == v)

-- `m[k][value] = true`
abbrev pub insert : List String → String → List String
insert set value = if has value set then set else set ++ (value ∷ [])

-- The inner loop over the values of a matcher.
unfoldable pub insert_all : List String → List String → List String
insert_all [] set = set
insert_all (v ∷ vs) set = insert_all vs (insert set v)

-- One of the three loops, over identifiers and their values.
unfoldable pub put_matchers :
    List (String × List String) → List (String × List String) → List (String × List String)
unfolding insert_all
put_matchers [] m = m
put_matchers ((oid, values) ∷ rest) m = put_matchers rest (put oid (insert_all values []) m)

module _ (num : Numerals) where
  -- What the first two loops, and the third, take from their matchers.
  abbrev pub oid_entries : List OidExtension → List (String × List String)
  oid_entries [] = []
  oid_entries (e ∷ es) = (oid_string num e.object_identifier, e.extension_values) ∷ oid_entries es

  abbrev pub custom_entries : List CustomExtension → List (String × List String)
  custom_entries [] = []
  custom_entries (c ∷ cs) = (c.object_identifier, c.extension_values) ∷ custom_entries cs

  unfoldable pub oid_map : OidMatchers → List (String × List String)
  unfolding put_matchers
  oid_map matchers = put_matchers (custom_entries matchers.custom_extensions) (
      put_matchers (oid_entries (render_fulcio_oid_matchers matchers.fulcio_extensions))
        (put_matchers (oid_entries matchers.oid_extensions) []))

  -- The loop that makes a list of the map.
  unfoldable pub list_matchers : List (String × List String) → Result (List OidExtension)
  list_matchers [] = ok []
  list_matchers ((oid, values) ∷ m) =
      let rest = list_matchers m in
      context "error parsing OID from extension" (parse_object_identifier num oid) >>= λ parsed.
      rest >>= λ ms. ok (record { object_identifier = parsed; extension_values = values } ∷ ms)

  unfoldable pub render_oid_matchers : OidMatchers → Result (List OidExtension)
  unfolding oid_map list_matchers
  render_oid_matchers matchers = list_matchers (oid_map matchers)
