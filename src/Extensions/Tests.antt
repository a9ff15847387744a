-- ===== src/Extensions/Tests.antt =====
-- Numbers of one digit, and two matchers for one identifier.
use rekor_monitor.Base.{
  ◌≡◌, refl, some, ok, err, msg, String, List, [], ◌∷◌, All, Any, if◌then◌else◌,
}
use rekor_monitor.Base.Classes.{◌==◌, string_comparable, int_comparable}
use rekor_monitor.Base.Int.{pos}
use rekor_monitor.Cmd.Config.{no_oid_matchers}
use rekor_monitor.Extensions.{OidMatchers, render_fulcio_oid_matchers}
use rekor_monitor.Extensions.Identifiers.{
  Numerals, split_dots, parse_nodes, parse_object_identifier, oid_string,
  parse_object_identifier-oid_string,
}
use rekor_monitor.Extensions.Matchers.{
  insert_all, put_matchers, oid_map, list_matchers, render_oid_matchers,
}
use rekor_monitor.Extensions.Matchers.Loops.{last_values}
use rekor_monitor.Extensions.Matchers.Last.{all_entries, IsMatcher, render_oid_matchers-IsMatcher}
use rekor_monitor.Identity.{OidExtension}

-- The numbers 2 and 5.
abbrev pub numerals : Numerals
numerals = record {
  itoa = λ i. if i == pos 2 then "2" else "5";
  atoi =
      λ s. if s == "2" then ok (pos 2) else if s == "5" then ok (pos 5) else err (msg "no number");
  trim_space = λ s. s;
}

parse_object_identifier-oid_string_example :
    parse_object_identifier numerals (oid_string numerals (pos 2 ∷ pos 5 ∷ []))
    ≡ ok (pos 2 ∷ pos 5 ∷ [])
parse_object_identifier-oid_string_example =
    parse_object_identifier-oid_string numerals (pos 2) (pos 5 ∷ [])
      ((refl, refl, refl, refl), ((refl, refl, refl, refl), tt))

abbrev twice : OidMatchers
twice = record no_oid_matchers {
  oid_extensions =
      record { object_identifier = pos 2 ∷ pos 5 ∷ []; extension_values = "test1" ∷ [] }
      ∷ record { object_identifier = pos 2 ∷ pos 5 ∷ []; extension_values = "test" ∷ [] }
      ∷ [];
}

abbrev rendered : List OidExtension
rendered = record { object_identifier = pos 2 ∷ pos 5 ∷ []; extension_values = "test" ∷ [] } ∷ []

render_oid_matchers-IsMatcher_example :
    All
      (λ x.
        (k : String) × (vs : List String) × (last_values k (all_entries numerals twice) ≡ some vs)
        × IsMatcher numerals k vs x)
      rendered
    × ((k : String) (vs : List String)
        → last_values k (all_entries numerals twice) ≡ some vs
        → Any (IsMatcher numerals k vs) rendered)
unfolding render_oid_matchers oid_map put_matchers insert_all list_matchers oid_string
    parse_object_identifier parse_nodes split_dots render_fulcio_oid_matchers
render_oid_matchers-IsMatcher_example = render_oid_matchers-IsMatcher numerals twice rendered refl
