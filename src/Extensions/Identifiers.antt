-- ===== src/Extensions/Identifiers.antt =====
-- ParseObjectIdentifier, and the dot notation in which ObjectIdentifier.String of encoding/asn1 prints
-- an identifier. strconv and strings.TrimSpace are a record of calls; strings.Split at a dot is
-- written out.
use Prim.Native.Char.{Char}
use Prim.Native.String.{◌++◌ as text_append}
use text.Mathlib.TextLemmas.{cons-append, nil-append}
use rekor_monitor.Base.{
  ◌≡◌, refl, true, false, Result, ok, msg, ◌>>=◌, ◌>>◌, fail_if, String, List, [], ◌∷◌, arith,
  if◌then◌else◌, All,
}
use rekor_monitor.Base.Classes.{◌==◌, string_comparable}
use rekor_monitor.Base.Int.{ℤ}
use rekor_monitor.Base.Text.{is_blank, lacks, one_append, append-blank}
use rekor_monitor.Identity.{ObjectIdentifier}

-- strconv.Itoa, strconv.Atoi and strings.TrimSpace
pub record Numerals : Type 0 where
  pub itoa : ℤ → String
  pub atoi : String → Result ℤ
  pub trim_space : String → String

abbrev onto_first : Char → List String → List String
onto_first c [] = String.◌∷◌ c String.[] ∷ []
onto_first c (x ∷ xs) = String.◌∷◌ c x ∷ xs

-- strings.Split(s, ".")
unfoldable pub split_dots : String → List String
split_dots String.[] = "" ∷ []
split_dots (String.◌∷◌ c s) =
    let rest = split_dots s in
    if String.◌∷◌ c String.[] == "." then "" ∷ rest else onto_first c rest

module _ (num : Numerals) where
  -- The loop over the nodes.
  unfoldable pub parse_nodes : List String → Result ObjectIdentifier
  parse_nodes [] = ok []
  parse_nodes (node ∷ nodes) =
      let rest = parse_nodes nodes in
      fail_if (is_blank (num.trim_space node))
        (msg "could not parse object identifier: no characters between two dots")
      >> (num.atoi node >>= λ i. rest >>= λ is. ok (i ∷ is))

  unfoldable pub parse_object_identifier : String → Result ObjectIdentifier
  unfolding split_dots parse_nodes
  parse_object_identifier oid =
      fail_if (is_blank oid) (msg "could not parse object identifier: empty input")
      >> parse_nodes (split_dots oid)

  -- ObjectIdentifier.String
  unfoldable pub oid_string : ObjectIdentifier → String
  oid_string [] = ""
  oid_string (i ∷ []) = num.itoa i
  oid_string (i ∷ j ∷ is) = text_append (num.itoa i) (text_append "." (oid_string (j ∷ is)))

split_dots-lacks : (s : String) → lacks "." s ≡ true → split_dots s ≡ s ∷ []
unfolding split_dots
split_dots-lacks String.[] h = refl
split_dots-lacks (String.◌∷◌ c s) h = ground (arith, split_dots-lacks s)

split_dots-append :
    (s t : String)
    → lacks "." s ≡ true
    → split_dots (text_append s (text_append "." t)) ≡ s ∷ split_dots t
unfolding split_dots
split_dots-append String.[] t h = ground (arith, nil-append (text_append "." t), one_append "." t)
split_dots-append (String.◌∷◌ c s) t h =
    ground (arith, cons-append c s (text_append "." t), split_dots-append s t)

module _ (num : Numerals) where
  -- The number is printed without a dot, in characters that are not all blank, and read back.
  abbrev pub IsNumeral : ℤ → Type 0
  IsNumeral i =
      (lacks "." (num.itoa i) ≡ true)
      × (is_blank (num.itoa i) ≡ false)
      × (is_blank (num.trim_space (num.itoa i)) ≡ false)
      × (num.atoi (num.itoa i) ≡ ok i)

  parse_nodes-oid_string :
      (i : ℤ) (is : ObjectIdentifier)
      → All IsNumeral (i ∷ is)
      → parse_nodes num (split_dots (oid_string num (i ∷ is))) ≡ ok (i ∷ is)
  unfolding parse_nodes oid_string
  parse_nodes-oid_string i [] ((dot, b, trim, back), _) =
      ground (arith, split_dots-lacks (num.itoa i) dot, trim, back)
  parse_nodes-oid_string i (j ∷ is) ((dot, b, trim, back), more) = ground (
    arith,
    split_dots-append (num.itoa i) (oid_string num (j ∷ is)) dot,
    trim,
    back,
    parse_nodes-oid_string j is more,
  )

  oid_string-blank :
      (i : ℤ) (is : ObjectIdentifier)
      → is_blank (num.itoa i) ≡ false
      → is_blank (oid_string num (i ∷ is)) ≡ false
  unfolding oid_string
  oid_string-blank i [] b = b
  oid_string-blank i (j ∷ is) b =
      append-blank (num.itoa i) (text_append "." (oid_string num (j ∷ is))) b

  -- An object identifier of at least one number is read back from its dot notation, where its numbers
  -- are printed without dots and read back.
  pub parse_object_identifier-oid_string :
      (i : ℤ) (is : ObjectIdentifier)
      → All IsNumeral (i ∷ is)
      → parse_object_identifier num (oid_string num (i ∷ is)) ≡ ok (i ∷ is)
  unfolding parse_object_identifier
  parse_object_identifier-oid_string i is h =
      ground (arith, oid_string-blank i is h.0.1, parse_nodes-oid_string i is h)
