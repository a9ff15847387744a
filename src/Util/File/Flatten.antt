-- ===== src/Util/File/Flatten.antt =====
-- Texts on one line: ReplaceAll in both directions, and the scanner on a file of one line.
use Prim.Native.Char.{Char}
use Prim.Native.String.{◌++◌ as text_append, count}
use text.Mathlib.TextLemmas.{
  cons-append, nil-append, append_assoc, append-nil, length-cons, head-eq_of_cons-eq,
}
use rekor_monitor.Base.{
  ℕ, ◌+◌, ◌<◌, ◌≡◌, refl, true, false, ◌&&◌, ok, String, arith, if◌then◌else◌, Bool-cases, inl, inr,
}
use rekor_monitor.Base.Classes.{◌==◌, string_comparable, nat_comparable, same_refl}
use rekor_monitor.Base.Text.{lacks, one_append}
use rekor_monitor.Util.File.Checkpoints.{flatten}
use rekor_monitor.Util.File.Reading.{last_line, drop_return, unflatten}

lacks-append :
    (taken s t : String) → lacks taken (text_append s t) ≡ (lacks taken s && lacks taken t)
lacks-append taken String.[] t = simp (nil-append)
lacks-append taken (String.◌∷◌ c s) t = ground (arith, cons-append c s t, lacks-append taken s t)

one_char : (c d : Char) → (String.◌∷◌ c String.[] == String.◌∷◌ d String.[]) ≡ true → c ≡ d
one_char c d h =
    head-eq_of_cons-eq
      ((string_comparable.same_iff (String.◌∷◌ c String.[]) (String.◌∷◌ d String.[])).0 h)

-- A text that the scanner gives back: no backslash, no carriage return, and a line under its limit.
abbrev pub IsPlain : String → Type 0
IsPlain s = (lacks "\\" s ≡ true) × (lacks "\r" s ≡ true) × (count (flatten s) < 65_536)

-- Texts with different first characters are different.
first_differs :
    (c d : Char) (s t : String)
    → (String.◌∷◌ c String.[] == String.◌∷◌ d String.[]) ≡ false
    → (String.◌∷◌ c s == String.◌∷◌ d t) ≡ false
first_differs c d s t h = elim (Bool-cases (String.◌∷◌ c s == String.◌∷◌ d t)) [
  | inr e ↦ e
  | inl e ↦
      let same : c ≡ d =
        head-eq_of_cons-eq ((string_comparable.same_iff (String.◌∷◌ c s) (String.◌∷◌ d t)).0 e) in
      ground (arith, same, h, same_refl (String.◌∷◌ d String.[]))
]

pub drop_return_lem : (s : String) → lacks "\r" s ≡ true → drop_return s ≡ s
drop_return_lem String.[] h = refl
drop_return_lem (String.◌∷◌ c s) h = ground (arith, drop_return_lem s, first_differs c "\r" s "")

snoc-append :
    (line : String) (c : Char) (s : String)
    → text_append (text_append line (String.◌∷◌ c String.[])) s ≡ text_append line (String.◌∷◌ c s)
snoc-append line c s = simp (append_assoc, cons-append, nil-append)

pub last_line_lem :
    (n : ℕ) (last line s : String)
    → lacks "\n" s ≡ true
    → n + count s < 65_536
    → last_line n last line (text_append s "\n") ≡ ok (drop_return (text_append line s))
unfolding last_line
last_line_lem n last line String.[] h k = simp (append-nil)
last_line_lem n last line (String.◌∷◌ c s) h k = ground (
  arith,
  cons-append c s "\n",
  length-cons c s,
  snoc-append line c s,
  last_line_lem (n + 1) last (text_append line (String.◌∷◌ c String.[])) s,
)

unflatten-cons :
    (c : Char) (t : String)
    → (String.◌∷◌ c String.[] == "\\") ≡ false
    → unflatten (String.◌∷◌ c t) ≡ String.◌∷◌ c (unflatten t)
unfolding unflatten
unflatten-cons c String.[] h = refl
unflatten-cons c (String.◌∷◌ d s) h =
    ground (arith, first_differs c "\\" (String.◌∷◌ d String.[]) "n")

two_append :
    (c d : Char) (t : String)
    → text_append (String.◌∷◌ c (String.◌∷◌ d String.[])) t ≡ String.◌∷◌ c (String.◌∷◌ d t)
two_append c d t = simp (cons-append, nil-append)

flatten-cons :
    (c : Char) (s : String)
    → flatten (String.◌∷◌ c s) ≡ (
        if String.◌∷◌ c String.[] == "\n"
        then String.◌∷◌ "\\" (String.◌∷◌ "n" (flatten s))
        else String.◌∷◌ c (flatten s))
unfolding flatten
flatten-cons c s = elim (Bool-cases (String.◌∷◌ c String.[] == "\n")) [
  | inl e ↦ ground (arith, e, two_append "\\" "n" (flatten s))
  | inr e ↦ ground (arith, e, one_append c (flatten s))
]

pub flatten-lacks : (s : String) → lacks "\n" (flatten s) ≡ true
unfolding flatten
flatten-lacks String.[] = refl
flatten-lacks (String.◌∷◌ c s) = ground (arith, flatten-cons c s, flatten-lacks s)

unflatten-newline :
    (t : String) → unflatten (String.◌∷◌ "\\" (String.◌∷◌ "n" t)) ≡ String.◌∷◌ "\n" (unflatten t)
unfolding unflatten
unflatten-newline t = one_append "\n" (unflatten t)

pub unflatten-flatten :
    (s t : String)
    → lacks "\\" s ≡ true
    → unflatten (text_append (flatten s) t) ≡ text_append s (unflatten t)
unfolding flatten
unflatten-flatten String.[] t h = simp (nil-append)
unflatten-flatten (String.◌∷◌ c s) t h = ground (
  arith,
  flatten-cons c s,
  unflatten-flatten s t,
  cons-append c (flatten s) t,
  cons-append c s (unflatten t),
  cons-append "\\" (String.◌∷◌ "n" (flatten s)) t,
  cons-append "n" (flatten s) t,
  unflatten-newline (text_append (flatten s) t),
  unflatten-cons c (text_append (flatten s) t),
  one_char c "\n",
)

pub flatten-returns : (s : String) → lacks "\r" s ≡ true → lacks "\r" (flatten s) ≡ true
unfolding flatten
flatten-returns String.[] h = refl
flatten-returns (String.◌∷◌ c s) h = ground (arith, flatten-cons c s, flatten-returns s)

pub unflatten_flat : (s : String) → lacks "\\" s ≡ true → unflatten (flatten s) ≡ s
unfolding unflatten
unflatten_flat s h = ground (arith, unflatten-flatten s "" h, append-nil s, append-nil (flatten s))
