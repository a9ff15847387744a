-- ===== src/Base/Text.antt =====
-- Texts. A Go string or byte slice is the text of its bytes; an empty one is `""`.
use Prim.Native.Nat.{ℕ, zero, suc}
use Prim.Native.Char.{Char}
use Prim.Native.String.{String, ◌++◌ as text_append}
use native.Mathlib.Omega.{arith}
use text.Mathlib.TextLemmas.{nil-append, cons-append}
use mathlib.Core.Path.{◌≡◌, refl}
use mathlib.Core.Bool.{Bool, true, false, not, ◌&&◌}
use rekor_monitor.Base.Classes.{◌==◌, string_comparable}

abbrev pub is_blank : String → Bool
is_blank String.[] = true
is_blank (String.◌∷◌ c s) = false

-- `s[n:]`
abbrev pub text_drop : ℕ → String → String
text_drop zero s = s
text_drop (suc n) String.[] = ""
text_drop (suc n) (String.◌∷◌ c s) = text_drop n s

-- Whether a text lacks a character, which is given as a text of one character.
abbrev pub lacks : String → String → Bool
lacks taken String.[] = true
lacks taken (String.◌∷◌ c s) = not (String.◌∷◌ c String.[] == taken) && lacks taken s

pub one_append : (c : Char) (t : String) → text_append (String.◌∷◌ c String.[]) t ≡ String.◌∷◌ c t
one_append c t = simp (cons-append, nil-append)

pub append-blank : (s t : String) → is_blank s ≡ false → is_blank (text_append s t) ≡ false
append-blank String.[] t h = ground (arith, h)
append-blank (String.◌∷◌ c s) t h = rw (cons-append c s t) refl
