-- ===== src/Base/Maps.antt =====
-- Maps whose keys are texts, as lists of entries: what a map has for a key, and the map with another
-- value for a key.
use Prim.Native.Nat.{suc}
use Prim.Native.String.{String}
use mathlib.Core.Path.{◌≡◌, refl}
use mathlib.Core.Bool.{false}
use mathlib.Core.Option.{Option, none, some}
use mathlib.Core.List.{List, [], ◌∷◌}
use native.Mathlib.Omega.{arith}
use rekor_monitor.Base.Classes.{◌==◌, string_comparable, same_refl}
use rekor_monitor.Base.Lists.{length}
use rekor_monitor.Base.Tests.{if◌then◌else◌}

module _ {A : Type 0} where
  abbrev pub find : String → List (String × A) → Option A
  find key [] = none
  find key ((k, a) ∷ m) = let rest = find key m in if k == key then some a else rest

  abbrev pub put : String → A → List (String × A) → List (String × A)
  put key new [] = (key, new) ∷ []
  put key new ((k, a) ∷ m) =
      let rest = put key new m in if k == key then (k, new) ∷ m else (k, a) ∷ rest

  pub find-put_same : (k : String) (a : A) (m : List (String × A)) → find k (put k a m) ≡ some a
  find-put_same k a [] = ground (arith, same_refl k)
  find-put_same k a ((j, b) ∷ m) = ground (arith, find-put_same k a m)

  pub find-put_other :
      (k j : String) (a : A) (m : List (String × A))
      → (k == j) ≡ false
      → find j (put k a m) ≡ find j m
  find-put_other k j a [] h = ground arith
  find-put_other k j a ((p, b) ∷ m) h =
      ground (arith, find-put_other k j a m h, string_comparable.same_iff p k)

  pub length-put :
      (k : String) (a : A) (m : List (String × A))
      → find k m ≡ none
      → length (put k a m) ≡ suc (length m)
  length-put k a [] h = refl
  length-put k a ((j, b) ∷ m) h = ground (arith, length-put k a m)

  -- No key has two entries.
  abbrev pub Distinct : List (String × A) → Type 0
  Distinct [] = Unit
  Distinct ((k, a) ∷ m) = (find k m ≡ none) × Distinct m
