-- ===== src/Base/Lists.antt =====
-- Lists measured and cut by native numbers, and predicates on lists that compute to tuples.
use Prim.Native.Nat.{ℕ, zero, suc, ◌+◌, ◌-◌}
use mathlib.Core.Path.{◌≡◌, refl, ap, ap₂}
use mathlib.Core.Logic.{◌⊎◌, inl, inr}
use mathlib.Core.Bool.{Bool, true, false, ◌&&◌, ◌||◌}
use mathlib.Core.List.{List, [], ◌∷◌, ◌++◌}
use native.Mathlib.Omega.{arith}

module _ {ℓ} {A : Type ℓ} where
  abbrev pub length : List A → ℕ
  length [] = 0
  length (x ∷ xs) = suc (length xs)

  abbrev pub is_empty : List A → Bool
  is_empty [] = true
  is_empty (x ∷ xs) = false

  abbrev pub take : ℕ → List A → List A
  take zero xs = []
  take (suc n) [] = []
  take (suc n) (x ∷ xs) = x ∷ take n xs

  abbrev pub drop : ℕ → List A → List A
  drop zero xs = xs
  drop (suc n) [] = []
  drop (suc n) (x ∷ xs) = drop n xs

  pub length-append : (xs ys : List A) → length (xs ++ ys) ≡ length xs + length ys
  length-append [] ys = omega arith
  length-append (x ∷ xs) ys = omega (arith, length-append xs ys)

  pub length-drop : (n : ℕ) (xs : List A) → length (drop n xs) ≡ length xs - n
  length-drop zero xs = omega arith
  length-drop (suc n) [] = omega arith
  length-drop (suc n) (x ∷ xs) = omega (arith, length-drop n xs)

  -- The test `f` holds of some element, and of every one.
  abbrev pub any : (A → Bool) → List A → Bool
  any f [] = false
  any f (x ∷ xs) = f x || any f xs

  pub any-append : (f : A → Bool) (xs ys : List A) → any f (xs ++ ys) ≡ (any f xs || any f ys)
  any-append f [] ys = refl
  any-append f (x ∷ xs) ys = ground (arith, any-append f xs ys)

  abbrev pub all : (A → Bool) → List A → Bool
  all f [] = true
  all f (x ∷ xs) = f x && all f xs

  abbrev pub keep : (A → Bool) → List A → List A
  keep f [] = []
  keep f (x ∷ xs) = let rest = keep f xs in elim (f x) [ true ↦ x ∷ rest | false ↦ rest ]

  pub keep-true :
      (f : A → Bool) (x : A) (xs : List A) → f x ≡ true → keep f (x ∷ xs) ≡ x ∷ keep f xs
  keep-true f x xs h = ground arith

  pub keep-false : (f : A → Bool) (x : A) (xs : List A) → f x ≡ false → keep f (x ∷ xs) ≡ keep f xs
  keep-false f x xs h = ground arith

-- `P` holds of every element, and of some element.
abbrev pub All {ℓ} : {A : Type ℓ} → (A → Type 0) → List A → Type 0
All P [] = Unit
All P (x ∷ xs) = P x × All P xs

abbrev pub Any {ℓ} : {A : Type ℓ} → (A → Type 0) → List A → Type 0
Any P [] = ⊥
Any P (x ∷ xs) = P x ⊎ Any P xs

module _ {ℓ} {A : Type ℓ} (P : A → Type 0) where
  pub All-append : (xs ys : List A) → All P xs → All P ys → All P (xs ++ ys)
  All-append [] ys hx hy = hy
  All-append (x ∷ xs) ys hx hy = (hx.0, All-append xs ys hx.1 hy)

  pub Any-append_left : (xs ys : List A) → Any P xs → Any P (xs ++ ys)
  Any-append_left [] ys h = absurd h
  Any-append_left (x ∷ xs) ys (inl h) = inl h
  Any-append_left (x ∷ xs) ys (inr h) = inr (Any-append_left xs ys h)

  pub Any-append_right : (xs ys : List A) → Any P ys → Any P (xs ++ ys)
  Any-append_right [] ys h = h
  Any-append_right (x ∷ xs) ys h = inr (Any-append_right xs ys h)

pub All-imp {ℓ} :
    {A : Type ℓ} (P : A → Type 0) (Q : A → Type 0) (f : (a : A) → P a → Q a) (xs : List A)
    → All P xs
    → All Q xs
All-imp P Q f [] h = tt
All-imp P Q f (x ∷ xs) h = (f x h.0, All-imp P Q f xs h.1)

pub Any-imp {ℓ} :
    {A : Type ℓ} (P : A → Type 0) (Q : A → Type 0) (f : (a : A) → P a → Q a) (xs : List A)
    → Any P xs
    → Any Q xs
Any-imp P Q f [] h = absurd h
Any-imp P Q f (x ∷ xs) (inl h) = inl (f x h)
Any-imp P Q f (x ∷ xs) (inr h) = inr (Any-imp P Q f xs h)

-- `take` and `drop` at the seam of two lists.
module _ {ℓ} {A : Type ℓ} where
  pub drop-append : (xs ys : List A) → drop (length xs) (xs ++ ys) ≡ ys
  drop-append [] ys = refl
  drop-append (x ∷ xs) ys = drop-append xs ys

-- n, n + 1, … : the `count` numbers from n.
abbrev pub upto : ℕ → ℕ → List ℕ
upto n zero = []
upto n (suc count) = n ∷ upto (n + 1) count

pub length-upto : (n count : ℕ) → length (upto n count) ≡ count
length-upto n zero = refl
length-upto n (suc count) = omega (arith, length-upto (n + 1) count)

pub upto-append : (n a b : ℕ) → upto n (a + b) ≡ upto n a ++ upto (n + a) b
upto-append n zero b = ap₂ upto (omega arith) (omega arith)
upto-append n (suc a) b =
    let e : suc a + b ≡ suc (a + b) = omega arith in
    let f : n + suc a ≡ (n + 1) + a = omega arith in
    rw e (rw f (ap (λ (l : List ℕ). n ∷ l) (upto-append (n + 1) a b)))

pub List-cases {ℓ} :
    {A : Type ℓ} (xs : List A) → (xs ≡ []) ⊎ ((x : A) × (ys : List A) × (xs ≡ x ∷ ys))
List-cases [] = inl refl
List-cases (x ∷ xs) = inr (x, xs, refl)
