-- ===== src/Base/Outcome.antt =====
-- What a Go function that may fail returns. An `error` value is `Error`: `msg` is `errors.New` or
-- `fmt.Errorf` with no cause, `wrap` is `fmt.Errorf` round a cause (the numbers that a format
-- prints beside the cause are left out), `retryable` is the type `RetryError`. A call ends with its
-- result, with an error, or in a run-time panic.
use Prim.Native.Nat.{ℕ}
use Prim.Native.String.{String}
use mathlib.Core.Path.{◌≡◌, refl, subst}
use mathlib.Core.Bool.{Bool, true, false}
use mathlib.Core.Logic.{◌⊎◌, inl, inr}
use mathlib.Core.Option.{Option, none, some}

pub data Error : Type 0 where
  msg : String → Error
  wrap : String → Error → Error
  -- an error with the method StatusCode, and its text
  status : ℕ → String → Error
  retryable : Error → Error

pub data Result {ℓ} (A : Type ℓ) : Type ℓ where
  ok : A → Result A
  err : Error → Result A
  panic : String → Result A

infixl 5 ◌>>=◌ ◌>>◌
abbrev pub ◌>>=◌ {ℓ κ} : {A : Type ℓ} {B : Type κ} → Result A → (A → Result B) → Result B
ok a >>= f = f a
err e >>= f = err e
panic p >>= f = panic p

abbrev pub ◌>>◌ {ℓ} : {B : Type ℓ} → Result (Unit {0}) → Result B → Result B
m >> k = m >>= λ _. k

-- `if err != nil { return …, fmt.Errorf(context, err) }`
abbrev pub context {ℓ} : {A : Type ℓ} → String → Result A → Result A
context s (ok a) = ok a
context s (err e) = err (wrap s e)
context s (panic p) = panic p

-- `if test { return …, e }`
abbrev pub fail_if : Bool → Error → Result (Unit {0})
fail_if true e = err e
fail_if false e = ok tt

-- `return e` for a function whose only result is an error
abbrev pub return_error : Option Error → Result (Unit {0})
return_error none = ok tt
return_error (some e) = err e

abbrev pub is_ok {ℓ} : {A : Type ℓ} → Result A → Bool
is_ok (ok _) = true
is_ok _ = false

-- The result is there and satisfies `P`.
abbrev pub Returns {ℓ} : {A : Type ℓ} → (A → Type 0) → Result A → Type 0
Returns P (ok a) = P a
Returns P (err e) = ⊥
Returns P (panic p) = ⊥

-- If there is a result, it satisfies `P`.
abbrev pub IfOk {ℓ} : {A : Type ℓ} → (A → Type 0) → Result A → Type 0
IfOk P (ok a) = P a
IfOk P (err e) = Unit
IfOk P (panic p) = Unit

pub Result-cases {ℓ} :
    {A : Type ℓ} (r : Result A)
    → ((a : A) × (r ≡ ok a)) ⊎ ((e : Error) × (r ≡ err e)) ⊎ ((p : String) × (r ≡ panic p))
Result-cases (ok a) = inl (a, refl)
Result-cases (err e) = inr (inl (e, refl))
Result-cases (panic p) = inr (inr (p, refl))

-- To prove `P` of a case distinction on a result, prove it of the three cases.
pub Result_rule {ℓ κ} :
    {A : Type ℓ} {B : Type κ} (P : B → Type 0) (r : Result A) (f : A → B) (g : Error → B)
    (h : String → B)
    → ((a : A) → P (f a))
    → ((e : Error) → P (g e))
    → ((p : String) → P (h p))
    → P (elim r [ ok a ↦ f a | err e ↦ g e | panic p ↦ h p ])
Result_rule P (ok a) f g h x y z = x a
Result_rule P (err e) f g h x y z = y e
Result_rule P (panic p) f g h x y z = z p

-- A property of the result of a chain, from one of its last call.
pub IfOk-bind {ℓ κ} :
    {A : Type ℓ} {B : Type κ} (P : B → Type 0) (r : Result A) (f : A → Result B)
    → ((a : A) → r ≡ ok a → IfOk P (f a))
    → IfOk P (r >>= f)
IfOk-bind P (ok a) f h = h a refl
IfOk-bind P (err e) f h = tt
IfOk-bind P (panic p) f h = tt

pub IfOk-of {ℓ} : {A : Type ℓ} (P : A → Type 0) (r : Result A) (a : A) → IfOk P r → r ≡ ok a → P a
IfOk-of P r a h e = subst (IfOk P) e h

pub context-ok {ℓ} :
    {A : Type ℓ} (s : String) (r : Result A) (a : A) → context s r ≡ ok a → r ≡ ok a
context-ok s (ok b) a h = h
context-ok s (err e) a h = cc
context-ok s (panic p) a h = cc

pub IfOk-any {ℓ} :
    {A : Type ℓ} (P : A → Type 0) (r : Result A) → ((a : A) → r ≡ ok a → P a) → IfOk P r
IfOk-any P (ok a) h = h a refl
IfOk-any P (err e) h = tt
IfOk-any P (panic p) h = tt

pub sequence_ok : (m n : Result (Unit {0})) → m >> n ≡ ok tt → (m ≡ ok tt) × (n ≡ ok tt)
sequence_ok (ok _) n h = (refl, h)
sequence_ok (err e) n h = cc
sequence_ok (panic p) n h = cc

pub context-return_error :
    (o : Option Error) (s : String) → context s (return_error o) ≡ ok tt → o ≡ none
context-return_error none s h = refl
context-return_error (some e) s h = cc

pub ok_injective : {A : Type 0} (a b : A) → ◌≡◌ {A = Result A} (ok a) (ok b) → a ≡ b
ok_injective a b e = IfOk-of (λ x. a ≡ x) (ok a) b refl e

-- The same, where the first case may use that the result is `ok`.
pub Result_ok_rule {ℓ κ} :
    {A : Type ℓ} {B : Type κ} (P : B → Type 0) (r : Result A) (f : A → B) (g : Error → B)
    (h : String → B)
    → ((a : A) → r ≡ ok a → P (f a))
    → ((e : Error) → P (g e))
    → ((p : String) → P (h p))
    → P (elim r [ ok a ↦ f a | err e ↦ g e | panic p ↦ h p ])
Result_ok_rule P (ok a) f g h x y z = x a refl
Result_ok_rule P (err e) f g h x y z = y e
Result_ok_rule P (panic p) f g h x y z = z p
