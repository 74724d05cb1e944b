-- ===== src/Common/Tests.antt =====
-- Boolean tests on the native numbers, the conditional, and results of code that may raise.
use Prim.Native.Nat.{ℕ, ◌≤◌, ◌<◌, compare, Ordering}
use mathlib.Core.Path.{◌≡◌, refl, subst}
use mathlib.Core.Logic.{◌⊎◌, inl, inr}
use mathlib.Core.Bool.{Bool, true, false, ◌&&◌}
use mathlib.Core.Option.{Option, none, some}
use native.Mathlib.Omega.{arith}

abbrev pub ltb : ℕ → ℕ → Bool
ltb a b = elim (compare a b) [ Ordering.lt ↦ true | _ ↦ false ]

abbrev pub leb : ℕ → ℕ → Bool
leb a b = elim (compare a b) [ Ordering.gt ↦ false | _ ↦ true ]

infix 50 ◌==◌
abbrev pub ◌==◌ : ℕ → ℕ → Bool
a == b = elim (compare a b) [ Ordering.eq ↦ true | _ ↦ false ]

infix 1 if◌then◌else◌
abbrev pub if◌then◌else◌ {ℓ} : {A : Type ℓ} → Bool → A → A → A
if true then x else y = x
if false then x else y = y

-- Python's `min` and `max` of two integers that are not negative.
abbrev pub min : ℕ → ℕ → ℕ
min a b = if ltb b a then b else a

abbrev pub max : ℕ → ℕ → ℕ
max a b = if ltb a b then b else a

pub ltb→lt : (a b : ℕ) → ltb a b ≡ true → a < b
ltb→lt a b h = ground arith

pub leb→le : (a b : ℕ) → leb a b ≡ true → a ≤ b
leb→le a b h = ground arith

pub ltb-false→le : (a b : ℕ) → ltb a b ≡ false → b ≤ a
ltb-false→le a b h = ground arith

pub leb-false→lt : (a b : ℕ) → leb a b ≡ false → b < a
leb-false→lt a b h = ground arith

-- A split on a computed value that keeps the equation.
pub Bool-cases : (b : Bool) → (b ≡ true) ⊎ (b ≡ false)
Bool-cases true = inl refl
Bool-cases false = inr refl

pub Option-cases {ℓ} : {A : Type ℓ} (o : Option A) → (o ≡ none) ⊎ ((a : A) × (o ≡ some a))
Option-cases none = inl refl
Option-cases (some a) = inr (a, refl)

pub and-true : (a b : Bool) → (a && b) ≡ true → (a ≡ true) × (b ≡ true)
and-true a b h = ground arith

-- The value of a call that may raise, for each component's type of errors.
pub data Result {ℓ κ} (E : Type ℓ) (A : Type κ) : Type (ℓ ⊔ κ) where
  ok : A → Result E A
  err : E → Result E A

-- `if test: raise e`
abbrev pub raise_if : {E : Type 0} → Bool → E → Result E (Unit {0})
raise_if true e = err e
raise_if false e = ok tt

-- A call after a call: what the first raises is raised.
infixl 5 ◌>>=◌ ◌>>◌
abbrev pub ◌>>=◌ : {E A B : Type 0} → Result E A → (A → Result E B) → Result E B
err raised >>= next = err raised
ok value >>= next = next value

abbrev pub ◌>>◌ : {E B : Type 0} → Result E (Unit {0}) → Result E B → Result E B
check >> rest = check >>= λ done. rest

-- The value of a call whose result is known to be good.
abbrev pub Returns : {E A : Type 0} → Result E A → (A → Type 0) → Type 0
Returns (ok a) P = P a
Returns (err e) P = ⊥

pub >>=-Returns :
    {E A B : Type 0} (P : A → Type 0) (Q : B → Type 0) (m : Result E A) (f : A → Result E B)
    → Returns m P
    → ((a : A) → P a → Returns (f a) Q)
    → Returns (m >>= f) Q
>>=-Returns P Q (ok a) f h k = k a h
>>=-Returns P Q (err e) f h k = absurd h

-- What holds of the value of a call, if it has one. It says nothing of a call that raises: it
-- stands beside `Returns`.
abbrev pub IfOk : {E A : Type 0} → Result E A → (A → Type 0) → Type 0
IfOk (ok a) P = P a
IfOk (err e) P = Unit

pub raise_if-IfOk :
    {E A : Type 0} (P : A → Type 0) (t : Bool) (e : E) (a : A) → P a → IfOk (raise_if t e >> ok a) P
raise_if-IfOk P true e a h = tt
raise_if-IfOk P false e a h = h

pub >>=-IfOk :
    {E A B : Type 0} (P : A → Type 0) (Q : B → Type 0) (m : Result E A) (f : A → Result E B)
    → IfOk m P
    → ((a : A) → P a → IfOk (f a) Q)
    → IfOk (m >>= f) Q
>>=-IfOk P Q (ok a) f h k = k a h
>>=-IfOk P Q (err e) f h k = tt

pub Returns-IfOk :
    {E A : Type 0} (P Q : A → Type 0) (m : Result E A) → Returns m P → IfOk m Q → Returns m Q
Returns-IfOk P Q (ok a) h k = k
Returns-IfOk P Q (err e) h k = absurd h

pub IfOk_map :
    {E A : Type 0} (P Q : A → Type 0) (m : Result E A) → IfOk m P → ((a : A) → P a → Q a) → IfOk m Q
IfOk_map P Q (ok a) h k = k a h
IfOk_map P Q (err e) h k = tt

pub IfOk_both :
    {E A : Type 0} (P Q : A → Type 0) (m : Result E A)
    → IfOk m P
    → IfOk m Q
    → IfOk m (λ a. P a × Q a)
IfOk_both P Q (ok a) h k = (h, k)
IfOk_both P Q (err e) h k = tt

pub raise_if-IfOk_then :
    {E A : Type 0} (P : A → Type 0) (t : Bool) (e : E) (m : Result E A)
    → IfOk m P
    → IfOk (raise_if t e >> m) P
raise_if-IfOk_then P true e m h = tt
raise_if-IfOk_then P false e m h = h

-- From an equation to what holds of its value.
pub IfOk-ok : {E A : Type 0} (P : A → Type 0) (m : Result E A) {a : A} → IfOk m P → m ≡ ok a → P a
IfOk-ok P m h e = subst (λ r. IfOk r P) e h

-- The value, or the error.
abbrev pub or_raise : {E A : Type 0} → Option A → E → Result E A
or_raise none e = err e
or_raise (some a) e = ok a

pub or_raise-IfOk : {E A : Type 0} (o : Option A) (e : E) → IfOk (or_raise o e) (λ a. o ≡ some a)
or_raise-IfOk none e = tt
or_raise-IfOk (some a) e = refl

-- Behind a guard its test is known to be false.
pub raise_if-IfOk_passed :
    {E A : Type 0} (P : A → Type 0) (t : Bool) (e : E) (m : Result E A)
    → (t ≡ false → IfOk m P)
    → IfOk (raise_if t e >> m) P
raise_if-IfOk_passed P true e m h = tt
raise_if-IfOk_passed P false e m h = h refl

pub IfOk_any : {E A : Type 0} (m : Result E A) → IfOk m (λ a. Unit)
IfOk_any (ok a) = tt
IfOk_any (err e) = tt

pub Returns_both :
    {E A : Type 0} (P Q : A → Type 0) (m : Result E A)
    → Returns m P
    → IfOk m Q
    → Returns m (λ a. P a × Q a)
Returns_both P Q (ok a) h k = (h, k)
Returns_both P Q (err e) h k = absurd h

pub Returns_and :
    {E A : Type 0} (P Q : A → Type 0) (m : Result E A)
    → Returns m P
    → Returns m Q
    → Returns m (λ a. P a × Q a)
Returns_and P Q (ok a) h k = (h, k)
Returns_and P Q (err e) h k = absurd h

-- What holds of the rest's value, whatever the first call gives.
pub after-IfOk :
    {E A B : Type 0} (Q : B → Type 0) (m : Result E A) (f : A → Result E B)
    → ((a : A) → IfOk (f a) Q)
    → IfOk (m >>= f) Q
after-IfOk Q (ok a) f h = h a
after-IfOk Q (err e) f h = tt

pub IfOk_const : {E A : Type 0} {P : Type 0} (m : Result E A) → P → IfOk m (λ a. P)
IfOk_const (ok a) h = h
IfOk_const (err e) h = tt

pub IfOk_self : {E A : Type 0} (r : Result E A) → IfOk r (λ a. r ≡ ok a)
IfOk_self (ok a) = refl
IfOk_self (err e) = tt
