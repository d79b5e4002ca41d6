-- ===== src/Base/Throw.antt =====
-- Code that may throw: a value, or the exception. `E` names what a component throws.
use mathlib.Core.Path.{◌≡◌, refl}
use mathlib.Core.Bool.{Bool, true, false}
use mathlib.Core.Logic.{◌⊎◌, inl, inr}
use mathlib.Core.Option.{Option, none, some}

pub data Result {ℓ} (E : Type 0) (A : Type ℓ) : Type ℓ where
  ok : A → Result E A
  err : E → Result E A

module _ {ℓ κ} {E : Type 0} {A : Type ℓ} {B : Type κ} where
  infixl 10 ◌>>=◌
  abbrev pub ◌>>=◌ : Result E A → (A → Result E B) → Result E B
  ok a >>= f = f a
  err e >>= f = err e

module _ {ℓ} {E : Type 0} {B : Type ℓ} where
  infixl 10 ◌>>◌
  abbrev pub ◌>>◌ : Result E (Unit {0}) → Result E B → Result E B
  m >> k = m >>= λ _. k

  -- The value looked up, or the exception thrown where there is none.
  abbrev pub or_throw : Option B → E → Result E B
  or_throw none e = err e
  or_throw (some b) e = ok b

  abbrev pub is_ok : Result E B → Bool
  is_ok (ok b) = true
  is_ok (err e) = false

-- if (test) throw e;
abbrev pub throw_if : {E : Type 0} → Bool → E → Result E (Unit {0})
throw_if true e = err e
throw_if false e = ok tt

pub Result-cases {ℓ} :
    {E : Type 0} {A : Type ℓ} (r : Result E A) → ((a : A) × (r ≡ ok a)) ⊎ ((e : E) × (r ≡ err e))
Result-cases (ok a) = inl (a, refl)
Result-cases (err e) = inr (e, refl)

-- What holds of the exception, and of the rest for each value, holds of the chain.
pub >>=-either {ℓ κ ι} :
    {E : Type 0} {A : Type ℓ} {B : Type κ} (P : Result E B → Type ι) (m : Result E A)
    {f : A → Result E B}
    → ((e : E) → m ≡ err e → P (err e))
    → ((a : A) → m ≡ ok a → P (f a))
    → P (m >>= f)
>>=-either P (ok a) bad good = good a refl
>>=-either P (err e) bad good = bad e refl

-- Every result that is returned satisfies `P`.
abbrev pub Ensures {ℓ κ} : {E : Type 0} {A : Type ℓ} → (A → Type κ) → Result E A → Type κ
Ensures P (ok a) = P a
Ensures P (err e) = Unit

pub >>=-Ensures {ℓ κ ι} :
    {E : Type 0} {A : Type ℓ} {B : Type κ} (P : B → Type ι) (m : Result E A) (f : A → Result E B)
    → ((a : A) → m ≡ ok a → Ensures P (f a))
    → Ensures P (m >>= f)
>>=-Ensures P (ok a) f good = good a refl
>>=-Ensures P (err e) f good = tt

pub throw_if-Ensures {ℓ κ} :
    {E : Type 0} {A : Type ℓ} (P : A → Type κ) (b : Bool) (e : E) (m : Result E A)
    → (b ≡ false → Ensures P m)
    → Ensures P (throw_if b e >> m)
throw_if-Ensures P true e m good = tt
throw_if-Ensures P false e m good = good refl

pub Ensures-ok {ℓ κ} :
    {E : Type 0} {A : Type ℓ} (P : A → Type κ) (m : Result E A) {a : A}
    → Ensures P m
    → m ≡ ok a
    → P a
Ensures-ok P m h e = rw e at h
