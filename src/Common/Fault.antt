-- ===== src/Common/Fault.antt =====
-- Undefined behaviour as a value: `none` is an access outside an array, a null dereference, a
-- shift by the width or more, or a division that C leaves undefined.
use rv.Common.Tests.{if◌then◌else◌}
use mathlib.Core.Path.{◌≡◌, refl, subst, ap}
use mathlib.Core.Bool.{Bool, true, false}
use mathlib.Core.Option.{Option, none, some, some-injective}

infixl 5 ◌>>=◌ ◌>>◌
abbrev pub ◌>>=◌ {ℓ κ} : {A : Type ℓ} {B : Type κ} → Option A → (A → Option B) → Option B
none >>= f = none
some a >>= f = f a

abbrev pub ◌>>◌ {ℓ} : {B : Type ℓ} → Option (Unit {0}) → Option B → Option B
m >> k = m >>= λ _. k

-- The code is defined only where the test holds.
abbrev pub require : Bool → Option (Unit {0})
require true = some tt
require false = none

-- Inversion of a run that does not fault.
pub >>=-eq-some {ℓ κ} :
    {A : Type ℓ} {B : Type κ} (m : Option A) (f : A → Option B) {b : B}
    → (m >>= f) ≡ some b
    → (a : A) × (m ≡ some a) × (f a ≡ some b)
>>=-eq-some (some a) f h = (a, refl, h)
>>=-eq-some none f h = cc

-- Where the result is defined, it has the property.
abbrev pub Yields {ℓ κ} : {A : Type ℓ} → (A → Type κ) → Option A → Type (ℓ ⊔ κ)
Yields {A} P r = (a : A) → r ≡ some a → P a

module _ {ℓ κ} {A : Type ℓ} (P : A → Type κ) where
  pub Yields-bind {μ} :
      {B : Type μ} (r : Option B) {f : B → Option A}
      → ((b : B) → r ≡ some b → Yields P (f b))
      → Yields P (r >>= f)
  Yields-bind none h a e = cc
  Yields-bind (some b) h a e = h b refl a e

  pub Yields-some : {a : A} → P a → Yields P (some a)
  Yields-some {a} p b e = subst P (some-injective _ _ e) p

  pub Yields-none : Yields P none
  Yields-none a e = cc

  pub Yields-elim :
      (t : Bool) {r s : Option A}
      → Yields P r
      → Yields P s
      → Yields P (elim t [ true ↦ r | false ↦ s ])
  Yields-elim true a b = a
  Yields-elim false a b = b

  pub Yields-if :
      (t : Bool) {r s : Option A} → Yields P r → Yields P s → Yields P (if t then r else s)
  Yields-if true a b = a
  Yields-if false a b = b

pub >>=-cong {ℓ κ} :
    {A : Type ℓ} {B : Type κ} (r : Option A) {f g : A → Option B}
    → ((a : A) → r ≡ some a → f a ≡ g a)
    → (r >>= f) ≡ (r >>= g)
>>=-cong none h = refl
>>=-cong (some a) h = h a refl

pub elim-cong {ℓ} :
    {A : Type ℓ} (t : Bool) (a : A) {b c : A}
    → b ≡ c
    → elim t [ true ↦ a | false ↦ b ] ≡ elim t [ true ↦ a | false ↦ c ]
elim-cong true a e = refl
elim-cong false a e = e

module _ {ℓ} {A : Type ℓ} where
  pub elim-true : {t : Bool} (a b : A) → t ≡ true → elim t [ true ↦ a | false ↦ b ] ≡ a
  elim-true a b e = ap (λ t. elim t [ true ↦ a | false ↦ b ]) e

  pub elim-false : {t : Bool} (a b : A) → t ≡ false → elim t [ true ↦ a | false ↦ b ] ≡ b
  elim-false a b e = ap (λ t. elim t [ true ↦ a | false ↦ b ]) e
