-- ===== src/Base/Outcome.antt =====
-- The result of a call that can fail: a value, an error, a run-time panic, or fuel that ran out.
-- The fuel bounds Go's call stack; a call that needs ever more of it overflows the stack there.
use mathlib.Core.Path.{◌≡◌, refl}
use mathlib.Core.Bool.{Bool, true, false}
use fastcopier.Base.Tests.{if◌then◌else◌}

pub data Outcome {ℓ κ} (E : Type κ) (A : Type ℓ) : Type (ℓ ⊔ κ) where
  ok : A → Outcome E A
  err : E → Outcome E A
  panic : Outcome E A
  out_of_fuel : Outcome E A

infixl 5 ◌>>=◌
abbrev pub ◌>>=◌ {ℓ κ μ} :
    {E : Type κ} {A : Type ℓ} {B : Type μ} → Outcome E A → (A → Outcome E B) → Outcome E B
out_of_fuel >>= k = out_of_fuel
panic >>= k = panic
err e >>= k = err e
ok a >>= k = k a

-- The call returns a value.
pub data IsOk {ℓ κ} {E : Type κ} {A : Type ℓ} (m : Outcome E A) : Type (ℓ ⊔ κ) where
  returns : (a : A) → m ≡ ok a → IsOk m

pub ok-IsOk {ℓ κ} : {E : Type κ} {A : Type ℓ} (a : A) → IsOk {E = E} (ok a)
ok-IsOk a = returns a refl

module _ {ℓ κ μ} {E : Type κ} {A : Type ℓ} {B : Type μ} where
  pub >>=-IsOk :
      (m : Outcome E A) (f : A → Outcome E B) → IsOk m → ((a : A) → IsOk (f a)) → IsOk (m >>= f)
  >>=-IsOk m f (returns a e) k = rw e (k a)

  -- Inversion of a bind that returns a value.
  pub >>=-eq-ok :
      (call : Outcome E A) (next : A → Outcome E B) {b : B}
      → (call >>= next) ≡ ok b
      → (a : A) × (call ≡ ok a) × (next a ≡ ok b)
  >>=-eq-ok out_of_fuel next h = cc
  >>=-eq-ok panic next h = cc
  >>=-eq-ok (err e) next h = cc
  >>=-eq-ok (ok a) next h = (a, refl, h)

pub if-IsOk {ℓ κ} :
    {E : Type κ} {A : Type ℓ} (b : Bool) (x y : Outcome E A)
    → (b ≡ true → IsOk x)
    → (b ≡ false → IsOk y)
    → IsOk (if b then x else y)
if-IsOk true x y h k = h refl
if-IsOk false x y h k = k refl

pub ok-injective {ℓ κ} :
    {E : Type κ} {A : Type ℓ} {a b : A} → ◌≡◌ {A = Outcome E A} (ok a) (ok b) → a ≡ b
ok-injective h = cc

pub err-injective {ℓ κ} :
    {E : Type κ} {A : Type ℓ} {a b : E} → ◌≡◌ {A = Outcome E A} (err a) (err b) → a ≡ b
err-injective h = cc
