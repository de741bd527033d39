-- ===== src/Resolve/Monad.antt =====
-- A step of plan resolution: it may fail, and it changes the cache whether it fails or not.
use fastcopier.Base.Outcome.{Outcome, ok, err, panic, out_of_fuel}
use fastcopier.Errors.{Error}

abbrev pub M : Type 0 → Type 0 → Type 0
M S A = S → Outcome Error A × S

module _ {S : Type 0} where
  abbrev pub pure : {A : Type 0} → A → M S A
  pure a s = (ok a, s)

  abbrev pub fail : {A : Type 0} → Error → M S A
  fail e s = (err e, s)

  abbrev pub lift : {A : Type 0} → Outcome Error A → M S A
  lift o s = (o, s)

  abbrev pub continue :
      {A B : Type 0} → (A → M S B) → (Error → M S B) → Outcome Error A × S → Outcome Error B × S
  continue f g (ok a, s) = f a s
  continue f g (err e, s) = g e s
  continue f g (panic, s) = (panic, s)
  continue f g (out_of_fuel, s) = (out_of_fuel, s)

  -- `a, err := m; if err != nil { … }`
  abbrev pub handle : {A B : Type 0} → M S A → (A → M S B) → (Error → M S B) → M S B
  handle m f g s = continue f g (m s)

  infixl 5 ◌>>=◌ ◌>>◌
  abbrev pub ◌>>=◌ : {A B : Type 0} → M S A → (A → M S B) → M S B
  ◌>>=◌ m f = handle m f fail

  abbrev pub ◌>>◌ : {B : Type 0} → M S (Unit {0}) → M S B → M S B
  m >> k = m >>= λ _. k
