-- ===== src/Execution/Balance.antt =====
-- A step that leaves ctx.visited as it was when it returns, with or without an error.
use fastcopier.Base.{◌≡◌, refl, ◌∙◌, Bool, true, false, if◌then◌else◌}
use fastcopier.Base.Outcome.{Outcome, ok, err, panic, out_of_fuel}
use fastcopier.Errors.{Error}
use fastcopier.Reflect.{System, World, Exec, must}
use fastcopier.Resolve.{pure, fail, lift, continue, handle, ◌>>=◌, ◌>>◌}

module _ (Y : System) where
  abbrev pub Worlds : Type 0
  Worlds = World Y.cache.State

  -- A call that panics or overflows the stack does not return.
  abbrev pub Post : {A : Type 0} → Worlds → Outcome Error A × Worlds → Type 0
  Post w (ok a, w') = w'.visited ≡ w.visited
  Post w (err e, w') = w'.visited ≡ w.visited
  Post w (panic, w') = Unit
  Post w (out_of_fuel, w') = Unit

  pub data Balanced {A : Type 0} (m : Exec Y A) : Type 0 where
    balanced : ((w : Worlds) → Post w (m w)) → Balanced m

  pub Balanced-at : {A : Type 0} {m : Exec Y A} → Balanced m → (w : Worlds) → Post w (m w)
  Balanced-at (balanced h) = h

  pub pure-Balanced : {A : Type 0} (a : A) → Balanced (pure a)
  pure-Balanced a = balanced (λ w. refl)

  pub fail-Balanced : {A : Type 0} (e : Error) → Balanced (fail {A = A} e)
  fail-Balanced e = balanced (λ w. refl)

  Post-moved :
      {A : Type 0} (w w' : Worlds) (o : Outcome Error A) → w'.visited ≡ w.visited → Post w (o, w')
  Post-moved w w' (ok a) h = h
  Post-moved w w' (err e) h = h
  Post-moved w w' panic h = tt
  Post-moved w w' out_of_fuel h = tt

  -- A step that changes other parts of the world.
  pub moves-Balanced :
      {A : Type 0} (o : Worlds → Outcome Error A) (f : Worlds → Worlds)
      → ((w : Worlds) → (f w).visited ≡ w.visited)
      → Balanced (λ w. (o w, f w))
  moves-Balanced o f h = balanced (λ w. Post-moved w (f w) (o w) (h w))

  -- A step that only reads the world.
  pub reads-Balanced : {A : Type 0} (o : Worlds → Outcome Error A) → Balanced (λ w. (o w, w))
  reads-Balanced o = moves-Balanced o (λ w. w) (λ w. refl)

  pub lift-Balanced : {A : Type 0} (o : Outcome Error A) → Balanced (lift o)
  lift-Balanced o = reads-Balanced (λ w. o)

  pub Post-after :
      {A : Type 0} (w w' : Worlds)
      → w'.visited ≡ w.visited
      → (r : Outcome Error A × Worlds) → Post w' r
      → Post w r
  Post-after w w' h (ok a, v) p = p ∙ h
  Post-after w w' h (err e, v) p = p ∙ h
  Post-after w w' h (panic, v) p = tt
  Post-after w w' h (out_of_fuel, v) p = tt

  Post-continue :
      {A B : Type 0} (f : A → Exec Y B) (g : Error → Exec Y B)
      → ((a : A) → Balanced (f a))
      → ((e : Error) → Balanced (g e))
      → (w : Worlds) (r : Outcome Error A × Worlds) → Post w r
      → Post w (continue f g r)
  Post-continue f g hf hg w (ok a, w') p = Post-after w w' p (f a w') (Balanced-at (hf a) w')
  Post-continue f g hf hg w (err e, w') p = Post-after w w' p (g e w') (Balanced-at (hg e) w')
  Post-continue f g hf hg w (panic, w') p = tt
  Post-continue f g hf hg w (out_of_fuel, w') p = tt

  pub handle-Balanced :
      {A B : Type 0} (m : Exec Y A) (f : A → Exec Y B) (g : Error → Exec Y B)
      → Balanced m
      → ((a : A) → Balanced (f a))
      → ((e : Error) → Balanced (g e))
      → Balanced (handle m f g)
  handle-Balanced m f g h hf hg = balanced (λ w. Post-continue f g hf hg w (m w) (Balanced-at h w))

  pub bind-Balanced :
      {A B : Type 0} (m : Exec Y A) (f : A → Exec Y B)
      → Balanced m
      → ((a : A) → Balanced (f a))
      → Balanced (m >>= f)
  bind-Balanced m f h hf = handle-Balanced m f fail h hf fail-Balanced

  pub then-Balanced :
      {B : Type 0} (m : Exec Y (Unit {0})) (k : Exec Y B)
      → Balanced m
      → Balanced k
      → Balanced (m >> k)
  then-Balanced m k h hk = bind-Balanced m (λ u. k) h (λ u. hk)

  pub if-Balanced :
      {A : Type 0} (b : Bool) (x y : Exec Y A)
      → Balanced x
      → Balanced y
      → Balanced (if b then x else y)
  if-Balanced true x y h k = h
  if-Balanced false x y h k = k

  pub must-Balanced : (b : Bool) → Balanced (must Y b)
  must-Balanced true = balanced (λ w. refl)
  must-Balanced false = balanced (λ w. tt)
