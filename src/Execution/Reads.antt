-- ===== src/Execution/Reads.antt =====
-- A step that reads the heap and changes nothing.
use fastcopier.Base.{◌≡◌, refl, Bool, true, false}
use fastcopier.Base.Outcome.{Outcome, ok, err, panic, out_of_fuel, ◌>>=◌ as ◌>>>=◌}
use fastcopier.Errors.{Error}
use fastcopier.Execute.{pointer_in, pointer_of}
use fastcopier.Execution.Balance.{Worlds}
use fastcopier.Reflect.{System, Exec, Ref, must, load, is_nil}
use fastcopier.Resolve.{fail, lift, continue, ◌>>=◌}
use fastcopier.Store.{Value, address, Heap}

module _ (Y : System) where
  pub data Reads {A : Type 0} (m : Exec Y A) : Type 0 where
    reads : (o : Heap → Outcome Error A) → ((w : Worlds Y) → m w ≡ (o w.heap, w)) → Reads m

  outcome : {A : Type 0} {m : Exec Y A} → Reads m → Heap → Outcome Error A
  outcome (reads o e) = o

  outcome_eq :
      {A : Type 0} {m : Exec Y A} (h : Reads m) (w : Worlds Y) → m w ≡ (outcome h w.heap, w)
  unfolding outcome
  outcome_eq (reads o e) w = e w

  lift-Reads : {A : Type 0} (o : Outcome Error A) → Reads (lift o)
  lift-Reads o = reads (λ h. o) (λ w. refl)

  must-Reads : (b : Bool) → Reads (must Y b)
  must-Reads true = reads (λ h. ok tt) (λ w. refl)
  must-Reads false = reads (λ h. panic) (λ w. refl)

  load-Reads : (r : Ref) → Reads (load Y r)
  unfolding load
  load-Reads r = reads _ (λ w. refl)

  continue-Reads :
      {A B : Type 0} (f : A → Exec Y B) (h : (a : A) → Reads (f a)) (w : Worlds Y)
      (o : Outcome Error A)
      → continue f fail (o, w) ≡ ((o >>>= λ a. outcome (h a) w.heap), w)
  continue-Reads f h w (ok a) = outcome_eq (h a) w
  continue-Reads f h w (err e) = refl
  continue-Reads f h w panic = refl
  continue-Reads f h w out_of_fuel = refl

  bind-Reads :
      {A B : Type 0} (m : Exec Y A) (f : A → Exec Y B)
      → Reads m
      → ((a : A) → Reads (f a))
      → Reads (m >>= f)
  bind-Reads m f (reads o e) h =
      reads (λ x. o x >>>= λ a. outcome (h a) x) (λ w. rw (e w) (continue-Reads f h w (o w.heap)))

  pub is_nil-Reads : (r : Ref) → Reads (is_nil Y r)
  unfolding is_nil
  is_nil-Reads r =
      bind-Reads _ _ (must-Reads _) λ u. bind-Reads _ _ (load-Reads r) λ v. lift-Reads (ok _)

  pointer_in-Reads : (v : Value) → Reads (pointer_in Y v)
  pointer_in-Reads (address p) = lift-Reads (ok _)
  pointer_in-Reads _ = lift-Reads panic

  pub pointer_of-Reads : (r : Ref) → Reads (pointer_of Y r)
  unfolding pointer_of
  pointer_of-Reads r = bind-Reads _ _ (load-Reads r) pointer_in-Reads
