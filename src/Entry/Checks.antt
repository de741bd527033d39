-- ===== src/Entry/Checks.antt =====
-- fastcopier.go and inspect.go: the checks of the arguments, and what the calls do when they fail.
use fastcopier.Base.{ℕ, ◌≡◌, refl, ◌∙◌, List, [], ◌∷◌, Option, none, some, false, ◌==◌, nat_eq}
use fastcopier.Base.Outcome.{Outcome, ok, err, panic}
use fastcopier.Context.{CopyOption, merge_options}
use fastcopier.Entry.Arguments.{
  Operand, validate_and_deref, both_non_nil, not_a_pointer, nil_destination, nil_source,
}
use fastcopier.Entry.Calls.{copy, merge, inspect_arguments, must_register}
use fastcopier.Entry.State.{Process, Runtime}
use fastcopier.Errors.{Error}
use fastcopier.GoTypes.{Types, kind, pointer, pointer_kind}
use fastcopier.Reflect.{Ref, at, exported, fresh}
use fastcopier.Store.{Place, null, address}

-- An argument: the nil interface, a value that is no pointer, a nil pointer, or a pointer to a
-- variable.
pub data Shape : Type 0 where
  nil_interface : Shape
  no_pointer : Operand → Shape
  nil_pointer : Shape
  points_to : Ref → Shape

pub data HasShape (T : Types) : Option Operand → Shape → Type 0 where
  is_nil_interface : HasShape T none nil_interface
  is_no_pointer :
      (o : Operand) → (kind T o.typ == pointer_kind) ≡ false → HasShape T (some o) (no_pointer o)
  is_nil_pointer :
      (t u : ℕ)
      → T.desc t ≡ pointer u
      → HasShape T (some (record { typ = t; value = null })) nil_pointer
  is_pointer :
      (t u : ℕ) (p : Place)
      → T.desc t ≡ pointer u
      → HasShape T
          (some (record { typ = t; value = address p }))
          (points_to (record { typ = u; spot = at p; mark = exported }))

-- What the checks mean to give, by the shapes of the destination and the source. One pointer is
-- taken off each side: a source that points to a pointer gives that pointer.
unfoldable pub checked : Shape → Shape → Outcome Error (Ref × Ref)
checked nil_interface _ = err both_non_nil
checked (no_pointer d) nil_interface = err both_non_nil
checked (no_pointer d) _ = err not_a_pointer
checked nil_pointer nil_interface = err both_non_nil
checked nil_pointer _ = err nil_destination
checked (points_to d) nil_interface = err both_non_nil
checked (points_to d) (no_pointer s) = ok (d, fresh s.typ s.value)
checked (points_to d) nil_pointer = err nil_source
checked (points_to d) (points_to s) = ok (d, s)

-- The checks of the arguments give what is said above of their shapes: the destination behind
-- its pointer with the source, behind one pointer if it is one, or the error of the first check that fails. They do not panic.
pub validate_and_deref-checked :
    (T : Types) (dst src : Option Operand) (d s : Shape)
    → HasShape T dst d
    → HasShape T src s
    → validate_and_deref T dst src ≡ checked d s
unfolding validate_and_deref checked
validate_and_deref-checked T dst src d s is_nil_interface k = refl
validate_and_deref-checked T dst src d s (is_no_pointer o h) is_nil_interface = refl
validate_and_deref-checked T dst src d s (is_no_pointer o h) (is_no_pointer q k) = rw h refl
validate_and_deref-checked T dst src d s (is_no_pointer o h) (is_nil_pointer t u k) = rw h refl
validate_and_deref-checked T dst src d s (is_no_pointer o h) (is_pointer t u p k) = rw h refl
validate_and_deref-checked T dst src d s (is_nil_pointer t u h) is_nil_interface = refl
validate_and_deref-checked T dst src d s (is_nil_pointer t u h) (is_no_pointer q k) = rw h refl
validate_and_deref-checked T dst src d s (is_nil_pointer t u h) (is_nil_pointer t' u' k) = rw h refl
validate_and_deref-checked T dst src d s (is_nil_pointer t u h) (is_pointer t' u' p k) = rw h refl
validate_and_deref-checked T dst src d s (is_pointer t u p h) is_nil_interface = refl
validate_and_deref-checked T dst src d s (is_pointer t u p h) (is_no_pointer q k) = rw h (rw k refl)
validate_and_deref-checked T dst src d s (is_pointer t u p h) (is_nil_pointer t' u' k) =
    rw h (rw k refl)
validate_and_deref-checked T dst src d s (is_pointer t u p h) (is_pointer t' u' p' k) =
    rw h (rw k refl)

module _ (R : Runtime) where
  module _ (dst src : Option Operand) (e : Error) (P : Process)
      (refused : validate_and_deref R.T dst src ≡ err e) where
    copy_refused : (options : List CopyOption) → copy R dst src options P ≡ (err e, P)
    unfolding copy
    copy_refused options = rw refused refl

    merge_refused : (options : List CopyOption) → merge R dst src options P ≡ (err e, P)
    unfolding merge
    merge_refused [] = rw refused refl
    merge_refused (o ∷ os) = copy_refused (merge_options (o ∷ os))

    inspect_refused :
        (options : List CopyOption) → inspect_arguments R dst src options P ≡ (err e, P)
    unfolding inspect_arguments
    inspect_refused options = rw refused refl

    register_refused : (options : List CopyOption) → must_register R dst src options P ≡ (panic, P)
    unfolding must_register
    register_refused options = rw (inspect_refused options) refl

  -- Where the checks refuse the shapes of the arguments, Copy, Merge and Inspect return that error,
  -- MustRegister panics, and the process is left as it was, the pools included.
  pub copy-refused :
      (dst src : Option Operand) (d s : Shape) (e : Error) (options : List CopyOption) (P : Process)
      → HasShape R.T dst d
      → HasShape R.T src s
      → checked d s ≡ err e
      → (copy R dst src options P ≡ (err e, P))
        × (merge R dst src options P ≡ (err e, P))
        × (inspect_arguments R dst src options P ≡ (err e, P))
        × (must_register R dst src options P ≡ (panic, P))
  copy-refused dst src d s e options P hd hs h =
      let refused = validate_and_deref-checked R.T dst src d s hd hs ∙ h in
      (
        copy_refused dst src e P refused options,
        merge_refused dst src e P refused options,
        inspect_refused dst src e P refused options,
        register_refused dst src e P refused options,
      )
