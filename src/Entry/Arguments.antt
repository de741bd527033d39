-- ===== src/Entry/Arguments.antt =====
-- fastcopier.go: validateAndDeref.
use fastcopier.Base.{ℕ, ◌==◌, nat_eq, Option, none, some, if◌then◌else◌}
use fastcopier.Base.Outcome.{Outcome, ok, err, panic, ◌>>=◌}
use fastcopier.Errors.{Error, wrapped, type_invalid, value_invalid}
use fastcopier.GoTypes.{Types, kind, elem_of, or_panic, pointer_kind}
use fastcopier.Reflect.{Ref, at, exported, fresh}
use fastcopier.Store.{Value, null, address}

-- What an argument of type `any` holds if it is not nil.
pub record Operand : Type 0 where
  pub typ : ℕ
  pub value : Value

abbrev pub both_non_nil : Error
both_non_nil = wrapped value_invalid "source and destination must be non-nil"

abbrev pub not_a_pointer : Error
not_a_pointer = wrapped type_invalid "destination must be a pointer"

abbrev pub nil_destination : Error
nil_destination = wrapped value_invalid "destination must be non-nil"

abbrev pub nil_source : Error
nil_source = wrapped value_invalid "source must be non-nil"

module _ (T : Types) where
  -- Value.Elem of a pointer; none is the invalid Value.
  abbrev pub pointee : ℕ → Value → Outcome Error (Option Ref)
  pointee t null = ok none
  pointee t (address p) = or_panic (elem_of (T.desc t)) >>= λ u.
      ok (some (record { typ = u; spot = at p; mark = exported }))
  pointee t _ = panic

  abbrev pub or_nil : Error → Option Ref → Outcome Error Ref
  or_nil e none = err e
  or_nil e (some r) = ok r

  -- The source, behind one pointer.
  abbrev pub source_value : Operand → Outcome Error Ref
  source_value s =
      if kind T s.typ == pointer_kind
      then pointee s.typ s.value >>= or_nil nil_source
      else ok (fresh s.typ s.value)

  -- The destination and the source; the type of the destination is with it.
  unfoldable pub validate_and_deref : Option Operand → Option Operand → Outcome Error (Ref × Ref)
  validate_and_deref none src = err both_non_nil
  validate_and_deref (some d) none = err both_non_nil
  validate_and_deref (some d) (some s) =
      if kind T d.typ == pointer_kind
      then (pointee d.typ d.value >>= λ o.
          or_nil nil_destination o >>= λ dst. source_value s >>= λ src. ok (dst, src))
      else err not_a_pointer
