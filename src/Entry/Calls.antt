-- ===== src/Entry/Calls.antt =====
-- fastcopier.go and inspect.go: Copy, Merge, Clone, Map, Inspect and MustRegister.
use fastcopier.Base.{ℕ, String, true, List, [], ◌∷◌, Option, none, some}
use fastcopier.Base.Outcome.{ok, panic}
use fastcopier.Context.{CopyOption, apply_options, merge_options, with_fields}
use fastcopier.Entry.Arguments.{Operand, validate_and_deref}
use fastcopier.Entry.State.{Process, Runtime, Action, for_copy, for_merge, with_context}
use fastcopier.Errors.{Error}
use fastcopier.Execute.{resolving, copy_plan}
use fastcopier.GoTypes.{or_panic}
use fastcopier.Inspect.{InspectPlan, inspect_plan}
use fastcopier.Plan.{Plan}
use fastcopier.Reflect.{Ref, zero_value}
use fastcopier.Resolve.{M, pure, lift, handle, ◌>>=◌}
use fastcopier.Store.{Place, Value, null, address, allocate, read_place}

module _ (R : Runtime) where
  -- `plan, err := resolvePlan(…); plan.Copy(…)`
  abbrev pub copying : Ref × Ref → Action R (Unit {0})
  copying a Y = resolving Y R.fuel a.0.typ a.1.typ >>= λ p. copy_plan Y R.fuel p a.0 a.1

  unfoldable pub copy : Option Operand → Option Operand → List CopyOption → M Process (Unit {0})
  copy dst src options = lift (validate_and_deref R.T dst src) >>= λ a.
      with_context R for_copy (apply_options options) (copying a)

  unfoldable pub merge : Option Operand → Option Operand → List CopyOption → M Process (Unit {0})
  merge dst src [] = lift (validate_and_deref R.T dst src) >>= λ a.
      with_context R for_merge (λ c. record c { skip_zero_fields = true }) (copying a)
  merge dst src (o ∷ os) = copy dst src (merge_options (o ∷ os))

  -- A variable of a type, with its first value.
  abbrev pub variable : Value → M Process Place
  variable v P =
      (ok (record { block = P.heap.next; path = [] }), record P { heap = allocate v P.heap })

  abbrev pub value_at : Place → M Process Value
  value_at p P = (or_panic (read_place P.heap p), P)

  abbrev pub pointer_to : ℕ → Place → Option Operand
  pointer_to t p = some (record { typ = R.pointer_to t; value = address p })

  -- `var dst D; err := Copy(&dst, &src, options...)`, and what dst holds then.
  abbrev pub copy_variables : ℕ → ℕ → Value → List CopyOption → M Process (Option Error × Value)
  copy_variables dst_type src_type src options = do
    z ← lift (zero_value R.T R.depth dst_type)
    d ← variable z
    s ← variable src
    e ←
        handle (copy (pointer_to dst_type d) (pointer_to src_type s) options) (λ u. pure none)
          (λ e. pure (some e))
    v ← value_at d
    pure (e, v)

  -- Clone, for the type T
  unfoldable pub clone : ℕ → Value → List CopyOption → M Process (Option Error × Value)
  clone t src options = copy_variables t t src options

  abbrev pub or_nil_slice : Option Error × Value → Option Error × Value
  or_nil_slice (none, v) = (none, v)
  or_nil_slice (some e, v) = (some e, null)

  -- Map, for the types []Dst and []Src
  unfoldable pub map_slice : ℕ → ℕ → Value → List CopyOption → M Process (Option Error × Value)
  map_slice dst_slice src_slice src options =
      copy_variables dst_slice src_slice src options >>= λ r. pure (or_nil_slice r)

  abbrev pub described : Ref × Ref → Plan → M Process InspectPlan
  described a p = lift (
      inspect_plan R.T R.range p a.1.typ a.0.typ (record {
        src_type = R.T.name a.1.typ;
        dst_type = R.T.name a.0.typ;
        fields = [];
        skipped = [];
      }))

  -- Inspect, with its checks, which are those of validateAndDeref
  unfoldable pub inspect_arguments :
      Option Operand → Option Operand → List CopyOption → M Process InspectPlan
  inspect_arguments dst src options = lift (validate_and_deref R.T dst src) >>= λ a.
      with_context R for_copy (apply_options options) (λ Y. resolving Y R.fuel a.0.typ a.1.typ)
      >>= described a

  -- An error becomes a panic.
  unfoldable pub must_register :
      Option Operand → Option Operand → List CopyOption → M Process (Unit {0})
  must_register dst src options =
      handle (inspect_arguments dst src options) (λ ip. pure tt) (λ e. lift panic)

  unfoldable pub must_register_with_fields :
      Option Operand → Option Operand → List String → M Process (Unit {0})
  must_register_with_fields dst src fields = must_register dst src (with_fields fields ∷ [])
