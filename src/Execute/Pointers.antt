-- ===== src/Execute/Pointers.antt =====
-- plans.go: the check for cycles, and the plans for leaves, pointers and interfaces.
use fastcopier.Base.{
  ℕ, Bool, true, false, List, [], ◌∷◌, ◌==◌, ◌&&◌, not, nat_eq, contains, Option, none, some,
  if◌then◌else◌,
}
use fastcopier.Base.Outcome.{ok, panic}
use fastcopier.Context.{CircularRefPolicy, circular_ref_error, circular_ref_skip}
use fastcopier.Errors.{wrapped, circular_reference}
use fastcopier.GoTypes.{kind, iface_kind}
use fastcopier.Plan.{Plan}
use fastcopier.Reflect.{
  System, Exec, at, loaded, Ref, types, kind_at, must, is_exported, keep_mark, load, set_to,
  set_zero, set_new, new_place, new_variable, is_nil, elem_at, some_elem, is_null,
}
use fastcopier.Resolve.{pure, fail, lift, ◌>>=◌, ◌>>◌, resolve_plan}
use fastcopier.Store.{Place, Value, address, boxed}

-- `delete(visited, ptr)`
unfoldable pub forget : ℕ → List ℕ → List ℕ
forget p [] = []
forget p (q ∷ qs) = let rest = forget p qs in if p == q then rest else q ∷ rest

module _ (Y : System) where
  abbrev pub Run : Type 0
  Run = Plan → Ref → Ref → Exec Y (Unit {0})

  -- resolvePlan with the context of the run: only the cache changes.
  unfoldable pub resolving : ℕ → ℕ → ℕ → Exec Y Plan
  resolving fuel dst src w =
      let r = resolve_plan Y.env Y.cache fuel dst src w.plans in (r.0, record w { plans = r.1 })

  abbrev pub pointer_in : Value → Exec Y ℕ
  pointer_in (address p) = pure (Y.machine.address_of p)
  pointer_in _ = lift panic

  -- Value.Pointer of a pointer that is not nil
  unfoldable pub pointer_of : Ref → Exec Y ℕ
  pointer_of r = do v ← load Y r; pointer_in v

  abbrev pub is_skip_policy : CircularRefPolicy → Bool
  is_skip_policy circular_ref_skip = true
  is_skip_policy circular_ref_error = false

  -- The test of a pointer that is not nil, and its mark.
  unfoldable pub visit_pointer : ℕ → Exec Y Bool
  visit_pointer ptr w =
      if contains w.visited ptr
      then (if is_skip_policy Y.env.ctx.circular_ref
          then (ok true, w)
          else fail (wrapped circular_reference "") w)
      else (ok false, record w { visited = ptr ∷ w.visited })

  -- `true` asks the caller to set the destination to zero.
  unfoldable pub check_circular_ref : Ref → Exec Y Bool
  check_circular_ref src = do
    is_null ← is_nil Y src
    if is_null then pure false else (do ptr ← pointer_of src; visit_pointer ptr)

  -- `defer delete(ctx.visited, ptr)` before the rest of a method: it runs however the rest ends.
  unfoldable pub forgetting : ℕ → Exec Y (Unit {0}) → Exec Y (Unit {0})
  unfolding forget
  forgetting ptr m w = let r = m w in (r.0, record r.1 { visited = forget ptr r.1.visited })

  -- `if !src.IsNil() { defer delete(ctx.visited, src.Pointer()) }`
  unfoldable pub then_forget : Ref → Exec Y (Unit {0}) → Exec Y (Unit {0})
  then_forget src m = do
    is_null ← is_nil Y src
    if is_null then m else (do ptr ← pointer_of src; forgetting ptr m)

  abbrev pub copy_elem : Ref → (Ref → Exec Y (Unit {0})) → Option Ref → Exec Y (Unit {0})
  copy_elem dst k none = set_zero Y dst
  copy_elem dst k (some s) = k s

  -- The shape of ptrPlan.Copy and derefPlan.Copy: `k` gets what the source points to.
  unfoldable pub copy_pointed : Ref → Ref → (Ref → Exec Y (Unit {0})) → Exec Y (Unit {0})
  copy_pointed dst src k = do
    skip ← check_circular_ref src
    if skip then set_zero Y dst else then_forget src (elem_at Y src >>= copy_elem dst k)

  -- The variable that a destination of pointer type points to, made if it is nil.
  unfoldable pub pointed_variable : Ref → Exec Y Ref
  pointed_variable dst = do
    is_null ← is_nil Y dst
    (if is_null then set_new Y dst else pure tt)
    d ← elem_at Y dst
    some_elem Y d

  unfoldable pub copy_ptr : Run → Plan → Ref → Ref → Exec Y (Unit {0})
  copy_ptr run p dst src = copy_pointed dst src (λ s. pointed_variable dst >>= λ d. run p d s)

  unfoldable pub copy_deref : Run → Plan → Ref → Ref → Exec Y (Unit {0})
  copy_deref run p dst src = copy_pointed dst src (λ s. run p dst s)

  unfoldable pub copy_addr : Run → Plan → Ref → Ref → Exec Y (Unit {0})
  copy_addr run p dst src = pointed_variable dst >>= λ d. run p d src

  -- Value.Convert of a loaded value
  abbrev pub convert_value : ℕ → ℕ → Value → Exec Y Value
  convert_value dst src v w =
      let r = Y.machine.convert dst src v w.heap in (ok r.0, record w { heap = r.1 })

  -- `dst.Set(src.Convert(dst.Type()))`
  unfoldable pub copy_convert : Ref → Ref → Exec Y (Unit {0})
  copy_convert dst src = do
    v ← load Y src
    u ← convert_value dst.typ src.typ v
    set_to Y dst (record { typ = dst.typ; spot = loaded u; mark = keep_mark src.mark })

  unfoldable pub copy_deferred : ℕ → Run → ℕ → ℕ → Ref → Ref → Exec Y (Unit {0})
  copy_deferred fuel run dst_type src_type dst src =
      resolving fuel dst_type src_type >>= λ p. run p dst src

  -- `for src.Kind() == reflect.Interface { src = src.Elem() }`, on the value of an interface; none
  -- is the invalid Value.
  unfoldable pub unwrap : ℕ → Value → Option (ℕ × Value)
  unwrap t (boxed u v) =
      let rest = unwrap u v in if kind (types Y) t == iface_kind then rest else some (t, boxed u v)
  unwrap t v = if kind (types Y) t == iface_kind then none else some (t, v)

  abbrev pub unwrapped : Ref → Option (ℕ × Value) → Option Ref
  unwrapped r none = none
  unwrapped r (some (t, v)) = some (record { typ = t; spot = loaded v; mark = keep_mark r.mark })

  unfoldable pub concrete : Ref → Exec Y (Option Ref)
  concrete src =
      if kind_at Y src == iface_kind
      then (do v ← load Y src; pure (unwrapped src (unwrap src.typ v)))
      else pure (some src)

  unfoldable pub copy_iface_src : ℕ → Run → Ref → Ref → Exec Y (Unit {0})
  copy_iface_src fuel run dst src =
      concrete src >>= copy_elem dst (λ s. resolving fuel dst.typ s.typ >>= λ p. run p dst s)

  unfoldable pub copy_iface_dst : ℕ → Run → Ref → Ref → Exec Y (Unit {0})
  copy_iface_dst fuel run dst src =
      concrete src
      >>= copy_elem dst (λ s. new_variable Y s.typ >>= λ cloned.
          resolving fuel s.typ s.typ >>= λ p. run p cloned s >> set_to Y dst cloned)

  abbrev pub place_of : Ref → Exec Y Place
  place_of r = elim r.spot [ at p ↦ pure p | loaded v ↦ lift panic ]

  abbrev pub call_registered : ℕ → Place → Place → Exec Y (Unit {0})
  call_registered f dst src w =
      let r = Y.machine.registered f dst src w.heap in (r.0, record w { heap = r.1 })

  -- registeredFuncPlan.Copy: a source that is no variable is put in a new one; the nil of an
  -- interface type fails the type assertion.
  unfoldable pub copy_registered : ℕ → Ref → Ref → Exec Y (Unit {0})
  copy_registered f dst src = do
    d ← place_of dst
    elim src.spot [
      | at p ↦ call_registered f d p
      | loaded v ↦ do
        must Y (is_exported src.mark && not (kind_at Y src == iface_kind && is_null Y v))
        p ← new_place Y v
        call_registered f d p
    ]
