-- ===== src/Reflect/Access.antt =====
-- Reading and setting variables, fields and pointers.
use fastcopier.Base.{
  ℕ, zero, suc, Bool, true, false, ◌&&◌, ◌||◌, not, List, [], ◌∷◌, get_elem?, ◌==◌, nat_eq, Option,
  none, some, if◌then◌else◌,
}
use fastcopier.Base.Outcome.{Outcome, ok, panic, out_of_fuel, ◌>>=◌ as ◌>>>=◌}
use fastcopier.Errors.{Error}
use fastcopier.Fields.{is_nillable}
use fastcopier.GoTypes.{
  Types, StructField, Desc, Basic, basic, struct, array, kind, elem_of, fields_of, or_panic,
  iface_kind, pointer_kind, struct_kind,
}
use fastcopier.Reflect.Machine.{
  System, Exec, Mark, exported, embedded_only, sticky, at, loaded, Ref,
}
use fastcopier.Resolve.{pure, lift, ◌>>=◌, ◌>>◌}
use fastcopier.Store.{
  Place, below, Value, word, text, null, address, boxed, items, Values, no_values, value, get_value,
  repeat_value, read_place, write_place, allocate, is_zero,
}

-- The zero value of a type: fields and elements in turn.
unfoldable pub zero_fields : (ℕ → Outcome Error Value) → List StructField → Outcome Error Values
zero_fields rec [] = ok no_values
zero_fields rec (sf ∷ fs) = rec sf.typ >>>= λ v. zero_fields rec fs >>>= λ vs. ok (value v vs)

unfoldable pub zero_of : (ℕ → Outcome Error Value) → Desc → Outcome Error Value
unfolding zero_fields
zero_of rec (basic Basic.string) = ok (text "")
zero_of rec (basic b) = ok (word 0)
zero_of rec (struct fs) = zero_fields rec fs >>>= λ vs. ok (items vs)
zero_of rec (array e n) = rec e >>>= λ v. ok (items (repeat_value n v))
zero_of rec d = ok null

unfoldable pub zero_value : Types → ℕ → ℕ → Outcome Error Value
unfolding zero_of
zero_value T zero t = out_of_fuel
zero_value T (suc fuel) t = zero_of (zero_value T fuel) (T.desc t)

abbrev pub is_exported : Mark → Bool
is_exported exported = true
is_exported _ = false

-- The mark of an element, and of what an interface holds.
abbrev pub keep_mark : Mark → Mark
keep_mark exported = exported
keep_mark _ = sticky

abbrev pub field_mark : Mark → StructField → Mark
field_mark sticky sf = sticky
field_mark m sf = if sf.exported then exported else if sf.anonymous then embedded_only else sticky

module _ (Y : System) where
  abbrev pub types : Types
  types = Y.env.T

  abbrev pub kind_at : Ref → ℕ
  kind_at r = kind types r.typ

  -- A panic unless the test passes.
  abbrev pub must : Bool → Exec Y (Unit {0})
  must true w = (ok tt, w)
  must false w = (panic, w)

  unfoldable pub load : Ref → Exec Y Value
  load r w = (elim r.spot [ at p ↦ or_panic (read_place w.heap p) | loaded v ↦ ok v ], w)

  -- Writes a value of the type of the variable.
  unfoldable pub put : Ref → Value → Exec Y (Unit {0})
  put r v w = elim r.spot [
    | at p ↦
        if is_exported r.mark
        then (ok tt, record w { heap = write_place p v w.heap })
        else (panic, w)
    | loaded u ↦ (panic, w)
  ]

  -- What is stored when a value goes to a variable of another type: an interface keeps the type.
  abbrev pub wrap : ℕ → ℕ → Value → Value
  wrap dst src v =
      if kind types dst == iface_kind && not (kind types src == iface_kind) then boxed src v else v

  -- Value.Set
  unfoldable pub set_to : Ref → Ref → Exec Y (Unit {0})
  set_to dst src = do
    must (is_exported src.mark)
    must (Y.machine.assignable dst.typ src.typ)
    v ← load src
    put dst (wrap dst.typ src.typ v)

  unfoldable pub zero_at : ℕ → Exec Y Value
  zero_at t = lift (zero_value types Y.env.depth t)

  -- `v.Set(reflect.Zero(v.Type()))`
  unfoldable pub set_zero : Ref → Exec Y (Unit {0})
  set_zero r = do v ← zero_at r.typ; put r v

  -- reflect.New(t)
  unfoldable pub new_place : Value → Exec Y Place
  new_place v w =
      (ok (record { block = w.heap.next; path = [] }), record w { heap = allocate v w.heap })

  -- `reflect.New(t).Elem()`
  unfoldable pub new_variable : ℕ → Exec Y Ref
  new_variable t = do
    v ← zero_at t
    p ← new_place v
    pure (record { typ = t; spot = at p; mark = exported })

  abbrev pub type_elem : ℕ → Exec Y ℕ
  type_elem t = lift (or_panic (elem_of (types.desc t)))

  -- `v.Set(reflect.New(v.Type().Elem()))`
  unfoldable pub set_new : Ref → Exec Y (Unit {0})
  set_new r = do t ← type_elem r.typ; v ← zero_at t; p ← new_place v; put r (address p)

  abbrev pub is_null : Value → Bool
  is_null null = true
  is_null _ = false

  -- Value.IsNil, as far as it is called: channels and functions are not asked.
  unfoldable pub is_nil : Ref → Exec Y Bool
  is_nil r = do must (is_nillable (kind_at r)); v ← load r; pure (is_null v)

  -- Value.IsZero
  unfoldable pub is_zero_at : Ref → Exec Y Bool
  is_zero_at r = do v ← load r; pure (is_zero v)

  -- Value.Elem of a loaded value; none is the invalid Value.
  abbrev pub elem_in : Ref → Value → Exec Y (Option Ref)
  elem_in r null = pure none
  elem_in r (address p) = do
    t ← type_elem r.typ
    pure (some (record { typ = t; spot = at p; mark = r.mark }))
  elem_in r (boxed t v) = pure (some (record { typ = t; spot = loaded v; mark = keep_mark r.mark }))
  elem_in r _ = lift panic

  unfoldable pub elem_at : Ref → Exec Y (Option Ref)
  elem_at r = do
    must (kind_at r == pointer_kind || kind_at r == iface_kind)
    v ← load r
    elem_in r v

  -- Value.Elem where the Value must be valid after it.
  abbrev pub some_elem : Option Ref → Exec Y Ref
  some_elem none = lift panic
  some_elem (some r) = pure r

  -- The part of a struct or of an array under an index.
  abbrev pub part : ℕ → Mark → Ref → ℕ → Exec Y Ref
  part t m r i w = elim r.spot [
    | at p ↦ (ok (record { typ = t; spot = at (below p i); mark = m }), w)
    | loaded (items vs) ↦ elim (get_value vs i) [
      | some v ↦ (ok (record { typ = t; spot = loaded v; mark = m }), w)
      | none ↦ (panic, w)
    ]
    | loaded _ ↦ (panic, w)
  ]

  -- Value.Field
  unfoldable pub field_of : Ref → ℕ → Exec Y Ref
  field_of r i = do
    fs ← lift (or_panic (fields_of (types.desc r.typ)))
    sf ← lift (or_panic (get_elem? fs i))
    part sf.typ (field_mark r.mark sf) r i

  abbrev pub points_to_struct : ℕ → Bool
  points_to_struct t = elim (elem_of (types.desc t)) [
    | some u ↦ kind types t == pointer_kind && kind types u == struct_kind
    | none ↦ false
  ]

  abbrev pub next_field : Option Ref → ℕ → (Ref → Exec Y (Option Ref)) → Exec Y (Option Ref)
  next_field none i k = pure none
  next_field (some s) i k = do f ← field_of s i; k f

  -- Value.FieldByIndexErr: none is the error, at a nil pointer to an embedded struct. The first
  -- index is read at the value itself.
  unfoldable pub field_by_index : Bool → Ref → List ℕ → Exec Y (Option Ref)
  field_by_index nested r [] = pure (some r)
  field_by_index nested r (i ∷ is) = do
    s ← (if nested && points_to_struct r.typ then elem_at r else pure (some r))
    next_field s i (λ f. field_by_index true f is)
