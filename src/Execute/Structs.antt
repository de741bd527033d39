-- ===== src/Execute/Structs.antt =====
-- plan_struct.go and fields.go: the plans of structs and of their fields.
use fastcopier.Base.{
  ℕ, zero, suc, Bool, true, false, ◌||◌, List, [], ◌∷◌, ◌==◌, nat_eq, Option, none, some,
  if◌then◌else◌,
}
use fastcopier.Base.Outcome.{out_of_fuel}
use fastcopier.Execute.Pointers.{Run, pointed_variable}
use fastcopier.GoTypes.{pointer_kind, iface_kind, slice_kind, map_kind}
use fastcopier.Plan.{Maybe, absent, present, Plans, done, first, FieldPath}
use fastcopier.Reflect.{
  System, Exec, Ref, kind_at, set_to, set_zero, elem_at, field_of, field_by_index, is_zero_at,
  length_at,
}
use fastcopier.Resolve.{pure, lift, ◌>>=◌, ◌>>◌}

module _ (Y : System) where
  -- fieldByIndexInit: nil pointers on the way are made.
  unfoldable pub field_by_index_init : Ref → List ℕ → Exec Y Ref
  field_by_index_init v [] = pure v
  field_by_index_init v (i ∷ is) = do
    u ← (if kind_at Y v == pointer_kind then pointed_variable Y v else pure v)
    f ← field_of Y u i
    field_by_index_init f is

  -- fieldSetZero
  unfoldable pub field_set_zero : Ref → List ℕ → Exec Y (Unit {0})
  field_set_zero v index =
      field_by_index Y false v index >>= λ f. elim f [ none ↦ pure tt | some f ↦ set_zero Y f ]

  -- nilOnZeroValue, from the value that its loop has reached.
  unfoldable pub nil_on_zero_from : ℕ → Ref → Ref → Exec Y (Unit {0})
  nil_on_zero_from zero val inner = lift out_of_fuel
  nil_on_zero_from (suc fuel) val inner =
      let k = kind_at Y inner in
      let next = elem_at Y inner >>= λ e. elim e [
        | none ↦ set_zero Y val
        | some u ↦ is_zero_at Y u >>= λ z. elim z [
          | true ↦ set_zero Y val
          | false ↦ nil_on_zero_from fuel val u
        ]
      ] in
      if k == pointer_kind || k == iface_kind
      then next
      else if k == slice_kind || k == map_kind
      then (length_at Y inner >>= λ n. if n == 0 then set_zero Y val else pure tt)
      else pure tt

  unfoldable pub nil_on_zero_value : ℕ → Ref → Exec Y (Unit {0})
  nil_on_zero_value fuel val = nil_on_zero_from fuel val val

  -- One index is read by Field, more are walked.
  abbrev pub source_field : Ref → List ℕ → Exec Y (Option Ref)
  source_field src (i ∷ []) = do f ← field_of Y src i; pure (some f)
  source_field src index = field_by_index Y false src index

  abbrev pub destination_field : Ref → List ℕ → Exec Y Ref
  destination_field dst (i ∷ []) = field_of Y dst i
  destination_field dst index = field_by_index_init dst index

  -- `ctx.SkipZeroFields && src.IsZero()`
  abbrev pub skips : Ref → Exec Y Bool
  skips src = if Y.env.ctx.skip_zero_fields then is_zero_at Y src else pure false

  abbrev pub copy_maybe : Run Y → Maybe → Ref → Ref → Exec Y (Unit {0})
  copy_maybe run absent dst src = set_to Y dst src
  copy_maybe run (present p) dst src = run p dst src

  abbrev pub when : Bool → Exec Y (Unit {0}) → Exec Y (Unit {0})
  when b m = if b then m else pure tt

  abbrev pub copy_found : ℕ → Run Y → Maybe → FieldPath → Ref → Option Ref → Exec Y (Unit {0})
  copy_found fuel run p path dst none = field_set_zero dst path.dst_index
  copy_found fuel run p path dst (some s) = do
    skip ← skips s
    if skip then pure tt else (do
      d ← destination_field dst path.dst_index
      copy_maybe run p d s
      when path.dst_nil_on_zero (nil_on_zero_value fuel d))

  -- fieldPlan.Copy
  unfoldable pub copy_field : ℕ → Run Y → Maybe → FieldPath → Ref → Ref → Exec Y (Unit {0})
  copy_field fuel run p path dst src =
      source_field src path.src_index >>= copy_found fuel run p path dst

  -- structPlan.Copy and the loop of structToMapPlan.Copy
  unfoldable pub copy_fields : Run Y → Plans → Ref → Ref → Exec Y (Unit {0})
  copy_fields run done dst src = pure tt
  copy_fields run (first p ps) dst src = run p dst src >> copy_fields run ps dst src
