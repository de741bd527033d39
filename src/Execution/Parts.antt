-- ===== src/Execution/Parts.antt =====
-- The parts of the Copy methods that call no other plan leave ctx.visited alone.
use fastcopier.Base.{
  Bool, List, Option, String, [], false, list_eq, nat_eq, none, not, refl, some, string_eq, suc,
  true, zero, ℕ, ◌&&◌, ◌==◌, ◌∷◌,
}
use fastcopier.Base.Dict.{Dict}
use fastcopier.Base.Outcome.{out_of_fuel, panic}
use fastcopier.Execute.{
  call_registered, check_copied, concrete, convert_value, copy_bulk, copy_convert, copy_elem,
  copy_registered, destination_field, ensure_map, entry_plan_for, field_by_index_init,
  field_set_zero, nil_on_zero_from, nil_on_zero_value, place_of, pointed_variable, resolving, skips,
  source_field, when, zero_rest,
}
use fastcopier.Execution.Access.{
  elem_at-Balanced, field_by_index-Balanced, field_of-Balanced, is_nil-Balanced,
  is_zero_at-Balanced, load-Balanced, new_place-Balanced, set_new-Balanced, set_to-Balanced,
  set_zero-Balanced, some_elem-Balanced,
}
use fastcopier.Execution.Balance.{
  Balanced, bind-Balanced, fail-Balanced, if-Balanced, lift-Balanced, moves-Balanced, must-Balanced,
  pure-Balanced, then-Balanced,
}
use fastcopier.Execution.Containers.{
  capacity_at-Balanced, copy_items-Balanced, index_at-Balanced, length_at-Balanced,
  make_map-Balanced, make_slice-Balanced, set_length-Balanced,
}
use fastcopier.GoTypes.{iface_kind}
use fastcopier.Plan.{Maybe, SlimMeta, absent, present}
use fastcopier.Reflect.{is_exported, is_null, is_zero_at, kind_at, must, new_place, set_zero}
use fastcopier.Reflect.Machine.{Exec, Ref, Spot, System, at, loaded}
use fastcopier.Resolve.{pure, ◌>>=◌, ◌>>◌}
use fastcopier.Store.{Place, Value}

module _ (Y : System) where
  pub resolving-Balanced : (fuel dst src : ℕ) → Balanced Y (resolving Y fuel dst src)
  unfolding resolving
  resolving-Balanced fuel dst src = moves-Balanced Y _ _ (λ w. refl)

  pub pointed_variable-Balanced : (dst : Ref) → Balanced Y (pointed_variable Y dst)
  unfolding pointed_variable
  pointed_variable-Balanced dst =
      search
        (
          bind-Balanced, is_nil-Balanced, if-Balanced, set_new-Balanced, pure-Balanced,
          elem_at-Balanced, some_elem-Balanced,
        )
        depth 8

  pub convert_value-Balanced : (dst src : ℕ) (v : Value) → Balanced Y (convert_value Y dst src v)
  convert_value-Balanced dst src v = moves-Balanced Y _ _ (λ w. refl)

  pub copy_convert-Balanced : (dst src : Ref) → Balanced Y (copy_convert Y dst src)
  unfolding copy_convert
  copy_convert-Balanced dst src =
      search (bind-Balanced, load-Balanced, convert_value-Balanced, set_to-Balanced) depth 8

  pub concrete-Balanced : (src : Ref) → Balanced Y (concrete Y src)
  unfolding concrete
  concrete-Balanced src = search (if-Balanced, bind-Balanced, load-Balanced, pure-Balanced) depth 8

  pub elem_then-Balanced :
      (dst : Ref) (k : Ref → Exec Y (Unit {0}))
      → ((s : Ref) → Balanced Y (k s))
      → (o : Option Ref) → Balanced Y (copy_elem Y dst k o)
  elem_then-Balanced dst k h none = set_zero-Balanced Y dst
  elem_then-Balanced dst k h (some s) = h s

  pub call_registered-Balanced : (f : ℕ) (d s : Place) → Balanced Y (call_registered Y f d s)
  call_registered-Balanced f d s = moves-Balanced Y _ _ (λ w. refl)

  pub copy_registered-Balanced : (f : ℕ) (dst src : Ref) → Balanced Y (copy_registered Y f dst src)
  unfolding copy_registered
  copy_registered-Balanced f dst src = bind-Balanced Y _ _ (place dst.spot) λ d. source d src.spot
    where
      place : (s : Spot) → Balanced Y (place_of Y (record dst { spot = s }))
      place (at p) = pure-Balanced Y p
      place (loaded v) = lift-Balanced Y panic

      source :
          (d : Place) (s : Spot)
          → Balanced Y {A = Unit {0}} (elim s [
            | at p ↦ call_registered Y f d p
            | loaded v ↦ do
              must Y (is_exported src.mark && not (kind_at Y src == iface_kind && is_null Y v))
              p ← new_place Y v
              call_registered Y f d p
          ])
      source d (at p) = call_registered-Balanced f d p
      source d (loaded v) =
          search (bind-Balanced, must-Balanced, new_place-Balanced, call_registered-Balanced) depth
            8

  pub zero_rest-Balanced : (dst : Ref) (n i : ℕ) → Balanced Y (zero_rest Y dst n i)
  unfolding zero_rest
  zero_rest-Balanced dst zero i = pure-Balanced Y tt
  zero_rest-Balanced dst (suc n) i =
      bind-Balanced Y _ _ (index_at-Balanced Y dst i)
        λ d. then-Balanced Y _ _ (set_zero-Balanced Y d) (zero_rest-Balanced dst n (suc i))

  pub copy_bulk-Balanced : (dst src : Ref) (n : ℕ) → Balanced Y (copy_bulk Y dst src n)
  unfolding copy_bulk
  copy_bulk-Balanced dst src n =
      search
        (
          bind-Balanced, if-Balanced, capacity_at-Balanced, set_length-Balanced,
          copy_items-Balanced, make_slice-Balanced, set_to-Balanced,
        )
        depth 10

  pub field_by_index_init-Balanced :
      (v : Ref) (index : List ℕ) → Balanced Y (field_by_index_init Y v index)
  unfolding field_by_index_init
  field_by_index_init-Balanced v [] = pure-Balanced Y v
  field_by_index_init-Balanced v (i ∷ is) =
      bind-Balanced Y _ _ (if-Balanced Y _ _ _ (pointed_variable-Balanced v) (pure-Balanced Y v))
        λ u. bind-Balanced Y _ _ (field_of-Balanced Y u i) λ f. field_by_index_init-Balanced f is

  pub field_set_zero-Balanced : (v : Ref) (index : List ℕ) → Balanced Y (field_set_zero Y v index)
  unfolding field_set_zero
  field_set_zero-Balanced v index =
      bind-Balanced Y _ _ (field_by_index-Balanced Y false v index) found
    where
      found :
          (o : Option Ref)
          → Balanced Y {A = Unit {0}} (elim o [ none ↦ pure tt | some f ↦ set_zero Y f ])
      found none = pure-Balanced Y tt
      found (some f) = set_zero-Balanced Y f

  pub source_field-Balanced : (src : Ref) (index : List ℕ) → Balanced Y (source_field Y src index)
  source_field-Balanced src [] = field_by_index-Balanced Y false src []
  source_field-Balanced src (i ∷ []) =
      bind-Balanced Y _ _ (field_of-Balanced Y src i) λ f. pure-Balanced Y _
  source_field-Balanced src (i ∷ j ∷ is) = field_by_index-Balanced Y false src (i ∷ j ∷ is)

  pub destination_field-Balanced :
      (dst : Ref) (index : List ℕ) → Balanced Y (destination_field Y dst index)
  destination_field-Balanced dst [] = field_by_index_init-Balanced dst []
  destination_field-Balanced dst (i ∷ []) = field_of-Balanced Y dst i
  destination_field-Balanced dst (i ∷ j ∷ is) = field_by_index_init-Balanced dst (i ∷ j ∷ is)

  pub skips-Balanced : (src : Ref) → Balanced Y (skips Y src)
  skips-Balanced src = if-Balanced Y _ _ _ (is_zero_at-Balanced Y src) (pure-Balanced Y false)

  pub when-Balanced : (b : Bool) (m : Exec Y (Unit {0})) → Balanced Y m → Balanced Y (when Y b m)
  when-Balanced b m h = if-Balanced Y b m _ h (pure-Balanced Y tt)

  pub ensure_map-Balanced : (dst : Ref) → Balanced Y (ensure_map Y dst)
  ensure_map-Balanced dst =
      search
        (
          bind-Balanced, is_nil-Balanced, if-Balanced, make_map-Balanced, set_to-Balanced,
          pure-Balanced,
        )
        depth 8

  pub check_copied-Balanced :
      (t : ℕ) (fs : Dict String SlimMeta) (copied : List String)
      → Balanced Y (check_copied Y t fs copied)
  unfolding check_copied
  check_copied-Balanced t [] copied = pure-Balanced Y tt
  check_copied-Balanced t ((k, dm) ∷ more) copied =
      if-Balanced Y _ _ _ (fail-Balanced Y _) (check_copied-Balanced t more copied)

  pub nil_on_zero_from-Balanced :
      (fuel : ℕ) (val inner : Ref) → Balanced Y (nil_on_zero_from Y fuel val inner)
  unfolding nil_on_zero_from
  nil_on_zero_from-Balanced zero val inner = lift-Balanced Y out_of_fuel
  nil_on_zero_from-Balanced (suc fuel) val inner =
      if-Balanced Y _ _ _
        (bind-Balanced Y _ _ (elem_at-Balanced Y inner)
          (found (λ u. nil_on_zero_from-Balanced fuel val u)))
        (if-Balanced Y _ _ _
          (bind-Balanced Y _ _ (length_at-Balanced Y inner)
            λ n. if-Balanced Y _ _ _ (set_zero-Balanced Y val) (pure-Balanced Y tt))
          (pure-Balanced Y tt))
    where
      tested :
          (u : Ref)
          → Balanced Y (nil_on_zero_from Y fuel val u)
          → (z : Bool)
          → Balanced Y {A = Unit {0}}
              (elim z [ true ↦ set_zero Y val | false ↦ nil_on_zero_from Y fuel val u ])
      tested u h true = set_zero-Balanced Y val
      tested u h false = h

      found :
          ((u : Ref) → Balanced Y (nil_on_zero_from Y fuel val u))
          → (o : Option Ref)
          → Balanced Y {A = Unit {0}} (elim o [
            | none ↦ set_zero Y val
            | some u ↦ is_zero_at Y u >>= λ z. elim z [
              | true ↦ set_zero Y val
              | false ↦ nil_on_zero_from Y fuel val u
            ]
          ])
      found h none = set_zero-Balanced Y val
      found h (some u) = bind-Balanced Y _ _ (is_zero_at-Balanced Y u) (tested u (h u))

  pub nil_on_zero_value-Balanced :
      (fuel : ℕ) (val : Ref) → Balanced Y (nil_on_zero_value Y fuel val)
  unfolding nil_on_zero_value
  nil_on_zero_value-Balanced fuel val = nil_on_zero_from-Balanced fuel val val

  pub entry_plan_for-Balanced :
      (fuel dst src : ℕ) (dm : SlimMeta) (p : Maybe)
      → Balanced Y (entry_plan_for Y fuel dst src dm p)
  entry_plan_for-Balanced fuel dst src dm (present p) = pure-Balanced Y p
  entry_plan_for-Balanced fuel dst src dm absent = moves-Balanced Y _ _ (λ w. refl)
