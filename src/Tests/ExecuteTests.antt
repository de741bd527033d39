-- ===== src/Tests/ExecuteTests.antt =====
-- Runs of plans, and the theorems on them at concrete values.
use fastcopier.Base.{[], false, inl, list_eq, nat_eq, none, refl, string_eq, true, ◌∷◌, ◌≡◌, ◌≢◌}
use fastcopier.Base.Dict.{erase, insert, lookup}
use fastcopier.Base.Outcome.{Outcome, err, ok, out_of_fuel, panic}
use fastcopier.Cache.{PlanCache, plan_key_eq, simple_cache}
use fastcopier.Context.{
  CircularRefPolicy, circular_ref_error, circular_ref_skip, effective_tag_name, key_for, prepare,
  raise, reset,
}
use fastcopier.Entry.{custom_key_eq}
use fastcopier.Errors.{Error, circular_reference, wrapped}
use fastcopier.Execute.{
  check_circular_ref, copy_deferred, copy_field, copy_fields, copy_plan, copy_pointed, copy_ptr,
  copy_step, forget, forgetting, pointed_variable, pointer_of, resolving, then_forget,
  visit_pointer,
}
use fastcopier.Execution.Balance.{Worlds}
use fastcopier.Execution.Panics.{copy_plan-chan_panic, copy_plan-unexported_panic}
use fastcopier.Execution.Policies.{copy_plan-circular, copy_plan-under_construction}
use fastcopier.Execution.Visited.{copy_plan-visited}
use fastcopier.Fields.{
  FieldMeta, add_direct, apply_tag, apply_value, direct_loop, direct_step, is_done, is_nillable,
  mark_done, parse_struct_fields, split_comma,
}
use fastcopier.Flat.{compute_flat_type, flat_fields, is_flat_type, is_scalar, scalar_kinds}
use fastcopier.Plan.{
  Plan, absent, append_plan, chan_plan, deferred_plan, deref_plan, ptr_plan, skip_plan,
}
use fastcopier.Reflect.{
  elem_at, field_of, is_nil, load, new_place, put, set_new, set_zero, zero_at, zero_fields, zero_of,
  zero_value,
}
use fastcopier.Reflect.Machine.{Ref, System, exported, loaded}
use fastcopier.Resolve.{
  build_field_plan, check_required, make_field_plan, match_key, match_keys, missing_required,
  ptr_plan_init, resolve_by_kind, resolve_plan, resolve_pointer_plan, resolve_step,
  resolve_struct_src_plan, struct_plan_init,
}
use fastcopier.Store.{
  address, allocate, get_value, items, no_values, null, read_at, read_place, set_value, value,
  write_at, write_place,
}
use fastcopier.Tests.Memory.{env, heap, place, system, variable}
use fastcopier.Tests.Sample.{
  hidden, hidden_field, int_channel, int_type, linked, linked_pointer, string_channel, string_type,
}

abbrev Y : System
Y = system circular_ref_error

abbrev plan_of : Outcome Error Plan → Plan
plan_of (ok p) = p
plan_of _ = skip_plan

abbrev built : CircularRefPolicy → Outcome Error Plan × PlanCache.State (simple_cache Plan)
built c = resolve_plan (env c) (simple_cache Plan) 6 linked linked []

abbrev before : (c : CircularRefPolicy) → Worlds (system c)
before c = record { heap = heap; plans = (built c).1; visited = [] }

-- The node that points to itself is copied to a node with a nil pointer.
abbrev looped : (c : CircularRefPolicy) → Outcome Error (Unit {0}) × Worlds (system c)
looped c =
    copy_plan (system c) 12 (plan_of (built c).0) (place linked 0) (place linked 1) (before c)

looped_error : (looped circular_ref_error).0 ≡ err (wrapped circular_reference "")
unfolding resolve_plan resolve_step resolve_by_kind resolve_struct_src_plan struct_plan_init
    match_keys match_key build_field_plan check_required missing_required is_flat_type
    compute_flat_type parse_struct_fields direct_loop direct_step add_direct apply_tag apply_value
    split_comma lookup insert erase is_scalar prepare raise reset key_for mark_done is_done
    append_plan scalar_kinds effective_tag_name resolve_pointer_plan ptr_plan_init flat_fields
    copy_plan copy_step copy_fields copy_field field_of load read_place read_at get_value copy_ptr
    copy_pointed check_circular_ref is_nil is_nillable pointer_of visit_pointer then_forget
    forgetting elem_at pointed_variable set_new zero_at zero_value zero_of zero_fields new_place
    allocate put write_place write_at set_value copy_deferred resolving forget set_zero
looped_error = refl

abbrev result : Outcome Error (Unit {0})
result = err (wrapped circular_reference "")

result-ne-panic : result ≢ panic
result-ne-panic h = cc

result-ne-out_of_fuel : result ≢ out_of_fuel
result-ne-out_of_fuel h = cc

copy_plan-visited_example : (looped circular_ref_error).1.visited ≡ []
copy_plan-visited_example =
    copy_plan-visited Y 12 (plan_of (built circular_ref_error).0) (place linked 0) (place linked 1)
      (before circular_ref_error) (rw looped_error result-ne-panic)
      (rw looped_error result-ne-out_of_fuel)

-- Under the other policy the copy is a node that points to a new node with a nil pointer.
looped_skip :
    ((looped circular_ref_skip).0 ≡ ok tt)
    × ((looped circular_ref_skip).1.heap.block 0 ≡ items (value (address (variable 3)) no_values))
    × ((looped circular_ref_skip).1.heap.block 3 ≡ items (value null no_values))
    × ((looped circular_ref_skip).1.heap.block 1 ≡ items (value (address (variable 1)) no_values))
unfolding resolve_plan resolve_step resolve_by_kind resolve_struct_src_plan struct_plan_init
    match_keys match_key build_field_plan check_required missing_required is_flat_type
    compute_flat_type parse_struct_fields direct_loop direct_step add_direct apply_tag apply_value
    split_comma lookup insert erase is_scalar prepare raise reset key_for mark_done is_done
    append_plan scalar_kinds effective_tag_name resolve_pointer_plan ptr_plan_init flat_fields
    copy_plan copy_step copy_fields copy_field field_of load read_place read_at get_value copy_ptr
    copy_pointed check_circular_ref is_nil is_nillable pointer_of visit_pointer then_forget
    forgetting elem_at pointed_variable set_new zero_at zero_value zero_of zero_fields new_place
    allocate put write_place write_at set_value copy_deferred resolving forget set_zero
looped_skip = (refl, refl, refl, refl)

-- The pointer in the node, with its target marked.
abbrev pointer : Ref
pointer = record { typ = linked_pointer; spot = loaded (address (variable 1)); mark = exported }

abbrev marked : (c : CircularRefPolicy) → Worlds (system c)
marked c = record { heap = heap; plans = []; visited = 4160 ∷ [] }

copy_plan-circular_example :
    (copy_plan Y 1 (ptr_plan skip_plan) (place linked_pointer 0) pointer (marked circular_ref_error)
      ≡ (err (wrapped circular_reference ""), marked circular_ref_error))
    × (copy_plan Y 1
          (deref_plan skip_plan)
          (place linked_pointer 0)
          pointer
          (marked circular_ref_error)
        ≡ (err (wrapped circular_reference ""), marked circular_ref_error))
unfolding load prepare raise reset
copy_plan-circular_example =
    copy_plan-circular Y pointer (marked circular_ref_error) (variable 1) refl refl refl 0 skip_plan
      (place linked_pointer 0)

-- A cache in which another goroutine builds the plan for the nodes.
abbrev building : Worlds Y
building = record {
  heap = heap;
  plans = (key_for Y.env.ctx linked linked, none) ∷ [];
  visited = [];
}

copy_plan-under_construction_example :
    copy_plan Y 50 (deferred_plan linked linked) (place linked 0) (place linked 1) building
    ≡ (out_of_fuel, building)
unfolding is_flat_type compute_flat_type flat_fields is_scalar scalar_kinds key_for lookup insert
    prepare reset
copy_plan-under_construction_example =
    copy_plan-under_construction Y linked linked _ _
      ((linked_pointer, false) ∷ (linked, false) ∷ []) refl refl refl refl 50 (place linked 0)
      (place linked 1) building refl

abbrev start : Worlds Y
start = record { heap = heap; plans = []; visited = [] }

channels_panic :
    (resolve_plan Y.env Y.cache 1 int_channel string_channel [] ≡ (ok chan_plan, []))
    × ((copy_plan Y 1 chan_plan (place int_channel 2) (place string_channel 2) start).0 ≡ panic)
unfolding lookup
channels_panic =
    copy_plan-chan_panic Y 0 0 int_type string_type (place int_channel 2) (place string_channel 2)
      start refl refl refl refl refl

abbrev hidden_meta : FieldMeta
hidden_meta = record {
  field = hidden_field;
  key = "n";
  ignored = false;
  required = false;
  nil_on_zero = false;
  renamed = false;
  index = 0 ∷ [];
  nested = [];
}

copy_plan-unexported_panic_example :
    (build_field_plan Y.env Y.cache
        (resolve_plan Y.env Y.cache 3)
        hidden
        hidden
        hidden_meta
        hidden_meta
        []
      ≡ (ok (make_field_plan hidden_meta hidden_meta absent), []))
    × ((copy_plan Y 2
          (make_field_plan hidden_meta hidden_meta absent)
          (place hidden 0)
          (place hidden 1)
          start).0
        ≡ panic)
unfolding is_flat_type compute_flat_type is_scalar scalar_kinds lookup insert prepare reset
copy_plan-unexported_panic_example =
    copy_plan-unexported_panic Y 1 0 0 (hidden_field ∷ []) (hidden_field ∷ []) hidden_meta
      hidden_meta (resolve_plan Y.env Y.cache 3) hidden hidden ((int_type, true) ∷ []) []
      (place hidden 0) (place hidden 1) start refl refl refl refl refl refl refl refl (inl refl)
      refl
