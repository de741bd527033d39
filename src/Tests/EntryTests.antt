-- ===== src/Tests/EntryTests.antt =====
-- Calls of the entry points, and the theorems on them at concrete arguments.
use fastcopier.Base.{
  All, Option, [], if◌then◌else◌, list_eq, nat_eq, none, refl, some, string_eq, true, ℕ, ◌*◌, ◌+◌,
  ◌==◌, ◌∷◌, ◌≡◌, ◌⊎◌,
}
use fastcopier.Base.Dict.{insert, lookup}
use fastcopier.Base.Outcome.{err, ok, panic}
use fastcopier.Cache.{new_sharded_cache, plan_key_eq, sharded_get}
use fastcopier.Context.{apply_options, new_context, reset, with_skip_zero_fields}
use fastcopier.Entry.{
  Operand, Process, Runtime, clone, copy, custom_key_eq, for_copy, inspect_arguments, merge,
  must_register, nil_destination, pool_get, pool_of, register_copier, validate_and_deref,
}
use fastcopier.Entry.Checks.{
  checked, copy-refused, is_nil_pointer, is_pointer, nil_pointer, points_to,
  validate_and_deref-checked,
}
use fastcopier.Entry.FlatCopies.{copy-flat}
use fastcopier.Entry.FlatClones.{clone-flat}
use fastcopier.Entry.Merging.{SameButPools, merge-copy}
use fastcopier.Entry.Pools.{after, copies, pool_get-Reachable, start}
use fastcopier.Entry.Registered.{copy-registered}
use fastcopier.Flat.{compute_flat_type, flat_fields, is_flat_type, is_scalar, scalar_kinds}
use fastcopier.Generated.{Setting, run_stmts}
use fastcopier.Generated.Assigns.{Distinct, assigns}
use fastcopier.Generated.Registered.{copy-generated, copy-generated-engine}
use fastcopier.Generated.Struct.{IsOwn, copier_stmts, copier_stmts-assigns}
use fastcopier.Generator.Kinds.{flat_go_desc, is_flat_go_type}
use fastcopier.Generator.Lines.{Generator}
use fastcopier.Generator.Source.{new_generator}
use fastcopier.Generator.Universe.{Universe, named}
use fastcopier.GoTypes.{pointer}
use fastcopier.Reflect.{zero_fields, zero_of, zero_value}
use fastcopier.Reflect.Machine.{Ref, at, exported}
use fastcopier.Store.{
  Heap, Value, address, allocate, count_values, items, no_values, null, read_at, read_place, text,
  value, word, write_place,
}
use fastcopier.Tests.Memory.{heap, machine, slims_order, variable}
use fastcopier.Tests.Sample.{
  user_fields, user, describe, int_type, linked, linked_pointer, order, string_type, types,
}

abbrev runtime : Runtime
runtime = record {
  T = types;
  str_type = string_type;
  pointer_to = λ t. if t == linked then linked_pointer else t;
  range = order;
  range_slims = slims_order;
  data_pointer = λ t. 4096 + 96 * t;
  machine = machine;
  pick = λ cs. 0;
  depth = 5;
  fuel = 20;
}

abbrev process : Process
process = record {
  heap = heap;
  global_cache = new_sharded_cache;
  ctx_pool = [];
  merge_ctx_pool = [];
  default_tag_name = "fastcopier";
  custom_registry = [];
}

-- A pointer to the node in a block.
abbrev node_at : ℕ → Option Operand
node_at b = some (record { typ = linked_pointer; value = address (variable b) })

abbrev node_ref : ℕ → Ref
node_ref b = record { typ = linked; spot = at (variable b); mark = exported }

validate_and_deref-checked_example :
    validate_and_deref types (node_at 0) (node_at 1)
    ≡ checked (points_to (node_ref 0)) (points_to (node_ref 1))
validate_and_deref-checked_example =
    validate_and_deref-checked types (node_at 0) (node_at 1) (points_to (node_ref 0))
      (points_to (node_ref 1)) (is_pointer linked_pointer linked (variable 0) refl)
      (is_pointer linked_pointer linked (variable 1) refl)

abbrev nil_node : Option Operand
nil_node = some (record { typ = linked_pointer; value = null })

copy-refused_example :
    (copy runtime nil_node (node_at 1) [] process ≡ (err nil_destination, process))
    × (merge runtime nil_node (node_at 1) [] process ≡ (err nil_destination, process))
    × (inspect_arguments runtime nil_node (node_at 1) [] process ≡ (err nil_destination, process))
    × (must_register runtime nil_node (node_at 1) [] process ≡ (panic, process))
unfolding checked
copy-refused_example =
    copy-refused runtime nil_node (node_at 1) nil_pointer (points_to (node_ref 1)) nil_destination
      [] process (is_nil_pointer linked_pointer linked refl)
      (is_pointer linked_pointer linked (variable 1) refl) refl

-- After one call of Copy.
pool_get-Reachable_example :
    ((pool_get runtime (
        pool_of for_copy
          (copy runtime (node_at 0) (node_at 1) (with_skip_zero_fields true ∷ []) process).1)).0
      ≡ new_context)
    ⊎ ((pool_get runtime (
          pool_of for_copy
            (copy runtime (node_at 0) (node_at 1) (with_skip_zero_fields true ∷ []) process).1)).0
        ≡ reset new_context)
pool_get-Reachable_example =
    pool_get-Reachable runtime
      (copy runtime (node_at 0) (node_at 1) (with_skip_zero_fields true ∷ []) process).1 for_copy
      (after (start process refl refl)
        (copies (node_at 0) (node_at 1) (with_skip_zero_fields true ∷ []) process))

merge-copy_example :
    SameButPools
      (merge runtime (node_at 0) (node_at 1) [] process)
      (copy runtime (node_at 0) (node_at 1) (with_skip_zero_fields true ∷ []) process)
merge-copy_example = merge-copy runtime (node_at 0) (node_at 1) process refl

copy-registered_example :
    let r = copy runtime (node_at 0) (node_at 1) [] (register_copier linked linked 7 process) in
    (r.0 ≡ ok tt)
    × (r.1.heap ≡ write_place (variable 0) (word 7) heap)
    × (r.1.global_cache ≡ new_sharded_cache)
unfolding validate_and_deref
copy-registered_example =
    copy-registered linked linked 7 (variable 0) (variable 1) runtime 19 refl (node_at 0)
      (node_at 1) [] process refl

-- A user with a name, an age and a password, at block 3, and one without at block 4.
abbrev alice : Value
alice = items (value (text "alice") (value (word 30) (value (text "secret") no_values)))

abbrev nobody : Value
nobody = items (value (text "") (value (word 0) (value (text "") no_values)))

abbrev user_pointer : ℕ
user_pointer = 20

abbrev users : Heap
users = allocate nobody (allocate alice heap)

-- A runtime with the type of pointers to users.
abbrev with_users : Runtime
with_users = record runtime {
  T = record types { desc = λ t. if t == user_pointer then pointer user else describe t };
  pointer_to = λ t. if t == user then user_pointer else t;
}

abbrev user_at : ℕ → Option Operand
user_at b = some (record { typ = user_pointer; value = address (variable b) })

copy-flat_example :
    ((copy with_users (user_at 4) (user_at 3) [] (record process { heap = users })).0 ≡ ok tt)
    × ((copy with_users (user_at 4) (user_at 3) [] (record process { heap = users })).1.heap
        ≡ write_place (variable 4) alice users)
unfolding validate_and_deref is_flat_type compute_flat_type flat_fields is_scalar scalar_kinds
    lookup insert pool_get apply_options sharded_get new_sharded_cache read_place read_at allocate
copy-flat_example =
    copy-flat user with_users user_fields
      ((string_type, true) ∷ (int_type, true) ∷ (user, true) ∷ []) 19 refl refl refl refl
      (user_at 4) (user_at 3) (variable 4) (variable 3) alice [] (record process { heap = users })
      refl refl refl refl refl refl

clone-flat_example : (clone with_users user alice [] process).0 ≡ ok (none, alice)
unfolding is_flat_type compute_flat_type flat_fields is_scalar scalar_kinds lookup insert pool_get
    apply_options sharded_get new_sharded_cache zero_value zero_of zero_fields
clone-flat_example =
    clone-flat user with_users user_fields
      ((string_type, true) ∷ (int_type, true) ∷ (user, true) ∷ []) 19 refl refl refl refl alice
      nobody [] process refl refl refl refl refl refl

-- The copier of users that the generator would write is registered as number 9.
abbrev setting : Setting
setting = record { T = with_users.T; depth = 5; visit = λ es. es; callee = λ fn p q h. (ok tt, h) }

abbrev generating : Runtime
generating = record with_users {
  machine = record machine {
    registered = λ fn. run_stmts setting user_fields user_fields (assigns user_fields);
  };
}

users_generated :
    let r =
      copy generating
        (user_at 4)
        (user_at 3)
        []
        (register_copier user user 9 (record process { heap = users })) in
    (r.0 ≡ ok tt) × (r.1.heap ≡ write_place (variable 4) alice users)
unfolding validate_and_deref read_place read_at allocate count_values
users_generated =
    copy-generated generating setting 19 user 9 user_fields refl
      ((refl, (refl, tt)), ((refl, tt), (tt, tt))) (λ p q. refl) (user_at 4) (user_at 3)
      (variable 4) (variable 3)
      (value (text "alice") (value (word 30) (value (text "secret") no_values)))
      (value (text "") (value (word 0) (value (text "") no_values))) []
      (record process { heap = users }) refl refl refl refl refl refl

abbrev users_universe : Universe
users_universe = record {
  types = with_users.T;
  form = λ t. named "User";
  struct_id = λ t. t;
  type_string = λ qualifier t. "User";
}

abbrev users_generator : Generator
users_generator =
    new_generator (record { name = "users"; path = "example.com/users"; scope = λ n. some user }) []

users-IsOwn : All IsOwn user_fields
users-IsOwn = ((refl, refl), ((refl, refl), ((refl, refl), tt)))

users-Distinct : Distinct user_fields
users-Distinct = ((refl, (refl, tt)), ((refl, tt), (tt, tt)))

users_flat : All (λ sf. is_flat_go_type users_universe 3 sf.typ ≡ ok true) user_fields
unfolding is_flat_go_type flat_go_desc
users_flat = (refl, (refl, (refl, tt)))

users_made :
    copier_stmts users_universe users_generator 3
      (record { typ = user; name = "User" })
      (record { typ = user; name = "User" })
    ≡ ok (assigns user_fields)
users_made =
    copier_stmts-assigns users_universe users_generator 2 user "User" user_fields refl users-IsOwn
      users-Distinct users_flat

copy-generated-engine_example :
    let g =
      copy generating
        (user_at 4)
        (user_at 3)
        []
        (register_copier user user 9 (record process { heap = users })) in
    let h = copy generating (user_at 4) (user_at 3) [] (record process { heap = users }) in
    (g.0 ≡ h.0) × (g.1.heap ≡ h.1.heap) × (h.1.heap ≡ write_place (variable 4) alice users)
unfolding validate_and_deref is_flat_type compute_flat_type flat_fields is_scalar scalar_kinds
    lookup insert pool_get apply_options sharded_get new_sharded_cache read_place read_at allocate
    count_values is_flat_go_type flat_go_desc
copy-generated-engine_example =
    copy-generated-engine generating setting 19 user 9 user_fields refl users_universe
      users_generator 2 "User" (assigns user_fields) refl users-IsOwn users-Distinct users_flat
      users_made (λ p q. refl) ((string_type, true) ∷ (int_type, true) ∷ (user, true) ∷ [])
      (user_at 4) (user_at 3) (variable 4) (variable 3)
      (value (text "alice") (value (word 30) (value (text "secret") no_values)))
      (value (text "") (value (word 0) (value (text "") no_values))) []
      (record process { heap = users }) refl refl refl refl refl refl refl refl refl refl refl refl
      refl
