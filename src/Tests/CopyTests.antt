-- ===== src/Tests/CopyTests.antt =====
-- Copies of a pointer and of a slice into nil ones, and the theorems on them.
use fastcopier.Base.{[], list_eq, nat_eq, refl, some, string_eq, true, ◌≡◌}
use fastcopier.Base.Outcome.{Outcome, ok}
use fastcopier.Context.{circular_ref_error}
use fastcopier.Errors.{Error}
use fastcopier.Execute.{copy_plan}
use fastcopier.Execution.Balance.{Worlds}
use fastcopier.Execution.FreshSlices.{copy_plan-fresh_slice}
use fastcopier.Execution.Items.{taken}
use fastcopier.Execution.Pointers.{copy_plan-fresh_pointer}
use fastcopier.Generated.{Copier, run_at}
use fastcopier.Generated.Engine.{Agree, beside, pointer_deref-copy_plan, slice_copy-copy_plan}
use fastcopier.Generator.Code.{Callee, pointer_deref, slice_copy}
use fastcopier.Plan.{assign_plan, ptr_plan, slice_plan}
use fastcopier.Reflect.{zero_fields, zero_of, zero_value}
use fastcopier.Reflect.Machine.{System}
use fastcopier.Store.{
  Heap, Values, address, allocate, get_value, items, no_values, null, read_at, read_place, value,
  view, word,
}
use fastcopier.Tests.Memory.{heap, place, system, variable}
use fastcopier.Tests.Sample.{int_slice, int_type, linked, linked_pointer}

abbrev Y : System
Y = system circular_ref_error

-- Block 3 is a pointer to the node in block 1, block 4 a nil pointer.
abbrev pointers : Heap
pointers = allocate null (allocate (address (variable 1)) heap)

abbrev with_pointers : Worlds Y
with_pointers = record { heap = pointers; plans = []; visited = [] }

abbrev node_copied : Outcome Error (Unit {0}) × Worlds Y
node_copied =
    copy_plan Y 2 (ptr_plan assign_plan) (place linked_pointer 4) (place linked_pointer 3)
      with_pointers

copy_plan-fresh_pointer_example :
    (node_copied.0 ≡ ok tt)
    × (read_place node_copied.1.heap (variable 4) ≡ some (address (variable 5)))
    × (node_copied.1.heap.block 5 ≡ items (value (address (variable 1)) no_values))
    × (node_copied.1.heap.block 1 ≡ pointers.block 1)
    × (node_copied.1.visited ≡ [])
unfolding allocate zero_value zero_of zero_fields read_place read_at
copy_plan-fresh_pointer_example =
    copy_plan-fresh_pointer Y linked_pointer linked refl refl (items (value null no_values)) refl
      (variable 4) (variable 1) (variable 3) with_pointers
      (items (value (address (variable 1)) no_values)) refl refl refl refl refl refl refl 0 1 refl
      refl

-- Block 3 has three numbers, the slice in block 4 views the last two, and block 5 is a nil slice.
abbrev numbers : Values
numbers = value (word 1) (value (word 2) (value (word 3) no_values))

abbrev last_two : Values
last_two = value (word 2) (value (word 3) no_values)

abbrev slices : Heap
slices = allocate null (allocate (view (variable 3) 1 2 2) (allocate (items numbers) heap))

abbrev with_slices : Worlds Y
with_slices = record { heap = slices; plans = []; visited = [] }

abbrev slice_copied : Outcome Error (Unit {0}) × Worlds Y
slice_copied =
    copy_plan Y 1 (slice_plan assign_plan true) (place int_slice 5) (place int_slice 4) with_slices

copy_plan-fresh_slice_example :
    (slice_copied.0 ≡ ok tt)
    × (read_place slice_copied.1.heap (variable 5) ≡ some (view (variable 6) 0 2 2))
    × (slice_copied.1.heap.block 6 ≡ items last_two)
    × (slice_copied.1.heap.block 3 ≡ slices.block 3)
    × (slice_copied.1.visited ≡ [])
unfolding allocate zero_value zero_of read_place read_at taken get_value
copy_plan-fresh_slice_example =
    copy_plan-fresh_slice Y int_slice int_type refl (variable 5) (variable 3) (variable 4) 1 1 2
      numbers last_two with_slices (word 0) refl refl refl refl refl refl refl refl refl 0 3 refl
      refl

-- Generated code whose calls do nothing.
abbrev idle : Callee → Copier
idle fn p q h = (ok tt, h)

abbrev slice_stated : Outcome Error (Unit {0}) × Heap
slice_stated =
    run_at (beside Y (λ es. es) idle) (slice_copy "Scores" int_slice) (variable 5) (variable 4)
      slices

slice_copy-copy_plan_example :
    (slice_stated.0 ≡ slice_copied.0) × Agree (variable 5) slice_stated.1 slice_copied.1.heap
unfolding allocate zero_value zero_of read_place read_at taken get_value
slice_copy-copy_plan_example =
    slice_copy-copy_plan Y (λ es. es) idle "Scores" int_slice int_type (variable 5) (variable 3)
      (variable 4) 1 1 2 numbers last_two with_slices (word 0) refl refl refl refl refl refl refl
      refl refl refl refl refl 0

abbrev node_stated : Outcome Error (Unit {0}) × Heap
node_stated =
    run_at (beside Y (λ es. es) idle) (pointer_deref "Next") (variable 4) (variable 3) pointers

pointer_deref-copy_plan_example :
    (node_stated.0 ≡ node_copied.0) × Agree (variable 4) node_stated.1 node_copied.1.heap
unfolding allocate zero_value zero_of zero_fields read_place read_at
pointer_deref-copy_plan_example =
    pointer_deref-copy_plan Y (λ es. es) idle "Next" linked_pointer linked refl refl
      (items (value null no_values)) refl (variable 4) (variable 1) (variable 3) with_pointers
      (items (value (address (variable 1)) no_values)) refl refl refl refl refl refl refl 0
