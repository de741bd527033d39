-- ===== src/Execution/Pointers.antt =====
-- A pointer that is copied into a nil one: ptrPlan.Copy of plans.go.
use fastcopier.Base.{
  ==_refl, Bool-cases, List, [], contains, false, inl, inr, list_eq, nat_eq, refl, some, string_eq,
  suc, true, ℕ, ◌==◌, ◌∙◌, ◌∷◌, ◌≡◌,
}
use fastcopier.Base.Outcome.{ok}
use fastcopier.Execute.{
  check_circular_ref, copy_plan, copy_pointed, copy_ptr, copy_step, forgetting, pointed_variable,
  pointer_of, then_forget, visit_pointer,
}
use fastcopier.Execution.Balance.{Worlds}
use fastcopier.Execution.Cycles.{forget-first}
use fastcopier.Execution.Memory.{read_place-allocate, read_place-other, read_place-write_place}
use fastcopier.Fields.{is_nillable}
use fastcopier.GoTypes.{iface_kind, kind, pointer}
use fastcopier.Plan.{assign_plan, ptr_plan}
use fastcopier.Reflect.{
  elem_at, is_nil, load, new_place, put, set_new, set_to, wrap, zero_at, zero_value,
}
use fastcopier.Reflect.Machine.{Ref, System, at, exported}
use fastcopier.Store.{
  Heap, Place, Value, address, allocate, null, read_place, write_at, write_place,
}

module _ (Y : System) (t u : ℕ) (is_pointer : Y.env.T.desc t ≡ pointer u)
    (assigns : Y.machine.assignable u u ≡ true) (z : Value)
    (zeros : zero_value Y.env.T Y.env.depth u ≡ ok z) where
  abbrev pub variable_at : ℕ → Place → Ref
  variable_at typ p = record { typ = typ; spot = at p; mark = exported }

  -- The block that the next allocation makes.
  abbrev pub next_place : Worlds Y → Place
  next_place w = record { block = w.heap.next; path = [] }

  unwrapped_value : (v : Value) → wrap Y u u v ≡ v
  unwrapped_value v = elim (Bool-cases (kind Y.env.T u == iface_kind)) [
    | inl e ↦ rw e refl
    | inr e ↦ rw e refl
  ]

  module _ (p q r : Place) (w : Worlds Y) (v : Value) (nil : read_place w.heap p ≡ some null)
      (points : read_place w.heap r ≡ some (address q)) (holds : read_place w.heap q ≡ some v)
      (old : (p.block == w.heap.next) ≡ false) (old_target : (q.block == w.heap.next) ≡ false)
      (apart : (q.block == p.block) ≡ false) where
    -- The memory with the new variable and the pointer to it.
    abbrev made : Heap
    made = write_place p (address (next_place w)) (allocate z w.heap)

    made-points : read_place made p ≡ some (address (next_place w))
    made-points =
        read_place-write_place (allocate z w.heap) p null _
          (read_place-allocate w.heap p z old ∙ nil)

    made-holds : read_place made q ≡ some v
    made-holds =
        read_place-other (allocate z w.heap) p q _ apart
        ∙ read_place-allocate w.heap q z old_target
        ∙ holds

    pointed :
        (marks : List ℕ)
        → pointed_variable Y (variable_at t p) (record w { visited = marks })
          ≡ (ok (variable_at u (next_place w)), record w { heap = made; visited = marks })
    unfolding pointed_variable is_nil is_nillable load set_new zero_at new_place put elem_at
    pointed marks = rw is_pointer (rw nil (rw zeros (rw made-points (rw is_pointer refl))))

    abbrev final : Heap
    final = write_place (next_place w) v made

    assigned :
        (marks : List ℕ)
        → set_to Y
            (variable_at u (next_place w))
            (variable_at u q)
            (record w { heap = made; visited = marks })
          ≡ (ok tt, record w { heap = final; visited = marks })
    unfolding set_to load put
    assigned marks = rw assigns (rw made-holds (rw (unwrapped_value v) refl))

    module _ (new : contains w.visited (Y.machine.address_of q) ≡ false) where
      abbrev mark : ℕ
      mark = Y.machine.address_of q

      abbrev marked : List ℕ → Worlds Y
      marked marks = record w { visited = marks }

      not_nil :
          (marks : List ℕ) → is_nil Y (variable_at t r) (marked marks) ≡ (ok false, marked marks)
      unfolding is_nil is_nillable load
      not_nil marks = rw is_pointer (rw points refl)

      marks_with :
          (marks : List ℕ) → pointer_of Y (variable_at t r) (marked marks) ≡ (ok mark, marked marks)
      unfolding pointer_of load
      marks_with marks = rw points refl

      target_of :
          (marks : List ℕ)
          → elem_at Y (variable_at t r) (marked marks) ≡ (ok (some (variable_at u q)), marked marks)
      unfolding elem_at load
      target_of marks = rw is_pointer (rw points (rw is_pointer refl))

      copied :
          (fuel : ℕ)
          → copy_plan Y
              (suc (suc fuel))
              (ptr_plan assign_plan)
              (variable_at t p)
              (variable_at t r)
              w
            ≡ (ok tt, record w { heap = final })
      unfolding copy_plan copy_step copy_ptr copy_pointed check_circular_ref visit_pointer
          then_forget forgetting
      copied fuel = rw (not_nil w.visited) (
          rw (marks_with w.visited) (
            rw new (
              rw (not_nil (mark ∷ w.visited)) (
                rw (marks_with (mark ∷ w.visited)) (
                  rw (target_of (mark ∷ w.visited)) (
                    rw (pointed (mark ∷ w.visited)) (
                      rw (assigned (mark ∷ w.visited))
                        (rw (forget-first mark w.visited new) refl))))))))

      final-pointer : read_place final p ≡ some (address (next_place w))
      final-pointer = read_place-other made (next_place w) p v old ∙ made-points

      final-value : final.block w.heap.next ≡ v
      unfolding write_place write_at
      final-value = rw (==_refl w.heap.next) refl

      final-others :
          (b : ℕ)
          → (b == p.block) ≡ false
          → (b == w.heap.next) ≡ false
          → final.block b ≡ w.heap.block b
      unfolding write_place allocate
      final-others b other fresh = rw fresh (rw other refl)

      -- Copying a pointer to a value that is set as a whole, where the destination is nil: the
      -- destination points to a new variable, not to that of the source, the new variable holds the
      -- value, no other block changes, and no mark stays. The pointer is not one that is being
      -- copied, and what it points to is in another block than the destination.
      pub copy_plan-fresh_pointer :
          (fuel b : ℕ)
          → (b == p.block) ≡ false
          → (b == w.heap.next) ≡ false
          → let r' =
              copy_plan Y
                (suc (suc fuel))
                (ptr_plan assign_plan)
                (variable_at t p)
                (variable_at t r)
                w in
            (r'.0 ≡ ok tt)
            × (read_place r'.1.heap p ≡ some (address (next_place w)))
            × (r'.1.heap.block w.heap.next ≡ v)
            × (r'.1.heap.block b ≡ w.heap.block b)
            × (r'.1.visited ≡ w.visited)
      copy_plan-fresh_pointer fuel b other fresh =
          rw (copied fuel) (refl, final-pointer, final-value, final-others b other fresh, refl)
