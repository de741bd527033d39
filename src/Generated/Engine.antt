-- ===== src/Generated/Engine.antt =====
-- The statements of generated copiers against the plans of the engine that are chosen for the same
-- fields: plan_slice.go and plans.go.
use fastcopier.Base.{
  ℕ, suc, String, ◌≡◌, refl, sym, ◌∙◌, true, false, [], leb, ◌==◌, ==_comm, ==_refl, nat_eq,
  list_eq, string_eq, some, arith, inl, inr, Bool-cases, eqb_iff, contains,
}
use fastcopier.Base.Outcome.{ok}
use fastcopier.Execute.{copy_plan}
use fastcopier.Execution.Balance.{Worlds}
use fastcopier.Execution.FreshSlices.{copy_plan-fresh_slice}
use fastcopier.Execution.Memory.{read_place-write_place, read_place-allocate}
use fastcopier.Execution.Items.{taken}
use fastcopier.Execution.Pointers.{variable_at, copy_plan-fresh_pointer}
use fastcopier.Execution.Slices.{slice_at}
use fastcopier.Generated.{Copier, Setting, run_at, copy_deref_field, load_at, store_at, new_block}
use fastcopier.Generated.Slices.{run_at-fresh_slice}
use fastcopier.Generator.Code.{Callee, slice_copy, pointer_deref}
use fastcopier.GoTypes.{slice, pointer}
use fastcopier.Plan.{assign_plan, ptr_plan, slice_plan}
use fastcopier.Reflect.{zero_value}
use fastcopier.Reflect.Machine.{System}
use fastcopier.Store.{
  Entries, Heap, Place, Value, Values, address, items, null, read_place, view, write_place,
  allocate,
}
use mathlib.Core.Path.{subst}

-- The same variable holds the same, and so does every other block.
abbrev pub Agree : Place → Heap → Heap → Type 0
Agree p g h =
    (read_place g p ≡ read_place h p) × ((b : ℕ) → (b == p.block) ≡ false → g.block b ≡ h.block b)

-- Blocks agree if the new one does and the others do.
Agree-blocks :
    (p : Place) (g h : Heap) (next : ℕ)
    → read_place g p ≡ read_place h p
    → g.block next ≡ h.block next
    → ((b : ℕ) → (b == p.block) ≡ false → (b == next) ≡ false → g.block b ≡ h.block b)
    → Agree p g h
Agree-blocks p g h next reads new others = (
  reads,
  λ b other. elim (Bool-cases (b == next)) [
    | inr old ↦ others b other old
    | inl here ↦ subst (λ x. g.block x ≡ h.block x) (sym ((eqb_iff b next).0 here)) new
  ],
)

module _ (Y : System) (visit : Entries → Entries) (callee : Callee → Copier) where
  -- Generated code over the same types.
  abbrev pub beside : Setting
  beside = record { T = Y.env.T; depth = Y.env.depth; visit = visit; callee = callee }

  module _ (f : String) (t e : ℕ) (p q r : Place) (off m c : ℕ) (vs ws : Values) (w : Worlds Y)
      (z : Value) (is_slice : Y.env.T.desc t ≡ slice e)
      (zeros : zero_value Y.env.T Y.env.depth e ≡ ok z) (assigns : Y.machine.assignable t t ≡ true)
      (nil : read_place w.heap p ≡ some null)
      (views : read_place w.heap r ≡ some (view q off (suc m) c))
      (holds : read_place w.heap q ≡ some (items vs)) (has : taken vs off (suc m) ≡ some ws)
      (old : (p.block == w.heap.next) ≡ false) (old_header : (r.block == w.heap.next) ≡ false)
      (old_items : (q.block == w.heap.next) ≡ false) (header_apart : (r.block == p.block) ≡ false)
      (items_apart : (q.block == p.block) ≡ false) where
    no_room : leb (suc m) 0 ≡ false
    no_room = ground arith

    -- For a nil slice and a source with an item at least, the statement for slices of flat items
    -- and the plan of the engine have one result, and leave memories that agree, if the header of
    -- the source and its items are in other blocks than the destination.
    pub slice_copy-copy_plan :
        (fuel : ℕ)
        → let g = run_at beside (slice_copy f t) p r w.heap in
          let h =
            copy_plan Y
              (suc fuel)
              (slice_plan assign_plan true)
              (slice_at Y t e is_slice p)
              (slice_at Y t e is_slice r)
              w in
          (g.0 ≡ h.0) × Agree p g.1 h.1.heap
    slice_copy-copy_plan fuel =
        let run =
          run_at-fresh_slice beside f t e p q r off (suc m) c vs ws w.heap z null is_slice zeros nil
            no_room views holds has old old_header old_items header_apart items_apart in
        let plan =
          copy_plan-fresh_slice Y t e is_slice p q r off m c vs ws w z zeros assigns nil views holds
            has old old_header old_items fuel in
        let one = run r.block header_apart old_header in
        let two = plan r.block header_apart old_header in
        (
          one.0 ∙ sym two.0,
          Agree-blocks p _ _ w.heap.next (one.1 ∙ sym two.1) (one.2 ∙ sym two.2)
              (λ b other fresh. (run b other fresh).3 ∙ sym (plan b other fresh).3),
        )

  module _ (f : String) (t u : ℕ) (is_pointer : Y.env.T.desc t ≡ pointer u)
      (assigns : Y.machine.assignable u u ≡ true) (z : Value)
      (zeros : zero_value Y.env.T Y.env.depth u ≡ ok z) (p q r : Place) (w : Worlds Y) (v : Value)
      (nil : read_place w.heap p ≡ some null) (points : read_place w.heap r ≡ some (address q))
      (holds : read_place w.heap q ≡ some v) (old : (p.block == w.heap.next) ≡ false)
      (old_target : (q.block == w.heap.next) ≡ false) (apart : (q.block == p.block) ≡ false)
      (new : contains w.visited (Y.machine.address_of q) ≡ false) where
    abbrev final : Heap
    final = write_place p (address (record { block = w.heap.next; path = [] })) (allocate v w.heap)

    ran : run_at beside (pointer_deref f) p r w.heap ≡ (ok tt, final)
    unfolding run_at copy_deref_field load_at store_at new_block
    ran = rw points (rw holds refl)

    final-pointer : read_place final p ≡ some (address (record { block = w.heap.next; path = [] }))
    final-pointer =
        read_place-write_place (allocate v w.heap) p null _
          (read_place-allocate w.heap p v old ∙ nil)

    final-value : final.block w.heap.next ≡ v
    unfolding write_place allocate
    final-value = rw (==_comm w.heap.next p.block) (rw old (rw (==_refl w.heap.next) refl))

    final-others :
        (b : ℕ)
        → (b == p.block) ≡ false
        → (b == w.heap.next) ≡ false
        → final.block b ≡ w.heap.block b
    unfolding write_place allocate
    final-others b other fresh = rw other (rw fresh refl)

    -- For a nil pointer and a source that points to a value, the statement that dereferences it
    -- and the plan of the engine for values that are set as a whole have one result, and leave
    -- memories that agree, if the target is in another block than the destination and the engine is
    -- not copying the pointer already.
    pub pointer_deref-copy_plan :
        (fuel : ℕ)
        → let g = run_at beside (pointer_deref f) p r w.heap in
          let h =
            copy_plan Y
              (suc (suc fuel))
              (ptr_plan assign_plan)
              (variable_at Y t u is_pointer assigns z zeros t p)
              (variable_at Y t u is_pointer assigns z zeros t r)
              w in
          (g.0 ≡ h.0) × Agree p g.1 h.1.heap
    pointer_deref-copy_plan fuel =
        let plan =
          copy_plan-fresh_pointer Y t u is_pointer assigns z zeros p q r w v nil points holds old
            old_target apart new fuel in
        let one = plan q.block apart old_target in
        rw ran (
          sym one.0,
          Agree-blocks p final _ w.heap.next (final-pointer ∙ sym one.1) (final-value ∙ sym one.2)
              (λ b other fresh. final-others b other fresh ∙ sym (plan b other fresh).3),
        )
