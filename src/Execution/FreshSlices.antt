-- ===== src/Execution/FreshSlices.antt =====
-- A slice that is copied as a whole into a nil one: the bulk path of slicePlan.Copy in plan_slice.go.
use fastcopier.Base.{
  ==_refl, Bool, [], ap, arith, false, if◌then◌else◌, leb, list_eq, ltb, nat_eq, refl, some,
  string_eq, suc, sym, true, ℕ, ◌+◌, ◌==◌, ◌∙◌, ◌≡◌,
}
use fastcopier.Base.Outcome.{ok}
use fastcopier.Execute.{copy_bulk, copy_plan, copy_slice, copy_step}
use fastcopier.Execution.Balance.{Worlds}
use fastcopier.Execution.Items.{count-repeat, count-taken, overwrite-all, taken}
use fastcopier.Execution.Memory.{read_place-allocate, read_place-write_place}
use fastcopier.Execution.Slices.{
  Wrote, length_out, length_source, not_nil_source, out, read_all, slice_at, write_all,
}
use fastcopier.GoTypes.{slice}
use fastcopier.Plan.{assign_plan, slice_plan}
use fastcopier.Reflect.{
  capacity_at, copy_items, load, make_slice, new_place, put, set_to, zero_at, zero_value,
}
use fastcopier.Reflect.Machine.{System}
use fastcopier.Store.{
  Heap, Place, Value, Values, allocate, items, null, read_place, repeat_value, view, write_place,
}

add_zero : (a : ℕ) → a + 0 ≡ a
add_zero a = omega arith

no_smaller : (m : ℕ) → leb (suc m) 0 ≡ false
no_smaller m = ground arith

either-same : (x : Bool) (n : ℕ) → (if x then n else n) ≡ n
either-same true n = refl
either-same false n = refl

module _ (Y : System) (t e : ℕ) (is_slice : Y.env.T.desc t ≡ slice e) where
  module _ (p q r : Place) (off m c : ℕ) (vs ws : Values) (w : Worlds Y) (z : Value)
      (zeros : zero_value Y.env.T Y.env.depth e ≡ ok z) (assigns : Y.machine.assignable t t ≡ true)
      (nil : read_place w.heap p ≡ some null)
      (views : read_place w.heap r ≡ some (view q off (suc m) c))
      (holds : read_place w.heap q ≡ some (items vs)) (has : taken vs off (suc m) ≡ some ws)
      (old : (p.block == w.heap.next) ≡ false) (old_header : (r.block == w.heap.next) ≡ false)
      (old_items : (q.block == w.heap.next) ≡ false) where
    abbrev fresh_items : Value
    fresh_items = items (repeat_value (suc m) z)

    abbrev allocated : Worlds Y
    allocated = record w { heap = allocate fresh_items w.heap }

    made : make_slice Y t (suc m) w ≡ (ok (out Y t e is_slice w.heap.next (suc m)), allocated)
    unfolding make_slice zero_at new_place
    made = rw is_slice (rw zeros refl)

    no_room : capacity_at Y (slice_at Y t e is_slice p) w ≡ (ok 0, w)
    unfolding capacity_at load
    no_room = rw is_slice (rw nil refl)

    filled : Wrote Y t e is_slice w.heap.next (suc m) allocated (repeat_value (suc m) z) ws 0
    unfolding allocate
    filled =
        write_all Y t e is_slice w.heap.next (suc m) ws (repeat_value (suc m) z) 0 allocated
          (rw (==_refl w.heap.next) refl) (count-repeat (suc m) z)
          (omega (arith, count-taken vs off (suc m) has))

    copied_items :
        copy_items Y (out Y t e is_slice w.heap.next (suc m)) (slice_at Y t e is_slice r) allocated
        ≡ (ok tt, record w { heap = filled.0 })
    unfolding copy_items
    copied_items =
        let views' = read_place-allocate w.heap r fresh_items old_header ∙ views in
        let holds' = read_place-allocate w.heap q fresh_items old_items ∙ holds in
        let has' : taken vs (off + 0) (suc m) ≡ some ws = rw (add_zero off) has in
        rw (length_out Y t e is_slice w.heap.next (suc m) allocated) (
          rw (length_source Y t e is_slice r q off (suc m) c vs allocated views' holds') (
            rw (either-same (ltb (suc m) (suc m)) (suc m)) (
              rw
                (read_all Y t e is_slice r q off (suc m) c vs allocated views' holds' (suc m) 0 ws
                  (omega arith) has')
                filled.1)))

    abbrev final : Heap
    final =
        write_place p (view (record { block = w.heap.next; path = [] }) 0 (suc m) (suc m)) filled.0

    still_nil : read_place filled.0 p ≡ some null
    unfolding read_place
    still_nil = rw (filled.3 p.block old) (read_place-allocate w.heap p fresh_items old ∙ nil)

    stored :
        set_to Y
          (slice_at Y t e is_slice p)
          (out Y t e is_slice w.heap.next (suc m))
          (record w { heap = filled.0 })
        ≡ (ok tt, record w { heap = final })
    unfolding set_to load put
    stored = rw assigns (rw is_slice refl)

    copied :
        (fuel : ℕ)
        → copy_plan Y
            (suc fuel)
            (slice_plan assign_plan true)
            (slice_at Y t e is_slice p)
            (slice_at Y t e is_slice r)
            w
          ≡ (ok tt, record w { heap = final })
    unfolding copy_plan copy_step copy_slice copy_bulk
    copied fuel = rw (length_source Y t e is_slice r q off (suc m) c vs w views holds) (
        rw is_slice (
          rw (not_nil_source Y t e is_slice r q off (suc m) c vs w views holds)
            (rw no_room (rw (no_smaller m) (rw made (rw copied_items (rw stored refl)))))))

    final-others :
        (b : ℕ)
        → (b == p.block) ≡ false
        → (b == w.heap.next) ≡ false
        → final.block b ≡ w.heap.block b
    unfolding write_place allocate
    final-others b other fresh = rw other (filled.3 b fresh ∙ untouched b fresh)
      where
        untouched :
            (b : ℕ)
            → (b == w.heap.next) ≡ false
            → (allocate fresh_items w.heap).block b ≡ w.heap.block b
        untouched b fresh = rw fresh refl

    final-items : (p.block == w.heap.next) ≡ false → final.block w.heap.next ≡ items ws
    unfolding write_place
    final-items h = rw (apart w.heap.next p.block h) (
        filled.2
        ∙ ap (λ us. items us)
            (overwrite-all (repeat_value (suc m) z) ws
              (count-repeat (suc m) z ∙ sym (count-taken vs off (suc m) has))))
      where
        apart : (a b : ℕ) → (b == a) ≡ false → (a == b) ≡ false
        apart a b h = ground arith

    -- Copying a slice of values that are set as a whole into a nil slice: the destination views a
    -- new block, from its start and with no room beyond, which holds the items that the source
    -- views, and no other block changes, so the two slices share no item. The source has an item at
    -- least.
    pub copy_plan-fresh_slice :
        (fuel b : ℕ)
        → (b == p.block) ≡ false
        → (b == w.heap.next) ≡ false
        → let r' =
            copy_plan Y
              (suc fuel)
              (slice_plan assign_plan true)
              (slice_at Y t e is_slice p)
              (slice_at Y t e is_slice r)
              w in
          (r'.0 ≡ ok tt)
          × (read_place r'.1.heap p
              ≡ some (view (record { block = w.heap.next; path = [] }) 0 (suc m) (suc m)))
          × (r'.1.heap.block w.heap.next ≡ items ws)
          × (r'.1.heap.block b ≡ w.heap.block b)
          × (r'.1.visited ≡ w.visited)
    copy_plan-fresh_slice fuel b other fresh = rw (copied fuel) (
      refl,
      read_place-write_place filled.0 p null _ still_nil,
      final-items old,
      final-others b other fresh,
      refl,
    )
