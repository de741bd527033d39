-- ===== src/Generated/Slices.antt =====
-- A slice of flat items in a generated copier, where the destination has too little room.
use fastcopier.Base.{
  ℕ, ◌≡◌, refl, sym, ap, ◌∙◌, Bool, true, false, [], leb, ltb, ◌==◌, ==_refl, ==_comm, nat_eq,
  list_eq, string_eq, if◌then◌else◌, some, String,
}
use fastcopier.Base.Outcome.{ok}
use fastcopier.Execution.Items.{taken, overwrite, overwrite-all, count-repeat, count-taken}
use fastcopier.Execution.Memory.{read_place-other, read_place-write_place, read_place-allocate}
use fastcopier.Generated.{
  Setting, capacity, run_at, load_at, store_at, new_block, zero_of_type, make_items, fit_slice,
  copy_flat_items, copy_slice_field, copy_builtin,
}
use fastcopier.Generator.Code.{slice_copy}
use fastcopier.GoTypes.{slice}
use fastcopier.Reflect.{zero_value}
use fastcopier.Store.{
  read_at, write_at, Heap, Place, Value, Values, allocate, items, read_place, repeat_value, view,
  write_place,
}

module _ (G : Setting) (f : String) (t e : ℕ) (p q r : Place) (off m c : ℕ) (vs ws : Values)
    (h : Heap) (z d : Value) (is_slice : G.T.desc t ≡ slice e)
    (zeros : zero_value G.T G.depth e ≡ ok z) (holds_dst : read_place h p ≡ some d)
    (no_room : leb m (capacity d) ≡ false) (views : read_place h r ≡ some (view q off m c))
    (holds : read_place h q ≡ some (items vs)) (has : taken vs off m ≡ some ws)
    (old : (p.block == h.next) ≡ false) (old_header : (r.block == h.next) ≡ false)
    (old_items : (q.block == h.next) ≡ false) (header_apart : (r.block == p.block) ≡ false)
    (items_apart : (q.block == p.block) ≡ false) where
  abbrev room : Place
  room = record { block = h.next; path = [] }

  abbrev made : Heap
  made = allocate (items (repeat_value m z)) h

  abbrev pointed : Heap
  pointed = write_place p (view room 0 m m) made

  abbrev final : Heap
  final = write_place room (items (overwrite (repeat_value m z) 0 ws)) pointed

  fits : fit_slice G t p m h ≡ (ok tt, pointed)
  unfolding fit_slice make_items zero_of_type load_at store_at new_block
  fits = rw holds_dst (rw no_room (rw is_slice (rw zeros refl)))

  read_dst : read_place pointed p ≡ some (view room 0 m m)
  read_dst =
      read_place-write_place made p d (view room 0 m m)
        (read_place-allocate h p (items (repeat_value m z)) old ∙ holds_dst)

  read_src : read_place pointed r ≡ some (view q off m c)
  read_src =
      read_place-other made p r (view room 0 m m) header_apart
      ∙ read_place-allocate h r (items (repeat_value m z)) old_header
      ∙ views

  read_items : read_place pointed q ≡ some (items vs)
  read_items =
      read_place-other made p q (view room 0 m m) items_apart
      ∙ read_place-allocate h q (items (repeat_value m z)) old_items
      ∙ holds

  read_room : read_place pointed room ≡ some (items (repeat_value m z))
  unfolding read_place read_at allocate
  read_room =
      read_place-other made p room (view room 0 m m) (==_comm h.next p.block ∙ old)
      ∙ rw (==_refl h.next) refl

  either-same : (b : Bool) → (if b then m else m) ≡ m
  either-same true = refl
  either-same false = refl

  filled : copy_flat_items G p r m pointed ≡ (ok tt, final)
  unfolding copy_flat_items copy_builtin load_at store_at
  filled =
      rw read_dst
        (rw read_src (rw (either-same (ltb m m)) (rw read_items (rw has (rw read_room refl)))))

  ran : run_at G (slice_copy f t) p r h ≡ (ok tt, final)
  unfolding run_at copy_slice_field load_at
  ran = rw views (rw fits filled)

  final-items : final.block h.next ≡ items ws
  unfolding write_place write_at
  final-items = rw (==_refl h.next) (
      ap items
        (overwrite-all (repeat_value m z) ws (count-repeat m z ∙ sym (count-taken vs off m has))))

  final-others :
      (b : ℕ) → (b == p.block) ≡ false → (b == h.next) ≡ false → final.block b ≡ h.block b
  unfolding write_place allocate
  final-others b other fresh = rw fresh (rw other refl)

  -- The statement for a slice of flat items, where the destination's slice has too little room
  -- for the items of the source (a nil slice, for instance): the destination views a new
  -- block, from its start and with no room beyond, which holds the items that the source views,
  -- and no other block changes. That is what the engine's plan for such slices does.
  pub run_at-fresh_slice :
      (b : ℕ)
      → (b == p.block) ≡ false
      → (b == h.next) ≡ false
      → let s = run_at G (slice_copy f t) p r h in
        (s.0 ≡ ok tt)
        × (read_place s.1 p ≡ some (view (record { block = h.next; path = [] }) 0 m m))
        × (s.1.block h.next ≡ items ws)
        × (s.1.block b ≡ h.block b)
  run_at-fresh_slice b other fresh = rw ran (
    refl,
    read_place-other pointed room p _ old ∙ read_dst,
    final-items,
    final-others b other fresh,
  )
