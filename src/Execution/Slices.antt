-- ===== src/Execution/Slices.antt =====
-- Reading the items of a slice in turn, and writing a new slice: reflect.Copy in plan_slice.go.
use fastcopier.Base.{
  ==_refl, List, [], arith, false, list_eq, ltb, nat_eq, refl, some, string_eq, suc, true, zero, ℕ,
  ◌+◌, ◌<◌, ◌==◌, ◌∙◌, ◌∷◌, ◌≡◌, ◌≤◌,
}
use fastcopier.Base.Outcome.{ok}
use fastcopier.Execution.Balance.{Worlds}
use fastcopier.Execution.Items.{count-set, get-below, overwrite, read_at-item, taken, taken-first}
use fastcopier.Fields.{is_nillable}
use fastcopier.GoTypes.{slice}
use fastcopier.Reflect.{index_at, is_nil, length_at, load, put, read_items, write_items}
use fastcopier.Reflect.Machine.{Ref, System, at, exported, fresh}
use fastcopier.Store.{
  Heap, Place, Value, Values, below, count_values, get_value, items, no_values, read_place,
  set_value, value, view, write_at, write_place,
}

pub lt→ltb : (a b : ℕ) → a < b → ltb a b ≡ true
lt→ltb a b h = ground arith

zero_add : (a : ℕ) → 0 + a ≡ a
zero_add a = omega arith

add_suc : (a b : ℕ) → a + suc b ≡ suc (a + b)
add_suc a b = omega arith

module _ (Y : System) (t e : ℕ) (is_slice : Y.env.T.desc t ≡ slice e) where
  abbrev pub slice_at : Place → Ref
  slice_at p = record { typ = t; spot = at p; mark = exported }

  abbrev pub item_at : Place → ℕ → Ref
  item_at q i = record { typ = e; spot = at (below q i); mark = exported }

  -- Reading: the memory is one in which the slice at `r` views the items at `q`.
  module _ (r q : Place) (off n c : ℕ) (vs : Values) (w : Worlds Y)
      (views : read_place w.heap r ≡ some (view q off n c))
      (holds : read_place w.heap q ≡ some (items vs)) where
    pub index_source :
        (i : ℕ) → ltb i n ≡ true → index_at Y (slice_at r) i w ≡ (ok (item_at q (off + i)), w)
    unfolding index_at load
    index_source i h = rw is_slice (rw views (rw h refl))

    pub length_source : length_at Y (slice_at r) w ≡ (ok n, w)
    unfolding length_at load
    length_source = rw is_slice (rw views refl)

    pub not_nil_source : is_nil Y (slice_at r) w ≡ (ok false, w)
    unfolding is_nil is_nillable load
    not_nil_source = rw is_slice (rw views refl)

    pub load_item :
        (i : ℕ) (v : Value) → get_value vs i ≡ some v → load Y (item_at q i) w ≡ (ok v, w)
    unfolding load read_place
    load_item i v h = rw (read_at-item (w.heap.block q.block) q.path i vs v holds h) refl

    pub read_all :
        (k i : ℕ) (ws : Values)
        → i + k ≤ n
        → taken vs (off + i) k ≡ some ws
        → read_items Y (slice_at r) k i w ≡ (ok ws, w)
    unfolding read_items taken
    read_all zero i ws h g = cc
    read_all (suc k) i ws h g =
        let (v, us, a, b, d) = taken-first vs (off + i) k g in
        rw (index_source i (lt→ltb i n (omega (arith, h)))) (
          rw (load_item (off + i) v a)
            (rw (read_all k (suc i) us (omega (arith, h)) (rw (add_suc off i) b)) (cc)))

  -- Writing: into the new slice of `n` items in the block `b`.
  module _ (b n : ℕ) where
    abbrev pub out : Ref
    out = fresh t (view (record { block = b; path = [] }) 0 n n)

    abbrev cell : ℕ → Ref
    cell i = record { typ = e; spot = at (record { block = b; path = i ∷ [] }); mark = exported }

    index_out : (i : ℕ) (w : Worlds Y) → ltb i n ≡ true → index_at Y out i w ≡ (ok (cell i), w)
    unfolding index_at load
    index_out i w h = rw is_slice (rw h (rw (zero_add i) refl))

    write_one :
        (h : Heap) (us : Values) (i : ℕ) (v : Value)
        → h.block b ≡ items us
        → i < count_values us
        → (write_place (record { block = b; path = i ∷ [] }) v h).block b ≡ items (set_value us i v)
    unfolding write_place write_at
    write_one h us i v a l =
        let (x, g) = get-below us i l in rw (==_refl b) (rw a (rw (g, write_at) refl))

    write_others :
        (h : Heap) (path : List ℕ) (v : Value) (x : ℕ)
        → (x == b) ≡ false
        → (write_place (record { block = b; path = path }) v h).block x ≡ h.block x
    unfolding write_place
    write_others h path v x d = rw d refl

    -- The memory that writing leaves: the items are in the block, the other blocks as they were.
    abbrev pub Wrote : Worlds Y → Values → Values → ℕ → Type 0
    Wrote w us ws i =
        (h : Heap) × (write_items Y out i ws w ≡ (ok tt, record w { heap = h }))
        × (h.block b ≡ items (overwrite us i ws))
        × ((x : ℕ) → (x == b) ≡ false → h.block x ≡ w.heap.block x)

    pub write_all :
        (ws us : Values) (i : ℕ) (w : Worlds Y)
        → w.heap.block b ≡ items us
        → count_values us ≡ n
        → i + count_values ws ≤ n
        → Wrote w us ws i
    unfolding write_items overwrite put count_values
    write_all no_values us i w a l k = (w.heap, refl, a, λ x h. refl)
    write_all (value v ws) us i w a l k =
        let after : Worlds Y = record w {
          heap = write_place (record { block = b; path = i ∷ [] }) v w.heap;
        } in
        let (h, g, f, o) =
          write_all ws (set_value us i v) (suc i) after
            (write_one w.heap us i v a (omega (arith, k, l))) (count-set us i v ∙ l)
            (omega (arith, k)) in
        (
          h,
          rw (index_out i w (lt→ltb i n (omega (arith, k)))) g,
          f,
          λ x d. o x d ∙ write_others w.heap (i ∷ []) v x d,
        )

    pub length_out : (w : Worlds Y) → length_at Y out w ≡ (ok n, w)
    unfolding length_at load
    length_out w = rw is_slice refl
