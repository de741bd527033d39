-- ===== src/Execution/Containers.antt =====
-- The operations of reflect on slices, arrays and maps leave ctx.visited alone.
use fastcopier.Base.{ℕ, zero, suc, refl}
use fastcopier.Base.Outcome.{panic}
use fastcopier.Execution.Access.{
  load-Balanced, put-Balanced, zero_at-Balanced, new_place-Balanced, part-Balanced,
}
use fastcopier.Execution.Balance.{
  Balanced, balanced, pure-Balanced, lift-Balanced, reads-Balanced, bind-Balanced, then-Balanced,
  must-Balanced,
}
use fastcopier.Reflect.{
  System, Ref, type_elem, entries_at, length_in, length_at, capacity_in, capacity_at, resized,
  set_length, make_slice, item_in, index_at, read_items, write_items, copy_items, make_map,
  entries_in, map_range, put_in_table, type_key, set_map_index,
}
use fastcopier.Store.{Value, null, view, table, items, Values, no_values, value}

module _ (Y : System) where
  pub type_elem-Balanced : (t : ℕ) → Balanced Y (type_elem Y t)
  type_elem-Balanced t = lift-Balanced Y _

  pub type_key-Balanced : (t : ℕ) → Balanced Y (type_key Y t)
  type_key-Balanced t = lift-Balanced Y _

  entries_at-Balanced : (b : ℕ) → Balanced Y (entries_at Y b)
  entries_at-Balanced b = reads-Balanced Y _

  length_in-Balanced : (v : Value) → Balanced Y (length_in Y v)
  length_in-Balanced null = pure-Balanced Y 0
  length_in-Balanced (view p off n c) = pure-Balanced Y n
  length_in-Balanced (table b) =
      bind-Balanced Y _ _ (entries_at-Balanced b) (λ es. pure-Balanced Y _)
  length_in-Balanced (items vs) = pure-Balanced Y _
  length_in-Balanced _ = lift-Balanced Y panic

  pub length_at-Balanced : (r : Ref) → Balanced Y (length_at Y r)
  unfolding length_at
  length_at-Balanced r =
      search (bind-Balanced, must-Balanced, load-Balanced, length_in-Balanced) depth 8

  capacity_in-Balanced : (v : Value) → Balanced Y (capacity_in Y v)
  capacity_in-Balanced null = pure-Balanced Y 0
  capacity_in-Balanced (view p off n c) = pure-Balanced Y c
  capacity_in-Balanced _ = lift-Balanced Y panic

  pub capacity_at-Balanced : (r : Ref) → Balanced Y (capacity_at Y r)
  unfolding capacity_at
  capacity_at-Balanced r =
      search (bind-Balanced, must-Balanced, load-Balanced, capacity_in-Balanced) depth 8

  resized-Balanced : (n : ℕ) (v : Value) → Balanced Y (resized Y n v)
  resized-Balanced n null = search (bind-Balanced, must-Balanced, pure-Balanced) depth 8
  resized-Balanced n (view p off m c) = search (bind-Balanced, must-Balanced, pure-Balanced) depth 8
  resized-Balanced n _ = lift-Balanced Y panic

  pub set_length-Balanced : (r : Ref) (n : ℕ) → Balanced Y (set_length Y r n)
  unfolding set_length
  set_length-Balanced r n =
      search (bind-Balanced, must-Balanced, load-Balanced, resized-Balanced, put-Balanced) depth 8

  pub make_slice-Balanced : (t n : ℕ) → Balanced Y (make_slice Y t n)
  unfolding make_slice
  make_slice-Balanced t n =
      search (bind-Balanced, lift-Balanced, zero_at-Balanced, new_place-Balanced, pure-Balanced)
        depth 8

  item_in-Balanced : (r : Ref) (e i : ℕ) (v : Value) → Balanced Y (item_in Y r e i v)
  item_in-Balanced r e i (view p off n c) =
      search (bind-Balanced, must-Balanced, pure-Balanced) depth 8
  item_in-Balanced r e i (items vs) = search (bind-Balanced, must-Balanced, part-Balanced) depth 8
  item_in-Balanced r e i _ = lift-Balanced Y panic

  pub index_at-Balanced : (r : Ref) (i : ℕ) → Balanced Y (index_at Y r i)
  unfolding index_at
  index_at-Balanced r i =
      search (bind-Balanced, must-Balanced, lift-Balanced, load-Balanced, item_in-Balanced) depth 8

  read_items-Balanced : (r : Ref) (n i : ℕ) → Balanced Y (read_items Y r n i)
  unfolding read_items
  read_items-Balanced r zero i = pure-Balanced Y _
  read_items-Balanced r (suc n) i = bind-Balanced Y _ _ (index_at-Balanced r i) λ s.
      bind-Balanced Y _ _ (load-Balanced Y s)
        λ v. bind-Balanced Y _ _ (read_items-Balanced r n (suc i)) λ vs. pure-Balanced Y _

  write_items-Balanced : (r : Ref) (i : ℕ) (vs : Values) → Balanced Y (write_items Y r i vs)
  unfolding write_items
  write_items-Balanced r i no_values = pure-Balanced Y tt
  write_items-Balanced r i (value v vs) =
      bind-Balanced Y _ _ (index_at-Balanced r i)
        λ d. then-Balanced Y _ _ (put-Balanced Y d v) (write_items-Balanced r (suc i) vs)

  pub copy_items-Balanced : (dst src : Ref) → Balanced Y (copy_items Y dst src)
  unfolding copy_items
  copy_items-Balanced dst src =
      search
        (
          bind-Balanced, must-Balanced, length_at-Balanced, read_items-Balanced,
          write_items-Balanced,
        )
        depth 10

  pub make_map-Balanced : (t : ℕ) → Balanced Y (make_map Y t)
  unfolding make_map
  make_map-Balanced t = search (bind-Balanced, new_place-Balanced, pure-Balanced) depth 8

  entries_in-Balanced : (v : Value) → Balanced Y (entries_in Y v)
  entries_in-Balanced null = pure-Balanced Y _
  entries_in-Balanced (table b) = entries_at-Balanced b
  entries_in-Balanced _ = lift-Balanced Y panic

  pub map_range-Balanced : (r : Ref) → Balanced Y (map_range Y r)
  unfolding map_range
  map_range-Balanced r =
      search (bind-Balanced, must-Balanced, load-Balanced, entries_in-Balanced, pure-Balanced) depth
        8

  put_in_table-Balanced : (k v m : Value) → Balanced Y (put_in_table Y k v m)
  put_in_table-Balanced k v (table b) =
      bind-Balanced Y _ _ (entries_at-Balanced b) (λ es. balanced (λ w. refl))
  put_in_table-Balanced k v _ = lift-Balanced Y panic

  pub set_map_index-Balanced : (r key elem : Ref) → Balanced Y (set_map_index Y r key elem)
  unfolding set_map_index
  set_map_index-Balanced r key elem =
      search (bind-Balanced, lift-Balanced, must-Balanced, load-Balanced, put_in_table-Balanced)
        depth 12
