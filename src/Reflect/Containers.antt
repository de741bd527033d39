-- ===== src/Reflect/Containers.antt =====
-- Slices, arrays and maps.
use fastcopier.Base.{
  ℕ, zero, suc, ◌+◌, String, ◌&&◌, ◌||◌, [], ltb, leb, ◌==◌, nat_eq, Option, none, some,
  if◌then◌else◌, ◌<>◌,
}
use fastcopier.Base.Outcome.{ok, panic}
use fastcopier.GoTypes.{Desc, array, key_of, or_panic, array_kind, map_kind, slice_kind}
use fastcopier.Reflect.Access.{
  types, kind_at, must, is_exported, keep_mark, load, put, wrap, zero_at, new_place, type_elem,
  part,
}
use fastcopier.Reflect.Machine.{System, Exec, at, Ref, fresh}
use fastcopier.Resolve.{pure, lift, ◌>>=◌, ◌>>◌}
use fastcopier.Store.{
  below, Value, text, null, view, table, items, entries, Values, no_values, value, Entries,
  no_entries, count_values, repeat_value, count_entries, put_entry, write_place,
}

abbrev pub array_length : Desc → Option ℕ
array_length (array e n) = some n
array_length d = none

module _ (Y : System) where
  abbrev pub entries_at : ℕ → Exec Y Entries
  entries_at b w = (elim (w.heap.block b) [ entries es ↦ ok es | _ ↦ panic ], w)

  abbrev pub length_in : Value → Exec Y ℕ
  length_in null = pure 0
  length_in (view p off n c) = pure n
  length_in (table b) = do es ← entries_at b; pure (count_entries es)
  length_in (items vs) = pure (count_values vs)
  length_in _ = lift panic

  -- Value.Len of an array, a slice or a map
  unfoldable pub length_at : Ref → Exec Y ℕ
  length_at r = do
    must Y (kind_at Y r == array_kind || kind_at Y r == slice_kind || kind_at Y r == map_kind)
    v ← load Y r
    length_in v

  abbrev pub capacity_in : Value → Exec Y ℕ
  capacity_in null = pure 0
  capacity_in (view p off n c) = pure c
  capacity_in _ = lift panic

  -- Value.Cap of a slice
  unfoldable pub capacity_at : Ref → Exec Y ℕ
  capacity_at r = do must Y (kind_at Y r == slice_kind); v ← load Y r; capacity_in v

  abbrev pub resized : ℕ → Value → Exec Y Value
  resized n null = do must Y (n == 0); pure null
  resized n (view p off m c) = do must Y (leb n c); pure (view p off n c)
  resized n _ = lift panic

  -- Value.SetLen
  unfoldable pub set_length : Ref → ℕ → Exec Y (Unit {0})
  set_length r n = do
    must Y (is_exported r.mark && kind_at Y r == slice_kind)
    v ← load Y r
    u ← resized n v
    put Y r u

  -- reflect.MakeSlice(t, n, n)
  unfoldable pub make_slice : ℕ → ℕ → Exec Y Ref
  make_slice t n = do
    e ← type_elem Y t
    z ← zero_at Y e
    p ← new_place Y (items (repeat_value n z))
    pure (fresh t (view p 0 n n))

  abbrev pub item_in : Ref → ℕ → ℕ → Value → Exec Y Ref
  item_in r e i (view p off n c) = do
    must Y (ltb i n)
    pure (record { typ = e; spot = at (below p (off + i)); mark = keep_mark r.mark })
  item_in r e i (items vs) = do must Y (ltb i (count_values vs)); part Y e (keep_mark r.mark) r i
  item_in r e i _ = lift panic

  -- Value.Index of an array or a slice
  unfoldable pub index_at : Ref → ℕ → Exec Y Ref
  index_at r i = do
    must Y (kind_at Y r == array_kind || kind_at Y r == slice_kind)
    e ← type_elem Y r.typ
    v ← load Y r
    item_in r e i v

  -- The items from one index on are read first, and then written.
  unfoldable pub read_items : Ref → ℕ → ℕ → Exec Y Values
  read_items r zero i = pure no_values
  read_items r (suc n) i = do
    s ← index_at r i
    v ← load Y s
    vs ← read_items r n (suc i)
    pure (value v vs)

  unfoldable pub write_items : Ref → ℕ → Values → Exec Y (Unit {0})
  write_items r i no_values = pure tt
  write_items r i (value v vs) = do d ← index_at r i; put Y d v; write_items r (suc i) vs

  -- reflect.Copy
  unfoldable pub copy_items : Ref → Ref → Exec Y (Unit {0})
  copy_items dst src = do
    must Y (is_exported dst.mark && is_exported src.mark)
    m ← length_at dst
    n ← length_at src
    vs ← read_items src (if ltb m n then m else n) 0
    write_items dst 0 vs

  -- reflect.MakeMapWithSize
  unfoldable pub make_map : ℕ → Exec Y Ref
  make_map t = do p ← new_place Y (entries no_entries); pure (fresh t (table p.block))

  abbrev pub entries_in : Value → Exec Y Entries
  entries_in null = pure no_entries
  entries_in (table b) = entries_at b
  entries_in _ = lift panic

  -- Value.MapRange: the entries at the start, in the order of the run.
  unfoldable pub map_range : Ref → Exec Y Entries
  map_range r = do
    must Y (kind_at Y r == map_kind)
    v ← load Y r
    es ← entries_in v
    pure (Y.machine.visit es)

  abbrev pub put_in_table : Value → Value → Value → Exec Y (Unit {0})
  put_in_table k v (table b) = do
    es ← entries_at b
    λ w. (
      ok tt,
      record w {
        heap = write_place (record { block = b; path = [] }) (entries (put_entry k v es)) w.heap;
      },
    )
  put_in_table k v _ = lift panic

  abbrev pub type_key : ℕ → Exec Y ℕ
  type_key t = lift (or_panic (key_of ((types Y).desc t)))

  -- Value.SetMapIndex with a valid element; a nil map panics.
  unfoldable pub set_map_index : Ref → Ref → Ref → Exec Y (Unit {0})
  set_map_index r key elem = do
    kt ← type_key r.typ
    et ← type_elem Y r.typ
    must Y (is_exported r.mark && is_exported key.mark && is_exported elem.mark)
    must Y (Y.machine.assignable kt key.typ && Y.machine.assignable et elem.typ)
    k ← load Y key
    v ← load Y elem
    m ← load Y r
    put_in_table (wrap Y kt key.typ k) (wrap Y et elem.typ v) m

  -- Value.String of a key
  abbrev pub key_text : ℕ → Value → String
  key_text t (text s) = s
  key_text t v = "<" <> (types Y).name t <> " Value>"
