-- ===== src/Generated/Actions.antt =====
-- Places, slices, maps and pointers as the statements of generated copiers use them.
use fastcopier.Base.{
  ℕ, suc, ◌+◌, String, List, [], ◌∷◌, ◌==◌, string_eq, ltb, if◌then◌else◌, Option, none, some,
}
use fastcopier.Base.Outcome.{ok, panic}
use fastcopier.Execution.Items.{taken, overwrite}
use fastcopier.Generator.Code.{Callee}
use fastcopier.GoTypes.{Types, StructField, or_panic}
use fastcopier.Resolve.{M, pure, lift, ◌>>=◌}
use fastcopier.Store.{
  Place, below, Value, Values, Entries, Heap, null, address, view, table, items, no_values, entries,
  no_entries, put_entry, read_place, write_place, allocate,
}

abbrev pub Act : Type 0 → Type 0
Act = M Heap

-- A function of two pointers that returns an error.
abbrev pub Copier : Type 0
Copier = Place → Place → Act (Unit {0})

-- `visit` is the order in which a map is iterated.
pub record Setting : Type 0 where
  pub T : Types
  pub depth : ℕ
  pub visit : Entries → Entries
  pub callee : Callee → Copier

unfoldable pub load_at : Place → Act Value
load_at p h = (or_panic (read_place h p), h)

unfoldable pub store_at : Place → Value → Act (Unit {0})
store_at p v h = (ok tt, write_place p v h)

unfoldable pub new_block : Value → Act Place
new_block v h = (ok (record { block = h.next; path = [] }), allocate v h)

abbrev pub capacity : Value → ℕ
capacity (view q off n c) = c
capacity _ = 0

-- `s[:n]`, for n up to the capacity.
abbrev pub cut_to : ℕ → Value → Value
cut_to n (view q off m c) = view q off n c
cut_to n v = v

abbrev pub length_of : Value → ℕ
length_of (view q off n c) = n
length_of _ = 0

-- The first items that a slice views, and writing over them.
abbrev pub items_in : Value → ℕ → ℕ → Act Values
items_in (items vs) off n = lift (or_panic (taken vs off n))
items_in _ off n = lift panic

abbrev pub viewed : ℕ → Value → Act Values
viewed n (view q off m c) = do v ← load_at q; items_in v off n
viewed n _ = pure no_values

abbrev pub put_items : Place → ℕ → Values → Value → Act (Unit {0})
put_items q off ws (items us) = store_at q (items (overwrite us off ws))
put_items q off ws _ = lift panic

abbrev pub fill : Values → Value → Act (Unit {0})
fill ws (view q off n c) = do v ← load_at q; put_items q off ws v
fill ws _ = pure tt

-- `copy(dst, src)`
unfoldable pub copy_builtin : Value → Value → Act (Unit {0})
copy_builtin d s = do
  ws ← viewed (if ltb (length_of d) (length_of s) then length_of d else length_of s) s
  fill ws d

abbrev pub entries_of : Value → Act Entries
entries_of null = pure no_entries
entries_of (table b) = do
  m ← load_at (record { block = b; path = [] })
  elim m [ entries es ↦ pure es | _ ↦ lift panic ]
entries_of _ = lift panic

abbrev pub pointee_of : Value → Act Place
pointee_of (address a) = pure a
pointee_of _ = lift panic

abbrev pub item_of : ℕ → Value → Act Place
item_of i (view q off n c) = if ltb i n then pure (below q (off + i)) else lift panic
item_of i _ = lift panic

abbrev pub put_in : Value → Value → Value → Act (Unit {0})
put_in k v (table b) = do
  m ← load_at (record { block = b; path = [] })
  elim m [
    | entries es ↦ store_at (record { block = b; path = [] }) (entries (put_entry k v es))
    | _ ↦ lift panic
  ]
put_in k v _ = lift panic

-- The position of a field that the struct declares.
unfoldable pub field_index : String → List StructField → ℕ → Option ℕ
field_index name [] i = none
field_index name (sf ∷ fs) i = if name == sf.name then some i else field_index name fs (suc i)

abbrev pub field_at : List StructField → Place → String → Act Place
field_at fs p name = lift (or_panic (field_index name fs 0)) >>= λ i. pure (below p i)
