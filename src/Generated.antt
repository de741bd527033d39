-- ===== src/Generated.antt =====
-- What the statements of generated copiers do to memory: internal/gentest/copy_gen.go, and
-- every file that cmd/fastcopier-gen writes. A copier gets the places that its two pointers point
-- to. A statement names a field that the struct declares itself; the name of a promoted field is
-- a panic here. The library's Copy is a parameter.
mod Actions
pub mod Writes
pub mod Assigns
pub mod Struct
pub mod Slices
pub mod Maps
pub mod Registered
pub mod Engine
unfoldable pub use Actions.*
use fastcopier.Base.{
  ℕ, zero, suc, ◌+◌, String, List, [], ◌∷◌, ◌==◌, string_eq, ltb, leb, if◌then◌else◌, Option, none,
  some,
}
use fastcopier.Base.Outcome.{ok, panic}
use fastcopier.Execution.Items.{taken, overwrite}
use fastcopier.Generator.Code.{
  Callee, Stmt, assign, slice_copy, slice_loop, map_copy, map_loop, pointer_new, pointer_deref,
  call, library,
}
use fastcopier.GoTypes.{Types, StructField, elem_of, or_panic}
use fastcopier.Reflect.{zero_value}
use fastcopier.Resolve.{M, pure, lift, ◌>>=◌, ◌>>◌}
use fastcopier.Store.{
  Place, below, Value, Values, Entries, Heap, null, address, view, table, items, no_values, entries,
  no_entries, entry, repeat_value, put_entry, read_place, write_place, allocate,
}

module _ (G : Setting) where
  unfoldable pub zero_of_type : ℕ → Act Value
  zero_of_type t = lift (zero_value G.T G.depth t)

  -- `make(t, n)`
  unfoldable pub make_items : ℕ → ℕ → Act Value
  make_items t n = do
    e ← lift (or_panic (elem_of (G.T.desc t)))
    z ← zero_of_type e
    q ← new_block (items (repeat_value n z))
    pure (view q 0 n n)

  -- `if cap(dst.F) >= n { dst.F = dst.F[:n] } else { dst.F = make(t, n) }`
  unfoldable pub fit_slice : ℕ → Place → ℕ → Act (Unit {0})
  fit_slice t p n = do
    d ← load_at p
    u ← if leb n (capacity d) then pure (cut_to n d) else make_items t n
    store_at p u

  -- `for i := range src.F`, from an index on.
  unfoldable pub loop_items : Copier → Place → Place → ℕ → ℕ → Act (Unit {0})
  loop_items fn p q zero i = pure tt
  loop_items fn p q (suc n) i = do
    d ← load_at p
    to ← item_of i d
    s ← load_at q
    from ← item_of i s
    fn to from
    loop_items fn p q n (suc i)

  -- The two bodies for a slice that is not nil.
  unfoldable pub copy_flat_items : Place → Place → ℕ → Act (Unit {0})
  copy_flat_items p q n = do d ← load_at p; s ← load_at q; copy_builtin d s

  unfoldable pub copy_slice_field : (ℕ → Act (Unit {0})) → ℕ → Place → Value → Act (Unit {0})
  copy_slice_field body t p null = store_at p null
  copy_slice_field body t p (view r off n c) = do fit_slice t p n; body n
  copy_slice_field body t p _ = lift panic

  -- `for k, v := range src.F { dst.F[k] = v }`
  unfoldable pub put_entries : Place → Entries → Act (Unit {0})
  put_entries p no_entries = pure tt
  put_entries p (entry k v es) = do d ← load_at p; put_in k v d; put_entries p es

  -- The loop for values that are not flat: each is copied by the library.
  unfoldable pub copy_values : ℕ → Place → Entries → Act (Unit {0})
  copy_values e p no_entries = pure tt
  copy_values e p (entry k v es) = do
    from ← new_block v
    z ← zero_of_type e
    to ← new_block z
    G.callee library to from
    w ← load_at to
    d ← load_at p
    put_in k w d
    copy_values e p es

  -- `if src.F != nil { dst.F = make(t, n); for … } else { dst.F = nil }` for a map.
  unfoldable pub copy_map_field :
      (Entries → Act (Unit {0})) → Place → Place → Value → Act (Unit {0})
  copy_map_field loop p q null = store_at p null
  copy_map_field loop p q (table b) = do
    m ← new_block (entries no_entries)
    store_at p (table m.block)
    s ← load_at q
    es ← entries_of s
    loop (G.visit es)
  copy_map_field loop p q _ = lift panic

  -- `dst.F = new(e)` and a call on the two pointers, where the source field is not nil.
  unfoldable pub copy_new_field : ℕ → Copier → Place → Place → Value → Act (Unit {0})
  copy_new_field e fn p q null = store_at p null
  copy_new_field e fn p q (address a) = do
    z ← zero_of_type e
    n ← new_block z
    store_at p (address n)
    d ← load_at p
    to ← pointee_of d
    s ← load_at q
    from ← pointee_of s
    fn to from
  copy_new_field e fn p q _ = lift panic

  -- `v := *src.F; dst.F = &v`
  unfoldable pub copy_deref_field : Place → Value → Act (Unit {0})
  copy_deref_field p null = store_at p null
  copy_deref_field p (address a) = do v ← load_at a; n ← new_block v; store_at p (address n)
  copy_deref_field p _ = lift panic

  -- A statement, at the places of the destination's field and of the source's.
  unfoldable pub run_at : Stmt → Place → Place → Act (Unit {0})
  run_at (assign f) p q = do v ← load_at q; store_at p v
  run_at (slice_copy f t) p q = do v ← load_at q; copy_slice_field (copy_flat_items p q) t p v
  run_at (slice_loop f t fn) p q = do
    v ← load_at q
    copy_slice_field (λ n. loop_items (G.callee fn) p q n 0) t p v
  run_at (map_copy f t) p q = do v ← load_at q; copy_map_field (put_entries p) p q v
  run_at (map_loop f t e) p q = do v ← load_at q; copy_map_field (copy_values e p) p q v
  run_at (pointer_new f e fn) p q = do v ← load_at q; copy_new_field e (G.callee fn) p q v
  run_at (pointer_deref f) p q = do v ← load_at q; copy_deref_field p v
  run_at (call f fn) p q = G.callee fn p q

-- The field that a statement is about.
abbrev pub field_of : Stmt → String
field_of (assign f) = f
field_of (slice_copy f t) = f
field_of (slice_loop f t fn) = f
field_of (map_copy f t) = f
field_of (map_loop f t e) = f
field_of (pointer_new f e fn) = f
field_of (pointer_deref f) = f
field_of (call f fn) = f

-- The body of a copier for two struct types, with these fields.
unfoldable pub run_stmts : Setting → List StructField → List StructField → List Stmt → Copier
run_stmts G dst_fields src_fields [] p q = pure tt
run_stmts G dst_fields src_fields (s ∷ ss) p q = do
  to ← field_at dst_fields p (field_of s)
  from ← field_at src_fields q (field_of s)
  run_at G s to from
  run_stmts G dst_fields src_fields ss p q
