-- ===== src/Generated/Maps.antt =====
-- A map of flat keys and values in a generated copier.
use fastcopier.Base.{
  ℕ, ◌≡◌, refl, sym, ap, ◌∙◌, false, [], ◌==◌, ==_refl, ==_comm, nat_eq, list_eq, string_eq, some,
  String,
}
use fastcopier.Base.Outcome.{ok}
use fastcopier.Execution.Memory.{read_place-other, read_place-write_place, read_place-allocate}
use fastcopier.Generated.{
  Setting, run_at, load_at, store_at, new_block, copy_map_field, put_entries,
}
use fastcopier.Generated.Writes.{write_place-twice, write_place-same}
use fastcopier.Generator.Code.{map_copy}
use fastcopier.Store.{
  Heap, Place, Value, Entries, allocate, entries, entry, no_entries, table, put_entry, read_place,
  read_at, same_value, write_at, write_place,
}
use mathlib.Core.Path.{subst}

-- The entries of a map that others are put in, in order.
unfoldable pub put_all : Entries → Entries → Entries
put_all no_entries acc = acc
put_all (entry k v es) acc = put_all es (put_entry k v acc)

abbrev joined : Entries → Entries → Entries
joined no_entries ys = ys
joined (entry k v xs) ys = entry k v (joined xs ys)

joined-no_entries : (xs : Entries) → joined xs no_entries ≡ xs
joined-no_entries no_entries = refl
joined-no_entries (entry k v xs) = ap (entry k v) (joined-no_entries xs)

joined_assoc : (xs ys zs : Entries) → joined (joined xs ys) zs ≡ joined xs (joined ys zs)
joined_assoc no_entries ys zs = refl
joined_assoc (entry k v xs) ys zs = ap (entry k v) (joined_assoc xs ys zs)

-- No entry has the key.
abbrev pub IsNew : Value → Entries → Type 0
IsNew k no_entries = Unit
IsNew k (entry j w es) = (same_value k j ≡ false) × IsNew k es

-- The keys differ from each other and from those of the entries before, as in every map.
abbrev pub KeysDiffer : Entries → Entries → Type 0
KeysDiffer no_entries before = Unit
KeysDiffer (entry k v es) before =
    IsNew k before × KeysDiffer es (joined before (entry k v no_entries))

put_entry-IsNew :
    (k v : Value) (es : Entries) → IsNew k es → put_entry k v es ≡ joined es (entry k v no_entries)
unfolding put_entry
put_entry-IsNew k v no_entries h = refl
put_entry-IsNew k v (entry j w es) h = rw h.0 (ap (entry j w) (put_entry-IsNew k v es h.1))

put_all-joined : (es before : Entries) → KeysDiffer es before → put_all es before ≡ joined before es
unfolding put_all
put_all-joined no_entries before h = sym (joined-no_entries before)
put_all-joined (entry k v es) before h =
    ap (put_all es) (put_entry-IsNew k v before h.0)
    ∙ put_all-joined es (joined before (entry k v no_entries)) h.1
    ∙ joined_assoc before (entry k v no_entries) es

abbrev pub start_of : ℕ → Place
start_of b = record { block = b; path = [] }

module _ (G : Setting) (f : String) (t b : ℕ) (p r : Place) (es : Entries) (h : Heap) (d : Value)
    (target : read_place h p ≡ some d) (views : read_place h r ≡ some (table b))
    (holds : read_place h (start_of b) ≡ some (entries es)) (old : (p.block == h.next) ≡ false)
    (old_header : (r.block == h.next) ≡ false) (old_table : (b == h.next) ≡ false)
    (header_apart : (r.block == p.block) ≡ false) (table_apart : (b == p.block) ≡ false) where
  abbrev made : Heap
  made = allocate (entries no_entries) h

  abbrev pointed : Heap
  pointed = write_place p (table h.next) made

  -- The memory when the new map holds some entries.
  abbrev holding : Entries → Heap
  holding acc = write_place (start_of h.next) (entries acc) pointed

  new_apart : (h.next == p.block) ≡ false
  new_apart = ==_comm h.next p.block ∙ old

  read_new : read_place pointed (start_of h.next) ≡ some (entries no_entries)
  unfolding read_place read_at allocate
  read_new =
      read_place-other made p (start_of h.next) (table h.next) new_apart ∙ rw (==_refl h.next) refl

  read_dst : read_place pointed p ≡ some (table h.next)
  read_dst =
      read_place-write_place made p d (table h.next)
        (read_place-allocate h p (entries no_entries) old ∙ target)

  read_src : read_place pointed r ≡ some (table b)
  read_src =
      read_place-other made p r (table h.next) header_apart
      ∙ read_place-allocate h r (entries no_entries) old_header
      ∙ views

  read_entries : read_place pointed (start_of b) ≡ some (entries es)
  read_entries =
      read_place-other made p (start_of b) (table h.next) table_apart
      ∙ read_place-allocate h (start_of b) (entries no_entries) old_table
      ∙ holds

  -- What the loop reads, and the entry that it puts.
  read_map : (acc : Entries) → read_place (holding acc) p ≡ some (table h.next)
  read_map acc = read_place-other pointed (start_of h.next) p (entries acc) old ∙ read_dst

  read_table : (acc : Entries) → read_place (holding acc) (start_of h.next) ≡ some (entries acc)
  read_table acc =
      read_place-write_place pointed (start_of h.next) (entries no_entries) (entries acc) read_new

  loop : (xs acc : Entries) → put_entries G p xs (holding acc) ≡ (ok tt, holding (put_all xs acc))
  unfolding put_entries put_all load_at store_at
  loop no_entries acc = refl
  loop (entry k v xs) acc = rw (read_map acc) (
      rw (read_table acc) (
        rw
          (write_place-twice (start_of h.next) pointed (entries no_entries) read_new (entries acc)
            (entries (put_entry k v acc)))
          (loop xs (put_entry k v acc))))

  abbrev final : Heap
  final = holding (put_all (G.visit es) no_entries)

  ran : run_at G (map_copy f t) p r h ≡ (ok tt, final)
  unfolding run_at copy_map_field load_at store_at new_block
  ran = rw views (rw read_src (rw read_entries started))
    where
      started : put_entries G p (G.visit es) pointed ≡ (ok tt, final)
      started =
          subst (λ x. put_entries G p (G.visit es) x ≡ (ok tt, final))
            (write_place-same (start_of h.next) pointed (entries no_entries) read_new)
            (loop (G.visit es) no_entries)

  final-entries : KeysDiffer (G.visit es) no_entries → final.block h.next ≡ entries (G.visit es)
  unfolding write_place write_at
  final-entries differ =
      rw (==_refl h.next) (ap entries (put_all-joined (G.visit es) no_entries differ))

  final-others :
      (a : ℕ) → (a == p.block) ≡ false → (a == h.next) ≡ false → final.block a ≡ h.block a
  unfolding write_place allocate
  final-others a other fresh = rw fresh (rw other refl)

  -- The statement for a map of flat keys and values: the destination gets a new map, whatever it
  -- held before, with the entries of the source in the order in which Go visits them, and no
  -- other block changes. Both fields are in other blocks than the map of the source and
  -- the new one.
  pub run_at-fresh_map :
      (a : ℕ)
      → KeysDiffer (G.visit es) no_entries
      → (a == p.block) ≡ false
      → (a == h.next) ≡ false
      → let s = run_at G (map_copy f t) p r h in
        (s.0 ≡ ok tt)
        × (read_place s.1 p ≡ some (table h.next))
        × (s.1.block h.next ≡ entries (G.visit es))
        × (s.1.block a ≡ h.block a)
  run_at-fresh_map a differ other fresh =
      rw ran (refl, read_map _, final-entries differ, final-others a other fresh)
