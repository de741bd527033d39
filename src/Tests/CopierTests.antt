-- ===== src/Tests/CopierTests.antt =====
-- Runs of the copiers of internal/gentest.
use fastcopier.Base.{refl, ◌≡◌, ℕ, some, list_eq, nat_eq, string_eq}
use fastcopier.Base.Outcome.{Outcome, ok}
use fastcopier.Errors.{Error}
use fastcopier.Execution.Items.{taken, overwrite}
use fastcopier.Generated.{
  Setting, run_at, run_stmts, load_at, store_at, field_index, fit_slice, copy_flat_items,
  copy_slice_field, copy_builtin,
}
use fastcopier.Generated.Slices.{run_at-fresh_slice}
use fastcopier.Generated.Maps.{run_at-fresh_map}
use fastcopier.Generator.Code.{slice_copy, map_copy}
use fastcopier.Gentest.Copiers.{copy_nested_to_nested, copy_user_entity_to_user_dto}
use fastcopier.Gentest.Declared.{gentest_types, strings, string_type, string_map}
use fastcopier.Reflect.{zero_value, zero_of}
use fastcopier.Store.{
  Entries, entries, entry, no_entries, table, same_value, Heap, Value, Values, allocate, items,
  no_values, value, null, view, word, text, read_place, read_at, write_place, write_at, get_value,
  set_value,
}
use fastcopier.Tests.Memory.{heap, variable}

abbrev setting : Setting
setting = record { T = gentest_types; depth = 5; visit = λ es. es; callee = λ fn p q h. (ok tt, h) }

-- Block 3 has three texts, block 4 views the last two, and block 5 is a nil slice.
abbrev words : Values
words = value (text "a") (value (text "b") (value (text "c") no_values))

abbrev slices : Heap
slices = allocate null (allocate (view (variable 3) 1 2 2) (allocate (items words) heap))

abbrev sliced : Outcome Error (Unit {0}) × Heap
sliced = run_at setting (slice_copy "Tags" strings) (variable 5) (variable 4) slices

tags_copied :
    (sliced.0 ≡ ok tt)
    × (read_place sliced.1 (variable 5) ≡ some (view (variable 6) 0 2 2))
    × (sliced.1.block 6 ≡ items (value (text "b") (value (text "c") no_values)))
    × (sliced.1.block 3 ≡ items words)
unfolding allocate zero_value zero_of read_place read_at taken get_value
tags_copied =
    run_at-fresh_slice setting "Tags" strings string_type (variable 5) (variable 3) (variable 4) 1 2
      2 words (value (text "b") (value (text "c") no_values)) slices (text "") null refl refl refl
      refl refl refl refl refl refl refl refl refl 3 refl refl

-- The password of a user does not reach the other type.
abbrev users : Heap
users = allocate (items (value (word 0) (value (text "") (value (text "") no_values)))) (
    allocate
      (items (
        value (word 7)
          (value (text "ann") (value (text "a@b.c") (value (text "secret") no_values)))))
      heap)

abbrev user_copied : Outcome Error (Unit {0}) × Heap
user_copied = copy_user_entity_to_user_dto setting (variable 4) (variable 3) users

users_copied :
    (user_copied.0 ≡ ok tt)
    × (user_copied.1.block 4
        ≡ items (value (word 7) (value (text "ann") (value (text "a@b.c") no_values))))
unfolding copy_user_entity_to_user_dto run_stmts run_at load_at store_at field_index read_place
    read_at get_value write_place write_at set_value allocate
users_copied = (refl, refl)

-- A slice with room for the items keeps its block; a nil one gets a new block.
abbrev flat_user : Value
flat_user = items (
    value (text "ann")
      (value (word 3) (value (text "x") (value (word 1) (value (word 1) no_values)))))

abbrev nested_of : ℕ → Value → Value → Value
nested_of n tags scores =
    items (value (word n) (value flat_user (value tags (value scores no_values))))

-- Blocks 3 and 4 hold texts; the copy of block 6 to block 5 has room for its tags there.
abbrev nests : Heap
nests = allocate (nested_of 1 (view (variable 3) 1 2 2) null) (
    allocate (nested_of 0 (view (variable 4) 0 0 3) (view (variable 3) 0 1 1)) (
      allocate (items (value (text "") (value (text "") (value (text "z") no_values))))
        (allocate (items words) heap)))

abbrev nest_copied : Outcome Error (Unit {0}) × Heap
nest_copied = copy_nested_to_nested setting (variable 5) (variable 6) nests

nests_copied :
    (nest_copied.0 ≡ ok tt)
    × (nest_copied.1.block 5 ≡ nested_of 1 (view (variable 4) 0 2 3) null)
    × (nest_copied.1.block 4
        ≡ items (value (text "b") (value (text "c") (value (text "z") no_values))))
unfolding copy_nested_to_nested run_stmts run_at load_at store_at field_index read_place read_at
    get_value write_place write_at set_value allocate copy_slice_field fit_slice copy_flat_items
    copy_builtin taken overwrite
nests_copied = (refl, refl, refl)

-- Block 3 is a map of texts, block 4 a variable that holds it, and block 5 one that holds the
-- map in block 6, which has another entry.
abbrev pairs : Entries
pairs = entry (text "a") (text "1") (entry (text "b") (text "2") no_entries)

abbrev tables : Heap
tables =
    allocate (entries (entry (text "z") (text "9") no_entries))
      (allocate (table 6) (allocate (table 3) (allocate (entries pairs) heap)))

abbrev mapped : Outcome Error (Unit {0}) × Heap
mapped = run_at setting (map_copy "Metadata" string_map) (variable 5) (variable 4) tables

run_at-fresh_map_example :
    (mapped.0 ≡ ok tt)
    × (read_place mapped.1 (variable 5) ≡ some (table 7))
    × (mapped.1.block 7 ≡ entries pairs)
    × (mapped.1.block 6 ≡ entries (entry (text "z") (text "9") no_entries))
unfolding allocate read_place read_at same_value
run_at-fresh_map_example =
    run_at-fresh_map setting "Metadata" string_map 3 (variable 5) (variable 4) pairs tables
      (table 6) refl refl refl refl refl refl refl refl 6 (tt, ((refl, tt), tt)) refl refl
