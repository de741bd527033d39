-- ===== src/Generated/Assigns.antt =====
-- Statements `dst.F = src.F` for every field, in order, set the whole struct.
use fastcopier.Base.{
  ℕ, suc, ◌+◌, ◌≤◌, ◌<◌, String, ◌≡◌, refl, sym, ap, ◌∙◌, false, List, [], ◌∷◌, ◌==◌, ==_refl,
  nat_eq, list_eq, string_eq, Option, some, arith, All, length,
}
use fastcopier.Base.Outcome.{ok}
use mathlib.Core.Path.{subst}
use mathlib.Core.Option.{some-injective}
use fastcopier.Execution.Items.{
  taken, taken-all, taken-first, overwrite, overwrite-all, count-set, read_at-item,
}
use fastcopier.Execution.Memory.{read_place-other, read_place-write_place}
use fastcopier.Generated.{Setting, field_index, run_stmts, run_at, load_at, store_at}
use fastcopier.Generated.Writes.{write_place-item, write_place-twice, write_place-same}
use fastcopier.Generator.Code.{Stmt, assign}
use fastcopier.GoTypes.{StructField}
use fastcopier.Store.{
  Place, below, Value, Values, Heap, items, no_values, count_values, get_value, set_value,
  read_place, write_place,
}

-- `dst.F = src.F` for each field.
unfoldable pub assigns : List StructField → List Stmt
assigns [] = []
assigns (sf ∷ fs) = assign sf.name ∷ assigns fs

-- No two fields have one name.
abbrev pub Distinct : List StructField → Type 0
Distinct [] = Unit
Distinct (f ∷ fs) = All (λ g. (g.name == f.name) ≡ false) fs × Distinct fs

-- The fields from an index on are found at their positions.
abbrev Found : (String → Option ℕ) → List StructField → ℕ → Type 0
Found look [] i = Unit
Found look (f ∷ fs) i = (look f.name ≡ some i) × Found look fs (suc i)

Found-later :
    (f : StructField) (all fs : List StructField) (i j : ℕ)
    → All (λ g. (g.name == f.name) ≡ false) fs
    → Found (λ n. field_index n all (suc i)) fs j
    → Found (λ n. field_index n (f ∷ all) i) fs j
unfolding field_index
Found-later f all [] i j apart h = tt
Found-later f all (g ∷ fs) i j apart h =
    (rw apart.0 h.0, Found-later f all fs i (suc j) apart.1 h.1)

Distinct-Found :
    (fs : List StructField) (i : ℕ) → Distinct fs → Found (λ n. field_index n fs i) fs i
unfolding field_index
Distinct-Found [] i h = tt
Distinct-Found (f ∷ fs) i h =
    (rw (==_refl f.name) refl, Found-later f fs fs i (suc i) h.0 (Distinct-Found fs (suc i) h.1))

module _ (G : Setting) (all : List StructField) (p q : Place) (h : Heap) (vs us₀ : Values)
    (apart : (q.block == p.block) ≡ false) (source : read_place h q ≡ some (items vs))
    (target : read_place h p ≡ some (items us₀)) where
  abbrev after : Values → Heap
  after us = write_place p (items us) h

  source_item :
      (us : Values) (i : ℕ) {v : Value}
      → get_value vs i ≡ some v
      → read_place (after us) (below q i) ≡ some v
  unfolding read_place
  source_item us i {v} e =
      read_place-other h p (below q i) (items us) apart
      ∙ read_at-item (h.block q.block) q.path i vs v source e

  stored :
      (us : Values) (i : ℕ) (v : Value)
      → i < count_values us
      → write_place (below p i) v (after us) ≡ after (set_value us i v)
  stored us i v l =
      write_place-item p (after us) us (read_place-write_place h p (items us₀) (items us) target) i
        v l
      ∙ write_place-twice p h (items us₀) target (items us) (items (set_value us i v))

  run_assigns :
      (fs : List StructField) (i : ℕ) (us ws : Values)
      → Found (λ n. field_index n all 0) fs i
      → taken vs i (length fs) ≡ some ws
      → i + length fs ≤ count_values us
      → run_stmts G all all (assigns fs) p q (after us) ≡ (ok tt, after (overwrite us i ws))
  unfolding run_stmts run_at load_at store_at assigns taken overwrite
  run_assigns [] i us ws found has fits =
      ap (λ x. (ok tt, after (overwrite us i x))) (some-injective no_values ws has)
  run_assigns (f ∷ fs) i us ws found has fits =
      let (v, more, e, has', same) = taken-first vs i (length fs) has in
      let rest =
        run_assigns fs (suc i) (set_value us i v) more found.1 has'
          (rw (count-set us i v) (omega (arith, fits))) in
      rw same (rw found.0 (rw (source_item us i e) (rw (stored us i v (omega (arith, fits))) rest)))

  -- A body that assigns every field of a struct, in order, sets the destination to the value of
  -- the source and changes nothing else, where the two are in different blocks.
  pub run_stmts-assigns :
      Distinct all
      → count_values vs ≡ length all
      → count_values us₀ ≡ length all
      → run_stmts G all all (assigns all) p q h ≡ (ok tt, write_place p (items vs) h)
  run_stmts-assigns distinct m n =
      let has : taken vs 0 (length all) ≡ some vs = rw (sym m) (taken-all vs) in
      subst (λ x. run_stmts G all all (assigns all) p q x ≡ (ok tt, write_place p (items vs) h))
        (write_place-same p h (items us₀) target)
        (run_assigns all 0 us₀ vs (Distinct-Found all 0 distinct) has (omega (arith, n))
          ∙ ap (λ x. (ok tt, after x)) (overwrite-all us₀ vs (n ∙ sym m)))
