-- ===== src/Flat/Total.antt =====
-- The test for flat types ends, with the right answer: engine.go.
use fastcopier.Base.{
  ℕ, zero, suc, ◌<◌, ◌≡◌, Bool, true, false, List, [], ◌∷◌, All, All-map, nat_eq, arith, inl, inr,
  Option-cases,
}
use fastcopier.Base.Dict.{lookup}
use fastcopier.Base.Outcome.{ok, IsOk, returns, ok-IsOk, >>=-IsOk}
use fastcopier.Errors.{Error}
use fastcopier.Flat.Correct.{Answers, IsSound, is_flat_type_correct}
use fastcopier.Flat.{FlatCache, FlatTest, flat_fields, compute_flat_type, is_flat_type}
use fastcopier.GoTypes.{Types, StructField, Desc, array, struct}

-- No type contains itself: `rank` falls from a struct to its fields and from an array to its
-- elements. (A value of a type that contains itself would have no finite size.)
abbrev pub PartsBelow : (ℕ → ℕ) → ℕ → Desc → Type 0
PartsBelow rank t (struct fs) = All (λ sf. rank sf.typ < rank t) fs
PartsBelow rank t (array e n) = rank e < rank t
PartsBelow rank t d = Unit

abbrev pub IsFinite : Types → (ℕ → ℕ) → Type 0
IsFinite T rank = (t : ℕ) → PartsBelow rank t (T.desc t)

flat_fields-IsOk :
    (test : FlatTest) (fs : List StructField) (c : FlatCache)
    → All (λ sf. (c : FlatCache) → IsOk (test sf.typ c)) fs
    → IsOk (flat_fields test fs c)
unfolding flat_fields
flat_fields-IsOk test [] c h = ok-IsOk _
flat_fields-IsOk test (sf ∷ fs) c h =
    >>=-IsOk (test sf.typ c) _ (h.0 c) λ r. go r.0 r.1 (flat_fields-IsOk test fs r.1 h.1)
  where
    go :
        (v : Bool) (c₁ : FlatCache)
        → IsOk (flat_fields test fs c₁)
        → IsOk {E = Error} {A = Bool × FlatCache}
            (elim v [ false ↦ ok (false, c₁) | true ↦ flat_fields test fs c₁ ])
    go true c₁ h = h
    go false c₁ h = ok-IsOk _

module _ (T : Types) (rank : ℕ → ℕ) (finite : IsFinite T rank) where
  below : (a b fuel : ℕ) → a < b → b < suc fuel → a < fuel
  below a b fuel h k = omega arith

  compute_flat_type-IsOk :
      (test : FlatTest) (fuel t : ℕ)
      → rank t < suc fuel
      → ((s : ℕ) (c : FlatCache) → rank s < fuel → IsOk (test s c))
      → (d : Desc) → PartsBelow rank t d
      → (c : FlatCache) → IsOk (compute_flat_type test d c)
  unfolding compute_flat_type
  compute_flat_type-IsOk test fuel t h ends (struct fs) parts c =
      flat_fields-IsOk test fs c
        (All-map fs (λ sf p c₁. ends sf.typ c₁ (below (rank sf.typ) (rank t) fuel p h)) parts)
  compute_flat_type-IsOk test fuel t h ends (array e n) parts c =
      ends e c (below (rank e) (rank t) fuel parts h)
  compute_flat_type-IsOk test fuel t h ends d parts c = ok-IsOk _

  -- Where no type contains itself, the test answers for every type of rank below the fuel, and
  -- with any memo.
  pub is_flat_type-IsOk :
      (fuel t : ℕ) (c : FlatCache) → rank t < fuel → IsOk (is_flat_type T fuel t c)
  unfolding is_flat_type
  is_flat_type-IsOk zero t c h = absurd (omega arith)
  is_flat_type-IsOk (suc fuel) t c h = elim (Option-cases (lookup t c)) [
    | inr (v, known) ↦ rw (known, is_flat_type) (ok-IsOk _)
    | inl fresh ↦
        rw (fresh, is_flat_type)
          (>>=-IsOk _ _
            (compute_flat_type-IsOk (is_flat_type T fuel) fuel t h
              (λ s c₁ p. is_flat_type-IsOk fuel s c₁ p) (T.desc t) (finite t) c)
            (λ r. ok-IsOk _))
  ]

  -- Where no type contains itself, isFlatType returns with fuel above the rank of the type. Given a
  -- memo that is right, it answers true exactly for the types that arrays and structs make of
  -- functions and of basic types other than unsafe.Pointer, and leaves a memo that is right.
  pub is_flat_type_decides :
      (fuel t : ℕ) (c : FlatCache)
      → rank t < fuel
      → IsSound T c
      → (b : Bool) × (c' : FlatCache) × (is_flat_type T fuel t c ≡ ok (b, c'))
        × Answers T t b
        × IsSound T c'
  is_flat_type_decides fuel t c enough sound = elim (is_flat_type-IsOk fuel t c enough) [
    | returns r e ↦
        let right = is_flat_type_correct T fuel t c r sound e in (r.0, r.1, e, right.0, right.1)
  ]
