-- ===== src/Fields/Cycles.antt =====
-- When the walk over embedded structs ends: parseNestedFields of fields.go.
use fastcopier.Base.{
  ℕ, zero, suc, ◌<◌, String, ◌≡◌, refl, Bool, true, ◌&&◌, List, [], ◌∷◌, ◌++◌, All, All-map, ◌==◌,
  nat_eq, string_eq, none, arith, inl, inr, Bool-cases,
}
use fastcopier.Base.Dict.{lookup}
use fastcopier.Base.Outcome.{ok, out_of_fuel, IsOk, ok-IsOk, >>=-IsOk, if-IsOk}
use fastcopier.Fields.{
  Metas, Promote, Promoting, new_meta, nested_step, nested_loop, through_pointer, promoted_of,
  parse_nested_fields,
}
use fastcopier.Fields.Collisions.{IsNew, IsOther, add_promoted-new, nested_loop-before, untagged}
use fastcopier.GoTypes.Kinds.{struct_fields, pointer_elem, fields_of_struct}
use fastcopier.GoTypes.{kind, pointer_kind, struct_kind, Types, StructField, struct, pointer}

through_pointer-ok : (T : Types) (t : ℕ) → (u : ℕ) × (through_pointer T t ≡ ok u)
through_pointer-ok T t = elim (Bool-cases (kind T t == pointer_kind)) [
  | inl e ↦ let (u, found) = pointer_elem (T.desc t) e in (u, rw (e, found))
  | inr e ↦ (t, rw e)
]

-- No type embeds itself, directly or through others: `rank` falls along embedded fields.
abbrev pub IsRanked : Types → (ℕ → ℕ) → Type 0
IsRanked T rank =
    (t u : ℕ) (fs : List StructField)
    → through_pointer T t ≡ ok u
    → T.desc u ≡ struct fs
    → All (λ sf. sf.anonymous ≡ true → rank sf.typ < rank t) fs

module _ (T : Types) (range : Metas → Metas) (tag_name : String) where
  module _ (fs more : List StructField) (sf : StructField) (t : ℕ) (embedded : sf.anonymous ≡ true)
      (untag : lookup tag_name sf.tags ≡ none) (is_struct : T.desc t ≡ struct (fs ++ (sf ∷ more)))
      (points : T.desc sf.typ ≡ pointer t) (plain : All (IsOther tag_name sf.name) fs) where
    deeper_step :
        (promote : Promote) (index : List ℕ) (s : Promoting)
        → IsNew sf.name s
        → promote sf.typ index ≡ out_of_fuel
        → nested_step T range tag_name promote sf index s ≡ out_of_fuel
    unfolding nested_step
    deeper_step promote index s new e = rw (
      untagged T range tag_name sf index untag,
      add_promoted-new (new_meta sf index) sf.name s new.0 new.1,
      embedded,
      e,
    )

    -- A struct type that embeds a pointer to itself, untagged, behind fields that are untagged,
    -- embed nothing and have other names, makes the walk over its promoted fields recur without
    -- end: no amount of fuel is enough. Go accepts the type.
    pub parse_nested_fields-self_embedding :
        (fuel : ℕ) (index : List ℕ)
        → parse_nested_fields T range tag_name fuel sf.typ index ≡ out_of_fuel
    unfolding parse_nested_fields promoted_of nested_loop lookup
    parse_nested_fields-self_embedding zero index = refl
    parse_nested_fields-self_embedding (suc fuel) index =
        let promote = parse_nested_fields T range tag_name fuel in
        let (s, j, runs, at_j, apart, new, seen) =
          nested_loop-before T range tag_name promote sf.name fs (sf ∷ more) 0 index
            (record { result = []; ambiguous = [] }) plain (λ a b. cc) (refl, refl) in
        let deeper = parse_nested_fields-self_embedding fuel (index ++ (j ∷ [])) in
        rw points (rw is_struct (rw runs (rw (deeper_step promote _ s new deeper) refl)))

  and-right : (a b : Bool) → (a && b) ≡ true → b ≡ true
  and-right a b h = ground arith

  -- Every embedded field finds its promoted fields.
  abbrev Promotes : Promote → StructField → Type 0
  Promotes promote sf = sf.anonymous ≡ true → (index : List ℕ) → IsOk (promote sf.typ index)

  nested_step-IsOk :
      (promote : Promote) (sf : StructField) (index : List ℕ) (s : Promoting)
      → Promotes promote sf
      → IsOk (nested_step T range tag_name promote sf index s)
  unfolding nested_step
  nested_step-IsOk promote sf index s h = search (if-IsOk, >>=-IsOk, ok-IsOk, and-right, h) depth 8

  nested_loop-IsOk :
      (promote : Promote) (fs : List StructField) (i : ℕ) (index : List ℕ) (s : Promoting)
      → All (Promotes promote) fs
      → IsOk (nested_loop T range tag_name promote fs i index s)
  unfolding nested_loop
  nested_loop-IsOk promote [] i index s h = ok-IsOk s
  nested_loop-IsOk promote (sf ∷ fs) i index s h =
      >>=-IsOk (nested_step T range tag_name promote sf (index ++ (i ∷ [])) s) _
        (nested_step-IsOk promote sf (index ++ (i ∷ [])) s h.0)
        (λ s'. nested_loop-IsOk promote fs (suc i) index s' h.1)

  promoted_of-IsOk :
      (promote : Promote) (index : List ℕ) (u : ℕ)
      → ((fs : List StructField) → T.desc u ≡ struct fs → All (Promotes promote) fs)
      → IsOk (promoted_of T range tag_name promote index u)
  unfolding promoted_of
  promoted_of-IsOk promote index u h = elim (Bool-cases (kind T u == struct_kind)) [
    | inr other ↦ rw other (ok-IsOk _)
    | inl is_struct ↦
        let (fs, fields) = struct_fields (T.desc u) is_struct in
        rw (is_struct, fields)
          (>>=-IsOk _ _ (nested_loop-IsOk promote fs 0 index _ (h fs (fields_of_struct _ fields)))
            (λ s. ok-IsOk _))
  ]

  -- If no struct type embeds itself, the walk over the promoted fields of a type of rank below
  -- the fuel returns a map: it neither runs on nor panics, whatever the tags and the order in
  -- which maps are iterated.
  pub parse_nested_fields-IsOk :
      (rank : ℕ → ℕ)
      → IsRanked T rank
      → (fuel t : ℕ) (index : List ℕ) → rank t < fuel
      → IsOk (parse_nested_fields T range tag_name fuel t index)
  unfolding parse_nested_fields
  parse_nested_fields-IsOk rank ranked zero t index h = absurd (omega arith)
  parse_nested_fields-IsOk rank ranked (suc fuel) t index h =
      let (u, found) = through_pointer-ok T t in
      rw found (
        promoted_of-IsOk (parse_nested_fields T range tag_name fuel) index u λ fs e.
          All-map fs
            (λ sf below embedded idx.
              parse_nested_fields-IsOk rank ranked fuel sf.typ idx (rank_step (below embedded) h))
            (ranked t u fs found e))
    where
      rank_step : {a : ℕ} → a < rank t → rank t < suc fuel → a < fuel
      rank_step p q = omega arith
