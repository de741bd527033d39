-- ===== src/Fields/Shadowing.antt =====
-- Fields and deeper promoted fields of the same name: parseNestedFields of fields.go.
use fastcopier.Base.{
  ℕ, suc, String, ◌≡◌, refl, true, false, List, [], ◌∷◌, ◌++◌, string_eq, none, arith, inl, inr,
  length, All, Bool-cases, list_eq, nat_eq,
}
use fastcopier.Base.Dict.{lookup, has_value}
use fastcopier.Base.Outcome.{ok}
use fastcopier.Fields.{
  Metas, Promote, Promoting, new_meta, apply_tag, add_promoted, add_nested, set_nested, nested_step,
  nested_loop, promoted_of, through_pointer, parse_nested_fields,
}
use fastcopier.Fields.Promoted.{IsApart}
use fastcopier.GoTypes.{Types, StructField, struct}
use fastcopier.Fields.Collisions.{
  IsOut, add_promoted-IsOut, add_promoted-IsApart, Seen, add_promoted-Seen, IsNew, add_nested-Seen,
  set_nested-none, add_promoted-new, untagged, IsOther, is_named, nested_loop-before,
}

module _ (T : Types) (range : Metas → Metas) (tag_name : String) where
  nested_step-embedded :
      (promote : Promote) (sf : StructField) (index : List ℕ) (s : Promoting) {inner : Metas}
      → lookup tag_name sf.tags ≡ none
      → sf.anonymous ≡ true
      → promote sf.typ index ≡ ok inner
      → IsApart s
      → IsNew sf.name s
      → (k : String) → Seen k s
      → has_value (lookup k (range inner)) ≡ true
      → (s' : Promoting) × (nested_step T range tag_name promote sf index s ≡ ok s') × IsOut k s'
  unfolding nested_step
  nested_step-embedded promote sf index s {inner} h a e apart new k seen there =
      let m = new_meta sf index in
      let s₁ = (add_promoted m sf.name s).0 in
      let (s₂, paths) = add_nested (range inner) s₁ in
      let out =
        add_nested-Seen k (range inner) s₁ (add_promoted-IsApart m sf.name s apart)
          (add_promoted-Seen m sf.name k s seen) there in
      (
        record s₂ { result = set_nested m paths s₂.result },
        rw (untagged T range tag_name sf index h, add_promoted-new m sf.name s new.0 new.1, a, e),
        (out.0, set_nested-none k m paths s₂.result out.1),
      )

  nested_step-IsOut :
      (promote : Promote) (sf : StructField) (index : List ℕ) (k : String) (s : Promoting)
      → sf.anonymous ≡ false
      → IsOut k s
      → (s' : Promoting) × (nested_step T range tag_name promote sf index s ≡ ok s') × IsOut k s'
  unfolding nested_step
  nested_step-IsOut promote sf index k s a out =
      let m = apply_tag T (new_meta sf index) tag_name in
      elim (Bool-cases m.ignored) [
        | inl left ↦ (s, rw left refl, out)
        | inr kept ↦ (
          (add_promoted m m.key s).0,
          rw kept (rw a (ground arith)),
          add_promoted-IsOut m m.key k s out,
        )
      ]

  nested_loop-IsOut :
      (promote : Promote) (fs : List StructField) (i : ℕ) (index : List ℕ) (k : String)
      (s : Promoting)
      → All (λ sf. sf.anonymous ≡ false) fs
      → IsOut k s
      → (s' : Promoting) × (nested_loop T range tag_name promote fs i index s ≡ ok s')
        × (lookup k s'.result ≡ none)
  unfolding nested_loop
  nested_loop-IsOut promote [] i index k s plain out = (s, refl, out.1)
  nested_loop-IsOut promote (sf ∷ fs) i index k s plain out =
      let (s₁, run, out₁) = nested_step-IsOut promote sf (index ++ (i ∷ [])) k s plain.0 out in
      let (s₂, more, gone) = nested_loop-IsOut promote fs (suc i) index k s₁ plain.1 out₁ in
      (s₂, rw run more, gone)

  -- In a type that the walk over promoted fields reaches: an embedded struct that offers a field
  -- under the name of a field that stands before it takes that name out. The walk returns, and finds
  -- nothing under it. The fields before the embedded struct are untagged, embed nothing and have
  -- other names than it; it is untagged; the fields behind it embed nothing. (Go selects the
  -- shallower field.)
  pub parse_nested_fields-shadowed :
      (fuel t u : ℕ) (fs more : List StructField) (e : StructField) (k : String) (index : List ℕ)
      {inner : Metas}
      → through_pointer T t ≡ ok u
      → T.desc u ≡ struct (fs ++ (e ∷ more))
      → All (IsOther tag_name e.name) fs
      → is_named k fs ≡ true
      → lookup tag_name e.tags ≡ none
      → e.anonymous ≡ true
      → All (λ sf. sf.anonymous ≡ false) more
      → parse_nested_fields T range tag_name fuel e.typ (index ++ (length fs ∷ [])) ≡ ok inner
      → has_value (lookup k (range inner)) ≡ true
      → (r : Metas) × (parse_nested_fields T range tag_name (suc fuel) t index ≡ ok r)
        × (lookup k r ≡ none)
  unfolding parse_nested_fields promoted_of nested_loop lookup
  parse_nested_fields-shadowed fuel t u fs more e k index through is_struct plain in_fs untag
        embedded last found there =
      let promote = parse_nested_fields T range tag_name fuel in
      let s₀ : Promoting = record { result = []; ambiguous = [] } in
      let (s₁, j, runs, at_j, apart, new, seen) =
        nested_loop-before T range tag_name promote e.name fs (e ∷ more) 0 index s₀ plain
          (λ a b. cc) (refl, refl) in
      let here : j ≡ length fs = omega arith in
      let (s₂, step, out) =
        nested_step-embedded promote e (index ++ (j ∷ [])) s₁ untag embedded (rw here found) apart
          new k (seen k (inr in_fs)) there in
      let (s₃, end, gone) = nested_loop-IsOut promote more (suc j) index k s₂ last out in
      (s₃.result, rw through (rw is_struct (rw runs (rw step (rw end refl)))), gone)
