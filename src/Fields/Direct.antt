-- ===== src/Fields/Direct.antt =====
-- Which field of a struct has a key: parseStructFields of fields.go.
use mathlib.Core.Option.{or_else}
use mathlib.Core.Option
use fastcopier.Base.{
  ℕ, suc, String, ◌≡◌, refl, ◌∙◌, ap, Bool, true, false, ◌&&◌, List, [], ◌∷◌, ◌==◌, string_eq,
  if◌then◌else◌, Option, some, none, arith, inl, inr, Bool-cases, Option-cases, list_eq, nat_eq,
}
use fastcopier.Base.Dict.{lookup, lookup-insert}
use fastcopier.Base.Outcome.{Outcome, ok, >>=-eq-ok}
use fastcopier.Errors.{Error}
use fastcopier.Fields.{
  FieldMeta, Metas, Parsed, new_meta, apply_tag, add_direct, add_inherited, set_direct_nested,
  parse_nested_fields, direct_step, direct_loop, parse_struct_fields, paths_of,
}
use fastcopier.GoTypes.{Types, StructField, struct}
use text.Mathlib.TextEquality.{eq_iff}

-- A field by its path, and whether its key comes from a rename.
abbrev pub Win : Type 0
Win = List ℕ × Bool

abbrev win : FieldMeta → Win
win m = (m.index, m.renamed)

unfoldable pub holder : String → Metas → Option Win
holder k direct = Option.map win (lookup k direct)

abbrev pub first_renamed : String → List FieldMeta → Option Win
first_renamed k [] = none
first_renamed k (m ∷ ms) = if k == m.key && m.renamed then some (win m) else first_renamed k ms

abbrev pub first_named : String → List FieldMeta → Option Win
first_named k [] = none
first_named k (m ∷ ms) = if k == m.key then some (win m) else first_named k ms

abbrev challenge : String → FieldMeta → Option Win → Option Win
challenge k m o =
    if k == m.key
    then (elim o [
      | none ↦ some (win m)
      | some (i, true) ↦ some (i, true)
      | some (i, false) ↦ if m.renamed then some (win m) else some (i, false)
    ])
    else o

holder-add_direct :
    (k : String) (m : FieldMeta) (p : Parsed)
    → holder k (add_direct m p).direct ≡ challenge k m (holder k p.direct)
unfolding holder add_direct
holder-add_direct k m p = elim (Option-cases (lookup m.key p.direct)) [
  | inl e ↦ rw (e, add_direct, lookup-insert) (ground (arith, eq_iff k m.key))
  | inr (m', e) ↦
      rw (e, add_direct) (ground (arith, eq_iff k m.key, lookup-insert k m.key m p.direct))
]

direct-add_inherited : (inner : Metas) (p : Parsed) → (add_inherited inner p).direct ≡ p.direct
unfolding add_inherited
direct-add_inherited [] p = refl
direct-add_inherited ((k, d) ∷ inner) p = direct-add_inherited inner _

holder-set_direct_nested :
    (k : String) (m : FieldMeta) (paths : List (List ℕ)) (direct : Metas)
    → holder k (set_direct_nested m paths direct) ≡ holder k direct
unfolding holder set_direct_nested
holder-set_direct_nested k m paths direct = elim (Option-cases (lookup m.key direct)) [
  | inl e ↦ rw (e, set_direct_nested)
  | inr (m', e) ↦
      rw (e, set_direct_nested)
        (ground
          (arith, eq_iff k m.key, lookup-insert k m.key (record m' { nested = paths }) direct))
]

-- The fields that are not left out, in the order of declaration.
unfoldable pub candidates : Types → String → List StructField → ℕ → List FieldMeta
candidates T tag_name [] i = []
candidates T tag_name (sf ∷ fs) i =
    let m = apply_tag T (new_meta sf (i ∷ [])) tag_name in
    let rest = candidates T tag_name fs (suc i) in if m.ignored then rest else m ∷ rest

challenge_all : String → List FieldMeta → Option Win → Option Win
challenge_all k [] o = o
challenge_all k (m ∷ ms) o = challenge_all k ms (challenge k m o)

direct_of : {p q : Parsed} → ◌≡◌ {A = Outcome Error Parsed} (ok p) (ok q) → q ≡ p
direct_of h = cc

module _ (T : Types) (range : Metas → Metas) (tag_name : String) where
  holder-direct_step :
      (fuel : ℕ) (sf : StructField) (i : ℕ) (p : Parsed) {p' : Parsed} (k : String)
      → direct_step T range tag_name fuel sf i p ≡ ok p'
      → holder k p'.direct ≡ (
          let m = apply_tag T (new_meta sf (i ∷ [])) tag_name in
          if m.ignored then holder k p.direct else challenge k m (holder k p.direct))
  unfolding direct_step
  holder-direct_step fuel sf i p k h =
      let m = apply_tag T (new_meta sf (i ∷ [])) tag_name in
      elim (Bool-cases m.ignored) [
        | inl skipped ↦ ground (arith, holder-add_direct k m p)
        | inr kept ↦ elim (Bool-cases sf.anonymous) [
          | inr plain ↦ ground (arith, holder-add_direct k m p)
          | inl embedded ↦
              let h' = rw (kept, embedded) at h in
              let (found, e, e') =
                >>=-eq-ok (parse_nested_fields T range tag_name fuel sf.typ (i ∷ [])) _ h' in
              let inner = range found in
              let p₁ = add_direct m p in
              ground (
                arith,
                holder-add_direct k m p,
                ap (λ (q : Parsed). holder k q.direct) (direct_of e'),
                holder-set_direct_nested k m (paths_of inner) (add_inherited inner p₁).direct,
                ap (holder k) (direct-add_inherited inner p₁),
              )
        ]
      ]

  holder-direct_loop :
      (fuel : ℕ) (fs : List StructField) (i : ℕ) (p : Parsed) {p' : Parsed} (k : String)
      → direct_loop T range tag_name fuel fs i p ≡ ok p'
      → holder k p'.direct ≡ challenge_all k (candidates T tag_name fs i) (holder k p.direct)
  unfolding direct_loop challenge_all candidates
  holder-direct_loop fuel [] i p k h = ground arith
  holder-direct_loop fuel (sf ∷ fs) i p k h =
      let (p₁, e, e') = >>=-eq-ok (direct_step T range tag_name fuel sf i p) _ h in
      let m = apply_tag T (new_meta sf (i ∷ [])) tag_name in
      holder-direct_loop fuel fs (suc i) p₁ k e'
      ∙ rw (holder-direct_step fuel sf i p k e)
          (elim (Bool-cases m.ignored) [ inl s ↦ rw s | inr s ↦ rw s ])

-- The first renamed field with the key, or else the first field with it.
unfoldable pub winner : String → List FieldMeta → Option Win
winner k ms = or_else (first_renamed k ms) (first_named k ms)

settle : String → List FieldMeta → Option Win → Option Win
settle k ms none = or_else (first_renamed k ms) (first_named k ms)
settle k ms (some (i, true)) = some (i, true)
settle k ms (some (i, false)) = or_else (first_renamed k ms) (some (i, false))

challenge_all-settle :
    (k : String) (ms : List FieldMeta) (o : Option Win) → challenge_all k ms o ≡ settle k ms o
unfolding challenge_all settle or_else
challenge_all-settle k [] none = refl
challenge_all-settle k [] (some (i, true)) = refl
challenge_all-settle k [] (some (i, false)) = refl
challenge_all-settle k (m ∷ ms) none =
    ground (arith, challenge_all-settle k ms none, challenge_all-settle k ms (some (win m)))
challenge_all-settle k (m ∷ ms) (some (i, true)) =
    ground (arith, challenge_all-settle k ms (some (i, true)))
challenge_all-settle k (m ∷ ms) (some (i, false)) =
    ground
      (arith, challenge_all-settle k ms (some (i, false)), challenge_all-settle k ms (some (win m)))

-- In the fields that parseStructFields returns, a key belongs to the first field that is renamed
-- to it, and only if there is none, to the first field that has it by its own name; a field left
-- out by `-` has no key. This holds whatever is embedded and whatever the order of iteration.
pub parse_struct_fields-winner :
    (T : Types) (range : Metas → Metas) (tag_name : String) (fuel t : ℕ) (fs : List StructField)
    {p : Parsed} (k : String)
    → T.desc t ≡ struct fs
    → parse_struct_fields T range tag_name fuel t ≡ ok p
    → holder k p.direct ≡ winner k (candidates T tag_name fs 0)
unfolding parse_struct_fields winner settle holder lookup
parse_struct_fields-winner T range tag_name fuel t fs k e h =
    holder-direct_loop T range tag_name fuel fs 0 _ k (rw e at h)
    ∙ challenge_all-settle k (candidates T tag_name fs 0) none
