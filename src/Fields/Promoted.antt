-- ===== src/Fields/Promoted.antt =====
-- Which promoted fields an embedded struct offers: parseNestedFields of fields.go.
use fastcopier.Base.{
  ℕ, suc, String, ◌≡◌, refl, ◌∙◌, Bool, true, false, ◌&&◌, ◌||◌, List, [], ◌∷◌, ◌++◌, ◌==◌,
  string_eq, if◌then◌else◌, Option, some, none, arith, inl, inr, Bool-cases, contains, list_eq,
  nat_eq, All,
}
use fastcopier.Base.Dict.{lookup, lookup-insert, lookup-erase}
use fastcopier.Base.Outcome.{ok}
use fastcopier.Fields.{
  FieldMeta, Metas, Promote, Promoting, new_meta, apply_tag, add_promoted, nested_step, nested_loop,
  promoted_of, through_pointer, parse_nested_fields,
}
use fastcopier.GoTypes.{Types, StructField, struct}
use text.Mathlib.TextEquality.{eq_iff}

abbrev has_key : String → List FieldMeta → Bool
has_key k [] = false
has_key k (m ∷ ms) = k == m.key || has_key k ms

-- The only descriptor with the key, if there is just one.
abbrev pub unique : String → List FieldMeta → Option FieldMeta
unique k [] = none
unique k (m ∷ ms) = if k == m.key then (if has_key k ms then none else some m) else unique k ms

add_all : List FieldMeta → Promoting → Promoting
add_all [] s = s
add_all (m ∷ ms) s = add_all ms (add_promoted m m.key s).0

-- What the loop does to one key: `met` says that it is ambiguous.
abbrev after : String → List FieldMeta → Bool → Option FieldMeta → Option FieldMeta
after k ms true o = o
after k ms false none = unique k ms
after k ms false (some m) = if has_key k ms then none else some m

-- An ambiguous key is not in the map.
abbrev pub IsApart : Promoting → Type 0
IsApart s = (k : String) → contains s.ambiguous k ≡ true → lookup k s.result ≡ none

add_promoted-IsApart :
    (m : FieldMeta) (k : String) (s : Promoting) → IsApart s → IsApart (add_promoted m k s).0
unfolding add_promoted
add_promoted-IsApart m k s h j a =
    ground (arith, h j, eq_iff j k, lookup-insert j k m s.result, lookup-erase j k s.result)

after-add_promoted :
    (k : String) (m : FieldMeta) (ms : List FieldMeta) (s : Promoting)
    → IsApart s
    → (let s' = (add_promoted m m.key s).0 in
        after k ms (contains s'.ambiguous k) (lookup k s'.result))
      ≡ after k (m ∷ ms) (contains s.ambiguous k) (lookup k s.result)
unfolding add_promoted
after-add_promoted k m ms s h =
    ground
      (arith, h k, eq_iff k m.key, lookup-insert k m.key m s.result, lookup-erase k m.key s.result)

lookup-add_all :
    (k : String) (ms : List FieldMeta) (s : Promoting)
    → IsApart s
    → lookup k (add_all ms s).result ≡ after k ms (contains s.ambiguous k) (lookup k s.result)
unfolding add_all
lookup-add_all k [] s h = ground arith
lookup-add_all k (m ∷ ms) s h =
    lookup-add_all k ms (add_promoted m m.key s).0 (add_promoted-IsApart m m.key s h)
    ∙ after-add_promoted k m ms s h

-- The fields under a path that are not left out, in the order of declaration.
unfoldable pub offered : Types → String → List StructField → ℕ → List ℕ → List FieldMeta
offered T tag_name [] i index = []
offered T tag_name (sf ∷ fs) i index =
    let m = apply_tag T (new_meta sf (index ++ (i ∷ []))) tag_name in
    let rest = offered T tag_name fs (suc i) index in if m.ignored then rest else m ∷ rest

module _ (T : Types) (range : Metas → Metas) (tag_name : String) where
  nested_loop-add_all :
      (promote : Promote) (fs : List StructField) (i : ℕ) (index : List ℕ) (s : Promoting)
      → All (λ sf. sf.anonymous ≡ false) fs
      → nested_loop T range tag_name promote fs i index s
        ≡ ok (add_all (offered T tag_name fs i index) s)
  unfolding nested_loop nested_step add_all offered
  nested_loop-add_all promote [] i index s h = refl
  nested_loop-add_all promote (sf ∷ fs) i index s h =
      let m = apply_tag T (new_meta sf (index ++ (i ∷ []))) tag_name in
      elim (Bool-cases m.ignored) [
        | inl left_out ↦ rw left_out (nested_loop-add_all promote fs (suc i) index s h.1)
        | inr kept ↦ rw (kept, h.0, and-false) (nested_loop-add_all promote fs (suc i) index _ h.1)
      ]
    where
      and-false : (b : Bool) → (b && false) ≡ false
      and-false b = ground arith

  -- A struct that embeds nothing offers, under each key, the only field that has the key: a key
  -- that two fields share is offered by neither, however many more have it.
  pub parse_nested_fields-unique :
      (fuel t u : ℕ) (fs : List StructField) (index : List ℕ) (k : String)
      → through_pointer T t ≡ ok u
      → T.desc u ≡ struct fs
      → All (λ sf. sf.anonymous ≡ false) fs
      → (r : Metas) × (parse_nested_fields T range tag_name (suc fuel) t index ≡ ok r)
        × (lookup k r ≡ unique k (offered T tag_name fs 0 index))
  unfolding parse_nested_fields promoted_of lookup
  parse_nested_fields-unique fuel t u fs index k e d plain =
      let s : Promoting = record { result = []; ambiguous = [] } in
      (
        (add_all (offered T tag_name fs 0 index) s).result,
        rw e (
            rw d (
              rw (
                nested_loop-add_all (parse_nested_fields T range tag_name fuel) fs 0 index s
                  plain))),
        lookup-add_all k (offered T tag_name fs 0 index) s (λ j a. refl),
      )
