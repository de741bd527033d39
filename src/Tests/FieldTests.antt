-- ===== src/Tests/FieldTests.antt =====
-- The theorems on struct fields and tags at concrete types.
use mathlib.Core.Path.{subst, sym}
use fastcopier.Base.{
  ℕ, ◌<◌, String, ◌≡◌, refl, Bool, true, false, List, [], ◌∷◌, ◌==◌, nat_eq, string_eq, list_eq,
  none, arith, inl, inr, Bool-cases, All, ap, eqb_iff, ◌∙◌,
}
use fastcopier.Base.Dict.{lookup, insert, erase}
use fastcopier.Base.Outcome.{Outcome, ok, out_of_fuel, IsOk, ok-injective}
use fastcopier.Errors.{Error}
use fastcopier.Fields.{
  Metas, Parsed, new_meta, apply_tag, split_comma, mark_done, parse_struct_fields,
  parse_nested_fields, promoted_of, through_pointer, nested_loop, nested_step, add_promoted,
  add_nested, set_nested, direct_loop, direct_step, add_direct, add_inherited, set_direct_nested,
}
use fastcopier.Fields.Cycles.{
  parse_nested_fields-self_embedding, parse_nested_fields-IsOk, IsRanked,
}
use fastcopier.Fields.Direct.{holder, winner, candidates, parse_struct_fields-winner}
use fastcopier.Fields.Promoted.{unique, offered, parse_nested_fields-unique}
use fastcopier.Fields.Shadowing.{parse_nested_fields-shadowed}
use fastcopier.Fields.Tags.{described, apply_tag-described}
use fastcopier.GoTypes.{Desc, StructField, struct}
use fastcopier.Tests.Sample.{
  order, parsed_of, types, small, small_fields, field, embedded, tag, user, user_fields, node,
  node_pointer, inner, middle, int_type, string_type,
}

run : Unit {0}
unfolding lookup insert erase split_comma apply_tag parse_struct_fields parse_nested_fields
    promoted_of nested_loop nested_step add_promoted add_nested set_nested direct_loop direct_step
    add_direct add_inherited set_direct_nested holder winner candidates offered mark_done
run = tt

abbrev keys_of : Outcome Error Parsed → List String
keys_of (ok p) = p.direct_keys
keys_of _ = []

-- "full_name,required" names the key and requires the field; the field with "-" is left out.
user_keys :
    keys_of (parse_struct_fields types order "fastcopier" 3 user) ≡ ("full_name" ∷ "Age" ∷ [])
unfolding run
user_keys = refl

apply_tag-described_example :
    let sf = field "Name" string_type (tag "full_name,required") in
    apply_tag types (new_meta sf (0 ∷ [])) "fastcopier"
    ≡ described types sf (0 ∷ []) (lookup "fastcopier" sf.tags)
apply_tag-described_example =
    apply_tag-described types (field "Name" string_type (tag "full_name,required")) (0 ∷ [])
      "fastcopier"

parse_struct_fields-winner_example :
    holder "full_name" (parsed_of (parse_struct_fields types order "fastcopier" 3 user)).direct
    ≡ winner "full_name" (candidates types "fastcopier" user_fields 0)
unfolding run
parse_struct_fields-winner_example =
    parse_struct_fields-winner types order "fastcopier" 3 user user_fields
      {p = parsed_of (parse_struct_fields types order "fastcopier" 3 user)} "full_name" refl refl

parse_nested_fields-unique_example :
    (r : Metas) × (parse_nested_fields types order "fastcopier" 2 user (4 ∷ []) ≡ ok r)
    × (lookup "Age" r ≡ unique "Age" (offered types "fastcopier" user_fields 0 (4 ∷ [])))
parse_nested_fields-unique_example =
    parse_nested_fields-unique types order "fastcopier" 1 user user user_fields (4 ∷ []) "Age" refl
      refl (refl, (refl, (refl, tt)))

-- Middle has a field X and embeds Inner, which has one too: neither is offered.
parse_nested_fields-shadowed_example :
    (r : Metas) × (parse_nested_fields types order "fastcopier" 3 middle [] ≡ ok r)
    × (lookup "X" r ≡ none)
unfolding run
parse_nested_fields-shadowed_example =
    parse_nested_fields-shadowed types order "fastcopier" 2 middle middle
      (field "X" int_type [] ∷ []) [] (embedded "Inner" inner) "X" [] refl refl
      ((refl, refl, refl), tt) refl refl refl tt refl refl

parse_nested_fields-self_embedding_example :
    parse_nested_fields types order "fastcopier" 9 node_pointer [] ≡ out_of_fuel
unfolding lookup
parse_nested_fields-self_embedding_example =
    parse_nested_fields-self_embedding types order "fastcopier" [] (field "V" int_type [] ∷ [])
      (embedded "Node" node_pointer) node refl refl refl refl tt 9 []

fields_or : List StructField → Desc → List StructField
fields_or _ (struct fs) = fs
fields_or fs _ = fs

Below : ℕ → List StructField → Type 0
Below n fs = All (λ sf. sf.anonymous ≡ true → sf.typ < n) fs

small_fields-Below : Below 1 small_fields
unfolding Below
small_fields-Below = ((λ e. omega arith), ((λ e. cc), tt))

small-Below_one :
    (u : ℕ) (fs : List StructField)
    → through_pointer small 1 ≡ ok u
    → small.desc u ≡ struct fs
    → Below 1 fs
unfolding fields_or
small-Below_one u fs through e =
    subst (Below 1) (ap (fields_or []) (ap small.desc (ok-injective through) ∙ e))
      small_fields-Below

is_struct : Desc → Bool
is_struct (struct fs) = true
is_struct _ = false

small_other :
    (t u : ℕ) (fs : List StructField)
    → (t == 1) ≡ false
    → through_pointer small t ≡ ok u
    → small.desc u ≡ struct fs
    → ⊥
unfolding is_struct
small_other t u fs other through e = go (ok-injective (rw other at through)) (ap is_struct e)
  where
    go : t ≡ u → is_struct (small.desc u) ≡ true → ⊥
    go p h = absurd (false≢true (rw (sym p, other) at h))
      where
        false≢true : false ≡ true → ⊥
        false≢true q = cc

small-IsRanked : IsRanked small (λ t. t)
unfolding Below
small-IsRanked t u fs through e = elim (Bool-cases (t == 1)) [
  | inl at_one ↦
      subst
        (λ n.
          (v : ℕ) (gs : List StructField)
          → through_pointer small n ≡ ok v
          → small.desc v ≡ struct gs
          → Below n gs)
        (sym ((eqb_iff t 1).0 at_one)) small-Below_one u fs through e
  | inr other ↦ absurd (small_other t u fs other through e)
]

parse_nested_fields-IsOk_example : IsOk (parse_nested_fields small order "fastcopier" 2 1 [])
parse_nested_fields-IsOk_example =
    parse_nested_fields-IsOk small order "fastcopier" (λ t. t) small-IsRanked 2 1 [] (omega arith)
