-- ===== src/Fields/Collisions.antt =====
-- Keys in the loop of parseNestedFields of fields.go: new, met, or met twice, and the fields that
-- only offer their names.
use fastcopier.Base.{
  ℕ, suc, String, ◌≡◌, refl, ◌∙◌, true, false, List, [], ◌∷◌, ◌++◌, ◌==◌, string_eq, none, arith,
  inl, inr, Bool, ◌||◌, ◌⊎◌, ◌+◌, length, All, Bool-cases, Option-cases, contains, list_eq, nat_eq,
}
use fastcopier.Base.Dict.{lookup, lookup-insert, lookup-erase, has_value}
use fastcopier.Base.Outcome.{ok}
use fastcopier.Fields.{
  FieldMeta, Metas, Promote, Promoting, new_meta, apply_tag, add_promoted, add_nested, set_nested,
  nested_step, nested_loop,
}
use fastcopier.Fields.Tags.{apply_tag-described}
use fastcopier.Fields.Promoted.{IsApart}
use fastcopier.GoTypes.{Types, StructField}
use text.Mathlib.TextEquality.{eq_iff}

-- A key that is out stays out.
abbrev pub IsOut : String → Promoting → Type 0
IsOut k s = (contains s.ambiguous k ≡ true) × (lookup k s.result ≡ none)

pub add_promoted-IsOut :
    (m : FieldMeta) (j k : String) (s : Promoting) → IsOut k s → IsOut k (add_promoted m j s).0
unfolding add_promoted
add_promoted-IsOut m j k s h =
    ground (arith, eq_iff k j, lookup-insert k j m s.result, lookup-erase k j s.result)

-- Met a second time, a key goes out.
pub add_promoted-again :
    (m : FieldMeta) (j k : String) (s : Promoting)
    → (k == j) ≡ true
    → IsApart s
    → has_value (lookup k s.result) ≡ true
    → IsOut k (add_promoted m j s).0
unfolding add_promoted
add_promoted-again m j k s same apart h =
    ground (arith, apart j, eq_iff k j, lookup-erase k j s.result)

pub add_promoted-keeps :
    (m : FieldMeta) (j k : String) (s : Promoting)
    → (k == j) ≡ false
    → has_value (lookup k s.result) ≡ true
    → has_value (lookup k (add_promoted m j s).0.result) ≡ true
unfolding add_promoted
add_promoted-keeps m j k s ne h =
    ground (arith, lookup-insert k j m s.result, lookup-erase k j s.result)

pub add_nested-IsOut :
    (k : String) (inner : Metas) (s : Promoting) → IsOut k s → IsOut k (add_nested inner s).0
unfolding add_nested
add_nested-IsOut k [] s h = h
add_nested-IsOut k ((j, d) ∷ inner) s h =
    add_nested-IsOut k inner (add_promoted d j s).0 (add_promoted-IsOut d j k s h)

pub add_promoted-IsApart :
    (m : FieldMeta) (k : String) (s : Promoting) → IsApart s → IsApart (add_promoted m k s).0
unfolding add_promoted
add_promoted-IsApart m k s h j a =
    ground (arith, h j, eq_iff j k, lookup-insert j k m s.result, lookup-erase j k s.result)

pub add_nested-collides :
    (k : String) (inner : Metas) (s : Promoting)
    → IsApart s
    → has_value (lookup k s.result) ≡ true
    → has_value (lookup k inner) ≡ true
    → IsOut k (add_nested inner s).0
unfolding add_nested lookup
add_nested-collides k [] s apart h g = cc
add_nested-collides k ((j, d) ∷ inner) s apart h g = elim (Bool-cases (k == j)) [
  | inl same ↦
      add_nested-IsOut k inner (add_promoted d j s).0 (add_promoted-again d j k s same apart h)
  | inr other ↦
      add_nested-collides k inner (add_promoted d j s).0 (add_promoted-IsApart d j s apart)
        (add_promoted-keeps d j k s other h) (rw other at g)
]

-- A key that was met is a key of the result, or out.
abbrev pub Seen : String → Promoting → Type 0
Seen k s = (has_value (lookup k s.result) || contains s.ambiguous k) ≡ true

pub add_promoted-Seen :
    (m : FieldMeta) (j k : String) (s : Promoting) → Seen k s → Seen k (add_promoted m j s).0
unfolding add_promoted
add_promoted-Seen m j k s h =
    ground (arith, eq_iff k j, lookup-insert k j m s.result, lookup-erase k j s.result)

pub add_promoted-sees :
    (m : FieldMeta) (j k : String) (s : Promoting) → (k == j) ≡ true → Seen k (add_promoted m j s).0
unfolding add_promoted
add_promoted-sees m j k s h =
    ground (arith, eq_iff k j, lookup-insert k j m s.result, lookup-erase k j s.result)

-- A key that was not met.
abbrev pub IsNew : String → Promoting → Type 0
IsNew k s = (lookup k s.result ≡ none) × (contains s.ambiguous k ≡ false)

pub add_promoted-IsNew :
    (m : FieldMeta) (j k : String) (s : Promoting)
    → (k == j) ≡ false
    → IsNew k s
    → IsNew k (add_promoted m j s).0
unfolding add_promoted
add_promoted-IsNew m j k s ne h =
    ground (arith, eq_iff k j, lookup-insert k j m s.result, lookup-erase k j s.result)

pub add_nested-Seen :
    (k : String) (inner : Metas) (s : Promoting)
    → IsApart s
    → Seen k s
    → has_value (lookup k inner) ≡ true
    → IsOut k (add_nested inner s).0
add_nested-Seen k inner s apart seen there = elim (Bool-cases (contains s.ambiguous k)) [
  | inl out ↦ add_nested-IsOut k inner s (out, apart k out)
  | inr fine ↦ add_nested-collides k inner s apart (ground arith) there
]

pub set_nested-none :
    (k : String) (m : FieldMeta) (paths : List (List ℕ)) (result : Metas)
    → lookup k result ≡ none
    → lookup k (set_nested m paths result) ≡ none
unfolding set_nested
set_nested-none k m paths result h = elim (Option-cases (lookup m.key result)) [
  | inl e ↦ rw (e, set_nested) h
  | inr (m', e) ↦
      rw (e, set_nested)
        (ground
          (arith, eq_iff k m.key, lookup-insert k m.key (record m' { nested = paths }) result))
]

pub add_promoted-new :
    (m : FieldMeta) (k : String) (s : Promoting)
    → lookup k s.result ≡ none
    → contains s.ambiguous k ≡ false
    → (add_promoted m k s).1 ≡ true
unfolding add_promoted
add_promoted-new m k s h g = ground arith

-- A field that offers one key, its name, another one than `n`.
abbrev pub IsOther : String → String → StructField → Type 0
IsOther tag_name n sf =
    (sf.anonymous ≡ false) × (lookup tag_name sf.tags ≡ none) × ((n == sf.name) ≡ false)

abbrev pub is_named : String → List StructField → Bool
is_named k [] = false
is_named k (sf ∷ fs) = k == sf.name || is_named k fs

module _ (T : Types) (range : Metas → Metas) (tag_name : String) where
  pub untagged :
      (sf : StructField) (index : List ℕ)
      → lookup tag_name sf.tags ≡ none
      → apply_tag T (new_meta sf index) tag_name ≡ new_meta sf index
  untagged sf index h = apply_tag-described T sf index tag_name ∙ (rw h)

  pub nested_step-plain :
      (promote : Promote) (sf : StructField) (index : List ℕ) (s : Promoting)
      → lookup tag_name sf.tags ≡ none
      → sf.anonymous ≡ false
      → nested_step T range tag_name promote sf index s
        ≡ ok (add_promoted (new_meta sf index) sf.name s).0
  unfolding nested_step
  nested_step-plain promote sf index s h a = rw (untagged sf index h, a) (ground arith)

  -- The loop over such fields goes on with what stands behind them.
  pub nested_loop-before :
      (promote : Promote) (n : String) (fs rest : List StructField) (i : ℕ) (index : List ℕ)
      (s : Promoting)
      → All (IsOther tag_name n) fs
      → IsApart s
      → IsNew n s
      → (s' : Promoting) × (j : ℕ) × (nested_loop T range tag_name promote (fs ++ rest) i index s
          ≡ nested_loop T range tag_name promote rest j index s')
        × (j ≡ i + length fs)
        × IsApart s'
        × IsNew n s'
        × ((k : String) → Seen k s ⊎ (is_named k fs ≡ true) → Seen k s')
  unfolding nested_loop
  nested_loop-before promote n [] rest i index s plain apart new =
      (s, i, refl, omega arith, apart, new, λ k. seen k)
    where
      seen : (k : String) → Seen k s ⊎ (◌≡◌ {A = Bool} false true) → Seen k s
      seen k (inl h) = h
      seen k (inr h) = cc
  nested_loop-before promote n (sf ∷ fs) rest i index s plain apart new =
      let m = new_meta sf (index ++ (i ∷ [])) in
      let s₁ = (add_promoted m sf.name s).0 in
      let (s', j, runs, at_j, apart', new', seen) =
        nested_loop-before promote n fs rest (suc i) index s₁ plain.1
          (add_promoted-IsApart m sf.name s apart)
          (add_promoted-IsNew m sf.name n s plain.0.2 new) in
      (
        s',
        j,
        rw (nested_step-plain promote sf (index ++ (i ∷ [])) s plain.0.1 plain.0.0) runs,
        omega arith,
        apart',
        new',
        λ k h. seen k (met_next k h),
      )
    where
      met_next :
          (k : String)
          → Seen k s ⊎ ((k == sf.name || is_named k fs) ≡ true)
          → Seen k (add_promoted (new_meta sf (index ++ (i ∷ []))) sf.name s).0
            ⊎ (is_named k fs ≡ true)
      met_next k (inl h) = inl (add_promoted-Seen _ sf.name k s h)
      met_next k (inr h) = elim (Bool-cases (k == sf.name)) [
        | inl same ↦ inl (add_promoted-sees _ sf.name k s same)
        | inr other ↦ inr (rw other at h)
      ]
