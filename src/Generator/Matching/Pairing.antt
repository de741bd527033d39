-- ===== src/Generator/Matching/Pairing.antt =====
-- matchFields against a description of its result: for each leaf of the destination whose name no
-- other exported leaf has, the one of the source.
use fastcopier.Base.{
  ℕ, String, ◌≡◌, refl, sym, ap, ◌∙◌, Bool, true, false, ◌&&◌, ◌||◌, List, [], ◌∷◌, ◌++◌, ◌==◌,
  string_eq, if◌then◌else◌, Option, none, some, arith, inl, inr, ◌⊎◌, Bool-cases, Option-cases,
  contains, All, All-map, ==_refl,
}
use fastcopier.Base.Dict.{Dict, lookup, lookup-insert, lookup-erase, has_value}
use fastcopier.Base.Outcome.{ok}
use fastcopier.Generator.Matching.{
  Collected, FieldPair, add_field, flatten_fields, flatten_field_list, is_listed, list_field,
  match_fields, nothing_collected, pair_fields, same_var,
}
use fastcopier.Generator.Matching.Leaves.{each, leaves, collect_fields-leaves, visit-leaves}
use fastcopier.Generator.Universe.{Universe, Struct, Var, Named, underlying_struct}
use mathlib.Core.List.{append-nil, append_assoc}
use text.Mathlib.TextEquality.{eq_iff}

abbrev answers_to : String → Var → Bool
answers_to k f = f.field.exported && k == f.field.name

abbrev pub has_name : String → List Var → Bool
has_name k [] = false
has_name k (f ∷ fs) = answers_to k f || has_name k fs

-- The only exported field with the name, if there is just one.
unfoldable pub unique : String → List Var → Option Var
unique k [] = none
unique k (f ∷ fs) = if answers_to k f then (if has_name k fs then none else some f) else unique k fs

-- What the loop does to one name: `met` says that it is ambiguous.
abbrev after : String → List Var → Bool → Option Var → Option Var
after k fs true o = o
after k fs false none = unique k fs
after k fs false (some f) = if has_name k fs then none else some f

-- An ambiguous name is not in the map.
abbrev IsApart : Collected → Type 0
IsApart s = (k : String) → contains s.ambiguous k ≡ true → lookup k s.result ≡ none

add_field-IsApart : (f : Var) (s : Collected) → IsApart s → IsApart (add_field f s)
unfolding add_field
add_field-IsApart f s h j a =
    let k = f.field.name in
    ground (arith, h j, eq_iff j k, lookup-insert j k f s.result, lookup-erase j k s.result)

after-add_field :
    (k : String) (f : Var) (fs : List Var) (s : Collected)
    → IsApart s
    → (let s' = add_field f s in after k fs (contains s'.ambiguous k) (lookup k s'.result))
      ≡ after k (f ∷ fs) (contains s.ambiguous k) (lookup k s.result)
unfolding add_field unique
after-add_field k f fs s h =
    let j = f.field.name in
    ground (arith, h k, eq_iff k j, lookup-insert k j f s.result, lookup-erase k j s.result)

lookup-each :
    (k : String) (fs : List Var) (s : Collected)
    → IsApart s
    → lookup k (each add_field fs s).result
      ≡ after k fs (contains s.ambiguous k) (lookup k s.result)
unfolding each unique
lookup-each k [] s h = ground arith
lookup-each k (f ∷ fs) s h =
    lookup-each k fs (add_field f s) (add_field-IsApart f s h) ∙ after-add_field k f fs s h

each-IsApart : (fs : List Var) (s : Collected) → IsApart s → IsApart (each add_field fs s)
unfolding each
each-IsApart [] s h = h
each-IsApart (f ∷ fs) s h = each-IsApart fs (add_field f s) (add_field-IsApart f s h)

abbrev collected : List Var → Collected
collected fs = each add_field fs nothing_collected

nothing_collected-IsApart : IsApart nothing_collected
unfolding lookup
nothing_collected-IsApart j a = refl

lookup-collected : (k : String) (fs : List Var) → lookup k (collected fs).result ≡ unique k fs
unfolding lookup unique
lookup-collected k fs = lookup-each k fs nothing_collected nothing_collected-IsApart

-- A field of the list is the one that its name stands for, or no field is.
abbrev Stands : List Var → Var → Type 0
Stands fs f =
    f.field.exported ≡ true
    → (has_name f.field.name fs ≡ true)
      × ((unique f.field.name fs ≡ none) ⊎ (unique f.field.name fs ≡ some f))

Stands-cons : (g : Var) (fs : List Var) (f : Var) → Stands fs f → Stands (g ∷ fs) f
unfolding unique
Stands-cons g fs f h x =
    let (named, one) = h x in
    elim (Bool-cases (answers_to f.field.name g)) [
      | inl same ↦ (rw same refl, inl (rw (same, named, unique) refl))
      | inr other ↦ (rw (other, named) refl, rw (other, unique) one)
    ]

Stands-head : (f : Var) (fs : List Var) → Stands (f ∷ fs) f
unfolding unique
Stands-head f fs x = elim (Bool-cases (has_name f.field.name fs)) [
  | inl more ↦
      (rw (x, ==_refl f.field.name) refl, inl (rw (x, ==_refl f.field.name, more, unique) refl))
  | inr single ↦
      (rw (x, ==_refl f.field.name) refl, inr (rw (x, ==_refl f.field.name, single, unique) refl))
]

All-Stands : (fs : List Var) → All (Stands fs) fs
All-Stands [] = tt
All-Stands (f ∷ fs) = (Stands-head f fs, All-map fs (λ g h. Stands-cons f fs g h) (All-Stands fs))

-- The name of the field stands for it among the leaves.
abbrev is_chosen : List Var → Var → Bool
is_chosen vs f = f.field.exported && has_value (unique f.field.name vs)

same_var_refl : (f : Var) → same_var f f ≡ true
same_var_refl f = rw (==_refl f.owner, ==_refl f.index) refl

is_listed-collected :
    (vs : List Var) (f : Var) → Stands vs f → is_listed (collected vs) f ≡ is_chosen vs f
unfolding is_listed
is_listed-collected vs f h =
    let k = f.field.name in
    let apart = each-IsApart vs nothing_collected nothing_collected-IsApart k in
    elim (Bool-cases f.field.exported) [
      | inr hidden ↦ rw (hidden, is_listed) refl
      | inl shown ↦ elim (Bool-cases (contains (collected vs).ambiguous k)) [
        | inl many ↦
            rw (shown, many, is_listed)
              (ap has_value (sym (sym (lookup-collected k vs) ∙ apart many)))
        | inr few ↦ elim (h shown).1 [
          | inl e ↦ rw (shown, few, is_listed) (rw (lookup-collected k vs, e) refl)
          | inr e ↦ rw (shown, few, is_listed) (rw (lookup-collected k vs, e, same_var_refl f) refl)
        ]
      ]
    ]

-- The leaves that visit lists.
abbrev listed : List Var → List Var → List Var
listed vs [] = []
listed vs (f ∷ fs) = if is_chosen vs f then f ∷ listed vs fs else listed vs fs

each-list_field :
    (vs fs out : List Var)
    → All (Stands vs) fs
    → each (list_field (collected vs)) fs out ≡ out ++ listed vs fs
unfolding each list_field
each-list_field vs [] out h = sym (append-nil out)
each-list_field vs (f ∷ fs) out h = elim (Bool-cases (is_chosen vs f)) [
  | inl chosen ↦
      rw (is_listed-collected vs f h.0, chosen)
        (each-list_field vs fs (out ++ (f ∷ [])) h.1 ∙ append_assoc out (f ∷ []) (listed vs fs))
  | inr other ↦ rw (is_listed-collected vs f h.0, other) (each-list_field vs fs out h.1)
]

-- The pairs for a list of fields, by the leaves of the destination and those of the source.
unfoldable pub paired : List Var → List Var → List Var → List FieldPair
paired vs us [] = []
paired vs us (f ∷ fs) =
    let rest = paired vs us fs in
    if is_chosen vs f
    then elim (unique f.field.name us) [
      | none ↦ rest
      | some g ↦ record { dst_field = f; src_field = g } ∷ rest
    ]
    else rest

pair_fields-listed :
    (vs us fs : List Var) (by_name : Dict String Var)
    → ((k : String) → lookup k by_name ≡ unique k us)
    → pair_fields by_name (listed vs fs) ≡ paired vs us fs
unfolding pair_fields paired
pair_fields-listed vs us [] d h = refl
pair_fields-listed vs us (f ∷ fs) d h =
    let more = pair_fields-listed vs us fs d h in
    elim (Bool-cases (is_chosen vs f)) [
      | inr other ↦ rw (other, paired) more
      | inl chosen ↦
          let shown = is_chosen-exported f.field.exported _ chosen in
          elim (Option-cases (unique f.field.name us)) [
            | inl e ↦ rw (chosen, pair_fields, shown, h f.field.name, paired, e) more
            | inr (g, e) ↦
                rw (chosen, pair_fields, shown, h f.field.name, paired, e)
                  (ap (◌∷◌ (record { dst_field = f; src_field = g })) more)
          ]
    ]
  where
    is_chosen-exported : (a b : Bool) → (a && b) ≡ true → a ≡ true
    is_chosen-exported a b h = ground arith

-- The pairs of matchFields are, in the order in which the destination declares its fields, those
-- of an exported field whose name no other exported field has, in the destination or in
-- the source, with the field of that name in the source: fields of embedded structs count
-- like the others, at any depth.
pub match_fields-paired :
    (U : Universe) (fuel : ℕ) (dst src : Named) (d s : Struct) (vs us : List Var)
    → underlying_struct U dst.typ ≡ some d
    → underlying_struct U src.typ ≡ some s
    → leaves U fuel d ≡ ok vs
    → leaves U fuel s ≡ ok us
    → match_fields U fuel dst src ≡ ok (paired vs us vs)
unfolding match_fields flatten_fields flatten_field_list
match_fields-paired U fuel dst src d s vs us ed es lv lu =
    rw
      (
        ed,
        es,
        collect_fields-leaves U fuel s nothing_collected,
        lu,
        collect_fields-leaves U fuel d nothing_collected,
        lv,
        visit-leaves U (collected vs) fuel d [],
        lv,
        each-list_field vs vs [] (All-Stands vs),
      )
      (ap ok (pair_fields-listed vs us vs (collected us).result (λ k. lookup-collected k us)))
