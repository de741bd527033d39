-- ===== src/Inspect/Skipped.antt =====
-- The source fields that Inspect reports as skipped: inspect.go.
use fastcopier.Base.{
  ℕ, String, ◌≡◌, ◌↔◌, refl, ◌∙◌, ap, Bool, true, false, ◌&&◌, ◌||◌, not, List, [], ◌∷◌, ◌++◌, map,
  sym, ◌==◌, nat_eq, string_eq, contains, Option, none, some, if◌then◌else◌, arith, inl, inr,
  Bool-cases,
}
use fastcopier.Base.Dict.{keys, lookup, has_value}
use fastcopier.Base.Outcome.{ok, ok-injective, >>=-eq-ok}
use fastcopier.Fields.{FieldMeta, Metas, Parsed}
use fastcopier.GoTypes.{Types}
use fastcopier.Inspect.{
  FieldMapping, InspectPlan, type_by_index, field_name_by_index, inspect_fields, new_keys,
  all_src_keys, is_uncovered, skipped_of, inspect_struct_plan, inspect_plan,
}
use fastcopier.Plan.{Plans, done, first, field_plan, struct_plan}
use fastcopier.Resolve.{find_field}

contains-append :
    (xs ys : List String) (k : String) → contains (xs ++ ys) k ≡ (contains xs k || contains ys k)
contains-append [] ys k = refl
contains-append (x ∷ xs) ys k = ground (arith, contains-append xs ys k)

contains-keys : (ms : Metas) (k : String) → contains (keys ms) k ≡ has_value (lookup k ms)
unfolding keys lookup
contains-keys [] k = refl
contains-keys ((j, m) ∷ ms) k = ground (arith, contains-keys ms k)

-- A key that is kept when a test on it passes.
contains-keep :
    (j k : String) (ks rest : List String) (a b : Bool)
    → ((k == j) ≡ true → b ≡ a)
    → contains rest k ≡ (contains ks k && b)
    → contains (if a then j ∷ rest else rest) k ≡ (contains (j ∷ ks) k && b)
contains-keep j k ks rest true b same h = elim (Bool-cases (k == j)) [
  | inl e ↦ rw (e, same e)
  | inr e ↦ rw (e, h)
]
contains-keep j k ks rest false b same h = elim (Bool-cases (k == j)) [
  | inl e ↦ rw (e, h, same e) (and-false (contains ks k))
  | inr e ↦ rw (e, h)
]
  where
    and-false : (c : Bool) → (c && false) ≡ false
    and-false c = ground arith

contains-new_keys :
    (direct : Metas) (ks : List String) (k : String)
    → contains (new_keys direct ks) k ≡ (contains ks k && not (has_value (lookup k direct)))
unfolding new_keys
contains-new_keys direct [] k = refl
contains-new_keys direct (j ∷ ks) k =
    contains-keep j k ks (new_keys direct ks) _ _
      (λ e. ap (λ i. not (has_value (lookup i direct))) ((string_eq.equals_iff k j).0 e))
      (contains-new_keys direct ks k)

-- The test of the loop over the source keys.
abbrev is_left : List String → Parsed → Parsed → String → Bool
is_left covered src dst k =
    is_uncovered covered (find_field k src) && not (has_value (find_field k dst))

contains-skipped_of :
    (covered : List String) (src dst : Parsed) (ks : List String) (k : String)
    → contains (skipped_of covered src dst ks) k ≡ (contains ks k && is_left covered src dst k)
unfolding skipped_of
contains-skipped_of covered src dst [] k = refl
contains-skipped_of covered src dst (j ∷ ks) k =
    contains-keep j k ks (skipped_of covered src dst ks) (is_left covered src dst j)
      (is_left covered src dst k)
      (λ e. ap (is_left covered src dst) ((string_eq.equals_iff k j).0 e))
      (contains-skipped_of covered src dst ks k)

-- Go visits each entry of a map once, in any order.
abbrev pub IsVisit : (Metas → Metas) → Type 0
IsVisit range = (ms : Metas) (k : String) → contains (keys (range ms)) k ≡ contains (keys ms) k

-- What makes a key of the source one that has no match.
abbrev pub IsUnmatched : List String → Parsed → Parsed → String → Type 0
IsUnmatched covered src dst k =
    (m : FieldMeta) × (find_field k src ≡ some m)
    × (m.ignored ≡ false)
    × (contains covered m.field.name ≡ false)
    × (find_field k dst ≡ none)

contains-all_src_keys :
    (range : Metas → Metas)
    → IsVisit range
    → (src : Parsed) (k : String)
    → contains (all_src_keys range src) k ≡ has_value (find_field k src)
unfolding all_src_keys
contains-all_src_keys range visit src k =
    contains-append (keys (range src.direct)) (new_keys src.direct (keys (range src.inherited))) k
    ∙ (rw
        (
          contains-new_keys src.direct (keys (range src.inherited)) k,
          visit src.direct k,
          visit src.inherited k,
          contains-keys src.direct k,
          contains-keys src.inherited k,
        )
        (or-find (lookup k src.direct) (lookup k src.inherited)))
  where
    or-find :
        (a b : Option FieldMeta)
        → (has_value a || (has_value b && not (has_value a)))
          ≡ has_value {V = FieldMeta} (elim a [ some m ↦ some m | none ↦ b ])
    or-find none none = refl
    or-find none (some b) = refl
    or-find (some a) b = ground arith

abbrev ignored_of : Option FieldMeta → Bool
ignored_of none = true
ignored_of (some m) = m.ignored

abbrev is_covered : List String → Option FieldMeta → Bool
is_covered covered none = true
is_covered covered (some m) = contains covered m.field.name

left_iff :
    (covered : List String) (a b : Option FieldMeta)
    → ((has_value a && (is_uncovered covered a && not (has_value b))) ≡ true) ↔ (
        (m : FieldMeta) × (a ≡ some m)
        × (m.ignored ≡ false)
        × (contains covered m.field.name ≡ false)
        × (b ≡ none))
left_iff covered none b = (λ h. cc, λ h. cc)
left_iff covered (some m) none = (
  λ h. (m, refl, ground arith, ground arith, refl),
  λ r. let i = ap ignored_of r.1 ∙ r.2 in let c = ap (is_covered covered) r.1 ∙ r.3 in ground arith,
)
left_iff covered (some m) (some d) = (λ h. ground arith, λ r. cc)

-- The keys of the field plans, source and destination.
unfoldable pub field_pairs : Plans → List (String × String)
field_pairs done = []
field_pairs (first (field_plan p path) ps) = (path.src_key, path.dst_key) ∷ field_pairs ps
field_pairs (first _ ps) = field_pairs ps

abbrev pub pair_of : FieldMapping → String × String
pair_of f = (f.src_field, f.dst_field)

inspect_fields-pairs :
    (T : Types) (ps : Plans) (src dst : ℕ) (r : List FieldMapping × List String)
    → inspect_fields T ps src dst ≡ ok r
    → map pair_of r.0 ≡ field_pairs ps
unfolding inspect_fields field_pairs
inspect_fields-pairs T done src dst r e =
    ap (λ (q : List FieldMapping × List String). map pair_of q.0) (sym (ok-injective e))
inspect_fields-pairs T (first (field_plan p path) ps) src dst r e =
    let (sf, e₁, h₁) = >>=-eq-ok (type_by_index T false src path.src_index) _ e in
    let (df, e₂, h₂) = >>=-eq-ok (type_by_index T false dst path.dst_index) _ h₁ in
    let (name, e₃, h₃) = >>=-eq-ok (field_name_by_index T src path.src_index) _ h₂ in
    let (rest, e₄, h₄) = >>=-eq-ok (inspect_fields T ps src dst) _ h₃ in
    ap (λ (q : List FieldMapping × List String). map pair_of q.0) (sym (ok-injective h₄))
    ∙ ap (λ xs. (path.src_key, path.dst_key) ∷ xs) (inspect_fields-pairs T ps src dst rest e₄)
inspect_fields-pairs T (first _ ps) src dst r e = inspect_fields-pairs T ps src dst r e

-- If inspecting a plan for structs finds the types of its fields, it lists one mapping for each
-- of its field plans, in their order and under their keys, and reports as skipped exactly the keys of source fields that are not left
-- out, have no name among those covered, and have no field in the destination. This holds for
-- every order in which Go visits the entries of a map.
pub inspect_plan-IsUnmatched :
    (T : Types) (range : Metas → Metas) (tag : String) (ps : Plans) (src_fields dst_fields : Parsed)
    (src dst : ℕ) (fs : List FieldMapping) (covered : List String) (ip : InspectPlan) (k : String)
    → IsVisit range
    → ip.skipped ≡ []
    → inspect_fields T ps src dst ≡ ok (fs, covered)
    → (r : InspectPlan) × (inspect_plan T range
          (struct_plan tag ps src_fields dst_fields)
          src
          dst
          ip
        ≡ ok r)
      × (r.fields ≡ ip.fields ++ fs)
      × (map pair_of fs ≡ field_pairs ps)
      × ((contains r.skipped k ≡ true) ↔ IsUnmatched covered src_fields dst_fields k)
unfolding inspect_plan inspect_struct_plan
inspect_plan-IsUnmatched T range tag ps src_fields dst_fields src dst fs covered ip k visit empty
      e =
    (
      record ip {
        fields = ip.fields ++ fs;
        skipped = skipped_of covered src_fields dst_fields (all_src_keys range src_fields);
      },
      rw (e, empty),
      refl,
      inspect_fields-pairs T ps src dst (fs, covered) e,
      rw
          (
            contains-skipped_of covered src_fields dst_fields (all_src_keys range src_fields) k,
            contains-all_src_keys range visit src_fields k,
          )
          (left_iff covered (find_field k src_fields) (find_field k dst_fields)),
    )
