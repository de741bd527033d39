-- ===== src/Resolution/Calm.antt =====
-- The walks over the fields and the contained types of a type return no error and do not panic:
-- fields.go and isFlatType of engine.go.
use fastcopier.Base.{
  ℕ, zero, suc, String, ◌≡◌, refl, Bool, true, false, List, [], ◌∷◌, ◌++◌, ◌==◌, nat_eq,
  if◌then◌else◌, inl, inr, Bool-cases, Option-cases,
}
use fastcopier.Base.Dict.{lookup}
use fastcopier.Base.Outcome.{Outcome, ok, out_of_fuel, ◌>>=◌}
use fastcopier.Errors.{Error}
use fastcopier.Fields.{
  Metas, Promote, Promoting, Parsed, nested_step, nested_loop, promoted_of, through_pointer,
  parse_nested_fields, direct_step, direct_loop, parse_struct_fields,
}
use fastcopier.Flat.{FlatCache, FlatTest, flat_fields, compute_flat_type, is_flat_type}
use fastcopier.GoTypes.{Types, StructField, Desc, struct, array, kind, pointer_kind, struct_kind}
use fastcopier.GoTypes.Kinds.{pointer_elem, struct_fields}

-- A value, or the fuel ran out.
pub data IsCalm {A : Type 0} (m : Outcome Error A) : Type 0 where
  value : (a : A) → m ≡ ok a → IsCalm m
  fuel_gone : m ≡ out_of_fuel → IsCalm m

ok-IsCalm : {A : Type 0} (a : A) → IsCalm (ok a)
ok-IsCalm a = value a refl

out_of_fuel-IsCalm : {A : Type 0} → IsCalm {A = A} out_of_fuel
out_of_fuel-IsCalm = fuel_gone refl

>>=-IsCalm :
    {A B : Type 0} (m : Outcome Error A) (f : A → Outcome Error B)
    → IsCalm m
    → ((a : A) → IsCalm (f a))
    → IsCalm (m >>= f)
>>=-IsCalm m f (value a e) k = rw e (k a)
>>=-IsCalm m f (fuel_gone e) k = rw e (fuel_gone refl)

if-IsCalm :
    {A : Type 0} (b : Bool) (x y : Outcome Error A)
    → IsCalm x
    → IsCalm y
    → IsCalm (if b then x else y)
if-IsCalm true x y h k = h
if-IsCalm false x y h k = k

ruleset calm = (ok-IsCalm, out_of_fuel-IsCalm, >>=-IsCalm, if-IsCalm)

through_pointer-IsCalm : (T : Types) (t : ℕ) → IsCalm (through_pointer T t)
through_pointer-IsCalm T t = elim (Bool-cases (kind T t == pointer_kind)) [
  | inl e ↦ let (u, found) = pointer_elem (T.desc t) e in rw (e, found) (ok-IsCalm u)
  | inr e ↦ rw e (ok-IsCalm t)
]

module _ (T : Types) (range : Metas → Metas) (tag_name : String) where
  abbrev Calms : Promote → Type 0
  Calms promote = (t : ℕ) (index : List ℕ) → IsCalm (promote t index)

  nested_step-IsCalm :
      (promote : Promote)
      → Calms promote
      → (sf : StructField) (index : List ℕ) (s : Promoting)
      → IsCalm (nested_step T range tag_name promote sf index s)
  unfolding nested_step
  nested_step-IsCalm promote h sf index s = search (calm, h) depth 8

  nested_loop-IsCalm :
      (promote : Promote)
      → Calms promote
      → (fs : List StructField) (i : ℕ) (index : List ℕ) (s : Promoting)
      → IsCalm (nested_loop T range tag_name promote fs i index s)
  unfolding nested_loop
  nested_loop-IsCalm promote h [] i index s = ok-IsCalm s
  nested_loop-IsCalm promote h (sf ∷ fs) i index s =
      >>=-IsCalm _ _ (nested_step-IsCalm promote h sf (index ++ (i ∷ [])) s)
        (nested_loop-IsCalm promote h fs (suc i) index)

  promoted_of-IsCalm :
      (promote : Promote)
      → Calms promote
      → (index : List ℕ) (u : ℕ) → IsCalm (promoted_of T range tag_name promote index u)
  unfolding promoted_of
  promoted_of-IsCalm promote h index u = elim (Bool-cases (kind T u == struct_kind)) [
    | inr other ↦ rw other (ok-IsCalm _)
    | inl is_struct ↦
        let (fs, fields) = struct_fields (T.desc u) is_struct in
        rw (is_struct, fields)
          (>>=-IsCalm _ _ (nested_loop-IsCalm promote h fs 0 index _) (λ s. ok-IsCalm _))
  ]

  parse_nested_fields-IsCalm : (fuel : ℕ) → Calms (parse_nested_fields T range tag_name fuel)
  unfolding parse_nested_fields
  parse_nested_fields-IsCalm zero t index = out_of_fuel-IsCalm
  parse_nested_fields-IsCalm (suc fuel) t index = >>=-IsCalm _ _ (through_pointer-IsCalm T t) (
      promoted_of-IsCalm (parse_nested_fields T range tag_name fuel)
        (parse_nested_fields-IsCalm fuel) index)

  direct_step-IsCalm :
      (fuel : ℕ) (sf : StructField) (i : ℕ) (p : Parsed)
      → IsCalm (direct_step T range tag_name fuel sf i p)
  unfolding direct_step
  direct_step-IsCalm fuel sf i p = search (calm, parse_nested_fields-IsCalm) depth 8

  direct_loop-IsCalm :
      (fuel : ℕ) (fs : List StructField) (i : ℕ) (p : Parsed)
      → IsCalm (direct_loop T range tag_name fuel fs i p)
  unfolding direct_loop
  direct_loop-IsCalm fuel [] i p = ok-IsCalm p
  direct_loop-IsCalm fuel (sf ∷ fs) i p =
      >>=-IsCalm _ _ (direct_step-IsCalm fuel sf i p) (direct_loop-IsCalm fuel fs (suc i))

  pub parse_struct_fields-IsCalm :
      (fuel t : ℕ)
      → (kind T t == struct_kind) ≡ true
      → IsCalm (parse_struct_fields T range tag_name fuel t)
  unfolding parse_struct_fields
  parse_struct_fields-IsCalm fuel t h =
      let (fs, fields) = struct_fields (T.desc t) h in rw fields (direct_loop-IsCalm fuel fs 0 _)

abbrev TestCalms : FlatTest → Type 0
TestCalms test = (t : ℕ) (c : FlatCache) → IsCalm (test t c)

flat_fields-IsCalm :
    (test : FlatTest)
    → TestCalms test
    → (fs : List StructField) (c : FlatCache) → IsCalm (flat_fields test fs c)
unfolding flat_fields
flat_fields-IsCalm test h [] c = ok-IsCalm _
flat_fields-IsCalm test h (sf ∷ fs) c =
    >>=-IsCalm _ _ (h sf.typ c) λ r. go r.0 r.1 (flat_fields-IsCalm test h fs r.1)
  where
    go :
        (v : Bool) (c₁ : FlatCache)
        → IsCalm (flat_fields test fs c₁)
        → IsCalm {A = Bool × FlatCache}
            (elim v [ false ↦ ok (false, c₁) | true ↦ flat_fields test fs c₁ ])
    go true c₁ h = h
    go false c₁ h = ok-IsCalm _

compute_flat_type-IsCalm :
    (test : FlatTest)
    → TestCalms test
    → (d : Desc) (c : FlatCache) → IsCalm (compute_flat_type test d c)
unfolding compute_flat_type
compute_flat_type-IsCalm test h (struct fs) c = flat_fields-IsCalm test h fs c
compute_flat_type-IsCalm test h (array e n) c = h e c
compute_flat_type-IsCalm test h d c = ok-IsCalm _

pub is_flat_type-IsCalm :
    (T : Types) (fuel t : ℕ) (c : FlatCache) → IsCalm (is_flat_type T fuel t c)
unfolding is_flat_type
is_flat_type-IsCalm T zero t c = out_of_fuel-IsCalm
is_flat_type-IsCalm T (suc fuel) t c = elim (Option-cases (lookup t c)) [
  | inr (v, known) ↦ rw (known, is_flat_type) (ok-IsCalm _)
  | inl fresh ↦
      rw (fresh, is_flat_type)
        (>>=-IsCalm _ _
          (compute_flat_type-IsCalm (is_flat_type T fuel) (is_flat_type-IsCalm T fuel) (T.desc t) c)
          (λ r. ok-IsCalm _))
]
