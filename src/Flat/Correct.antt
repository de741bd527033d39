-- ===== src/Flat/Correct.antt =====
-- The memoised test decides flatness, whatever it remembers: engine.go.
use fastcopier.Base.{
  ℕ, zero, suc, ◌≡◌, refl, sym, Bool, true, false, List, [], ◌∷◌, ◌==◌, nat_eq, eqb_iff, some, inl,
  inr, Bool-cases, Option-cases,
}
use fastcopier.Base.Dict.{lookup, insert, lookup-insert}
use fastcopier.Base.Outcome.{Outcome, ok, >>=-eq-ok, ok-injective}
use mathlib.Core.Path.{subst}
use mathlib.Core.Option.{some-injective}
use fastcopier.Errors.{Error}
use fastcopier.Flat.{is_scalar, FlatCache, FlatTest, flat_fields, compute_flat_type, is_flat_type}
use fastcopier.Flat.Mask.{is_plain, is_scalar-is_plain}
use fastcopier.GoTypes.{Types, StructField, Desc, array, struct, basic, kind_of}

-- A flat type: a basic type other than unsafe.Pointer or a function type, an array of a flat type,
-- or a struct all of whose fields are flat.
mutual
  pub data IsFlat (T : Types) : ℕ → Type 0 where
    plain : {t : ℕ} → is_plain (T.desc t) ≡ true → IsFlat T t
    of_array : {t : ℕ} (e n : ℕ) → T.desc t ≡ array e n → IsFlat T e → IsFlat T t
    of_struct : {t : ℕ} (fs : List StructField) → T.desc t ≡ struct fs → AllFlat T fs → IsFlat T t

  pub data AllFlat (T : Types) : List StructField → Type 0 where
    end : AllFlat T []
    next :
        {sf : StructField} {fs : List StructField}
        → IsFlat T sf.typ
        → AllFlat T fs
        → AllFlat T (sf ∷ fs)

abbrev pub Answers : Types → ℕ → Bool → Type 0
Answers T t true = IsFlat T t
Answers T t false = ¬ IsFlat T t

abbrev pub AnswersAll : Types → List StructField → Bool → Type 0
AnswersAll T fs true = AllFlat T fs
AnswersAll T fs false = ¬ AllFlat T fs

-- What the memo holds is right.
abbrev pub IsSound : Types → FlatCache → Type 0
IsSound T c = (t : ℕ) (v : Bool) → lookup t c ≡ some v → Answers T t v

-- What flatness of a type means by its description.
abbrev pub FlatDesc : Types → Desc → Type 0
FlatDesc T (array e n) = IsFlat T e
FlatDesc T (struct fs) = AllFlat T fs
FlatDesc T d = is_plain d ≡ true

FlatDesc-from : (T : Types) {t : ℕ} → IsFlat T t → FlatDesc T (T.desc t)
FlatDesc-from T {t} (plain p) = by_plain (T.desc t) p
  where
    by_plain : (d : Desc) → is_plain d ≡ true → FlatDesc T d
    by_plain (array e n) p = cc
    by_plain (struct fs) p = cc
    by_plain _ p = p
FlatDesc-from T (of_array e n d f) = rw d f
FlatDesc-from T (of_struct fs d f) = rw d f

FlatDesc-to : (T : Types) (t : ℕ) (d : Desc) → T.desc t ≡ d → FlatDesc T d → IsFlat T t
FlatDesc-to T t (array e n) h f = of_array e n h f
FlatDesc-to T t (struct fs) h f = of_struct fs h f
FlatDesc-to T t _ h f = plain (rw h f)

unfoldable pub AnswersDesc : (T : Types) → Desc → Bool → Type 0
AnswersDesc T d true = FlatDesc T d
AnswersDesc T d false = ¬ FlatDesc T d

pub Answers-from :
    (T : Types) (t : ℕ) (d : Desc) (v : Bool) → T.desc t ≡ d → AnswersDesc T d v → Answers T t v
unfolding AnswersDesc
Answers-from T t d true h f = FlatDesc-to T t d h f
Answers-from T t d false h f = λ g. f (subst (FlatDesc T) h (FlatDesc-from T g))

pub AllFlat-tail :
    {T : Types} {sf : StructField} {fs : List StructField}
    → AllFlat T (sf ∷ fs)
    → IsFlat T sf.typ × AllFlat T fs
AllFlat-tail (next f g) = (f, g)

module _ (T : Types) where
  abbrev Post : ℕ → Bool × FlatCache → Type 0
  Post t r = Answers T t r.0 × IsSound T r.1

  abbrev Tells : FlatTest → Type 0
  Tells test =
      (t : ℕ) (c : FlatCache) (r : Bool × FlatCache) → IsSound T c → test t c ≡ ok r → Post t r

  abbrev PostAll : List StructField → Bool × FlatCache → Type 0
  PostAll fs r = AnswersAll T fs r.0 × IsSound T r.1

  abbrev PostDesc : Desc → Bool × FlatCache → Type 0
  PostDesc d r = AnswersDesc T d r.0 × IsSound T r.1

  flat_fields-Tells :
      (test : FlatTest)
      → Tells test
      → (fs : List StructField) (c : FlatCache) (r : Bool × FlatCache) → IsSound T c
      → flat_fields test fs c ≡ ok r
      → PostAll fs r
  unfolding flat_fields
  flat_fields-Tells test tells [] c r sound e = subst (PostAll []) (ok-injective e) (end, sound)
  flat_fields-Tells test tells (sf ∷ fs) c r sound e =
      let (r₁, e₁, e₂) = >>=-eq-ok (test sf.typ c) _ e in
      let (answer, sound₁) = tells sf.typ c r₁ sound e₁ in
      go r₁.0 r₁.1 answer (λ e'. flat_fields-Tells test tells fs r₁.1 r sound₁ e') sound₁ e₂
    where
      go :
          (v : Bool) (c₁ : FlatCache)
          → Answers T sf.typ v
          → (flat_fields test fs c₁ ≡ ok r → PostAll fs r)
          → IsSound T c₁
          → ◌≡◌ {A = Outcome Error (Bool × FlatCache)}
              (elim v [ false ↦ ok (false, c₁) | true ↦ flat_fields test fs c₁ ])
              (ok r)
          → PostAll (sf ∷ fs) r
      go false c₁ not_flat more sound₁ e' =
          subst (PostAll (sf ∷ fs)) (ok-injective e') (λ f. not_flat (AllFlat-tail f).0, sound₁)
      go true c₁ flat more sound₁ e' = extend r.0 flat (more e').0 (more e').1
        where
          extend :
              (v : Bool)
              → IsFlat T sf.typ
              → AnswersAll T fs v
              → IsSound T r.1
              → AnswersAll T (sf ∷ fs) v × IsSound T r.1
          extend true f g s = (next f g, s)
          extend false f g s = (λ h. g (AllFlat-tail h).1, s)

  compute_flat_type-Tells :
      (test : FlatTest)
      → Tells test
      → (d : Desc) (c : FlatCache) (r : Bool × FlatCache) → IsSound T c
      → compute_flat_type test d c ≡ ok r
      → PostDesc d r
  unfolding compute_flat_type AnswersDesc is_scalar
  compute_flat_type-Tells test tells (struct fs) c r sound e =
      struct_answer r (flat_fields-Tells test tells fs c r sound e)
    where
      struct_answer : (r : Bool × FlatCache) → PostAll fs r → PostDesc (struct fs) r
      struct_answer (true, c) p = p
      struct_answer (false, c) p = p
  compute_flat_type-Tells test tells (array el n) c r sound e =
      array_answer r (tells el c r sound e)
    where
      array_answer : (r : Bool × FlatCache) → Post el r → PostDesc (array el n) r
      array_answer (true, c) p = p
      array_answer (false, c) p = p
  compute_flat_type-Tells test tells (basic b) c r sound e =
      subst (PostDesc (basic b)) (ok-injective e)
        (basic_answer (is_scalar (kind_of (basic b))) (is_scalar-is_plain (basic b)), sound)
    where
      basic_answer : (v : Bool) → v ≡ is_plain (basic b) → AnswersDesc T (basic b) v
      basic_answer true p = sym p
      basic_answer false p = λ q. cc
  compute_flat_type-Tells test tells d c r sound e =
      subst (PostDesc d) (ok-injective e) (λ q. cc, sound)

  remember-IsSound :
      (t : ℕ) (v : Bool) (c : FlatCache) → Answers T t v → IsSound T c → IsSound T (insert t v c)
  remember-IsSound t v c answer sound s w e = elim (Bool-cases (s == t)) [
    | inl same ↦
        let e' = rw (lookup-insert s t v c, same) at e in
        subst (λ x. Answers T x w) (sym ((eqb_iff s t).0 same))
          (subst (Answers T t) (some-injective v w e') answer)
    | inr other ↦ sound s w (rw (lookup-insert s t v c, other) at e)
  ]

  is_flat_type-Tells : (fuel : ℕ) → Tells (is_flat_type T fuel)
  unfolding is_flat_type
  is_flat_type-Tells zero t c r sound e = cc
  is_flat_type-Tells (suc fuel) t c r sound e = elim (Option-cases (lookup t c)) [
    | inr (v, known) ↦
        subst (Post t) (ok-injective (rw (known, is_flat_type) at e)) (sound t v known, sound)
    | inl fresh ↦
        let (r₁, e₁, e₂) =
          >>=-eq-ok (compute_flat_type (is_flat_type T fuel) (T.desc t) c) _
            (rw (fresh, is_flat_type) at e) in
        let (answer, sound₁) =
          compute_flat_type-Tells (is_flat_type T fuel) (is_flat_type-Tells fuel) (T.desc t) c r₁
            sound e₁ in
        let answer₁ = Answers-from T t (T.desc t) r₁.0 refl answer in
        subst (Post t) (ok-injective e₂) (answer₁, remember-IsSound t r₁.0 r₁.1 answer₁ sound₁)
  ]

-- Whatever the memo already holds, as long as it is right, an answer of isFlatType is right:
-- `true` only for flat types as said above, `false` only for others. The memo that
-- it leaves is right too.
pub is_flat_type_correct :
    (T : Types) (fuel t : ℕ) (c : FlatCache) (r : Bool × FlatCache)
    → IsSound T c
    → is_flat_type T fuel t c ≡ ok r
    → Answers T t r.0 × IsSound T r.1
is_flat_type_correct T fuel t c r sound e = is_flat_type-Tells T fuel t c r sound e
