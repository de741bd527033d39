-- ===== src/Generator/Kinds/Flatness.antt =====
-- isFlatGoType of cmd/fastcopier-gen/main.go against isFlatType of engine.go.
use fastcopier.Base.{
  ℕ, zero, suc, String, ◌≡◌, refl, ap, ◌∙◌, ◌<◌, ◌≢◌, Bool, true, false, List, [], ◌∷◌, arith, All,
  All-map,
}
use fastcopier.Base.Outcome.{Outcome, ok, IsOk, returns, ok-IsOk, ok-injective, >>=-eq-ok, >>=-IsOk}
use fastcopier.Flat.{FlatCache, is_flat_type}
use fastcopier.Flat.Correct.{
  IsFlat, end, next, Answers, AnswersAll, AnswersDesc, Answers-from, AllFlat-tail, IsSound,
  is_flat_type_correct,
}
use fastcopier.Flat.Total.{IsFinite, PartsBelow, is_flat_type-IsOk}
use fastcopier.Flat.Mask.{is_plain}
use fastcopier.Generator.Kinds.{is_flat_go_type, flat_go_desc, flat_go_fields}
use fastcopier.Generator.Universe.{Universe}
use fastcopier.GoTypes.{Types, StructField, Desc, Basic, basic, array, struct}
use mathlib.Core.Path.{subst}

module _ (T : Types) where
  abbrev Tells : (ℕ → Outcome String Bool) → Type 0
  Tells test = (t : ℕ) (b : Bool) → test t ≡ ok b → Answers T t b

  flat_go_fields-Tells :
      (test : ℕ → Outcome String Bool)
      → Tells test
      → (fs : List StructField) (b : Bool) → flat_go_fields test fs ≡ ok b
      → AnswersAll T fs b
  unfolding flat_go_fields
  flat_go_fields-Tells test tells [] b e = subst (AnswersAll T []) (ok-injective e) end
  flat_go_fields-Tells test tells (sf ∷ fs) b e =
      let (v, e₁, e₂) = >>=-eq-ok (test sf.typ) _ e in
      go v (tells sf.typ v e₁) (flat_go_fields-Tells test tells fs b) e₂
    where
      extend : (w : Bool) → IsFlat T sf.typ → AnswersAll T fs w → AnswersAll T (sf ∷ fs) w
      extend true f g = next f g
      extend false f g = λ h. g (AllFlat-tail h).1

      go :
          (v : Bool)
          → Answers T sf.typ v
          → (flat_go_fields test fs ≡ ok b → AnswersAll T fs b)
          → ◌≡◌ {A = Outcome String Bool}
              (elim v [ false ↦ ok false | true ↦ flat_go_fields test fs ])
              (ok b)
          → AnswersAll T (sf ∷ fs) b
      go false not_flat more e' =
          subst (AnswersAll T (sf ∷ fs)) (ok-injective e') (λ f. not_flat (AllFlat-tail f).0)
      go true flat more e' = extend b flat (more e')

  -- Every basic kind counts as flat, so the answer is right at all but unsafe.Pointer.
  flat_go_desc-Tells :
      (test : ℕ → Outcome String Bool)
      → Tells test
      → (d : Desc) (b : Bool) → d ≢ basic Basic.unsafe_pointer
      → flat_go_desc test d ≡ ok b
      → AnswersDesc T d b
  unfolding flat_go_desc AnswersDesc
  flat_go_desc-Tells test tells (struct fs) b safe e =
      struct_answer b (flat_go_fields-Tells test tells fs b e)
    where
      struct_answer : (b : Bool) → AnswersAll T fs b → AnswersDesc T (struct fs) b
      struct_answer true p = p
      struct_answer false p = p
  flat_go_desc-Tells test tells (array el n) b safe e = array_answer b (tells el b e)
    where
      array_answer : (b : Bool) → Answers T el b → AnswersDesc T (array el n) b
      array_answer true p = p
      array_answer false p = p
  flat_go_desc-Tells test tells (basic k) b safe e =
      subst (AnswersDesc T (basic k)) (ok-injective e) (basic_is_plain k safe)
    where
      basic_is_plain :
          (k : Basic) → basic k ≢ basic Basic.unsafe_pointer → is_plain (basic k) ≡ true
      basic_is_plain Basic.unsafe_pointer h = absurd (h refl)
      basic_is_plain _ h = refl
  flat_go_desc-Tells test tells d b safe e = subst (AnswersDesc T d) (ok-injective e) (λ q. cc)

module _ (U : Universe) (safe : (t : ℕ) → U.types.desc t ≢ basic Basic.unsafe_pointer) where
  is_flat_go_type-Answers :
      (fuel t : ℕ) (b : Bool) → is_flat_go_type U fuel t ≡ ok b → Answers U.types t b
  unfolding is_flat_go_type
  is_flat_go_type-Answers zero t b e = cc
  is_flat_go_type-Answers (suc fuel) t b e = Answers-from U.types t (U.types.desc t) b refl (
      flat_go_desc-Tells U.types (is_flat_go_type U fuel)
        (λ s c h. is_flat_go_type-Answers fuel s c h) (U.types.desc t) b (safe t) e)

  Answers-unique : (t : ℕ) (a b : Bool) → Answers U.types t a → Answers U.types t b → a ≡ b
  Answers-unique t true true p q = refl
  Answers-unique t false false p q = refl
  Answers-unique t true false p q = absurd (q p)
  Answers-unique t false true p q = absurd (p q)

  module _ (rank : ℕ → ℕ) (finite : IsFinite U.types rank) where
    flat_go_fields-IsOk :
        (test : ℕ → Outcome String Bool) (fs : List StructField)
        → All (λ sf. IsOk (test sf.typ)) fs
        → IsOk (flat_go_fields test fs)
    unfolding flat_go_fields
    flat_go_fields-IsOk test [] h = ok-IsOk _
    flat_go_fields-IsOk test (sf ∷ fs) h =
        >>=-IsOk (test sf.typ) _ h.0 λ b. go b (flat_go_fields-IsOk test fs h.1)
      where
        go :
            (b : Bool)
            → IsOk (flat_go_fields test fs)
            → IsOk {E = String} {A = Bool}
                (elim b [ false ↦ ok false | true ↦ flat_go_fields test fs ])
        go true h = h
        go false h = ok-IsOk _

    flat_go_desc-IsOk :
        (test : ℕ → Outcome String Bool) (fuel t : ℕ)
        → rank t < suc fuel
        → ((s : ℕ) → rank s < fuel → IsOk (test s))
        → (d : Desc) → PartsBelow rank t d
        → IsOk (flat_go_desc test d)
    unfolding flat_go_desc
    flat_go_desc-IsOk test fuel t h ends (struct fs) parts =
        flat_go_fields-IsOk test fs (All-map fs (λ sf p. ends sf.typ (omega arith)) parts)
    flat_go_desc-IsOk test fuel t h ends (array e n) parts = ends e (omega arith)
    flat_go_desc-IsOk test fuel t h ends (basic b) parts = ok-IsOk _
    flat_go_desc-IsOk test fuel t h ends d parts = ok-IsOk _

    is_flat_go_type-IsOk : (fuel t : ℕ) → rank t < fuel → IsOk (is_flat_go_type U fuel t)
    unfolding is_flat_go_type
    is_flat_go_type-IsOk zero t h = absurd (omega arith)
    is_flat_go_type-IsOk (suc fuel) t h =
        flat_go_desc-IsOk (is_flat_go_type U fuel) fuel t h (λ s p. is_flat_go_type-IsOk fuel s p)
          (U.types.desc t) (finite t)

    -- Where no type contains itself and none is unsafe.Pointer, isFlatGoType and the memoised
    -- isFlatType of the engine both return, for every type of rank below the fuel, and their
    -- answers are the same, with any memo that is right.
    pub is_flat_go_type-is_flat_type :
        (fuel t : ℕ) (c : FlatCache)
        → rank t < fuel
        → IsSound U.types c
        → (b : Bool) × (c' : FlatCache) × (is_flat_go_type U fuel t ≡ ok b)
          × (is_flat_type U.types fuel t c ≡ ok (b, c'))
    is_flat_go_type-is_flat_type fuel t c h sound = elim (is_flat_go_type-IsOk fuel t h) [
      | returns b e ↦ elim (is_flat_type-IsOk U.types rank finite fuel t c h) [
        | returns r e' ↦
            let right = (is_flat_type_correct U.types fuel t c r sound e').0 in
            let same = Answers-unique t r.0 b right (is_flat_go_type-Answers fuel t b e) in
            (b, r.1, e, e' ∙ ap (λ v. ok (v, r.1)) same)
      ]
    ]
