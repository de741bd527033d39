-- ===== src/Resolution/Safe.antt =====
-- A step of resolution that is safe: it does not panic, it fails only with the errors that
-- resolution may give, and a nil that it leaves in the cache was there before.
use fastcopier.Base.{
  ◌≡◌, inl, inr, refl, Bool, true, false, Option, none, some, if◌then◌else◌, Bool-cases,
}
use fastcopier.Base.Outcome.{Outcome, ok, err, panic, out_of_fuel}
use fastcopier.Cache.{PlanKey, plan_key_eq, plan_key_beq, PlanCache, IsLawful}
use fastcopier.Errors.{Error, sentinel_of, field_require_copying, type_non_copyable}
use fastcopier.Plan.{Plan}
use fastcopier.Resolve.{
  pure, fail, lift, continue, handle, ◌>>◌, Env, Resolve, set_entry, del_entry, store,
}
use fastcopier.Resolution.Calm.{IsCalm, value, fuel_gone}

-- The two kinds of errors; the second only if non-copyable types are not ignored.
pub data IsAllowed (E : Env) (e : Error) : Type 0 where
  required : sentinel_of e ≡ field_require_copying → IsAllowed E e
  non_copyable_type :
      sentinel_of e ≡ type_non_copyable → E.ctx.ignore_non_copyable_types ≡ false → IsAllowed E e

module _ (E : Env) (C : PlanCache Plan) where
  -- The plan of the key is under construction.
  abbrev pub IsBuilding : PlanKey → C.State → Type 0
  IsBuilding k s = C.get k s ≡ some none

  abbrev pub Keeps : C.State → C.State → Type 0
  Keeps s s' = (k : PlanKey) → IsBuilding k s' → IsBuilding k s

  abbrev pub Post : {A : Type 0} → C.State → Outcome Error A × C.State → Type 0
  Post s (ok a, s') = Keeps s s'
  Post s (err e, s') = Keeps s s' × IsAllowed E e
  Post s (panic, s') = ⊥
  Post s (out_of_fuel, s') = Unit

  pub data Safe {A : Type 0} (m : Resolve E C A) : Type 0 where
    safe : ((s : C.State) → Post s (m s)) → Safe m

  pub Safe-at : {A : Type 0} {m : Resolve E C A} → Safe m → (s : C.State) → Post s (m s)
  Safe-at (safe h) = h

  pub pure-Safe : {A : Type 0} (a : A) → Safe (pure a)
  pure-Safe a = safe (λ s k h. h)

  pub fail-Safe : {A : Type 0} (e : Error) → IsAllowed E e → Safe (fail {A = A} e)
  fail-Safe e h = safe (λ s. (λ k b. b, h))

  pub lift-Safe : {A : Type 0} (o : Outcome Error A) → IsCalm o → Safe (lift o)
  lift-Safe o (value a e) = safe (λ s. rw e (λ k b. b))
  lift-Safe o (fuel_gone e) = safe (λ s. rw e tt)

  Post-after :
      {A : Type 0} (s s' : C.State)
      → Keeps s s'
      → (r : Outcome Error A × C.State) → Post s' r
      → Post s r
  Post-after s s' h (ok a, t) p = λ k b. h k (p k b)
  Post-after s s' h (err e, t) p = (λ k b. h k (p.0 k b), p.1)
  Post-after s s' h (panic, t) p = p
  Post-after s s' h (out_of_fuel, t) p = p

  continue-Post :
      {A B : Type 0} (f : A → Resolve E C B) (g : Error → Resolve E C B) (s : C.State)
      → ((a : A) → Safe (f a))
      → ((e : Error) → IsAllowed E e → Safe (g e))
      → (r : Outcome Error A × C.State) → Post s r
      → Post s (continue f g r)
  continue-Post f g s hf hg (ok a, t) p = Post-after s t p (f a t) (Safe-at (hf a) t)
  continue-Post f g s hf hg (err e, t) p = Post-after s t p.0 (g e t) (Safe-at (hg e p.1) t)
  continue-Post f g s hf hg (panic, t) p = p
  continue-Post f g s hf hg (out_of_fuel, t) p = p

  pub handle-Safe :
      {A B : Type 0} (m : Resolve E C A) (f : A → Resolve E C B) (g : Error → Resolve E C B)
      → Safe m
      → ((a : A) → Safe (f a))
      → ((e : Error) → IsAllowed E e → Safe (g e))
      → Safe (handle m f g)
  handle-Safe m f g h hf hg = safe (λ s. continue-Post f g s hf hg (m s) (Safe-at h s))

  pub if-Safe :
      {A : Type 0} (b : Bool) (x y : Resolve E C A)
      → (b ≡ true → Safe x)
      → (b ≡ false → Safe y)
      → Safe (if b then x else y)
  if-Safe true x y h k = h refl
  if-Safe false x y h k = k refl

  module _ (L : IsLawful C) where
    -- A plan that is stored is under construction no longer.
    set-Keeps : (key : PlanKey) (p : Plan) (s : C.State) → Keeps s (C.set key (some p) s)
    set-Keeps key p s k h = elim (Bool-cases (plan_key_beq k key)) [
      | inl same ↦ absurd (nil_ne (rw (L.get-set, same) at h))
      | inr other ↦ rw (L.get-set, other) at h
    ]
      where
        nil_ne : ◌≡◌ {A = Option (Option Plan)} (some (some p)) (some none) → ⊥
        nil_ne e = cc

    pub store-Safe : (key : PlanKey) (p : Plan) → Safe (store E C key p)
    store-Safe key p = safe (λ s. set-Keeps key p s)

    -- What stands under another key is not touched.
    none_ne : ◌≡◌ {A = Option (Option Plan)} none (some none) → ⊥
    none_ne e = cc

    some_ne : (p : Plan) → ◌≡◌ {A = Option (Option Plan)} (some (some p)) (some none) → ⊥
    some_ne p e = cc

    closed_Keeps :
        (key : PlanKey) (v : Option (Option Plan)) (s t t' : C.State)
        → (v ≡ some none → ⊥)
        → ((k : PlanKey) → C.get k t' ≡ (if plan_key_beq k key then v else C.get k t))
        → Keeps (C.set key none s) t
        → Keeps s t'
    closed_Keeps key v s t t' not_nil law h k b = elim (Bool-cases (plan_key_beq k key)) [
      | inl same ↦ absurd (not_nil (rw (law k, same) at b))
      | inr other ↦ rw (L.get-set, other) at (h k (rw (law k, other) at b))
    ]

    finish_Post :
        (key : PlanKey) (s : C.State) (r : Outcome Error Plan × C.State)
        → Post (C.set key none s) r
        → Post s
            (continue {S = C.State} (λ p. store E C key p) (λ e. del_entry E C key >> fail e) r)
    finish_Post key s (ok p, t) h =
        closed_Keeps key (some (some p)) s t (C.set key (some p) t) (some_ne p)
          (λ k. L.get-set k key (some p) t) h
    finish_Post key s (err e, t) h =
        (closed_Keeps key none s t (C.del key t) none_ne (λ k. L.get-del k key t) h.0, h.1)
    finish_Post key s (panic, t) h = h
    finish_Post key s (out_of_fuel, t) h = h

    -- Building under a key: nil goes in first, and the plan or nothing is there at the end.
    pub building-Safe :
        (key : PlanKey) (m : Resolve E C Plan)
        → Safe m
        → Safe (
            set_entry E C key none
            >> handle m (λ p. store E C key p) (λ e. del_entry E C key >> fail e))
    building-Safe key m h =
        safe (λ s. finish_Post key s (m (C.set key none s)) (Safe-at h (C.set key none s)))
