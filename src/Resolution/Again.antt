-- ===== src/Resolution/Again.antt =====
-- A plan that was built for two struct types is found again: resolvePlan of engine.go.
use fastcopier.Base.{
  ℕ, zero, suc, ◌≡◌, ◌≢◌, refl, sym, ap, ◌∙◌, Bool, true, false, ◌==◌, nat_eq, ==_refl, Option,
  some, none, List, ◌&&◌, if◌then◌else◌,
}
use fastcopier.Base.Outcome.{Outcome, ok, err, panic, out_of_fuel, ok-injective}
use fastcopier.Cache.{PlanKey, plan_key_eq, PlanCache, IsLawful}
use fastcopier.Context.{key_for}
use fastcopier.Errors.{Error}
use fastcopier.Flat.{is_scalar}
use fastcopier.GoTypes.{StructField, struct}
use fastcopier.Plan.{Plan, assign_plan}
use fastcopier.Resolve.{
  M, fail, handle, continue, Env, Rec, Resolve, set_entry, del_entry, store, copies_whole,
  struct_plan_init, resolve_struct_src_plan, resolve_by_kind, after_lookup, resolve_step,
  resolve_plan,
}

module _ (E : Env) (C : PlanCache Plan) (L : IsLawful C) where
  -- The plan that a resolution returns is the one that the cache then has under the key.
  data IsStored (key : PlanKey) (m : Resolve E C Plan) : Type 0 where
    stored :
        ((s s' : C.State) (p : Plan) → m s ≡ (ok p, s') → C.get key s' ≡ some (some p))
        → IsStored key m

  stored-at :
      {key : PlanKey} {m : Resolve E C Plan}
      → IsStored key m
      → (s s' : C.State) (p : Plan) → m s ≡ (ok p, s')
      → C.get key s' ≡ some (some p)
  stored-at (stored f) = f

  store-IsStored : (key : PlanKey) (p : Plan) → IsStored key (store E C key p)
  store-IsStored key p = stored λ s s' q e.
      sym (ap (λ (r : Outcome Error Plan × C.State). C.get key r.1) e)
      ∙ L.get-set key key (some p) s
      ∙ found s p q (ok-injective (ap (λ (r : Outcome Error Plan × C.State). r.0) e))
    where
      found :
          (s : C.State) (p q : Plan)
          → p ≡ q
          → (if key == key then some (some p) else C.get key s) ≡ some (some q)
      found s p q h = rw (==_refl key) (ap (λ x. some (some x)) h)

  fail-IsStored : (key : PlanKey) (e : Error) → IsStored key (fail e)
  fail-IsStored key e = stored λ s s' q h. cc

  continue-stored :
      {A : Type 0} (key : PlanKey) (f : A → Resolve E C Plan) (g : Error → Resolve E C Plan)
      → ((a : A) → IsStored key (f a))
      → ((e : Error) → IsStored key (g e))
      → (r : Outcome Error A × C.State) (s' : C.State) (p : Plan) → continue f g r ≡ (ok p, s')
      → C.get key s' ≡ some (some p)
  continue-stored key f g hf hg (ok a, s) s' p e = stored-at (hf a) s s' p e
  continue-stored key f g hf hg (err x, s) s' p e = stored-at (hg x) s s' p e
  continue-stored key f g hf hg (panic, s) s' p e = cc
  continue-stored key f g hf hg (out_of_fuel, s) s' p e = cc

  handle-IsStored :
      {A : Type 0} (key : PlanKey) (m : M C.State A) (f : A → Resolve E C Plan)
      (g : Error → Resolve E C Plan)
      → ((a : A) → IsStored key (f a))
      → ((e : Error) → IsStored key (g e))
      → IsStored key (handle m f g)
  handle-IsStored key m f g hf hg = stored λ s s' p e. continue-stored key f g hf hg (m s) s' p e

  if-IsStored :
      (key : PlanKey) (b : Bool) (x y : Resolve E C Plan)
      → IsStored key x
      → IsStored key y
      → IsStored key (if b then x else y)
  if-IsStored key true x y hx hy = hx
  if-IsStored key false x y hx hy = hy

  resolve_struct_src_plan-IsStored :
      (rec : Rec E C) (key : PlanKey) (dst src : ℕ) (fs : List StructField)
      → E.T.desc dst ≡ struct fs
      → IsStored key (resolve_struct_src_plan E C rec key dst src false)
  unfolding resolve_struct_src_plan
  resolve_struct_src_plan-IsStored rec key dst src fs d = rw d (
      handle-IsStored key _ _ fail
        (λ flat. if-IsStored key (flat && copies_whole E C) _ _ (store-IsStored key assign_plan) (
          handle-IsStored key (set_entry E C key none) _ fail
            (λ u.
              handle-IsStored key (struct_plan_init E C rec dst src) _ _ (store-IsStored key) (λ e.
                handle-IsStored key (del_entry E C key) _ fail (λ v. fail-IsStored key e)
                  (fail-IsStored key)))
            (fail-IsStored key)))
        (fail-IsStored key))

  by_kind-struct :
      (rec : Rec E C) (key : PlanKey) (dst src : ℕ) (fs gs : List StructField) (found : Bool)
      → E.T.desc dst ≡ struct fs
      → E.T.desc src ≡ struct gs
      → resolve_by_kind E C rec key dst src found
        ≡ resolve_struct_src_plan E C rec key dst src found
  unfolding resolve_by_kind is_scalar
  by_kind-struct rec key dst src fs gs found d h = rw (d, h)

  after_lookup-stored :
      (rec : Rec E C) (key : PlanKey) (dst src : ℕ) (fs gs : List StructField) (s s' : C.State)
      (p : Plan) (o : Option (Option Plan))
      → E.T.desc dst ≡ struct fs
      → E.T.desc src ≡ struct gs
      → C.get key s ≡ o
      → o ≢ some none
      → after_lookup E C rec key dst src o s ≡ (ok p, s')
      → C.get key s' ≡ some (some p)
  after_lookup-stored rec key dst src fs gs s s' p none d h g n e =
      stored-at (resolve_struct_src_plan-IsStored rec key dst src fs d) s s' p (
        ap (λ (m : Resolve E C Plan). m s) (sym (by_kind-struct rec key dst src fs gs false d h))
        ∙ e)
  after_lookup-stored rec key dst src fs gs s s' p (some none) d h g n e = absurd (n refl)
  after_lookup-stored rec key dst src fs gs s s' p (some (some q)) d h g n e =
      sym (ap (λ (r : Outcome Error Plan × C.State). C.get key r.1) e)
      ∙ g
      ∙ ap (λ x. some (some x)) (ok-injective (ap (λ (r : Outcome Error Plan × C.State). r.0) e))

  -- If a plan between two struct types that are not registered is found or built, and none is
  -- under construction for them, then each later resolution with the cache that is left returns
  -- the same plan and leaves the cache as it is.
  pub resolve_plan-again :
      (fuel more dst src : ℕ) (fs gs : List StructField) (s s' : C.State) {p : Plan}
      → E.registry dst src ≡ none
      → E.T.desc dst ≡ struct fs
      → E.T.desc src ≡ struct gs
      → C.get (key_for E.ctx dst src) s ≢ some none
      → resolve_plan E C fuel dst src s ≡ (ok p, s')
      → resolve_plan E C (suc more) dst src s' ≡ (ok p, s')
  unfolding resolve_plan resolve_step
  resolve_plan-again zero more dst src fs gs s s' r d h n e = cc
  resolve_plan-again (suc fuel) more dst src fs gs s s' {p} r d h n e =
      let g =
        after_lookup-stored (resolve_plan E C fuel) (key_for E.ctx dst src) dst src fs gs s s' p
          (C.get (key_for E.ctx dst src) s) d h refl n (rw (r, resolve_step) at e) in
      rw (r, resolve_step) (rw g)
