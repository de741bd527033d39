-- ===== src/Resolution/Guarantees.antt =====
-- Every resolution of a plan is safe: resolvePlan of engine.go.
use fastcopier.Base.{
  ℕ, zero, suc, ◌≡◌, refl, Bool, true, false, ◌&&◌, ◌||◌, Option, none, some, ◌==◌, nat_eq, inl,
  inr, Option-cases,
}
use fastcopier.Base.Outcome.{Outcome, ok, out_of_fuel}
use fastcopier.Cache.{PlanKey, PlanCache, IsLawful}
use fastcopier.Context.{key_for}
use fastcopier.Errors.{Error}
use fastcopier.GoTypes.{kind, pointer_kind, slice_kind, array_kind, map_kind, struct_kind}
use fastcopier.Flat.{is_scalar}
use fastcopier.Plan.{Plan}
use fastcopier.Resolve.{
  Env, Rec, get_entry, resolve_struct_src_plan, resolve_map_src_plan, resolve_by_kind, after_lookup,
  resolve_step, resolve_plan,
}
use fastcopier.Resolution.Safe.{
  IsAllowed, Safe, safe, pure-Safe, if-Safe, store-Safe, building-Safe,
}
use fastcopier.Resolution.Parts.{
  bind-Safe, is_flat-Safe, SafeRec, non_copyable-Safe, resolve_scalar_plan-Safe,
  resolve_iface_dst_plan-Safe, resolve_iface_src_plan-Safe, resolve_pointer_plan-Safe,
  resolve_slice_plan-Safe, then_store-Safe,
}
use fastcopier.Base.{◌≢◌}
use fastcopier.Base.Outcome.{err, panic, err-injective}
use mathlib.Core.Path.{subst}
use fastcopier.Base.{ap}
use fastcopier.Resolution.StructParts.{struct_plan_init-Safe}
use fastcopier.Resolution.MapParts.{
  map_plan_init-Safe, map_to_struct_plan_init-Safe, struct_to_map_plan_init-Safe,
}
use fastcopier.Resolution.Safe.{Safe-at, Post, IsBuilding}
use fastcopier.Resolve.{copies_whole}
use fastcopier.GoTypes.{chan_kind, iface_kind}

module _ (E : Env) (C : PlanCache Plan) (L : IsLawful C) where
  module _ (rec : Rec E C) (h : SafeRec E C L rec) where
    resolve_struct_src_plan-Safe :
        (key : PlanKey) (dst src : ℕ) (found : Bool)
        → (kind E.T src == struct_kind) ≡ true
        → Safe E C (resolve_struct_src_plan E C rec key dst src found)
    unfolding resolve_struct_src_plan
    resolve_struct_src_plan-Safe key dst src found q =
        if-Safe E C (kind E.T dst == struct_kind) _ _
          (λ p.
            bind-Safe E C L _ _
              (if-Safe E C (dst == src) _ _ (λ _. is_flat-Safe E C L src)
                (λ _. pure-Safe E C false))
              (λ flat.
                if-Safe E C (flat && copies_whole E C) _ _ (λ _. store-Safe E C L key _)
                  λ _.
                    if-Safe E C found _ _ (λ _. pure-Safe E C _)
                      λ _.
                        building-Safe E C L key _ (struct_plan_init-Safe E C L rec h dst src p q)))
          (λ _.
            if-Safe E C (kind E.T dst == map_kind) _ _
              (λ p.
                then_store-Safe E C L rec h key _ (λ p. p)
                  (struct_to_map_plan_init-Safe E C L rec h dst src p q))
              (λ _. non_copyable-Safe E C L dst src))

    resolve_map_src_plan-Safe :
        (key : PlanKey) (dst src : ℕ)
        → (kind E.T src == map_kind) ≡ true
        → Safe E C (resolve_map_src_plan E C rec key dst src)
    unfolding resolve_map_src_plan
    resolve_map_src_plan-Safe key dst src q =
        if-Safe E C (kind E.T dst == map_kind) _ _
          (λ p.
            then_store-Safe E C L rec h key _ (λ p. p) (map_plan_init-Safe E C L rec h dst src p q))
          (λ _.
            if-Safe E C (kind E.T dst == struct_kind) _ _
              (λ p.
                then_store-Safe E C L rec h key _ (λ p. p)
                  (map_to_struct_plan_init-Safe E C L rec h dst src p q))
              (λ _. non_copyable-Safe E C L dst src))

    resolve_by_kind-Safe :
        (key : PlanKey) (dst src : ℕ) (found : Bool)
        → Safe E C (resolve_by_kind E C rec key dst src found)
    unfolding resolve_by_kind
    resolve_by_kind-Safe key dst src found =
        let d = kind E.T dst in
        let s = kind E.T src in
        if-Safe E C (is_scalar s) _ _ (λ _. resolve_scalar_plan-Safe E C L dst src)
          λ _.
            if-Safe E C (s == chan_kind && d == chan_kind) _ _ (λ _. pure-Safe E C _)
              λ _.
                if-Safe E C (d == iface_kind) _ _ (λ _. resolve_iface_dst_plan-Safe E C L key)
                  λ _.
                    if-Safe E C (s == iface_kind) _ _ (λ _. resolve_iface_src_plan-Safe E C L key)
                      λ _.
                        if-Safe E C (s == pointer_kind || d == pointer_kind) _ _
                          (λ q. resolve_pointer_plan-Safe E C L rec h key dst src q)
                          λ _.
                            if-Safe E C (s == slice_kind || s == array_kind) _ _
                              (λ q. resolve_slice_plan-Safe E C L rec h key dst src q)
                              λ _.
                                if-Safe E C (s == struct_kind) _ _
                                  (λ q. resolve_struct_src_plan-Safe key dst src found q)
                                  λ _.
                                    if-Safe E C (s == map_kind) _ _
                                      (λ q. resolve_map_src_plan-Safe key dst src q)
                                      λ _. non_copyable-Safe E C L dst src

    after_lookup-Safe :
        (key : PlanKey) (dst src : ℕ) (o : Option (Option Plan))
        → Safe E C (after_lookup E C rec key dst src o)
    after_lookup-Safe key dst src none = resolve_by_kind-Safe key dst src false
    after_lookup-Safe key dst src (some none) = resolve_by_kind-Safe key dst src true
    after_lookup-Safe key dst src (some (some p)) = pure-Safe E C p

    resolve_step-Safe : (dst src : ℕ) → Safe E C (resolve_step E C rec dst src)
    unfolding resolve_step
    resolve_step-Safe dst src = elim (Option-cases (E.registry dst src)) [
      | inr (f, e) ↦ rw (e, resolve_step) (pure-Safe E C _)
      | inl e ↦
          rw (e, resolve_step)
            (bind-Safe E C L (get_entry E C (key_for E.ctx dst src)) _ (safe (λ s k b. b))
              (after_lookup-Safe (key_for E.ctx dst src) dst src))
    ]

  resolve_plan-Safe : (fuel dst src : ℕ) → Safe E C (resolve_plan E C fuel dst src)
  unfolding resolve_plan
  resolve_plan-Safe zero dst src = safe (λ s. tt)
  resolve_plan-Safe (suc fuel) dst src =
      resolve_step-Safe (resolve_plan E C fuel) (resolve_plan-Safe fuel) dst src

  Post-ne-panic :
      {A : Type 0} (s : C.State) (r : Outcome Error A × C.State) → Post E C s r → r.0 ≢ panic
  Post-ne-panic s (ok a, t) p = λ e. cc
  Post-ne-panic s (err x, t) p = λ e. cc
  Post-ne-panic s (panic, t) p = absurd p
  Post-ne-panic s (out_of_fuel, t) p = λ e. cc

  -- For any two types, in any context, choosing and building a plan never asks reflect for a part
  -- that a type does not have, so it does not panic.
  pub resolve_plan-ne-panic :
      (fuel dst src : ℕ) (s : C.State) → (resolve_plan E C fuel dst src s).0 ≢ panic
  resolve_plan-ne-panic fuel dst src s =
      Post-ne-panic s _ (Safe-at E C (resolve_plan-Safe fuel dst src) s)

  Post-err :
      {A : Type 0} (s s' : C.State) {e : Error} (r : Outcome Error A × C.State)
      → r ≡ (err e, s')
      → Post E C s r
      → IsAllowed E e
  Post-err s s' {e} (ok a, t) h p = cc
  Post-err s s' {e} (err x, t) h p =
      subst (IsAllowed E) (err-injective (ap (λ (q : Outcome Error _ × C.State). q.0) h)) p.1
  Post-err s s' (panic, t) h p = absurd p
  Post-err s s' (out_of_fuel, t) h p = cc

  -- When no plan can be built, the error is one of two: a required field is not copied, or the
  -- types are not copyable, and then only if non-copyable types are not ignored. The error
  -- may carry any number of fields around it.
  pub resolve_plan-IsAllowed :
      (fuel dst src : ℕ) (s s' : C.State) {e : Error}
      → resolve_plan E C fuel dst src s ≡ (err e, s')
      → IsAllowed E e
  resolve_plan-IsAllowed fuel dst src s s' h =
      Post-err s s' (resolve_plan E C fuel dst src s) h
        (Safe-at E C (resolve_plan-Safe fuel dst src) s)

  Post-Keeps :
      {A : Type 0} (s : C.State) (r : Outcome Error A × C.State)
      → Post E C s r
      → r.0 ≢ out_of_fuel
      → (k : PlanKey) → IsBuilding E C k r.1
      → IsBuilding E C k s
  Post-Keeps s (ok a, t) p n k b = p k b
  Post-Keeps s (err x, t) p n k b = p.0 k b
  Post-Keeps s (panic, t) p n k b = absurd p
  Post-Keeps s (out_of_fuel, t) p n k b = absurd (n refl)

  -- A resolution that returns, with a plan or with an error, leaves no nil behind in the cache: a
  -- key that is marked as under construction afterwards was so before.
  pub resolve_plan-IsBuilding :
      (fuel dst src : ℕ) (s : C.State) (k : PlanKey)
      → (resolve_plan E C fuel dst src s).0 ≢ out_of_fuel
      → IsBuilding E C k (resolve_plan E C fuel dst src s).1
      → IsBuilding E C k s
  resolve_plan-IsBuilding fuel dst src s k n b =
      Post-Keeps s (resolve_plan E C fuel dst src s)
        (Safe-at E C (resolve_plan-Safe fuel dst src) s) n k b
