-- ===== src/Execution/Policies.antt =====
-- What a pointer that is being copied already gives, and a plan that is looked up at run time:
-- checkCircularRef and deferredPlan of plans.go.
use fastcopier.Base.{
  List, inl, inr, Bool-cases, ℕ, zero, suc, ◌≡◌, refl, true, false, [], ◌==◌, nat_eq, contains,
  if◌then◌else◌, none, some,
}
use fastcopier.Base.Outcome.{Outcome, ok, err, out_of_fuel}
use fastcopier.Cache.{PlanCache}
use fastcopier.Context.{CircularRefPolicy, circular_ref_error, circular_ref_skip, key_for}
use fastcopier.Errors.{Error, wrapped, circular_reference}
use fastcopier.Execute.{
  copy_step, copy_plan, copy_ptr, copy_deref, copy_pointed, check_circular_ref, pointer_of,
  visit_pointer, is_skip_policy, copy_deferred, resolving,
}
use fastcopier.Execution.Balance.{Worlds}
use fastcopier.Fields.{is_nillable}
use fastcopier.Flat.{FlatCache, is_flat_type, is_scalar}
use fastcopier.GoTypes.{StructField, struct, pointer_kind}
use fastcopier.Plan.{Plan, ptr_plan, deref_plan, deferred_plan}
use fastcopier.Reflect.{System, Exec, Ref, kind_at, load, is_nil, set_zero}
use fastcopier.Resolve.{
  continue, fail, resolve_plan, resolve_step, resolve_by_kind, resolve_struct_src_plan,
}
use fastcopier.Store.{Place, address}

module _ (Y : System) where
  -- An error, and nothing is written; or the zero value is set.
  abbrev pub at_cycle : CircularRefPolicy → Ref → Worlds Y → Outcome Error (Unit {0}) × Worlds Y
  at_cycle circular_ref_error dst w = (err (wrapped circular_reference ""), w)
  at_cycle circular_ref_skip dst w = set_zero Y dst w

  decided :
      (c : CircularRefPolicy) (dst : Ref) (rest : Exec Y (Unit {0})) (w : Worlds Y)
      → continue
          (λ skip. if skip then set_zero Y dst else rest)
          fail
          (if is_skip_policy Y c then (ok true, w) else fail (wrapped circular_reference "") w)
        ≡ at_cycle c dst w
  decided circular_ref_error dst rest w = refl
  decided circular_ref_skip dst rest w = refl

  module _ (src : Ref) (w : Worlds Y) (q : Place) (points : load Y src w ≡ (ok (address q), w))
      (is_pointer : kind_at Y src ≡ pointer_kind) where
    not_nil : is_nil Y src w ≡ (ok false, w)
    unfolding is_nil is_nillable
    not_nil = rw (is_pointer, points) refl

    pointer_eq : pointer_of Y src w ≡ (ok (Y.machine.address_of q), w)
    unfolding pointer_of
    pointer_eq = rw points refl

    module _ (is_marked : contains w.visited (Y.machine.address_of q) ≡ true) where
      -- A pointer that is being copied is not followed again: under the policy of errors the copy
      -- fails and changes nothing, and under the policy of skipping the destination is set to zero.
      -- Both plans that follow a pointer do this, whatever plan they hold.
      pub copy_plan-circular :
          (fuel : ℕ) (p : Plan) (dst : Ref)
          → (copy_plan Y (suc fuel) (ptr_plan p) dst src w ≡ at_cycle Y.env.ctx.circular_ref dst w)
            × (copy_plan Y (suc fuel) (deref_plan p) dst src w
                ≡ at_cycle Y.env.ctx.circular_ref dst w)
      unfolding copy_plan copy_step copy_ptr copy_deref copy_pointed check_circular_ref
          visit_pointer
      copy_plan-circular fuel p dst = (
        rw not_nil (rw pointer_eq (rw is_marked (decided _ dst _ w))),
        rw not_nil (rw pointer_eq (rw is_marked (decided _ dst _ w))),
      )

  module _ (d s : ℕ) (fs gs : List StructField) (memo : FlatCache)
      (not_registered : Y.env.registry d s ≡ none) (dst_struct : Y.env.T.desc d ≡ struct fs)
      (src_struct : Y.env.T.desc s ≡ struct gs)
      (not_flat : is_flat_type Y.env.T Y.env.depth s [] ≡ ok (false, memo)) where
    resolves_deferred :
        (fuel : ℕ) (w : Worlds Y)
        → PlanCache.get Y.cache (key_for Y.env.ctx d s) w.plans ≡ some none
        → resolve_plan Y.env Y.cache (suc fuel) d s w.plans ≡ (ok (deferred_plan d s), w.plans)
    unfolding resolve_plan resolve_step resolve_by_kind resolve_struct_src_plan is_scalar
    resolves_deferred fuel w marked =
        rw (not_registered, resolve_step)
          (rw marked (
            rw (dst_struct, src_struct)
              (elim (Bool-cases (d == s)) [
                | inl same ↦ rw same (rw not_flat refl)
                | inr other ↦ rw other refl
              ])))

    -- While the plan of a pair of structs is under construction by another call, a deferred plan for
    -- the pair finds itself again and calls itself without end: no amount of fuel is enough, and
    -- nothing changes. The pair is not registered and the source is not flat.
    pub copy_plan-under_construction :
        (fuel : ℕ) (dst src : Ref) (w : Worlds Y)
        → PlanCache.get Y.cache (key_for Y.env.ctx d s) w.plans ≡ some none
        → copy_plan Y fuel (deferred_plan d s) dst src w ≡ (out_of_fuel, w)
    unfolding copy_plan copy_step copy_deferred resolving resolve_plan
    copy_plan-under_construction zero dst src w marked = refl
    copy_plan-under_construction (suc zero) dst src w marked = refl
    copy_plan-under_construction (suc (suc fuel)) dst src w marked =
        rw (resolves_deferred fuel w marked)
          (copy_plan-under_construction (suc fuel) dst src w marked)
