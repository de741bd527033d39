-- ===== src/Resolve/Basics.antt =====
-- engine.go and plans.go: what resolution reads, its access to the cache, and the plans for
-- scalars, interfaces, pointers, slices and arrays.
use fastcopier.Resolve.Monad.{M, pure, fail, lift, ◌>>=◌, ◌>>◌}
use fastcopier.Base.{
  ℕ, String, Bool, true, false, ◌&&◌, not, [], ◌==◌, nat_eq, string_eq, list_eq, Option, some,
  if◌then◌else◌,
}
use fastcopier.Base.Dict.{Dict}
use fastcopier.Base.Outcome.{ok}
use fastcopier.Cache.{PlanKey, PlanCache}
use fastcopier.Context.{Context}
use fastcopier.Errors.{type_non_copyable, new_copy_error}
use fastcopier.Fields.{Metas}
use fastcopier.Flat.{is_flat_type}
use fastcopier.GoTypes.{
  Types, kind, elem_of, or_panic, convertible_to, pointer_kind, slice_kind, array_kind,
}
use fastcopier.Plan.{
  SlimMeta, Plan, skip_plan, assign_plan, convert_plan, iface_src_plan, iface_dst_plan, ptr_plan,
  deref_plan, addr_plan, slice_plan,
}

-- What resolution reads: the types, the registered copiers, the context, the default tag name,
-- the type string, the orders of iteration, and the fuel for walks over embedded and contained types.
pub record Env : Type 0 where
  pub T : Types
  pub registry : ℕ → ℕ → Option ℕ
  pub ctx : Context
  pub default_tag_name : String
  pub str_type : ℕ
  pub range : Metas → Metas
  pub range_slims : Dict String SlimMeta → Dict String SlimMeta
  pub depth : ℕ

module _ (E : Env) (C : PlanCache Plan) where
  abbrev pub Resolve : Type 0 → Type 0
  Resolve = M C.State

  abbrev pub Rec : Type 0
  Rec = ℕ → ℕ → Resolve Plan

  abbrev pub get_entry : PlanKey → Resolve (Option (Option Plan))
  get_entry key s = (ok (C.get key s), s)

  abbrev pub set_entry : PlanKey → Option Plan → Resolve (Unit {0})
  set_entry key p s = (ok tt, C.set key p s)

  abbrev pub del_entry : PlanKey → Resolve (Unit {0})
  del_entry key s = (ok tt, C.del key s)

  -- `ctx.cache.set(key, p); return p, nil`
  abbrev pub store : PlanKey → Plan → Resolve Plan
  store key p = set_entry key (some p) >> pure p

  abbrev pub elem : ℕ → Resolve ℕ
  elem t = lift (or_panic (elem_of (E.T.desc t)))

  -- isFlatType, without its memo: a right memo does not change the answer.
  abbrev pub is_flat : ℕ → Resolve Bool
  is_flat t = lift (is_flat_type E.T E.depth t []) >>= λ r. pure r.0

  unfoldable pub non_copyable : ℕ → ℕ → Resolve Plan
  non_copyable dst src =
      if E.ctx.ignore_non_copyable_types
      then pure skip_plan
      else fail (new_copy_error E.T type_non_copyable src dst)

  unfoldable pub resolve_scalar_plan : ℕ → ℕ → Resolve Plan
  resolve_scalar_plan dst src =
      if dst == src
      then pure assign_plan
      else if convertible_to E.T src dst
      then pure convert_plan
      else non_copyable dst src

  unfoldable pub resolve_iface_dst_plan : PlanKey → Resolve Plan
  resolve_iface_dst_plan key = store key iface_dst_plan

  unfoldable pub resolve_iface_src_plan : PlanKey → Resolve Plan
  resolve_iface_src_plan key = store key iface_src_plan

  -- The methods init of ptrPlan, derefPlan and addrPlan give the inner plan.
  unfoldable pub ptr_plan_init : Rec → ℕ → ℕ → Resolve Plan
  ptr_plan_init rec dst src = do d ← elem dst; s ← elem src; rec d s

  unfoldable pub deref_plan_init : Rec → ℕ → ℕ → Resolve Plan
  deref_plan_init rec dst src = do s ← elem src; rec dst s

  unfoldable pub addr_plan_init : Rec → ℕ → ℕ → Resolve Plan
  addr_plan_init rec dst src = do d ← elem dst; rec d src

  unfoldable pub resolve_pointer_plan : Rec → PlanKey → ℕ → ℕ → Resolve Plan
  resolve_pointer_plan rec key dst src =
      if kind E.T src == pointer_kind
      then (if kind E.T dst == pointer_kind
          then (do p ← ptr_plan_init rec dst src; store key (ptr_plan p))
          else if E.ctx.copy_between_ptr_and_value
          then (do p ← deref_plan_init rec dst src; store key (deref_plan p))
          else non_copyable dst src)
      else if E.ctx.copy_between_ptr_and_value
      then (do p ← addr_plan_init rec dst src; store key (addr_plan p))
      else non_copyable dst src

  -- slicePlan.init
  unfoldable pub slice_plan_init : Rec → ℕ → ℕ → Resolve Plan
  slice_plan_init rec dst src = do
    d ← elem dst
    s ← elem src
    bulk ← (if d == s then is_flat s else pure false)
    if bulk then pure (slice_plan assign_plan true) else (do p ← rec d s; pure (slice_plan p false))

  unfoldable pub resolve_slice_plan : Rec → PlanKey → ℕ → ℕ → Resolve Plan
  resolve_slice_plan rec key dst src =
      let k = kind E.T dst in
      if not (k == slice_kind) && not (k == array_kind)
      then non_copyable dst src
      else (do p ← slice_plan_init rec dst src; store key p)
