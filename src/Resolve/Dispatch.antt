-- ===== src/Resolve/Dispatch.antt =====
-- engine.go: resolvePlan and the choice by kind.
use fastcopier.Resolve.Monad.{pure, fail, lift, handle, ◌>>=◌, ◌>>◌}
use fastcopier.Resolve.Basics.{
  Env, Resolve, Rec, get_entry, set_entry, del_entry, store, is_flat, non_copyable,
  resolve_scalar_plan, resolve_iface_dst_plan, resolve_iface_src_plan, resolve_pointer_plan,
  resolve_slice_plan,
}
use fastcopier.Base.{
  ℕ, zero, suc, ◌^◌, Bool, true, false, ◌&&◌, ◌||◌, not, ◌==◌, nat_eq, string_eq, list_eq, Option,
  none, some, if◌then◌else◌,
}
use fastcopier.Base.Dict.{has_value}
use fastcopier.Base.Outcome.{out_of_fuel}
use fastcopier.Cache.{PlanKey, PlanCache}
use fastcopier.Context.{key_for, flag_bit_skip_zero_fields}
use fastcopier.Flat.{is_scalar}
use fastcopier.GoTypes.{
  kind, chan_kind, iface_kind, pointer_kind, slice_kind, array_kind, struct_kind, map_kind,
}
use fastcopier.Plan.{Plan, assign_plan, chan_plan, registered_plan, deferred_plan}
use Prim.Native.Nat.{bit_and}
use fastcopier.Resolve.StructInit.{struct_plan_init}
use fastcopier.Resolve.MapInit.{map_plan_init, map_to_struct_plan_init, struct_to_map_plan_init}

module _ (E : Env) (C : PlanCache Plan) where
  -- `flags & (1 << flagBitSkipZeroFields) == 0 && fieldMask == nil`
  abbrev pub copies_whole : Bool
  copies_whole =
      bit_and E.ctx.flags (2 ^ flag_bit_skip_zero_fields) == 0 && not (has_value E.ctx.field_mask)

  -- `found` says that the key is in the cache, with the nil of a plan under construction.
  unfoldable pub resolve_struct_src_plan : Rec E C → PlanKey → ℕ → ℕ → Bool → Resolve E C Plan
  resolve_struct_src_plan rec key dst src found =
      if kind E.T dst == struct_kind
      then (do
        flat ← (if dst == src then is_flat E C src else pure false)
        if flat && copies_whole
            then store E C key assign_plan
            else if found
            then pure (deferred_plan dst src)
            else set_entry E C key none
              >> handle (struct_plan_init E C rec dst src) (λ p. store E C key p)
                  (λ e. del_entry E C key >> fail e))
      else if kind E.T dst == map_kind
      then (do p ← struct_to_map_plan_init E C rec dst src; store E C key p)
      else non_copyable E C dst src

  unfoldable pub resolve_map_src_plan : Rec E C → PlanKey → ℕ → ℕ → Resolve E C Plan
  resolve_map_src_plan rec key dst src =
      if kind E.T dst == map_kind
      then (do p ← map_plan_init E C rec dst src; store E C key p)
      else if kind E.T dst == struct_kind
      then (do p ← map_to_struct_plan_init E C rec dst src; store E C key p)
      else non_copyable E C dst src

  -- The choice by the kinds, for a pair that has no plan in the cache.
  unfoldable pub resolve_by_kind : Rec E C → PlanKey → ℕ → ℕ → Bool → Resolve E C Plan
  resolve_by_kind rec key dst src found =
      let d = kind E.T dst in
      let s = kind E.T src in
      if is_scalar s
      then resolve_scalar_plan E C dst src
      else if s == chan_kind && d == chan_kind
      then pure chan_plan
      else if d == iface_kind
      then resolve_iface_dst_plan E C key
      else if s == iface_kind
      then resolve_iface_src_plan E C key
      else if s == pointer_kind || d == pointer_kind
      then resolve_pointer_plan E C rec key dst src
      else if s == slice_kind || s == array_kind
      then resolve_slice_plan E C rec key dst src
      else if s == struct_kind
      then resolve_struct_src_plan rec key dst src found
      else if s == map_kind
      then resolve_map_src_plan rec key dst src
      else non_copyable E C dst src

  abbrev pub after_lookup : Rec E C → PlanKey → ℕ → ℕ → Option (Option Plan) → Resolve E C Plan
  after_lookup rec key dst src none = resolve_by_kind rec key dst src false
  after_lookup rec key dst src (some none) = resolve_by_kind rec key dst src true
  after_lookup rec key dst src (some (some p)) = pure p

  -- One call, over the recursive calls.
  unfoldable pub resolve_step : Rec E C → ℕ → ℕ → Resolve E C Plan
  resolve_step rec dst src = elim (E.registry dst src) [
    | some f ↦ pure (registered_plan f)
    | none ↦ let key = key_for E.ctx dst src in get_entry E C key >>= after_lookup rec key dst src
  ]

  unfoldable pub resolve_plan : ℕ → ℕ → ℕ → Resolve E C Plan
  resolve_plan zero dst src = lift out_of_fuel
  resolve_plan (suc fuel) dst src = resolve_step (resolve_plan fuel) dst src
