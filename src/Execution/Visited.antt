-- ===== src/Execution/Visited.antt =====
-- Every plan leaves ctx.visited as it was: the Copy methods.
use fastcopier.Base.{ℕ, zero, suc, ◌≡◌, ◌≢◌, refl}
use fastcopier.Base.Outcome.{Outcome, ok, err, panic, out_of_fuel}
use fastcopier.Errors.{Error}
use fastcopier.Execute.{Run, copy_step, copy_plan}
use fastcopier.Execution.Access.{set_to-Balanced}
use fastcopier.Execution.Balance.{Worlds, Post, Balanced, Balanced-at, pure-Balanced, lift-Balanced}
use fastcopier.Plan.{
  Plan, skip_plan, assign_plan, convert_plan, chan_plan, iface_src_plan, iface_dst_plan,
  registered_plan, ptr_plan, deref_plan, addr_plan, deferred_plan, slice_plan, struct_plan,
  map_plan, map_to_struct_plan, struct_to_map_plan, field_plan, val2_field_plan, field2_map_plan,
}
use fastcopier.Reflect.{System, Ref}
use fastcopier.Execution.Parts.{copy_convert-Balanced, copy_registered-Balanced}
use fastcopier.Execution.Plans.{
  RunBalanced, copy_ptr-Balanced, copy_deref-Balanced, copy_addr-Balanced, copy_deferred-Balanced,
  copy_iface_src-Balanced, copy_iface_dst-Balanced, copy_slice-Balanced, copy_fields-Balanced,
  copy_field-Balanced,
}
use fastcopier.Execution.MapPlans.{
  copy_map-Balanced, copy_struct_to_map-Balanced, copy_field2_map-Balanced,
  copy_val2_field-Balanced, copy_map_to_struct-Balanced,
}

module _ (Y : System) where
  module _ (run : Run Y) (h : RunBalanced Y run) where
    copy_step-Balanced : (fuel : ℕ) (p : Plan) (d s : Ref) → Balanced Y (copy_step Y fuel run p d s)
    unfolding copy_step
    copy_step-Balanced fuel skip_plan d s = pure-Balanced Y tt
    copy_step-Balanced fuel assign_plan d s = set_to-Balanced Y d s
    copy_step-Balanced fuel convert_plan d s = copy_convert-Balanced Y d s
    copy_step-Balanced fuel chan_plan d s = set_to-Balanced Y d s
    copy_step-Balanced fuel iface_src_plan d s = copy_iface_src-Balanced Y run h fuel d s
    copy_step-Balanced fuel iface_dst_plan d s = copy_iface_dst-Balanced Y run h fuel d s
    copy_step-Balanced fuel (registered_plan f) d s = copy_registered-Balanced Y f d s
    copy_step-Balanced fuel (ptr_plan p) d s = copy_ptr-Balanced Y run h p d s
    copy_step-Balanced fuel (deref_plan p) d s = copy_deref-Balanced Y run h p d s
    copy_step-Balanced fuel (addr_plan p) d s = copy_addr-Balanced Y run h p d s
    copy_step-Balanced fuel (deferred_plan a b) d s = copy_deferred-Balanced Y run h fuel a b d s
    copy_step-Balanced fuel (slice_plan p bulk) d s = copy_slice-Balanced Y run h p bulk d s
    copy_step-Balanced fuel (struct_plan tag ps sf df) d s = copy_fields-Balanced Y run h ps d s
    copy_step-Balanced fuel (map_plan k v) d s = copy_map-Balanced Y run h k v d s
    copy_step-Balanced fuel (map_to_struct_plan fs n) d s =
        copy_map_to_struct-Balanced Y run h fuel fs n d s
    copy_step-Balanced fuel (struct_to_map_plan ps) d s = copy_struct_to_map-Balanced Y run h ps d s
    copy_step-Balanced fuel (field_plan p path) d s = copy_field-Balanced Y run h fuel p path d s
    copy_step-Balanced fuel (val2_field_plan p path) d s =
        copy_val2_field-Balanced Y run h fuel p path d s
    copy_step-Balanced fuel (field2_map_plan p path) d s =
        copy_field2_map-Balanced Y run h p path d s

  pub copy_plan-Balanced : (fuel : ℕ) (p : Plan) (d s : Ref) → Balanced Y (copy_plan Y fuel p d s)
  unfolding copy_plan
  copy_plan-Balanced zero p d s = lift-Balanced Y out_of_fuel
  copy_plan-Balanced (suc fuel) p d s =
      copy_step-Balanced (copy_plan Y fuel) (copy_plan-Balanced fuel) fuel p d s

  visited_same :
      (w : Worlds Y) (r : Outcome Error (Unit {0}) × Worlds Y)
      → Post Y w r
      → r.0 ≢ panic
      → r.0 ≢ out_of_fuel
      → r.1.visited ≡ w.visited
  visited_same w (ok u, w') h n m = h
  visited_same w (err e, w') h n m = h
  visited_same w (panic, w') h n m = absurd (n refl)
  visited_same w (out_of_fuel, w') h n m = absurd (m refl)

  -- A call of Copy that returns, with or without an error, has taken away each mark that it put on
  -- a pointer: the visited pointers are those from before, in their order. So an error deep in a
  -- value leaves no mark behind for what is copied next.
  pub copy_plan-visited :
      (fuel : ℕ) (p : Plan) (dst src : Ref) (w : Worlds Y)
      → (copy_plan Y fuel p dst src w).0 ≢ panic
      → (copy_plan Y fuel p dst src w).0 ≢ out_of_fuel
      → (copy_plan Y fuel p dst src w).1.visited ≡ w.visited
  copy_plan-visited fuel p dst src w =
      visited_same w (copy_plan Y fuel p dst src w)
        (Balanced-at Y (copy_plan-Balanced fuel p dst src) w)
