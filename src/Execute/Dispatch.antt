-- ===== src/Execute/Dispatch.antt =====
-- plans.go: Plan.Copy, by the plan.
use fastcopier.Base.{ℕ, zero, suc}
use fastcopier.Base.Outcome.{out_of_fuel}
use fastcopier.Execute.Maps.{
  copy_map, copy_map_to_struct, copy_val2_field, copy_struct_to_map, copy_field2_map,
}
use fastcopier.Execute.Pointers.{
  Run, copy_ptr, copy_deref, copy_addr, copy_convert, copy_deferred, copy_iface_src, copy_iface_dst,
  copy_registered,
}
use fastcopier.Execute.Slices.{copy_slice}
use fastcopier.Execute.Structs.{copy_field, copy_fields}
use fastcopier.Plan.{
  skip_plan, assign_plan, convert_plan, chan_plan, iface_src_plan, iface_dst_plan, registered_plan,
  ptr_plan, deref_plan, addr_plan, deferred_plan, slice_plan, struct_plan, map_plan,
  map_to_struct_plan, struct_to_map_plan, field_plan, val2_field_plan, field2_map_plan,
}
use fastcopier.Reflect.{System, set_to}
use fastcopier.Resolve.{pure, lift}

module _ (Y : System) where
  -- One call of Copy, over the calls that it makes.
  unfoldable pub copy_step : ℕ → Run Y → Run Y
  copy_step fuel run skip_plan dst src = pure tt
  copy_step fuel run assign_plan dst src = set_to Y dst src
  copy_step fuel run convert_plan dst src = copy_convert Y dst src
  copy_step fuel run chan_plan dst src = set_to Y dst src
  copy_step fuel run iface_src_plan dst src = copy_iface_src Y fuel run dst src
  copy_step fuel run iface_dst_plan dst src = copy_iface_dst Y fuel run dst src
  copy_step fuel run (registered_plan f) dst src = copy_registered Y f dst src
  copy_step fuel run (ptr_plan p) dst src = copy_ptr Y run p dst src
  copy_step fuel run (deref_plan p) dst src = copy_deref Y run p dst src
  copy_step fuel run (addr_plan p) dst src = copy_addr Y run p dst src
  copy_step fuel run (deferred_plan d s) dst src = copy_deferred Y fuel run d s dst src
  copy_step fuel run (slice_plan p bulk) dst src = copy_slice Y run p bulk dst src
  copy_step fuel run (struct_plan tag ps sf df) dst src = copy_fields Y run ps dst src
  copy_step fuel run (map_plan k v) dst src = copy_map Y run k v dst src
  copy_step fuel run (map_to_struct_plan fs n) dst src = copy_map_to_struct Y fuel run fs n dst src
  copy_step fuel run (struct_to_map_plan ps) dst src = copy_struct_to_map Y run ps dst src
  copy_step fuel run (field_plan p path) dst src = copy_field Y fuel run p path dst src
  copy_step fuel run (val2_field_plan p path) dst src = copy_val2_field Y fuel run p path dst src
  copy_step fuel run (field2_map_plan p path) dst src = copy_field2_map Y run p path dst src

  -- The fuel bounds the depth of the calls.
  unfoldable pub copy_plan : ℕ → Run Y
  copy_plan zero p dst src = lift out_of_fuel
  copy_plan (suc fuel) p dst src = copy_step fuel (copy_plan fuel) p dst src
