-- ===== src/Tests/ResolveTests.antt =====
-- The theorems on the choice of plans at concrete types, with the plain cache.
use fastcopier.Base.{
  false, ◌≡◌, ◌≢◌, refl, String, [], ◌∷◌, none, some, Option, nat_eq, string_eq, list_eq,
}
use fastcopier.Base.Dict.{insert, erase, Dict, lookup}
use fastcopier.Base.Outcome.{Outcome, ok, err, panic, out_of_fuel}
use fastcopier.Cache.{plan_key_eq, PlanCache, IsLawful, simple_cache}
use fastcopier.Context.{new_context, effective_tag_name, prepare, raise, reset, key_for}
use fastcopier.Errors.{Error, type_non_copyable, new_copy_error}
use fastcopier.Fields.{
  parse_struct_fields, direct_loop, direct_step, add_direct, apply_tag, apply_value, split_comma,
  mark_done, is_done,
}
use fastcopier.Flat.{flat_fields, is_flat_type, compute_flat_type, scalar_kinds, is_scalar}
use fastcopier.Plan.{
  FieldPath, Plans, done, first, field_plan, present, ptr_plan, deferred_plan, struct_plan,
  append_plan, skip_plan, Plan, SlimMeta,
}
use fastcopier.Resolve.{
  resolve_pointer_plan, ptr_plan_init, match_keys, match_key, build_field_plan, check_required,
  missing_required, struct_plan_init, Env, resolve_plan, resolve_step, resolve_by_kind,
  non_copyable, resolve_struct_src_plan,
}
use fastcopier.Cache.Refinement.{simple_cache-IsLawful}
use fastcopier.Resolution.Guarantees.{
  resolve_plan-ne-panic, resolve_plan-IsAllowed, resolve_plan-IsBuilding,
}
use fastcopier.Resolution.Again.{resolve_plan-again}
use fastcopier.Resolution.Safe.{IsAllowed, IsBuilding}
use fastcopier.Tests.Sample.{
  linked, order, user_dto_fields, user_fields, types, user, user_dto, int_type, string_type,
}

abbrev order_slims : Dict String SlimMeta → Dict String SlimMeta
order_slims m = m

abbrev env : Env
env = record {
  T = types;
  registry = λ d s. none;
  ctx = prepare (reset new_context);
  default_tag_name = "fastcopier";
  str_type = string_type;
  range = order;
  range_slims = order_slims;
  depth = 5;
}

abbrev cache : PlanCache Plan
cache = simple_cache Plan

lawful : IsLawful cache
lawful = simple_cache-IsLawful Plan

-- Unlike two structs, a struct and an integer have no plan.
abbrev refusal : Error
refusal = new_copy_error types type_non_copyable user int_type

resolve_plan-ne-panic_example : (resolve_plan env cache 6 user_dto user []).0 ≢ panic
resolve_plan-ne-panic_example = resolve_plan-ne-panic env cache lawful 6 user_dto user []

int_user : resolve_plan env cache 6 int_type user [] ≡ (err refusal, [])
unfolding resolve_plan resolve_step resolve_by_kind resolve_struct_src_plan non_copyable lookup
    is_scalar prepare raise reset
int_user = refl

resolve_plan-IsAllowed_example : IsAllowed env refusal
resolve_plan-IsAllowed_example =
    resolve_plan-IsAllowed env cache lawful 6 int_type user [] [] int_user

-- The same call with a plan of another pair under construction, whose key is still marked after it.
abbrev marked : PlanCache.State cache
marked = (key_for env.ctx user_dto user, none) ∷ []

abbrev refused : Outcome Error Plan
refused = err refusal

err-ne-out_of_fuel : refused ≢ out_of_fuel
err-ne-out_of_fuel h = cc

resolve_plan-IsBuilding_example : IsBuilding env cache (key_for env.ctx user_dto user) marked
unfolding resolve_plan resolve_step resolve_by_kind resolve_struct_src_plan non_copyable lookup
    is_scalar prepare raise reset key_for
resolve_plan-IsBuilding_example =
    resolve_plan-IsBuilding env cache lawful 6 int_type user marked (key_for env.ctx user_dto user)
      err-ne-out_of_fuel refl

abbrev plan_of : Outcome Error Plan → Plan
plan_of (ok p) = p
plan_of _ = skip_plan

abbrev built : Outcome Error Plan × PlanCache.State cache
built = resolve_plan env cache 6 user_dto user []

built-ok : built ≡ (ok (plan_of built.0), built.1)
unfolding resolve_plan resolve_step resolve_by_kind resolve_struct_src_plan struct_plan_init
    match_keys match_key build_field_plan check_required missing_required is_flat_type
    compute_flat_type parse_struct_fields direct_loop direct_step add_direct apply_tag apply_value
    split_comma lookup insert erase is_scalar prepare raise reset key_for mark_done is_done
    append_plan scalar_kinds effective_tag_name
built-ok = refl

abbrev no_plan : Option Plan
no_plan = none

no_mark : Option.none ≢ some no_plan
no_mark h = cc

resolve_plan-again_example :
    resolve_plan env cache 3 user_dto user built.1 ≡ (ok (plan_of built.0), built.1)
unfolding lookup
resolve_plan-again_example =
    resolve_plan-again env cache lawful 6 2 user_dto user user_dto_fields user_fields [] built.1
      refl refl refl no_mark built-ok

fields_in : Plan → Plans
fields_in (struct_plan tag ps src dst) = ps
fields_in p = done

next_path : FieldPath
next_path = record {
  dst_index = 0 ∷ [];
  dst_nil_on_zero = false;
  src_index = 0 ∷ [];
  src_key = "Next";
  dst_key = "Next";
}

-- A struct with a pointer to itself: the plan of the field defers to the plan under construction.
linked_fields :
    fields_in (plan_of (resolve_plan env cache 6 linked linked []).0)
    ≡ first (field_plan (present (ptr_plan (deferred_plan linked linked))) next_path) done
unfolding resolve_plan resolve_step resolve_by_kind resolve_struct_src_plan struct_plan_init
    match_keys match_key build_field_plan check_required missing_required is_flat_type
    compute_flat_type parse_struct_fields direct_loop direct_step add_direct apply_tag apply_value
    split_comma lookup insert erase is_scalar prepare raise reset key_for mark_done is_done
    append_plan scalar_kinds effective_tag_name fields_in next_path resolve_pointer_plan
    ptr_plan_init flat_fields
linked_fields = refl
