-- ===== src/Execution/MapPlans.antt =====
-- The plans that read or write maps leave ctx.visited as it was.
use fastcopier.Base.{ℕ, String, List, [], Option, none, some}
use fastcopier.Execute.{
  Run, copy_entry, copy_entries, copy_map, copy_slim, copy_slims, copy_map_to_struct,
  copy_val2_field, copy_struct_to_map, copy_found_entry, copy_field2_map,
}
use fastcopier.Execution.Access.{set_zero-Balanced, new_variable-Balanced, is_nil-Balanced}
use fastcopier.Execution.Balance.{
  Balanced, pure-Balanced, fail-Balanced, bind-Balanced, handle-Balanced, then-Balanced,
  if-Balanced,
}
use fastcopier.Execution.Containers.{
  type_key-Balanced, type_elem-Balanced, map_range-Balanced, set_map_index-Balanced,
}
use fastcopier.Plan.{Maybe, Plans, Entry, direct, through, ValuePath, EntryPath, SlimMeta, Slims}
use fastcopier.Reflect.{System, Ref}
use fastcopier.Store.{Entries, no_entries, entry}
use fastcopier.Execution.Parts.{
  check_copied-Balanced, destination_field-Balanced, ensure_map-Balanced, entry_plan_for-Balanced,
  nil_on_zero_value-Balanced, skips-Balanced, source_field-Balanced, when-Balanced,
}
use fastcopier.Execution.Plans.{RunBalanced, copy_maybe-Balanced, copy_fields-Balanced}

module _ (Y : System) where
  module _ (run : Run Y) (h : RunBalanced Y run) where
    pub copy_entry-Balanced : (p : Entry) (src : Ref) → Balanced Y (copy_entry Y run p src)
    copy_entry-Balanced direct src = pure-Balanced Y src
    copy_entry-Balanced (through t p) src =
        bind-Balanced Y _ _ (new_variable-Balanced Y t)
          λ d. then-Balanced Y _ _ (h p d src) (pure-Balanced Y d)

    pub copy_entries-Balanced :
        (pk pv : Entry) (dst src : Ref) (kt vt : ℕ) (es : Entries)
        → Balanced Y (copy_entries Y run pk pv dst src kt vt es)
    unfolding copy_entries
    copy_entries-Balanced pk pv dst src kt vt no_entries = pure-Balanced Y tt
    copy_entries-Balanced pk pv dst src kt vt (entry k v es) =
        bind-Balanced Y _ _ (copy_entry-Balanced pk _) λ k'.
          bind-Balanced Y _ _ (copy_entry-Balanced pv _) λ v'.
            then-Balanced Y _ _ (set_map_index-Balanced Y dst k' v')
              (copy_entries-Balanced pk pv dst src kt vt es)

    pub copy_map-Balanced :
        (pk pv : Entry) (dst src : Ref) → Balanced Y (copy_map Y run pk pv dst src)
    unfolding copy_map
    copy_map-Balanced pk pv dst src = bind-Balanced Y _ _ (is_nil-Balanced Y src) λ n.
        if-Balanced Y n _ _ (set_zero-Balanced Y dst) (
          then-Balanced Y _ _ (ensure_map-Balanced Y dst) (
            bind-Balanced Y _ _ (type_key-Balanced Y src.typ) λ kt.
              bind-Balanced Y _ _ (type_elem-Balanced Y src.typ) λ vt.
                bind-Balanced Y _ _ (map_range-Balanced Y src)
                  λ es. copy_entries-Balanced pk pv dst src kt vt es))

    pub copy_struct_to_map-Balanced :
        (ps : Plans) (dst src : Ref) → Balanced Y (copy_struct_to_map Y run ps dst src)
    unfolding copy_struct_to_map
    copy_struct_to_map-Balanced ps dst src =
        then-Balanced Y _ _ (ensure_map-Balanced Y dst) (copy_fields-Balanced Y run h ps dst src)

    pub copy_found_entry-Balanced :
        (p : Entry) (path : EntryPath) (dst : Ref) (s : Option Ref)
        → Balanced Y (copy_found_entry Y run p path dst s)
    copy_found_entry-Balanced p path dst none = pure-Balanced Y tt
    copy_found_entry-Balanced p path dst (some s) = bind-Balanced Y _ _ (skips-Balanced Y s) λ z.
        if-Balanced Y z _ _ (pure-Balanced Y tt) (
          handle-Balanced Y _ _ _ (copy_entry-Balanced p s) (λ v. set_map_index-Balanced Y dst _ v)
            (λ e. if-Balanced Y _ _ _ (fail-Balanced Y e) (pure-Balanced Y tt)))

    pub copy_field2_map-Balanced :
        (p : Entry) (path : EntryPath) (dst src : Ref)
        → Balanced Y (copy_field2_map Y run p path dst src)
    unfolding copy_field2_map
    copy_field2_map-Balanced p path dst src =
        bind-Balanced Y _ _ (source_field-Balanced Y src path.src_index)
          (copy_found_entry-Balanced p path dst)

    pub copy_val2_field-Balanced :
        (fuel : ℕ) (p : Maybe) (path : ValuePath) (dst src : Ref)
        → Balanced Y (copy_val2_field Y fuel run p path dst src)
    unfolding copy_val2_field
    copy_val2_field-Balanced fuel p path dst src = bind-Balanced Y _ _ (skips-Balanced Y src) λ z.
        if-Balanced Y z _ _ (pure-Balanced Y tt) (
          bind-Balanced Y _ _ (destination_field-Balanced Y dst path.dst_index) λ d.
            handle-Balanced Y _ _ _ (copy_maybe-Balanced Y run h p d src)
              (λ u. when-Balanced Y path.dst_nil_on_zero _ (nil_on_zero_value-Balanced Y fuel d))
              (λ e. if-Balanced Y _ _ _ (fail-Balanced Y e) (pure-Balanced Y tt)))

    pub copy_slim-Balanced :
        (fuel : ℕ) (dst src : Ref) (o : Option (SlimMeta × Maybe)) (copied : List String)
        → Balanced Y (copy_slim Y fuel run dst src o copied)
    copy_slim-Balanced fuel dst src none copied = pure-Balanced Y copied
    copy_slim-Balanced fuel dst src (some (dm, p)) copied =
        bind-Balanced Y _ _ (entry_plan_for-Balanced Y fuel dst.typ src.typ dm p)
          λ ep. then-Balanced Y _ _ (h ep dst src) (pure-Balanced Y _)

    pub copy_slims-Balanced :
        (fuel : ℕ) (fs : Slims) (dst src : Ref) (kt vt : ℕ) (es : Entries) (copied : List String)
        → Balanced Y (copy_slims Y fuel run fs dst src kt vt es copied)
    unfolding copy_slims
    copy_slims-Balanced fuel fs dst src kt vt no_entries copied = pure-Balanced Y copied
    copy_slims-Balanced fuel fs dst src kt vt (entry k v es) copied =
        bind-Balanced Y _ _ (copy_slim-Balanced fuel dst _ _ copied)
          λ more. copy_slims-Balanced fuel fs dst src kt vt es more

    pub copy_map_to_struct-Balanced :
        (fuel : ℕ) (fs : Slims) (required : ℕ) (dst src : Ref)
        → Balanced Y (copy_map_to_struct Y fuel run fs required dst src)
    unfolding copy_map_to_struct
    copy_map_to_struct-Balanced fuel fs required dst src =
        bind-Balanced Y _ _ (is_nil-Balanced Y src) λ n. if-Balanced Y n _ _ (pure-Balanced Y tt) (
          bind-Balanced Y _ _ (type_key-Balanced Y src.typ) λ kt.
            bind-Balanced Y _ _ (type_elem-Balanced Y src.typ) λ vt.
              bind-Balanced Y _ _ (map_range-Balanced Y src) λ es.
                bind-Balanced Y _ _ (copy_slims-Balanced fuel fs dst src kt vt es [])
                  λ copied. when-Balanced Y _ _ (check_copied-Balanced Y dst.typ _ copied))
