-- ===== src/Execute/Maps.antt =====
-- plan_map.go, plan_map_to_struct.go and plan_struct_to_map.go: the plans for maps.
use fastcopier.Base.{
  ℕ, ltb, String, ◌&&◌, ◌||◌, not, List, [], ◌∷◌, ◌==◌, nat_eq, string_eq, contains, Option, none,
  some, if◌then◌else◌,
}
use fastcopier.Base.Dict.{Dict}
use fastcopier.Base.Outcome.{ok}
use fastcopier.Errors.{requires_copying}
use fastcopier.Execute.Pointers.{Run}
use fastcopier.Execute.Structs.{
  nil_on_zero_value, source_field, destination_field, skips, copy_maybe, when, copy_fields,
}
use fastcopier.Plan.{
  Plan, Plans, Maybe, absent, present, Entry, direct, through, EntryPath, ValuePath, SlimMeta,
  Slims, none_left, slim,
}
use fastcopier.Reflect.{
  System, Exec, keep_mark, loaded, Ref, fresh, types, set_to, set_zero, new_variable, type_elem,
  type_key, is_nil, make_map, map_range, set_map_index, key_text,
}
use fastcopier.Resolve.{pure, fail, handle, ◌>>=◌, ◌>>◌, build_entry_plan, resolve_plan}
use fastcopier.Store.{Value, text, Entries, no_entries, entry}

module _ (Y : System) where
  -- mapEntryPlan.copy, or the value itself where there is no plan
  abbrev pub copy_entry : Run Y → Entry → Ref → Exec Y Ref
  copy_entry run direct src = pure src
  copy_entry run (through t p) src = do d ← new_variable Y t; run p d src; pure d

  -- A key or an element of the map `src`.
  abbrev pub entry_ref : Ref → ℕ → Value → Ref
  entry_ref src t v = record { typ = t; spot = loaded v; mark = keep_mark src.mark }

  unfoldable pub copy_entries :
      Run Y → Entry → Entry → Ref → Ref → ℕ → ℕ → Entries → Exec Y (Unit {0})
  copy_entries run pk pv dst src kt vt no_entries = pure tt
  copy_entries run pk pv dst src kt vt (entry k v es) = do
    k' ← copy_entry run pk (entry_ref src kt k)
    v' ← copy_entry run pv (entry_ref src vt v)
    set_map_index Y dst k' v'
    copy_entries run pk pv dst src kt vt es

  -- `if dst.IsNil() { dst.Set(reflect.MakeMapWithSize(dst.Type(), …)) }`
  abbrev pub ensure_map : Ref → Exec Y (Unit {0})
  ensure_map dst = do
    is_null ← is_nil Y dst
    if is_null then (make_map Y dst.typ >>= set_to Y dst) else pure tt

  -- mapPlan.Copy
  unfoldable pub copy_map : Run Y → Entry → Entry → Ref → Ref → Exec Y (Unit {0})
  copy_map run pk pv dst src = do
    is_null ← is_nil Y src
    if is_null then set_zero Y dst else (do
      ensure_map dst
      kt ← type_key Y src.typ
      vt ← type_elem Y src.typ
      es ← map_range Y src
      copy_entries run pk pv dst src kt vt es)

  -- `p.dstFields[key]` with its cached plan
  unfoldable pub find_slim : String → Slims → Option (SlimMeta × Maybe)
  find_slim key none_left = none
  find_slim key (slim k m p more) = if key == k then some (m, p) else find_slim key more

  unfoldable pub slim_metas : Slims → Dict String SlimMeta
  slim_metas none_left = []
  slim_metas (slim k m p more) = (k, m) ∷ slim_metas more

  -- The cached plan, or one that is built now.
  abbrev pub entry_plan_for : ℕ → ℕ → ℕ → SlimMeta → Maybe → Exec Y Plan
  entry_plan_for fuel dst src dm (present p) w = (ok p, w)
  entry_plan_for fuel dst src dm absent w =
      let r = build_entry_plan Y.env Y.cache (resolve_plan Y.env Y.cache fuel) dst src dm w.plans in
      (r.0, record w { plans = r.1 })

  abbrev pub copy_slim :
      ℕ → Run Y → Ref → Ref → Option (SlimMeta × Maybe) → List String → Exec Y (List String)
  copy_slim fuel run dst src none copied = pure copied
  copy_slim fuel run dst src (some (dm, p)) copied = do
    ep ← entry_plan_for fuel dst.typ src.typ dm p
    run ep dst src
    pure (if dm.required then dm.key ∷ copied else copied)

  unfoldable pub copy_slims :
      ℕ → Run Y → Slims → Ref → Ref → ℕ → ℕ → Entries → List String → Exec Y (List String)
  copy_slims fuel run fields dst src kt vt no_entries copied = pure copied
  copy_slims fuel run fields dst src kt vt (entry k v es) copied = do
    copied' ←
        copy_slim fuel run dst (entry_ref src vt v) (find_slim (key_text Y kt k) fields) copied
    copy_slims fuel run fields dst src kt vt es copied'

  -- The first required field that was not copied.
  unfoldable pub check_copied : ℕ → Dict String SlimMeta → List String → Exec Y (Unit {0})
  check_copied t [] copied = pure tt
  check_copied t ((k, dm) ∷ more) copied =
      if dm.required && not (contains copied dm.key)
      then fail (requires_copying (types Y) t dm.key)
      else check_copied t more copied

  -- mapToStructPlan.Copy
  unfoldable pub copy_map_to_struct : ℕ → Run Y → Slims → ℕ → Ref → Ref → Exec Y (Unit {0})
  copy_map_to_struct fuel run fields required dst src = do
    is_null ← is_nil Y src
    if is_null then pure tt else (do
      kt ← type_key Y src.typ
      vt ← type_elem Y src.typ
      es ← map_range Y src
      copied ← copy_slims fuel run fields dst src kt vt es []
      when Y (ltb 0 required) (check_copied dst.typ (Y.env.range_slims (slim_metas fields)) copied))

  -- val2FieldPlan.Copy: an error of a field that is not required is dropped.
  unfoldable pub copy_val2_field : ℕ → Run Y → Maybe → ValuePath → Ref → Ref → Exec Y (Unit {0})
  copy_val2_field fuel run p path dst src = do
    skip ← skips Y src
    if skip then pure tt else (do
      d ← destination_field Y dst path.dst_index
      handle (copy_maybe Y run p d src)
          (λ u. when Y path.dst_nil_on_zero (nil_on_zero_value Y fuel d))
          (λ e. if path.required then fail e else pure tt))

  -- structToMapPlan.Copy
  unfoldable pub copy_struct_to_map : Run Y → Plans → Ref → Ref → Exec Y (Unit {0})
  copy_struct_to_map run ps dst src = ensure_map dst >> copy_fields Y run ps dst src

  -- `dst.SetMapIndex(p.key, src)`
  abbrev pub put_field : EntryPath → Ref → Ref → Exec Y (Unit {0})
  put_field path dst v = set_map_index Y dst (fresh path.key_type (text path.key)) v

  abbrev pub copy_found_entry : Run Y → Entry → EntryPath → Ref → Option Ref → Exec Y (Unit {0})
  copy_found_entry run p path dst none = pure tt
  copy_found_entry run p path dst (some s) = do
    skip ← skips Y s
    if skip
        then pure tt
        else handle (copy_entry run p s) (put_field path dst)
            (λ e. if path.required || not path.skip_on_error then fail e else pure tt)

  -- field2MapPlan.Copy
  unfoldable pub copy_field2_map : Run Y → Entry → EntryPath → Ref → Ref → Exec Y (Unit {0})
  copy_field2_map run p path dst src =
      source_field Y src path.src_index >>= copy_found_entry run p path dst
