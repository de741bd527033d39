-- ===== src/Resolve/MapInit.antt =====
-- plan_map.go, plan_map_to_struct.go and plan_struct_to_map.go: the plans from and to maps.
use fastcopier.Resolve.Monad.{pure, fail, lift, handle, ◌>>=◌}
use fastcopier.Resolve.Basics.{Env, Resolve, Rec, elem}
use fastcopier.Base.{
  ℕ, ◌+◌, String, Bool, ◌&&◌, ◌||◌, not, List, [], ◌∷◌, ◌++◌, ◌==◌, nat_eq, string_eq, list_eq,
  Option, none, some, if◌then◌else◌, ◌<>◌,
}
use fastcopier.Base.Dict.{Dict, lookup, insert}
use fastcopier.Cache.{PlanCache}
use fastcopier.Errors.{Error, wrapped, type_non_copyable, requires_copying}
use fastcopier.Fields.{FieldMeta, Parsed, DoneSet, mark_done}
use fastcopier.Flat.{is_scalar}
use fastcopier.GoTypes.{kind, key_of, or_panic, convertible_to, iface_kind, string_kind}
use fastcopier.Plan.{
  SlimMeta, Plan, skip_plan, convert_plan, map_plan, map_to_struct_plan, struct_to_map_plan,
  val2_field_plan, field2_map_plan, Maybe, absent, present, Plans, done, Entry, direct, through,
  Slims, none_left, slim, append_plan,
}
use fastcopier.Resolve.StructInit.{find_field, open_field, is_skip, parse}

-- The keys of maps must be strings: the two errors say so.
module _ (E : Env) where
  abbrev pub string_key_from_map : ℕ → ℕ → ℕ → Error
  string_key_from_map key val dst = wrapped type_non_copyable (
      "copying from 'map["
      <> E.T.name key
      <> "]"
      <> E.T.name val
      <> "' to struct '"
      <> E.T.name dst
      <> "' requires string key")

  abbrev pub string_key_to_map : ℕ → ℕ → ℕ → Error
  string_key_to_map src key val = wrapped type_non_copyable (
      "copying struct '"
      <> E.T.name src
      <> "' to 'map["
      <> E.T.name key
      <> "]"
      <> E.T.name val
      <> "' requires string key")

  -- `strType.AssignableTo(t)`
  abbrev pub assignable_from_string : ℕ → Bool
  assignable_from_string t =
      t == E.str_type || (kind E.T t == iface_kind && E.T.implements E.str_type t)

-- One side of mapPlan.init: an entry that is already known, or none if a plan is needed.
abbrev pub ready_entry : Env → ℕ → ℕ → Option Entry
ready_entry E dst src =
    if is_scalar (kind E.T src)
    then (if src == dst
        then some direct
        else if convertible_to E.T src dst
        then some (through dst convert_plan)
        else none)
    else none

module _ (E : Env) (C : PlanCache Plan) where
  abbrev pub entry_plan : Rec E C → ℕ → ℕ → Option Entry → Resolve E C Entry
  entry_plan rec dst src (some e) = pure e
  entry_plan rec dst src none = do p ← rec dst src; pure (through dst p)

  abbrev pub key_type : ℕ → Resolve E C ℕ
  key_type t = lift (or_panic (key_of (E.T.desc t)))

  -- mapPlan.init
  unfoldable pub map_plan_init : Rec E C → ℕ → ℕ → Resolve E C Plan
  map_plan_init rec dst src = do
    src_key ← key_type src
    src_val ← elem E C src
    dst_key ← key_type dst
    dst_val ← elem E C dst
    k ← entry_plan rec dst_key src_key (ready_entry E dst_key src_key)
    v ← entry_plan rec dst_val src_val (ready_entry E dst_val src_val)
    pure (map_plan k v)

  abbrev pub make_val2_field_plan : SlimMeta → Maybe → Plan
  make_val2_field_plan dm p =
      val2_field_plan p
        (record { dst_index = dm.index; dst_nil_on_zero = dm.nil_on_zero; required = dm.required })

  unfoldable pub build_entry_plan : Rec E C → ℕ → ℕ → SlimMeta → Resolve E C Plan
  build_entry_plan rec dst_struct src_val dm =
      if is_scalar (kind E.T src_val) && src_val == dm.field_type
      then pure (make_val2_field_plan dm absent)
      else if is_scalar (kind E.T src_val) && convertible_to E.T src_val dm.field_type
      then pure (make_val2_field_plan dm (present convert_plan))
      else handle (rec dm.field_type src_val)
          (λ p.
            if E.ctx.ignore_non_copyable_types && dm.required && is_skip p
            then fail (requires_copying E.T dst_struct dm.key)
            else pure (make_val2_field_plan dm (present p)))
          (λ e. if not dm.required then pure skip_plan else fail e)

  -- A field of the destination under a key: an embedded field is passed over for a promoted one.
  abbrev pub slim_field : Parsed → String → Option FieldMeta
  slim_field p key = elim (lookup key p.direct) [
    | none ↦ lookup key p.inherited
    | some m ↦ if m.field.anonymous then lookup key p.inherited else some m
  ]

  abbrev pub slim_of : FieldMeta → SlimMeta
  slim_of m = record {
    field_type = m.field.typ;
    key = m.key;
    required = m.required;
    nil_on_zero = m.nil_on_zero;
    index = m.index;
  }

  unfoldable pub slim_fields :
      Parsed → List String → Dict String SlimMeta × ℕ → Dict String SlimMeta × ℕ
  slim_fields p [] acc = acc
  slim_fields p (key ∷ keys) acc = slim_fields p keys (elim (slim_field p key) [
    | none ↦ acc
    | some m ↦
        if m.ignored || m.field.anonymous
        then acc
        else (insert m.key (slim_of m) acc.0, if m.required then acc.1 + 1 else acc.1)
  ])

  -- The loop that resolves the plans in advance; an error leaves the cached plan nil.
  unfoldable pub resolve_slims : Rec E C → ℕ → ℕ → Dict String SlimMeta → Resolve E C Slims
  resolve_slims rec dst src_val [] = pure none_left
  resolve_slims rec dst src_val ((key, dm) ∷ more) = do
    p ← handle (build_entry_plan rec dst src_val dm) (λ p. pure (present p)) (λ e. pure absent)
    rest ← resolve_slims rec dst src_val more
    pure (slim key dm p rest)

  -- mapToStructPlan.init
  unfoldable pub map_to_struct_plan_init : Rec E C → ℕ → ℕ → Resolve E C Plan
  map_to_struct_plan_init rec dst src = do
    key ← key_type src
    val ← elem E C src
    if not (kind E.T key == string_kind)
        then (if E.ctx.ignore_non_copyable_types
            then pure (map_to_struct_plan none_left 0)
            else fail (string_key_from_map E key val dst))
        else (do
          p ← parse E C dst
          let (metas, required) = slim_fields p (p.direct_keys ++ p.inherited_keys) ([], 0)
          slims ← resolve_slims rec dst val (E.range_slims metas)
          pure (map_to_struct_plan slims required))

  -- The type of the key as it is stored in the plan: only if it is converted, that of the map's
  -- keys. SetMapIndex assigns it to a key.
  abbrev pub stored_key_type : ℕ → Bool → ℕ
  stored_key_type key need_convert = if need_convert then key else E.str_type

  abbrev pub make_field2_map_plan : ℕ → FieldMeta → Entry → Plan
  make_field2_map_plan key_type sm e = field2_map_plan e (record {
    key = sm.key;
    key_type = key_type;
    src_index = sm.index;
    required = sm.required;
    skip_on_error = not sm.field.exported;
  })

  unfoldable pub build_map_field_plan : Rec E C → ℕ → ℕ → ℕ → FieldMeta → Bool → Resolve E C Plan
  build_map_field_plan rec key val src_struct sm need_convert =
      let sf = sm.field in
      let map_key = stored_key_type key need_convert in
      if is_scalar (kind E.T sf.typ) && sf.typ == val
      then pure (make_field2_map_plan map_key sm direct)
      else if is_scalar (kind E.T sf.typ) && convertible_to E.T sf.typ val
      then pure (make_field2_map_plan map_key sm (through val convert_plan))
      else handle (rec val sf.typ)
          (λ p.
            if E.ctx.ignore_non_copyable_types && sm.required && is_skip p
            then fail (requires_copying E.T src_struct sm.field.name)
            else pure (make_field2_map_plan map_key sm (through val p)))
          (λ e. if not sm.required && not sf.exported then pure skip_plan else fail e)

  unfoldable pub map_fields :
      Rec E C
      → ℕ
      → ℕ
      → ℕ
      → Bool
      → Parsed
      → List String
      → Plans × DoneSet
      → Resolve E C (Plans × DoneSet)
  map_fields rec key val src_type need_convert p [] acc = pure acc
  map_fields rec key val src_type need_convert p (k ∷ keys) acc =
      let rest = map_fields rec key val src_type need_convert p keys in
      elim (open_field acc.1 (find_field k p)) [
        | none ↦ rest acc
        | some sm ↦ if sm.field.anonymous then rest acc else (do
          plan ← build_map_field_plan rec key val src_type sm need_convert
          rest (append_plan acc.0 plan, mark_done sm acc.1))
      ]

  -- structToMapPlan.init
  unfoldable pub struct_to_map_plan_init : Rec E C → ℕ → ℕ → Resolve E C Plan
  struct_to_map_plan_init rec dst src = do
    key ← key_type dst
    val ← elem E C dst
    if not (assignable_from_string E key) && not (convertible_to E.T E.str_type key)
        then (if E.ctx.ignore_non_copyable_types
            then pure (struct_to_map_plan done)
            else fail (string_key_to_map E src key val))
        else (do
          p ← parse E C src
          (fields, marked) ←
              map_fields rec key val src (not (assignable_from_string E key)) p
                (p.direct_keys ++ p.inherited_keys) (done, [])
          pure (struct_to_map_plan fields))
