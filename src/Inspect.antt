-- ===== src/Inspect.antt =====
-- inspect.go: what Inspect says of a plan, and its text.
pub mod Skipped
pub mod Text
use fastcopier.Base.{
  ℕ, zero, suc, String, Bool, true, false, ◌&&◌, ◌||◌, not, List, [], ◌∷◌, ◌++◌, ◌==◌, nat_eq,
  string_eq, contains, get_elem?, Option, none, some, if◌then◌else◌,
}
use fastcopier.Base.Dict.{keys, lookup, has_value}
use fastcopier.Base.Outcome.{Outcome, ok, ◌>>=◌}
use fastcopier.Cache.{PlanCache}
use fastcopier.Errors.{Error}
use fastcopier.Fields.{FieldMeta, Metas, Parsed, through_pointer}
use fastcopier.GoTypes.{
  Types, StructField, kind, elem_of, fields_of, or_panic, pointer_kind, struct_kind,
}
use fastcopier.Plan.{
  Plan, skip_plan, assign_plan, convert_plan, iface_src_plan, iface_dst_plan, ptr_plan, deref_plan,
  addr_plan, deferred_plan, slice_plan, struct_plan, map_plan, map_to_struct_plan,
  struct_to_map_plan, field_plan, Maybe, absent, present, Plans, done, first,
}
use fastcopier.Resolve.{Env, Resolve, resolve_plan, find_field, lift, ◌>>=◌ as ◌>>>=◌}

pub record FieldMapping : Type 0 where
  pub src_field : String
  pub dst_field : String
  pub src_type : String
  pub dst_type : String
  pub action : String

pub record InspectPlan : Type 0 where
  pub src_type : String
  pub dst_type : String
  pub fields : List FieldMapping
  pub skipped : List String

module _ (T : Types) where
  -- Type.Field panics where the type is no struct, and past the last field.
  abbrev pub field_at : ℕ → ℕ → Outcome Error StructField
  field_at t i = or_panic (fields_of (T.desc t)) >>= λ fs. or_panic (get_elem? fs i)

  -- One pointer to a struct is followed.
  abbrev pub struct_below : ℕ → ℕ
  struct_below t = elim (elem_of (T.desc t)) [
    | some u ↦ if kind T t == pointer_kind && kind T u == struct_kind then u else t
    | none ↦ t
  ]

  -- The type of the field that Type.FieldByIndex gives; before the second index and those after
  -- it, a pointer is followed.
  unfoldable pub type_by_index : Bool → ℕ → List ℕ → Outcome Error ℕ
  type_by_index nested t [] = ok t
  type_by_index nested t (i ∷ is) =
      field_at (if nested then struct_below t else t) i >>= λ sf. type_by_index true sf.typ is

  unfoldable pub field_name_by_index : ℕ → List ℕ → Outcome Error String
  field_name_by_index t [] = ok ""
  field_name_by_index t (i ∷ []) = field_at t i >>= λ sf. ok sf.name
  field_name_by_index t (i ∷ j ∷ is) =
      field_at t i >>= λ sf. through_pointer T sf.typ >>= λ u. field_name_by_index u (j ∷ is)

  abbrev pub classify_plan : Maybe → ℕ → String
  classify_plan absent src = if kind T src == struct_kind then "deep-copy" else "assign"
  classify_plan (present assign_plan) src = "assign"
  classify_plan (present convert_plan) src = "convert"
  classify_plan (present skip_plan) src = "skip"
  classify_plan (present p) src = "deep-copy"

  -- The loop over the plans of a struct plan: the mappings, and the names of the fields covered.
  unfoldable pub inspect_fields : Plans → ℕ → ℕ → Outcome Error (List FieldMapping × List String)
  inspect_fields done src dst = ok ([], [])
  inspect_fields (first (field_plan p path) ps) src dst =
      type_by_index false src path.src_index >>= λ sf.
      type_by_index false dst path.dst_index >>= λ df.
      field_name_by_index src path.src_index >>= λ name. inspect_fields ps src dst >>= λ rest. ok (
        record {
          src_field = path.src_key;
          dst_field = path.dst_key;
          src_type = T.name sf;
          dst_type = T.name df;
          action = classify_plan p sf;
        }
            ∷ rest.0,
        name ∷ rest.1,
      )
  inspect_fields (first _ ps) src dst = inspect_fields ps src dst

  -- The mapping of a plan that is not for structs.
  abbrev pub whole : ℕ → ℕ → String → InspectPlan → InspectPlan
  whole src dst action ip = record ip {
    fields =
        ip.fields
        ++ (record {
          src_field = T.name src;
          dst_field = T.name dst;
          src_type = T.name src;
          dst_type = T.name dst;
          action = action;
        }
            ∷ []);
  }

-- The keys of the inherited fields that no direct field has.
unfoldable pub new_keys : Metas → List String → List String
new_keys direct [] = []
new_keys direct (k ∷ ks) =
    let rest = new_keys direct ks in if not (has_value (lookup k direct)) then k ∷ rest else rest

module _ (range : Metas → Metas) where
  unfoldable pub all_src_keys : Parsed → List String
  all_src_keys src = keys (range src.direct) ++ new_keys src.direct (keys (range src.inherited))

abbrev pub is_uncovered : List String → Option FieldMeta → Bool
is_uncovered covered none = false
is_uncovered covered (some m) = not m.ignored && not (contains covered m.field.name)

-- The loop over the source keys.
unfoldable pub skipped_of : List String → Parsed → Parsed → List String → List String
skipped_of covered src dst [] = []
skipped_of covered src dst (k ∷ ks) =
    let rest = skipped_of covered src dst ks in
    if is_uncovered covered (find_field k src) && not (has_value (find_field k dst))
    then k ∷ rest
    else rest

module _ (T : Types) (range : Metas → Metas) where
  unfoldable pub inspect_struct_plan :
      Plans → Parsed → Parsed → ℕ → ℕ → InspectPlan → Outcome Error InspectPlan
  inspect_struct_plan ps src_fields dst_fields src dst ip = inspect_fields T ps src dst >>= λ r.
      ok (record ip {
        fields = ip.fields ++ r.0;
        skipped =
            ip.skipped ++ skipped_of r.1 src_fields dst_fields (all_src_keys range src_fields);
      })

  unfoldable pub inspect_plan : Plan → ℕ → ℕ → InspectPlan → Outcome Error InspectPlan
  inspect_plan (struct_plan tag ps src_fields dst_fields) src dst ip =
      inspect_struct_plan ps src_fields dst_fields src dst ip
  inspect_plan assign_plan src dst ip = ok (whole T src dst "assign" ip)
  inspect_plan convert_plan src dst ip = ok (whole T src dst "convert" ip)
  inspect_plan (slice_plan p fixed) src dst ip = ok (whole T src dst "deep-copy" ip)
  inspect_plan (map_plan k v) src dst ip = ok (whole T src dst "deep-copy" ip)
  inspect_plan (struct_to_map_plan ps) src dst ip = ok (whole T src dst "deep-copy" ip)
  inspect_plan (map_to_struct_plan ps n) src dst ip = ok (whole T src dst "deep-copy" ip)
  inspect_plan iface_src_plan src dst ip = ok (whole T src dst "deep-copy" ip)
  inspect_plan iface_dst_plan src dst ip = ok (whole T src dst "deep-copy" ip)
  inspect_plan (deferred_plan d s) src dst ip = ok (whole T src dst "deep-copy" ip)
  inspect_plan skip_plan src dst ip = ok (whole T src dst "skip" ip)
  inspect_plan (ptr_plan p) src dst ip =
      through_pointer T dst >>= λ d. through_pointer T src >>= λ s. inspect_plan p s d ip
  inspect_plan (deref_plan p) src dst ip = through_pointer T src >>= λ s. inspect_plan p s dst ip
  inspect_plan (addr_plan p) src dst ip = through_pointer T dst >>= λ d. inspect_plan p src d ip
  inspect_plan _ src dst ip = ok ip

module _ (E : Env) (C : PlanCache Plan) where
  -- Inspect, after its checks of the arguments: from the types behind the pointers.
  unfoldable pub inspect : ℕ → ℕ → ℕ → Resolve E C InspectPlan
  inspect fuel dst src = resolve_plan E C fuel dst src >>>= λ p. lift (
      inspect_plan E.T E.range p src dst
        (record { src_type = E.T.name src; dst_type = E.T.name dst; fields = []; skipped = [] }))
