-- ===== src/Resolve/StructInit.antt =====
-- plan_struct.go: the plan from a struct to a struct.
use fastcopier.Resolve.Monad.{pure, fail, lift, handle, ◌>>=◌, ◌>>◌}
use fastcopier.Resolve.Basics.{Env, Resolve, Rec, is_flat}
use fastcopier.Base.{
  ℕ, String, Bool, true, false, ◌&&◌, ◌||◌, not, List, [], ◌∷◌, ◌++◌, ◌==◌, nat_eq, string_eq,
  list_eq, contains, Option, none, some, if◌then◌else◌,
}
use fastcopier.Base.Dict.{lookup}
use fastcopier.Cache.{PlanCache}
use fastcopier.Context.{effective_tag_name}
use fastcopier.Errors.{Error, new_field_copy_error, requires_copying, cause_of}
use fastcopier.Fields.{FieldMeta, Metas, Parsed, DoneSet, mark_done, is_done, parse_struct_fields}
use fastcopier.Flat.{is_scalar}
use fastcopier.GoTypes.{kind, convertible_to}
use fastcopier.Plan.{
  FieldPath, Plan, skip_plan, convert_plan, struct_plan, field_plan, Maybe, absent, present, Plans,
  done, append_plan,
}

-- `src_done` and `dst_done` are the flags done of the two sides.
pub record Building : Type 0 where
  pub fields : Plans
  pub src_done : DoneSet
  pub dst_done : DoneSet

-- `m := direct[key]; if m == nil { m = inherited[key] }`
abbrev pub find_field : String → Parsed → Option FieldMeta
find_field key p = elim (lookup key p.direct) [ some m ↦ some m | none ↦ lookup key p.inherited ]

-- A field that can still be copied: not nil, not ignored, not done.
abbrev pub open_field : DoneSet → Option FieldMeta → Option FieldMeta
open_field marked none = none
open_field marked (some m) = if m.ignored || is_done m marked then none else some m

abbrev pub in_mask : Option (List String) → String → Bool
in_mask none key = true
in_mask (some fields) key = contains fields key

abbrev pub field_path : FieldMeta → FieldMeta → FieldPath
field_path dm sm = record {
  dst_index = dm.index;
  dst_nil_on_zero = dm.nil_on_zero;
  src_index = sm.index;
  src_key = sm.key;
  dst_key = dm.key;
}

abbrev pub make_field_plan : FieldMeta → FieldMeta → Maybe → Plan
make_field_plan dm sm p = field_plan p (field_path dm sm)

-- `_, isSkip := cp.(skipPlan)`
abbrev pub is_skip : Plan → Bool
is_skip skip_plan = true
is_skip _ = false

-- The first field among those of a side that is required and was not copied.
unfoldable pub missing_required : Metas → DoneSet → Option FieldMeta
missing_required [] marked = none
missing_required ((key, m) ∷ more) marked =
    if not (is_done m marked) && m.required then some m else missing_required more marked

module _ (E : Env) (C : PlanCache Plan) where
  -- The error of an inner plan, with the field around it.
  abbrev pub field_error : ℕ → ℕ → FieldMeta → FieldMeta → Error → Error
  field_error dst_struct src_struct dm sm e =
      new_field_copy_error E.T (cause_of e) src_struct dst_struct sm.field.name dm.field.name

  unfoldable pub build_field_plan : Rec E C → ℕ → ℕ → FieldMeta → FieldMeta → Resolve E C Plan
  build_field_plan rec dst_struct src_struct dm sm = do
    let df = dm.field
    let sf = sm.field
    flat ← (if sf.typ == df.typ then is_flat E C sf.typ else pure false)
    if flat
        then pure (make_field_plan dm sm absent)
        else if is_scalar (kind E.T sf.typ) && convertible_to E.T sf.typ df.typ
        then pure (make_field_plan dm sm (present convert_plan))
        else handle (rec df.typ sf.typ)
            (λ p.
              if E.ctx.ignore_non_copyable_types && (sm.required || dm.required) && is_skip p
              then fail (
                  if dm.required
                  then requires_copying E.T dst_struct dm.field.name
                  else requires_copying E.T src_struct sm.field.name)
              else pure (make_field_plan dm sm (present p)))
            (λ e.
              if not dm.required && not sm.required && not df.exported
              then pure skip_plan
              else fail (field_error dst_struct src_struct dm sm e))

  -- One round of the loop over the source keys.
  unfoldable pub match_key :
      Rec E C → ℕ → ℕ → Parsed → Parsed → String → Building → Resolve E C Building
  match_key rec dst_type src_type dst src key b =
      if in_mask E.ctx.field_mask key
      then elim (open_field b.src_done (find_field key src)) [
        | none ↦ pure b
        | some sm ↦ elim (open_field b.dst_done (find_field key dst)) [
          | none ↦
              if sm.required then fail (requires_copying E.T src_type sm.field.name) else pure b
          | some dm ↦ do
            p ← build_field_plan rec dst_type src_type dm sm
            pure (record {
              fields = append_plan b.fields p;
              src_done = mark_done sm b.src_done;
              dst_done = mark_done dm b.dst_done;
            })
        ]
      ]
      else pure b

  unfoldable pub match_keys :
      Rec E C → ℕ → ℕ → Parsed → Parsed → List String → Building → Resolve E C Building
  match_keys rec dst_type src_type dst src [] b = pure b
  match_keys rec dst_type src_type dst src (key ∷ keys) b =
      match_key rec dst_type src_type dst src key b
      >>= match_keys rec dst_type src_type dst src keys

  unfoldable pub check_required : ℕ → Metas → DoneSet → Resolve E C (Unit {0})
  check_required dst_type metas marked = elim (missing_required (E.range metas) marked) [
    | none ↦ pure tt
    | some m ↦ fail (requires_copying E.T dst_type m.field.name)
  ]

  abbrev pub parse : ℕ → Resolve E C Parsed
  parse t =
      lift (parse_struct_fields E.T E.range (effective_tag_name E.default_tag_name E.ctx) E.depth t)

  -- structPlan.init
  unfoldable pub struct_plan_init : Rec E C → ℕ → ℕ → Resolve E C Plan
  struct_plan_init rec dst_type src_type = do
    dst ← parse dst_type
    src ← parse src_type
    b ←
        match_keys rec dst_type src_type dst src (src.direct_keys ++ src.inherited_keys)
          (record { fields = done; src_done = []; dst_done = [] })
    check_required dst_type dst.direct b.dst_done
    check_required dst_type dst.inherited b.dst_done
    pure (struct_plan (effective_tag_name E.default_tag_name E.ctx) b.fields src dst)
