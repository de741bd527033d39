-- ===== src/Resolution/StructParts.antt =====
-- The plan from a struct to a struct is built safely: plan_struct.go.
use fastcopier.Base.{
  ℕ, String, ◌≡◌, refl, Bool, true, false, ◌&&◌, ◌||◌, not, List, [], ◌∷◌, ◌++◌, if◌then◌else◌,
  ◌==◌, nat_eq, inl, inr, Bool-cases, Option-cases,
}
use fastcopier.Cache.{PlanCache, IsLawful}
use fastcopier.Context.{effective_tag_name}
use fastcopier.Errors.{Error, sentinel_of, field_require_copying, requires_copying}
use fastcopier.Fields.{FieldMeta, Metas, Parsed, DoneSet}
use fastcopier.GoTypes.{kind, struct_kind}
use fastcopier.Flat.{is_scalar}
use fastcopier.GoTypes.{convertible_to}
use fastcopier.Resolve.{in_mask}
use fastcopier.Plan.{Plan}
use fastcopier.Resolve.{
  Env, Rec, Building, find_field, open_field, build_field_plan, match_key, match_keys,
  missing_required, check_required, parse, struct_plan_init, is_skip, field_error,
}
use fastcopier.Resolution.Calm.{parse_struct_fields-IsCalm}
use fastcopier.Resolution.Safe.{
  IsAllowed, required, non_copyable_type, Safe, pure-Safe, fail-Safe, lift-Safe, handle-Safe,
  if-Safe,
}
use fastcopier.Resolution.Parts.{bind-Safe, is_flat-Safe, SafeRec}

module _ (E : Env) (C : PlanCache Plan) (L : IsLawful C) where
  pub parse-Safe : (t : ℕ) → (kind E.T t == struct_kind) ≡ true → Safe E C (parse E C t)
  parse-Safe t h = lift-Safe E C _ (
      parse_struct_fields-IsCalm E.T E.range (effective_tag_name E.default_tag_name E.ctx) E.depth t
        h)

  -- An error keeps its sentinel when a field is put around it.
  field_error-IsAllowed :
      (dst src : ℕ) (dm sm : FieldMeta) (e : Error)
      → IsAllowed E e
      → IsAllowed E (field_error E C dst src dm sm e)
  field_error-IsAllowed dst src dm sm e (required h) = required h
  field_error-IsAllowed dst src dm sm e (non_copyable_type h k) = non_copyable_type h k

  module _ (rec : Rec E C) (h : SafeRec E C L rec) where
    build_field_plan-Safe :
        (dst src : ℕ) (dm sm : FieldMeta) → Safe E C (build_field_plan E C rec dst src dm sm)
    unfolding build_field_plan
    build_field_plan-Safe dst src dm sm =
        bind-Safe E C L _ _
          (if-Safe E C (sm.field.typ == dm.field.typ) _ _ (λ _. is_flat-Safe E C L _)
            (λ _. pure-Safe E C false))
          λ flat.
            if-Safe E C flat _ _ (λ _. pure-Safe E C _)
              λ _.
                if-Safe E C
                  (is_scalar (kind E.T sm.field.typ)
                    && convertible_to E.T sm.field.typ dm.field.typ)
                  _ _ (λ _. pure-Safe E C _)
                  λ _.
                    handle-Safe E C _ _ _ (h dm.field.typ sm.field.typ)
                      (λ p.
                        if-Safe E C
                          (E.ctx.ignore_non_copyable_types
                            && (sm.required || dm.required)
                            && is_skip p)
                          _ _ (λ _. fail-Safe E C _ (required (which dm.required)))
                          (λ _. pure-Safe E C _))
                      (λ e a.
                        if-Safe E C (not dm.required && not sm.required && not dm.field.exported) _
                          _ (λ _. pure-Safe E C _)
                          (λ _. fail-Safe E C _ (field_error-IsAllowed dst src dm sm e a)))
      where
        which :
            (b : Bool)
            → sentinel_of (
                if b
                then requires_copying E.T dst dm.field.name
                else requires_copying E.T src sm.field.name)
              ≡ field_require_copying
        which true = refl
        which false = refl

    match_key-Safe :
        (dst_type src_type : ℕ) (dst src : Parsed) (key : String) (b : Building)
        → Safe E C (match_key E C rec dst_type src_type dst src key b)
    unfolding match_key
    match_key-Safe dst_type src_type dst src key b =
        elim (Bool-cases (in_mask E.ctx.field_mask key)) [
          | inr masked ↦ rw masked (pure-Safe E C b)
          | inl free ↦ rw free (elim (Option-cases (open_field b.src_done (find_field key src))) [
            | inl e ↦ rw e (pure-Safe E C b)
            | inr (sm, e) ↦ rw e (elim (Option-cases (open_field b.dst_done (find_field key dst))) [
              | inl e' ↦ rw e' (
                  if-Safe E C sm.required _ _ (λ _. fail-Safe E C _ (required refl))
                    (λ _. pure-Safe E C b))
              | inr (dm, e') ↦ rw e' (
                  bind-Safe E C L _ _ (build_field_plan-Safe dst_type src_type dm sm)
                    (λ p. pure-Safe E C _))
            ])
          ])
        ]

    match_keys-Safe :
        (dst_type src_type : ℕ) (dst src : Parsed) (keys : List String) (b : Building)
        → Safe E C (match_keys E C rec dst_type src_type dst src keys b)
    unfolding match_keys
    match_keys-Safe dst_type src_type dst src [] b = pure-Safe E C b
    match_keys-Safe dst_type src_type dst src (key ∷ keys) b =
        bind-Safe E C L _ _ (match_key-Safe dst_type src_type dst src key b)
          (match_keys-Safe dst_type src_type dst src keys)

  check_required-Safe :
      (dst_type : ℕ) (metas : Metas) (marked : DoneSet)
      → Safe E C (check_required E C dst_type metas marked)
  unfolding check_required
  check_required-Safe dst_type metas marked =
      elim (Option-cases (missing_required (E.range metas) marked)) [
        | inl e ↦ rw (e, check_required) (pure-Safe E C tt)
        | inr (m, e) ↦ rw (e, check_required) (fail-Safe E C _ (required refl))
      ]

  pub struct_plan_init-Safe :
      (rec : Rec E C)
      → SafeRec E C L rec
      → (dst src : ℕ) → (kind E.T dst == struct_kind) ≡ true
      → (kind E.T src == struct_kind) ≡ true
      → Safe E C (struct_plan_init E C rec dst src)
  unfolding struct_plan_init
  struct_plan_init-Safe rec h dst src p q = bind-Safe E C L _ _ (parse-Safe dst p) λ d.
      bind-Safe E C L _ _ (parse-Safe src q) λ s.
        bind-Safe E C L _ _
          (match_keys-Safe rec h dst src d s (s.direct_keys ++ s.inherited_keys) _)
          λ b. bind-Safe E C L _ _ (check_required-Safe dst d.direct b.dst_done) λ _.
            bind-Safe E C L _ _ (check_required-Safe dst d.inherited b.dst_done)
              λ _. pure-Safe E C _
