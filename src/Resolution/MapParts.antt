-- ===== src/Resolution/MapParts.antt =====
-- The plans from and to maps are built safely: plan_map.go, plan_map_to_struct.go and
-- plan_struct_to_map.go.
use fastcopier.Base.{
  ℕ, String, ◌≡◌, refl, true, ◌&&◌, not, List, [], ◌∷◌, Bool, Option, none, some, ◌==◌, nat_eq, inl,
  inr, Option-cases,
}
use fastcopier.Base.Dict.{Dict}
use fastcopier.Cache.{PlanCache, IsLawful}
use fastcopier.Fields.{FieldMeta, Parsed, DoneSet}
use fastcopier.GoTypes.{kind, key_of, map_kind, struct_kind}
use fastcopier.Flat.{is_scalar}
use fastcopier.GoTypes.{convertible_to}
use fastcopier.GoTypes.Kinds.{map_parts}
use fastcopier.Plan.{Plan, SlimMeta, Plans, Entry}
use fastcopier.Resolve.{
  Env, Rec, find_field, open_field, is_skip, ready_entry, entry_plan, key_type, map_plan_init,
  build_entry_plan, resolve_slims, map_to_struct_plan_init, build_map_field_plan, map_fields,
  struct_to_map_plan_init,
}
use fastcopier.Resolution.Safe.{
  required, non_copyable_type, Safe, pure-Safe, fail-Safe, handle-Safe, if-Safe,
}
use fastcopier.Resolution.Parts.{bind-Safe, SafeRec, elem-Safe, some-Safe}
use fastcopier.Resolution.StructParts.{parse-Safe}
use fastcopier.GoTypes.{string_kind}
use fastcopier.Resolve.{assignable_from_string}

module _ (E : Env) (C : PlanCache Plan) (L : IsLawful C) (rec : Rec E C)
    (h : SafeRec E C L rec) where
  entry_plan-Safe : (dst src : ℕ) (o : Option Entry) → Safe E C (entry_plan E C rec dst src o)
  entry_plan-Safe dst src (some e) = pure-Safe E C e
  entry_plan-Safe dst src none = bind-Safe E C L _ _ (h dst src) (λ p. pure-Safe E C _)

  key_type-Safe : (t k : ℕ) → key_of (E.T.desc t) ≡ some k → Safe E C (key_type E C t)
  key_type-Safe t k e = some-Safe E C L _ k e

  pub map_plan_init-Safe :
      (dst src : ℕ)
      → (kind E.T dst == map_kind) ≡ true
      → (kind E.T src == map_kind) ≡ true
      → Safe E C (map_plan_init E C rec dst src)
  unfolding map_plan_init
  map_plan_init-Safe dst src p q =
      let (dk, de, found, found') = map_parts (E.T.desc dst) p in
      let (sk, se, got, got') = map_parts (E.T.desc src) q in
      bind-Safe E C L _ _ (key_type-Safe src sk got) λ k.
        bind-Safe E C L _ _ (elem-Safe E C L src se got') λ v.
          bind-Safe E C L _ _ (key_type-Safe dst dk found) λ k'.
            bind-Safe E C L _ _ (elem-Safe E C L dst de found') λ v'.
              bind-Safe E C L _ _ (entry_plan-Safe k' k (ready_entry E k' k)) λ a.
                bind-Safe E C L _ _ (entry_plan-Safe v' v (ready_entry E v' v)) λ b. pure-Safe E C _

  build_entry_plan-Safe :
      (dst val : ℕ) (dm : SlimMeta) → Safe E C (build_entry_plan E C rec dst val dm)
  unfolding build_entry_plan
  build_entry_plan-Safe dst val dm =
      if-Safe E C (is_scalar (kind E.T val) && val == dm.field_type) _ _ (λ _. pure-Safe E C _)
        λ _.
          if-Safe E C (is_scalar (kind E.T val) && convertible_to E.T val dm.field_type) _ _
            (λ _. pure-Safe E C _)
            λ _.
              handle-Safe E C _ _ _ (h dm.field_type val)
                (λ p.
                  if-Safe E C (E.ctx.ignore_non_copyable_types && dm.required && is_skip p) _ _
                    (λ _. fail-Safe E C _ (required refl)) (λ _. pure-Safe E C _))
                (λ e a.
                  if-Safe E C (not dm.required) _ _ (λ _. pure-Safe E C _) (λ _. fail-Safe E C e a))

  resolve_slims-Safe :
      (dst val : ℕ) (metas : Dict String SlimMeta) → Safe E C (resolve_slims E C rec dst val metas)
  unfolding resolve_slims
  resolve_slims-Safe dst val [] = pure-Safe E C _
  resolve_slims-Safe dst val ((key, dm) ∷ more) =
      bind-Safe E C L _ _
        (handle-Safe E C _ _ _ (build_entry_plan-Safe dst val dm) (λ p. pure-Safe E C _)
          (λ e a. pure-Safe E C _))
        (λ p. bind-Safe E C L _ _ (resolve_slims-Safe dst val more) (λ rest. pure-Safe E C _))

  pub map_to_struct_plan_init-Safe :
      (dst src : ℕ)
      → (kind E.T dst == struct_kind) ≡ true
      → (kind E.T src == map_kind) ≡ true
      → Safe E C (map_to_struct_plan_init E C rec dst src)
  unfolding map_to_struct_plan_init
  map_to_struct_plan_init-Safe dst src p q =
      let (sk, se, got, got') = map_parts (E.T.desc src) q in
      bind-Safe E C L _ _ (key_type-Safe src sk got) λ k.
        bind-Safe E C L _ _ (elem-Safe E C L src se got') λ v.
          if-Safe E C (not (kind E.T k == string_kind)) _ _
            (λ _.
              if-Safe E C E.ctx.ignore_non_copyable_types _ _ (λ _. pure-Safe E C _)
                (λ i. fail-Safe E C _ (non_copyable_type refl i)))
            (λ _.
              bind-Safe E C L _ _ (parse-Safe E C L dst p)
                λ fields. bind-Safe E C L _ _ (resolve_slims-Safe dst v _) λ slims. pure-Safe E C _)

  build_map_field_plan-Safe :
      (key val src : ℕ) (sm : FieldMeta) (c : Bool)
      → Safe E C (build_map_field_plan E C rec key val src sm c)
  unfolding build_map_field_plan
  build_map_field_plan-Safe key val src sm c =
      if-Safe E C (is_scalar (kind E.T sm.field.typ) && sm.field.typ == val) _ _
        (λ _. pure-Safe E C _)
        λ _.
          if-Safe E C (is_scalar (kind E.T sm.field.typ) && convertible_to E.T sm.field.typ val) _ _
            (λ _. pure-Safe E C _)
            λ _.
              handle-Safe E C _ _ _ (h val sm.field.typ)
                (λ p.
                  if-Safe E C (E.ctx.ignore_non_copyable_types && sm.required && is_skip p) _ _
                    (λ _. fail-Safe E C _ (required refl)) (λ _. pure-Safe E C _))
                (λ e a.
                  if-Safe E C (not sm.required && not sm.field.exported) _ _ (λ _. pure-Safe E C _)
                    (λ _. fail-Safe E C e a))

  map_fields-Safe :
      (key val src : ℕ) (c : Bool) (p : Parsed) (keys : List String) (acc : Plans × DoneSet)
      → Safe E C (map_fields E C rec key val src c p keys acc)
  unfolding map_fields
  map_fields-Safe key val src c p [] acc = pure-Safe E C acc
  map_fields-Safe key val src c p (k ∷ keys) acc =
      elim (Option-cases (open_field acc.1 (find_field k p))) [
        | inl e ↦ rw (e, map_fields) (map_fields-Safe key val src c p keys acc)
        | inr (sm, e) ↦
            rw (e, map_fields)
              (if-Safe E C sm.field.anonymous _ _ (λ _. map_fields-Safe key val src c p keys acc)
                (λ _.
                  bind-Safe E C L _ _ (build_map_field_plan-Safe key val src sm c)
                    (λ plan. map_fields-Safe key val src c p keys _)))
      ]

  pub struct_to_map_plan_init-Safe :
      (dst src : ℕ)
      → (kind E.T dst == map_kind) ≡ true
      → (kind E.T src == struct_kind) ≡ true
      → Safe E C (struct_to_map_plan_init E C rec dst src)
  unfolding struct_to_map_plan_init
  struct_to_map_plan_init-Safe dst src p q =
      let (dk, de, got, got') = map_parts (E.T.desc dst) p in
      bind-Safe E C L _ _ (key_type-Safe dst dk got) λ k.
        bind-Safe E C L _ _ (elem-Safe E C L dst de got') λ v.
          if-Safe E C (not (assignable_from_string E k) && not (convertible_to E.T E.str_type k)) _
            _
            (λ _.
              if-Safe E C E.ctx.ignore_non_copyable_types _ _ (λ _. pure-Safe E C _)
                (λ i. fail-Safe E C _ (non_copyable_type refl i)))
            (λ _. bind-Safe E C L _ _ (parse-Safe E C L src q) λ fields.
              bind-Safe E C L _ _ (map_fields-Safe k v src _ fields _ _) λ r. pure-Safe E C _)
