-- ===== src/Generated/Registered.antt =====
-- A generated copier that is registered, as the init function of the file registers it, in a call
-- of Copy.
use fastcopier.Base.{
  true, none, sym, [], ℕ, suc, ◌≡◌, ap, ◌∙◌, false, List, ◌==◌, nat_eq, Option, some, length,
  list_eq, string_eq, String, All,
}
use fastcopier.Base.Outcome.{ok, ok-injective}
use fastcopier.Base.Dict.{lookup}
use fastcopier.Cache.{sharded_get, plan_key_eq}
use fastcopier.Context.{CopyOption, apply_options, key_for, prepare}
use fastcopier.Entry.{
  Operand, Process, Runtime, copy, custom_key_eq, pool_get, register_copier, validate_and_deref,
}
use fastcopier.Entry.FlatCopies.{copy-flat}
use fastcopier.Flat.{FlatCache, is_flat_type}
use fastcopier.Entry.Registered.{target, origin, copy-registered}
use fastcopier.Generated.{Setting, run_stmts}
use fastcopier.Generated.Assigns.{assigns, Distinct, run_stmts-assigns}
use fastcopier.Generated.Struct.{IsOwn, copier_stmts, copier_stmts-assigns}
use fastcopier.Generator.Code.{Stmt}
use fastcopier.Generator.Kinds.{is_flat_go_type}
use fastcopier.Generator.Lines.{Generator}
use fastcopier.Generator.Universe.{Universe}
use fastcopier.GoTypes.{StructField, struct}
use fastcopier.Store.{Place, Values, items, count_values, read_place, write_place}

module _ (R : Runtime) (G : Setting) (n t fn : ℕ) (fs : List StructField) (enough : R.fuel ≡ suc n)
    (distinct : Distinct fs)
    (body : (p q : Place) → R.machine.registered fn p q ≡ run_stmts G fs fs (assigns fs) p q) where
  -- Once a copier of a struct type that assigns each of its fields is registered, Copy between two
  -- variables of the type in different blocks sets the destination to the value of the source and
  -- nothing else in the memory changes.
  pub copy-generated :
      (dst src : Option Operand) (p q : Place) (vs us : Values) (options : List CopyOption)
      (P : Process)
      → validate_and_deref R.T dst src ≡ ok (target t t fn p q, origin t t fn p q)
      → (q.block == p.block) ≡ false
      → read_place P.heap q ≡ some (items vs)
      → read_place P.heap p ≡ some (items us)
      → count_values vs ≡ length fs
      → count_values us ≡ length fs
      → ((copy R dst src options (register_copier t t fn P)).0 ≡ ok tt)
        × ((copy R dst src options (register_copier t t fn P)).1.heap
            ≡ write_place p (items vs) P.heap)
  copy-generated dst src p q vs us options P valid apart holds old m k =
      let r = copy-registered t t fn p q R n enough dst src options P valid in
      let ran =
        ap (λ f. f P.heap) (body p q)
        ∙ run_stmts-assigns G fs p q P.heap vs us apart holds old distinct m k in
      (r.0 ∙ ap (λ x. x.0) ran, r.1 ∙ ap (λ x. x.1) ran)

module _ (R : Runtime) (G : Setting) (n t fn : ℕ) (fs : List StructField) (enough : R.fuel ≡ suc n)
    (U : Universe) (g : Generator) (m : ℕ) (name : String) (ss : List Stmt)
    (declared : U.types.desc t ≡ struct fs) (own : All IsOwn fs) (distinct : Distinct fs)
    (go_flat : All (λ sf. is_flat_go_type U (suc m) sf.typ ≡ ok true) fs)
    (made : copier_stmts U g
        (suc m)
        (record { typ = t; name = name })
        (record { typ = t; name = name })
      ≡ ok ss)
    (body : (p q : Place) → R.machine.registered fn p q ≡ run_stmts G fs fs ss p q) where
  emitted : (p q : Place) → R.machine.registered fn p q ≡ run_stmts G fs fs (assigns fs) p q
  emitted p q =
      let same =
        ok-injective
          (sym made ∙ copier_stmts-assigns U g m t name fs declared own distinct go_flat) in
      body p q ∙ ap (λ x. run_stmts G fs fs x p q) same

  -- The copier that is generated for a struct type, that is the statements that the generator makes
  -- for it, does what the engine does: Copy with the copier registered and Copy without it have one
  -- result and one memory, in which the destination has the value of the source and nothing else
  -- changes. The fields are the struct's own, exported, of different names and of flat types,
  -- for the generator and for the engine; the two variables are in different blocks; the options neither restrict the fields nor skip zero ones; no copier and no
  -- plan for the type is there before.
  pub copy-generated-engine :
      (memo : FlatCache) (dst src : Option Operand) (p q : Place) (vs us : Values)
      (options : List CopyOption) (P : Process)
      → R.T.desc t ≡ struct fs
      → is_flat_type R.T R.depth t [] ≡ ok (true, memo)
      → R.machine.assignable t t ≡ true
      → validate_and_deref R.T dst src ≡ ok (target t t fn p q, origin t t fn p q)
      → lookup (record { dst_type = t; src_type = t }) P.custom_registry ≡ none
      → (apply_options options (pool_get R P.ctx_pool).0).skip_zero_fields ≡ false
      → (apply_options options (pool_get R P.ctx_pool).0).field_mask ≡ none
      → sharded_get R.data_pointer
          (key_for (prepare (apply_options options (pool_get R P.ctx_pool).0)) t t)
          P.global_cache
        ≡ none
      → (q.block == p.block) ≡ false
      → read_place P.heap q ≡ some (items vs)
      → read_place P.heap p ≡ some (items us)
      → count_values vs ≡ length fs
      → count_values us ≡ length fs
      → let one = copy R dst src options (register_copier t t fn P) in
        let two = copy R dst src options P in
        (one.0 ≡ two.0) × (one.1.heap ≡ two.1.heap) × (two.1.heap ≡ write_place p (items vs) P.heap)
  copy-generated-engine memo dst src p q vs us options P is_struct flat assigns valid reg skip mask
        new apart holds old k l =
      let r =
        copy-generated R G n t fn fs enough distinct emitted dst src p q vs us options P valid apart
          holds old k l in
      let h =
        copy-flat t R fs memo n is_struct flat assigns enough dst src p q (items vs) options P valid
          reg skip mask new holds in
      (r.0 ∙ sym h.0, r.1 ∙ sym h.1, h.1)
