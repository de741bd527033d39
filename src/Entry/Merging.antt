-- ===== src/Entry/Merging.antt =====
-- fastcopier.go: the fast path of Merge.
use fastcopier.Base.{◌≡◌, refl, [], ◌∷◌, List, true, Option}
use fastcopier.Base.Outcome.{Outcome, ok, err, panic, out_of_fuel}
use fastcopier.Context.{
  Context, CacheChoice, no_cache, global_cache, own_cache, apply_options, with_skip_zero_fields,
}
use fastcopier.Entry.Arguments.{Operand, validate_and_deref}
use fastcopier.Entry.Calls.{copying, copy, merge}
use fastcopier.Entry.State.{
  Process, for_copy, for_merge, Runtime, Action, with_pool, pool_get, run_action, put_back,
  with_context,
}
use fastcopier.Errors.{Error}
use fastcopier.Reflect.{Ref}
use fastcopier.Resolve.{M, lift, ◌>>=◌}

-- Two results that differ in nothing but the pools.
abbrev pub SameButPools :
    {A : Type 0} → Outcome Error A × Process → Outcome Error A × Process → Type 0
SameButPools r q =
    (r.0 ≡ q.0)
    × (r.1.heap ≡ q.1.heap)
    × (r.1.global_cache ≡ q.1.global_cache)
    × (r.1.default_tag_name ≡ q.1.default_tag_name)
    × (r.1.custom_registry ≡ q.1.custom_registry)

module _ (R : Runtime) where
  run_action-pools :
      {A : Type 0} (action : Action R A) (c : Context) (P : Process) (cs ds : List Context)
      → run_action R action c (with_pool for_merge cs P) ≡ (
          let r = run_action R action c (with_pool for_copy ds P) in
          (r.0, (r.1.0, record r.1.1 { ctx_pool = P.ctx_pool; merge_ctx_pool = cs })))
  unfolding run_action
  run_action-pools action c P cs ds = choice c.cache
    where
      choice :
          (k : CacheChoice)
          → run_action R action (record c { cache = k }) (with_pool for_merge cs P) ≡ (
              let r = run_action R action (record c { cache = k }) (with_pool for_copy ds P) in
              (r.0, (r.1.0, record r.1.1 { ctx_pool = P.ctx_pool; merge_ctx_pool = cs })))
      choice no_cache = refl
      choice global_cache = refl
      choice own_cache = refl

  put_back-same :
      {A : Type 0} (r : Outcome Error A × (Context × Process)) (cs ds : List Context)
      → SameButPools
          (put_back R for_merge (r.0, (r.1.0, record r.1.1 { ctx_pool = cs; merge_ctx_pool = ds })))
          (put_back R for_copy r)
  put_back-same (ok a, (c, P)) cs ds = (refl, refl, refl, refl, refl)
  put_back-same (err e, (c, P)) cs ds = (refl, refl, refl, refl, refl)
  put_back-same (panic, (c, P)) cs ds = (refl, refl, refl, refl, refl)
  put_back-same (out_of_fuel, (c, P)) cs ds = (refl, refl, refl, refl, refl)

  contexts-same :
      (action : Action R (Unit {0})) (P : Process)
      → (pool_get R P.merge_ctx_pool).0 ≡ (pool_get R P.ctx_pool).0
      → SameButPools
          (with_context R for_merge (λ c. record c { skip_zero_fields = true }) action P)
          (with_context R for_copy (apply_options (with_skip_zero_fields true ∷ [])) action P)
  unfolding with_context apply_options with_skip_zero_fields
  contexts-same action P same = rw same (
      rw (run_action-pools action _ P (pool_get R P.merge_ctx_pool).1 (pool_get R P.ctx_pool).1)
        (put_back-same _ _ _))

  checked :
      (P : Process) (f g : Ref × Ref → M Process (Unit {0}))
      → ((a : Ref × Ref) → SameButPools (f a P) (g a P))
      → (o : Outcome Error (Ref × Ref)) → SameButPools ((lift o >>= f) P) ((lift o >>= g) P)
  checked P f g h (ok a) = h a
  checked P f g h (err e) = (refl, refl, refl, refl, refl)
  checked P f g h panic = (refl, refl, refl, refl, refl)
  checked P f g h out_of_fuel = (refl, refl, refl, refl, refl)

  -- Merge without options and Copy with WithSkipZeroFields(true) have the same result and leave the
  -- same memory, cache of plans, tag name and registry, if the context that the pool of Merge
  -- gives is the one that the other pool would give.
  pub merge-copy :
      (dst src : Option Operand) (P : Process)
      → (pool_get R P.merge_ctx_pool).0 ≡ (pool_get R P.ctx_pool).0
      → SameButPools (merge R dst src [] P) (copy R dst src (with_skip_zero_fields true ∷ []) P)
  unfolding merge copy
  merge-copy dst src P same =
      checked P _ _ (λ a. contexts-same (copying R a) P same) (validate_and_deref R.T dst src)
