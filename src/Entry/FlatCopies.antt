-- ===== src/Entry/FlatCopies.antt =====
-- Copy and Clone of a flat struct: fastcopier.go, engine.go and plans.go.
use Prim.Native.Nat.{bit_and}
use fastcopier.Base.{
  ==_refl, Bool, List, Option, [], false, list_eq, nat_eq, none, refl, some, string_eq, suc, true,
  ℕ, ◌==◌, ◌^◌, ◌≡◌, ◌≢◌,
}
use fastcopier.Base.Dict.{lookup}
use fastcopier.Base.Outcome.{Outcome, err, ok, out_of_fuel, panic}
use fastcopier.Cache.{PlanCache, plan_key_eq, sharded_cache, sharded_get, simple_cache}
use fastcopier.Context.{
  CacheChoice, Context, CopyOption, apply_options, global_cache, key_for, no_cache, own_cache,
  prepare, raise,
}
use fastcopier.Context.Recycling.{prepare-cache}
use fastcopier.Entry.{
  Operand, Process, Runtime, copy, copying, custom_key_eq, env_of, for_copy, pool_get, put_back,
  run_action, system_of, validate_and_deref, with_context, with_pool,
}
use fastcopier.Errors.{Error}
use fastcopier.Execute.{copy_plan, copy_step, resolving}
use fastcopier.Execution.Balance.{Worlds}
use fastcopier.Flat.{FlatCache, is_flat_type, is_scalar}
use fastcopier.GoTypes.{StructField, struct}
use fastcopier.Plan.{Plan, assign_plan}
use fastcopier.Reflect.{load, put, set_to}
use fastcopier.Reflect.Machine.{Ref, System, at, exported}
use fastcopier.Resolve.{
  copies_whole, resolve_by_kind, resolve_plan, resolve_step, resolve_struct_src_plan, ◌>>=◌,
}
use fastcopier.Store.{Place, Value, read_place, write_place}

module _ (t : ℕ) (p q : Place) where
  abbrev pub destination : Ref
  destination = record { typ = t; spot = at p; mark = exported }

  abbrev pub source : Ref
  source = record { typ = t; spot = at q; mark = exported }

  module _ (Y : System) (fs : List StructField) (memo : FlatCache)
      (is_struct : Y.env.T.desc t ≡ struct fs)
      (flat : is_flat_type Y.env.T Y.env.depth t [] ≡ ok (true, memo))
      (assigns : Y.machine.assignable t t ≡ true) (not_registered : Y.env.registry t t ≡ none)
      (whole : copies_whole Y.env Y.cache ≡ true) where
    resolves :
        (fuel : ℕ) (w : Worlds Y)
        → PlanCache.get Y.cache (key_for Y.env.ctx t t) w.plans ≡ none
        → resolve_plan Y.env Y.cache (suc fuel) t t w.plans ≡ (
          ok assign_plan,
          PlanCache.set Y.cache (key_for Y.env.ctx t t) (some assign_plan) w.plans,
        )
    unfolding resolve_plan resolve_step resolve_by_kind resolve_struct_src_plan is_scalar
    resolves fuel w new =
        rw (not_registered, resolve_step)
          (rw new (rw is_struct (rw (==_refl t) (rw flat (rw whole refl)))))

    assigned :
        (w : Worlds Y) (v : Value)
        → read_place w.heap q ≡ some v
        → set_to Y destination source w ≡ (ok tt, record w { heap = write_place p v w.heap })
    unfolding set_to load put
    assigned w v e = rw assigns (rw e (rw is_struct refl))

    runs :
        (fuel n : ℕ) (w : Worlds Y) (v : Value)
        → fuel ≡ suc n
        → PlanCache.get Y.cache (key_for Y.env.ctx t t) w.plans ≡ none
        → read_place w.heap q ≡ some v
        → (resolving Y fuel t t >>= λ plan. copy_plan Y fuel plan destination source) w ≡ (
          ok tt,
          record w {
            heap = write_place p v w.heap;
            plans = PlanCache.set Y.cache (key_for Y.env.ctx t t) (some assign_plan) w.plans;
          },
        )
    unfolding resolving copy_plan copy_step
    runs fuel n w v enough new e = rw enough (rw (resolves n w new) (assigned _ v e))

-- The flags of a prepared context without the option that skips zero fields.
flags-whole : (a b : Bool) → (bit_and (raise false 5 (raise b 3 (raise a 1 0))) (2 ^ 5) == 0) ≡ true
unfolding raise
flags-whole true true = refl
flags-whole true false = refl
flags-whole false true = refl
flags-whole false false = refl

module _ (t : ℕ) (R : Runtime) (fs : List StructField) (memo : FlatCache) (n : ℕ)
    (is_struct : R.T.desc t ≡ struct fs) (flat : is_flat_type R.T R.depth t [] ≡ ok (true, memo))
    (assigns : R.machine.assignable t t ≡ true) (enough : R.fuel ≡ suc n) where
  module _ (p q : Place) (c : Context) (P : Process) (v : Value)
      (not_registered : lookup (record { dst_type = t; src_type = t }) P.custom_registry ≡ none)
      (whole : copies_whole (env_of R c P) (simple_cache Plan) ≡ true)
      (new : sharded_get R.data_pointer (key_for c t t) P.global_cache ≡ none)
      (holds : read_place P.heap q ≡ some v) where
    abbrev Copied : Outcome Error (Unit {0}) × (Context × Process) → Type 0
    Copied r = (r.0 ≡ ok tt) × (r.1.1.heap ≡ write_place p v P.heap)

    ran :
        c.cache ≢ no_cache → Copied (run_action R (copying R (destination t p q, source t p q)) c P)
    unfolding run_action sharded_cache key_for lookup
    ran = choice c.cache
      where
        choice :
            (k : CacheChoice)
            → k ≢ no_cache
            → Copied (
                run_action R
                  (copying R (destination t p q, source t p q))
                  (record c { cache = k })
                  P)
        choice no_cache h = absurd (h refl)
        choice global_cache h =
            rw
              (runs t p q
                (system_of R (sharded_cache R.data_pointer Plan) (record c { cache = global_cache })
                  P)
                fs memo is_struct flat assigns not_registered whole R.fuel n
                (record { heap = P.heap; plans = P.global_cache; visited = c.visited }) v enough new
                holds)
              (refl, refl)
        choice own_cache h =
            rw
              (runs t p q (system_of R (simple_cache Plan) (record c { cache = own_cache }) P) fs
                memo is_struct flat assigns not_registered whole R.fuel n
                (record { heap = P.heap; plans = []; visited = c.visited }) v enough refl holds)
              (refl, refl)

    put_back-Copied :
        (r : Outcome Error (Unit {0}) × (Context × Process))
        → Copied r
        → ((put_back R for_copy r).0 ≡ ok tt)
          × ((put_back R for_copy r).1.heap ≡ write_place p v P.heap)
    put_back-Copied (ok u, (d, Q)) h = h
    put_back-Copied (err e, (d, Q)) h = cc (h.0)
    put_back-Copied (panic, (d, Q)) h = cc (h.0)
    put_back-Copied (out_of_fuel, (d, Q)) h = cc (h.0)

  prepare-whole :
      (c : Context) (P : Process)
      → c.skip_zero_fields ≡ false
      → c.field_mask ≡ none
      → copies_whole (env_of R (prepare c) P) (simple_cache Plan) ≡ true
  unfolding prepare
  prepare-whole c P skip mask =
      rw skip
        (rw mask (rw (flags-whole c.copy_between_ptr_and_value c.ignore_non_copyable_types) refl))

  -- Copy between two variables of one flat struct type sets the destination to
  -- the value of the source, and nothing else in the memory changes. The options may be any that
  -- neither restrict the fields nor skip zero ones; the type is not registered, and there is no plan
  -- for it in the cache.
  pub copy-flat :
      (dst src : Option Operand) (p q : Place) (v : Value) (options : List CopyOption) (P : Process)
      → validate_and_deref R.T dst src ≡ ok (destination t p q, source t p q)
      → lookup (record { dst_type = t; src_type = t }) P.custom_registry ≡ none
      → (apply_options options (pool_get R P.ctx_pool).0).skip_zero_fields ≡ false
      → (apply_options options (pool_get R P.ctx_pool).0).field_mask ≡ none
      → sharded_get R.data_pointer
          (key_for (prepare (apply_options options (pool_get R P.ctx_pool).0)) t t)
          P.global_cache
        ≡ none
      → read_place P.heap q ≡ some v
      → ((copy R dst src options P).0 ≡ ok tt)
        × ((copy R dst src options P).1.heap ≡ write_place p v P.heap)
  unfolding copy with_context
  copy-flat dst src p q v options P valid reg skip mask new holds =
      let got = pool_get R P.ctx_pool in
      let c = apply_options options got.0 in
      let P' = with_pool for_copy got.1 P in
      let whole = prepare-whole c P' skip mask in
      rw valid (
        put_back-Copied p q (prepare c) P' v reg whole new holds _
          (ran p q (prepare c) P' v reg whole new holds (prepare-cache c)))
  -- The end of Clone: what the destination holds after the copy.
