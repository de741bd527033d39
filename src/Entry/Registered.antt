-- ===== src/Entry/Registered.antt =====
-- register.go: a registered copier in a call of Copy.
use fastcopier.Base.{
  ==_refl, List, Option, [], list_eq, nat_eq, refl, some, string_eq, suc, ℕ, ◌≡◌, ◌≢◌,
}
use fastcopier.Base.Dict.{Dict, insert, lookup, lookup-insert}
use fastcopier.Base.Outcome.{Outcome, err, ok, out_of_fuel, panic}
use fastcopier.Cache.{plan_key_eq, sharded_cache, simple_cache}
use fastcopier.Context.{
  CacheChoice, Context, CopyOption, apply_options, global_cache, no_cache, own_cache, prepare,
}
use fastcopier.Context.Recycling.{prepare-cache}
use fastcopier.Entry.{
  CustomKey, Operand, Process, Runtime, copy, copying, custom_key_eq, for_copy, pool_get, put_back,
  register_copier, run_action, system_of, validate_and_deref, with_context, with_pool,
}
use fastcopier.Errors.{Error}
use fastcopier.Execute.{copy_plan, copy_registered, copy_step, resolving}
use fastcopier.Execution.Balance.{Worlds}
use fastcopier.Plan.{Plan}
use fastcopier.Reflect.Machine.{Ref, System, at, exported}
use fastcopier.Resolve.{resolve_plan, resolve_step, ◌>>=◌}
use fastcopier.Store.{Place}

module _ (d s fn : ℕ) (p q : Place) where
  abbrev pub target : Ref
  target = record { typ = d; spot = at p; mark = exported }

  abbrev pub origin : Ref
  origin = record { typ = s; spot = at q; mark = exported }

  abbrev key : CustomKey
  key = record { dst_type = d; src_type = s }

  calls :
      (Y : System) (fuel n : ℕ) (w : Worlds Y)
      → fuel ≡ suc n
      → Y.env.registry d s ≡ some fn
      → (resolving Y fuel d s >>= λ plan. copy_plan Y fuel plan target origin) w
        ≡ (let r = Y.machine.registered fn p q w.heap in (r.0, record w { heap = r.1 }))
  unfolding resolving resolve_plan resolve_step copy_plan copy_step copy_registered
  calls Y fuel n w enough reg = rw enough (rw (reg, resolve_step) refl)

  module _ (R : Runtime) (n : ℕ) (enough : R.fuel ≡ suc n) where
    runs :
        (c : Context) (P : Process)
        → c.cache ≢ no_cache
        → lookup (record { dst_type = d; src_type = s }) P.custom_registry ≡ some fn
        → run_action R (copying R (target, origin)) c P
          ≡ (let r = R.machine.registered fn p q P.heap in (r.0, (c, record P { heap = r.1 })))
    unfolding run_action sharded_cache
    runs c P some_cache reg = choice c.cache some_cache
      where
        choice :
            (k : CacheChoice)
            → k ≢ no_cache
            → run_action R (copying R (target, origin)) (record c { cache = k }) P ≡ (
                let r = R.machine.registered fn p q P.heap in
                (r.0, (record c { cache = k }, record P { heap = r.1 })))
        choice no_cache h = absurd (h refl)
        choice global_cache h =
            rw
              (calls
                (system_of R (sharded_cache R.data_pointer Plan) (record c { cache = global_cache })
                  P)
                R.fuel n (record { heap = P.heap; plans = P.global_cache; visited = c.visited })
                enough reg)
              refl
        choice own_cache h =
            rw
              (calls (system_of R (simple_cache Plan) (record c { cache = own_cache }) P) R.fuel n
                (record { heap = P.heap; plans = []; visited = c.visited }) enough reg)
              refl

    found : (m : Dict CustomKey ℕ) → lookup key (insert key fn m) ≡ some fn
    found m = rw (lookup-insert key key fn m) (rw (==_refl d, ==_refl s) refl)

    put_back-kept :
        (r : Outcome Error (Unit {0})) (c : Context) (P : Process)
        → let s = put_back R for_copy (r, (c, P)) in
          (s.0 ≡ r) × (s.1.heap ≡ P.heap) × (s.1.global_cache ≡ P.global_cache)
    put_back-kept (ok u) c P = (refl, refl, refl)
    put_back-kept (err e) c P = (refl, refl, refl)
    put_back-kept panic c P = (refl, refl, refl)
    put_back-kept out_of_fuel c P = (refl, refl, refl)

    -- Once a copier is registered for two types, Copy between variables of these types gives its
    -- result and its memory, whatever the options, the caches and the copiers registered before, also
    -- with options that restrict the fields or skip zero ones, and leaves the global cache as it was.
    pub copy-registered :
        (dst src : Option Operand) (options : List CopyOption) (P : Process)
        → validate_and_deref R.T dst src ≡ ok (target, origin)
        → let r = copy R dst src options (register_copier d s fn P) in
          let m = R.machine.registered fn p q P.heap in
          (r.0 ≡ m.0) × (r.1.heap ≡ m.1) × (r.1.global_cache ≡ P.global_cache)
    unfolding copy with_context register_copier
    copy-registered dst src options P valid =
        let got = pool_get R P.ctx_pool in
        let c = prepare (apply_options options got.0) in
        let P' = with_pool for_copy got.1 (register_copier d s fn P) in
        rw valid (
          rw (runs c P' (prepare-cache (apply_options options got.0)) (found P.custom_registry))
            (put_back-kept (R.machine.registered fn p q P.heap).0 c _))
