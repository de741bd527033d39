-- ===== src/Entry/State.antt =====
-- fastcopier.go and register.go: the state that calls share, and the contexts of the pools.
use fastcopier.Base.{
  ℕ, zero, suc, String, Bool, ◌&&◌, ◌≡◌, true, ◌↔◌, List, [], ◌∷◌, get_elem?, ◌==◌, nat_eq, eqb_iff,
  Comparable, none, some, arith,
}
use fastcopier.Base.Dict.{Dict, insert, lookup}
use fastcopier.Base.Outcome.{Outcome, ok, err, panic, out_of_fuel}
use fastcopier.Cache.{PlanCache, Sharded, sharded_cache, simple_cache, clear}
use fastcopier.Context.{
  Context, global_cache, own_cache, no_cache, new_context, reset, prepare, set_default_tag_name,
}
use fastcopier.Errors.{Error}
use fastcopier.Fields.{Metas}
use fastcopier.GoTypes.{Types}
use fastcopier.Plan.{Plan, SlimMeta}
use fastcopier.Reflect.Machine.{Machine, System, Exec}
use fastcopier.Resolve.{M, Env}
use fastcopier.Store.{Heap}

-- customKey
pub record CustomKey : Type 0 where
  pub dst_type : ℕ
  pub src_type : ℕ

abbrev pub custom_key_beq : CustomKey → CustomKey → Bool
custom_key_beq a b = a.dst_type == b.dst_type && a.src_type == b.src_type

pub custom_key_beq_iff : (a b : CustomKey) → (custom_key_beq a b ≡ true) ↔ (a ≡ b)
custom_key_beq_iff a b =
    ground (arith, eqb_iff a.dst_type b.dst_type, eqb_iff a.src_type b.src_type)

instance abbrev pub custom_key_eq : Comparable CustomKey
custom_key_eq = record { equals = custom_key_beq; equals_iff = custom_key_beq_iff }

-- The memory, the variables of the package, and the pools.
pub record Process : Type 0 where
  pub heap : Heap
  pub global_cache : Sharded Plan
  pub ctx_pool : List Context
  pub merge_ctx_pool : List Context
  pub default_tag_name : String
  pub custom_registry : Dict CustomKey ℕ

pub data Pool : Type 0 where
  for_copy for_merge : Pool

-- What the run takes from outside: the types, with the type string and the pointer types; the
-- orders of iteration; the addresses of type descriptions; the machine; which context of a pool
-- sync.Pool gives, a new one past the last; and the fuel.
pub record Runtime : Type 0 where
  pub T : Types
  pub str_type : ℕ
  pub pointer_to : ℕ → ℕ
  pub range : Metas → Metas
  pub range_slims : Dict String SlimMeta → Dict String SlimMeta
  pub data_pointer : ℕ → ℕ
  pub machine : Machine
  pub pick : List Context → ℕ
  pub depth : ℕ
  pub fuel : ℕ

-- RegisterCopier, with the number of the function.
unfoldable pub register_copier : ℕ → ℕ → ℕ → Process → Process
register_copier dst src fn P = record P {
  custom_registry = insert (record { dst_type = dst; src_type = src }) fn P.custom_registry;
}

-- ClearCache
unfoldable pub clear_cache : Process → Process
clear_cache P = record P { global_cache = clear P.global_cache }

-- SetDefaultTagName
unfoldable pub set_default_tag : String → Process → Process
set_default_tag tag P = record P { default_tag_name = set_default_tag_name tag P.default_tag_name }

unfoldable pub remove_at : List Context → ℕ → List Context
remove_at [] i = []
remove_at (c ∷ cs) zero = cs
remove_at (c ∷ cs) (suc i) = c ∷ remove_at cs i

abbrev pub pool_of : Pool → Process → List Context
pool_of for_copy P = P.ctx_pool
pool_of for_merge P = P.merge_ctx_pool

abbrev pub with_pool : Pool → List Context → Process → Process
with_pool for_copy cs P = record P { ctx_pool = cs }
with_pool for_merge cs P = record P { merge_ctx_pool = cs }

module _ (R : Runtime) where
  -- `pool.Get().(*Context)`
  unfoldable pub pool_get : List Context → Context × List Context
  unfolding remove_at
  pool_get cs =
      let i = R.pick cs in
      elim (get_elem? cs i) [ some c ↦ (c, remove_at cs i) | none ↦ (new_context, cs) ]

  abbrev pub env_of : Context → Process → Env
  env_of ctx P = record {
    T = R.T;
    registry = λ d s. lookup (record { dst_type = d; src_type = s }) P.custom_registry;
    ctx = ctx;
    default_tag_name = P.default_tag_name;
    str_type = R.str_type;
    range = R.range;
    range_slims = R.range_slims;
    depth = R.depth;
  }

  abbrev pub system_of : PlanCache Plan → Context → Process → System
  system_of C ctx P = record { env = env_of ctx P; cache = C; machine = R.machine }

  abbrev pub Action : Type 0 → Type 1
  Action A = (Y : System) → Exec Y A

  abbrev pub run_on :
      {A : Type 0} (C : PlanCache Plan)
      → Action A
      → Context
      → C.State
      → Process
      → Outcome Error A × (Context × C.State × Process)
  run_on C action ctx plans P =
      let r =
        action (system_of C ctx P)
          (record { heap = P.heap; plans = plans; visited = ctx.visited }) in
      (r.0, (record ctx { visited = r.1.visited }, r.1.plans, record P { heap = r.1.heap }))

  -- A call in a prepared context: on the global cache, or on a new cache that is dropped.
  unfoldable pub run_action :
      {A : Type 0} → Action A → Context → Process → Outcome Error A × (Context × Process)
  unfolding sharded_cache
  run_action action ctx P = elim ctx.cache [
    | global_cache ↦
        let r = run_on (sharded_cache R.data_pointer Plan) action ctx P.global_cache P in
        (r.0, (r.1.0, record r.1.2 { global_cache = r.1.1 }))
    | own_cache ↦ let r = run_on (simple_cache Plan) action ctx [] P in (r.0, (r.1.0, r.1.2))
    | no_cache ↦ (panic, (ctx, P))
  ]

  -- `ctx.reset(); pool.Put(ctx)` after a call that returns, with or without an error.
  abbrev pub put_back :
      {A : Type 0} → Pool → Outcome Error A × (Context × Process) → Outcome Error A × Process
  put_back k (ok a, (ctx, P)) = (ok a, with_pool k (reset ctx ∷ pool_of k P) P)
  put_back k (err e, (ctx, P)) = (err e, with_pool k (reset ctx ∷ pool_of k P) P)
  put_back k (panic, (ctx, P)) = (panic, P)
  put_back k (out_of_fuel, (ctx, P)) = (out_of_fuel, P)

  -- A context is got, set up and prepared, and put back.
  unfoldable pub with_context : {A : Type 0} → Pool → (Context → Context) → Action A → M Process A
  with_context k set_up action P =
      let got = pool_get (pool_of k P) in
      put_back k (run_action action (prepare (set_up got.0)) (with_pool k got.1 P))
