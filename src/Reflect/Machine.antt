-- ===== src/Reflect/Machine.antt =====
-- What running a plan changes, and what it takes from outside of the repository.
use fastcopier.Base.{ℕ, Bool, List}
use fastcopier.Base.Outcome.{Outcome}
use fastcopier.Cache.{PlanCache}
use fastcopier.Errors.{Error}
use fastcopier.Plan.{Plan}
use fastcopier.Resolve.{M, Env}
use fastcopier.Store.{Place, Value, Entries, Heap}

-- `assignable dst src` is Type.AssignableTo. `convert dst src` is Value.Convert, which may
-- allocate. `address_of` is the number that a pointer to a place is. `visit` is the order in which
-- a map is iterated. `registered f` is the copier that a user has registered under the number f.
pub record Machine : Type 0 where
  pub assignable : ℕ → ℕ → Bool
  pub convert : ℕ → ℕ → Value → Heap → Value × Heap
  pub address_of : Place → ℕ
  pub visit : Entries → Entries
  pub registered : ℕ → Place → Place → Heap → Outcome Error (Unit {0}) × Heap

pub record System : Type 1 where
  pub env : Env
  pub cache : PlanCache Plan
  pub machine : Machine

-- The heap, the cache of plans, and ctx.visited. Nothing else changes while a plan runs.
pub record World (K : Type 0) : Type 0 where
  pub heap : Heap
  pub plans : K
  pub visited : List ℕ

abbrev pub Exec : System → Type 0 → Type 0
Exec Y A = M (World (PlanCache.State Y.cache)) A

-- A value got through an unexported field can be read but neither set nor taken out. The mark of an
-- embedded field is dropped at the next field, the mark of another one stays.
pub data Mark : Type 0 where
  exported embedded_only sticky : Mark

-- A variable at a place, or a value that is no variable.
pub data Spot : Type 0 where
  at : Place → Spot
  loaded : Value → Spot

-- A valid reflect.Value.
pub record Ref : Type 0 where
  pub typ : ℕ
  pub spot : Spot
  pub mark : Mark

abbrev pub fresh : ℕ → Value → Ref
fresh t v = record { typ = t; spot = loaded v; mark = exported }
