-- ===== src/Cache.antt =====
-- engine.go: the keys of plans, the sharded global cache and the plain per-call cache, behind
-- the interface planCache. An entry `none` is the nil that marks a plan under construction.
-- Each method holds the lock of the one shard that it touches, so it is one step.
pub mod Shards
pub mod Refinement
use Prim.Native.Nat.{bit_and, bit_xor}
use fastcopier.Base.{
  ℕ, zero, suc, ◌-◌, ◌*◌, ◌/◌, ◌%◌, ◌^◌, ◌≡◌, refl, ◌↔◌, Bool, true, false, ◌&&◌, Option, none,
  some, List, [], Comparable, ◌==◌, nat_eq, eqb_iff, if◌then◌else◌, arith,
}
use fastcopier.Base.Dict.{Dict, lookup, insert, erase}

-- A type is the number that its identity is; `flags` are the option bits.
pub record PlanKey : Type 0 where
  pub dst_type : ℕ
  pub src_type : ℕ
  pub flags : ℕ

abbrev pub plan_key_beq : PlanKey → PlanKey → Bool
plan_key_beq a b = a.dst_type == b.dst_type && (a.src_type == b.src_type && a.flags == b.flags)

pub plan_key_beq_iff : (a b : PlanKey) → (plan_key_beq a b ≡ true) ↔ (a ≡ b)
plan_key_beq_iff a b =
    ground
      (arith, eqb_iff a.dst_type b.dst_type, eqb_iff a.src_type b.src_type, eqb_iff a.flags b.flags)

instance abbrev pub plan_key_eq : Comparable PlanKey
plan_key_eq = record { equals = plan_key_beq; equals_iff = plan_key_beq_iff }

-- The interface planCache, over the plans `P`.
pub record PlanCache (P : Type 0) : Type 1 where
  pub State : Type 0
  pub get : PlanKey → State → Option (Option P)
  pub set : PlanKey → Option P → State → State
  pub del : PlanKey → State → State

-- A cache is a map: what the clients rely on.
pub record IsLawful {P : Type 0} (C : PlanCache P) : Type 0 where
  pub get-set :
      (j k : PlanKey) (p : Option P) (s : C.State)
      → C.get j (C.set k p s) ≡ (if j == k then some p else C.get j s)
  pub get-del :
      (j k : PlanKey) (s : C.State) → C.get j (C.del k s) ≡ (if j == k then none else C.get j s)

module _ (P : Type 0) where
  -- simpleCache
  abbrev pub simple_cache : PlanCache P
  simple_cache = record { State = Dict PlanKey (Option P); get = lookup; set = insert; del = erase }

  -- shardedCache, an array of shards
  abbrev pub Sharded : Type 0
  Sharded = ℕ → Dict PlanKey (Option P)

abbrev pub num_shards : ℕ
num_shards = 64

abbrev pub word : ℕ
word = 2 ^ 64

module _ {P : Type 0} where
  unfoldable pub new_sharded_cache : Sharded P
  new_sharded_cache i = []

  unfoldable pub write_shard : ℕ → Dict PlanKey (Option P) → Sharded P → Sharded P
  write_shard i m sc j = if j == i then m else sc j

  -- The loop over the shards, `n` of them.
  unfoldable pub clear_below : ℕ → Sharded P → Sharded P
  clear_below zero sc = sc
  clear_below (suc n) sc = write_shard n [] (clear_below n sc)

  unfoldable pub clear : Sharded P → Sharded P
  clear = clear_below num_shards

-- `data_pointer` gives the address of the description of a type, the data pointer of the interface value.
module _ (data_pointer : ℕ → ℕ) where
  unfoldable pub type_hash : ℕ → ℕ
  type_hash t = let h = data_pointer t * 11400714819323198485 % word in bit_xor h (h / 2 ^ 30)

  -- The index of the shard of a key.
  unfoldable pub shard : PlanKey → ℕ
  unfolding type_hash
  shard key =
      let h =
        bit_xor
          (bit_xor (type_hash key.dst_type * 2654435761 % word)
            (type_hash key.src_type * 2246822519 % word))
          (key.flags * 374761393 % word) in
      bit_and h (num_shards - 1)

  module _ {P : Type 0} where
    unfoldable pub sharded_get : PlanKey → Sharded P → Option (Option P)
    sharded_get key sc = lookup key (sc (shard key))

    unfoldable pub sharded_set : PlanKey → Option P → Sharded P → Sharded P
    sharded_set key p sc = let i = shard key in write_shard i (insert key p (sc i)) sc

    unfoldable pub sharded_del : PlanKey → Sharded P → Sharded P
    sharded_del key sc = let i = shard key in write_shard i (erase key (sc i)) sc

  unfoldable pub sharded_cache : (P : Type 0) → PlanCache P
  sharded_cache P = record {
    State = Sharded P;
    get = sharded_get;
    set = sharded_set;
    del = sharded_del;
  }
