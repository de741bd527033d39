-- ===== src/Tests/EngineTests.antt =====
-- The theorems on the test for flat types and on the caches at concrete inputs.
use fastcopier.Base.{
  ℕ, ◌+◌, ◌*◌, ◌<◌, ◌≡◌, Bool, [], ◌==◌, nat_eq, eqb_iff, Option, some, arith, inl, inr, Bool-cases,
}
use fastcopier.Base.Dict.{lookup}
use fastcopier.Base.Outcome.{ok}
use fastcopier.Cache.{
  PlanKey, plan_key_eq, IsLawful, sharded_cache, Sharded, sharded_set, new_sharded_cache,
  num_shards, shard,
}
use fastcopier.Cache.Refinement.{sharded_cache-IsLawful}
use fastcopier.Cache.Shards.{shard-lt}
use fastcopier.Flat.{FlatCache, is_flat_type}
use fastcopier.Flat.Correct.{IsSound, Answers}
use fastcopier.Flat.Total.{IsFinite, is_flat_type_decides}
use fastcopier.Tests.Sample.{small}

abbrev address : ℕ → ℕ
address t = 4096 + 96 * t

abbrev key : PlanKey
key = record { dst_type = 4; src_type = 3; flags = 42 }

none-some : {v : Bool} → Option.none ≡ some v → ⊥
none-some h = cc

small-IsFinite : IsFinite small (λ t. t)
small-IsFinite t = elim (Bool-cases (t == 1)) [
  | inl at_one ↦ rw at_one (let p = (eqb_iff t 1).0 at_one in (omega arith, (omega arith, tt)))
  | inr other ↦ rw other tt
]

-- The memo starts empty.
is_flat_type_decides_example :
    (b : Bool) × (c : FlatCache) × (is_flat_type small 2 1 [] ≡ ok (b, c))
    × Answers small 1 b
    × IsSound small c
unfolding lookup
is_flat_type_decides_example =
    is_flat_type_decides small (λ t. t) small-IsFinite 2 1 [] (omega arith)
      (λ t v h. absurd (none-some h))

sharded_cache-IsLawful_example : IsLawful (sharded_cache address ℕ)
sharded_cache-IsLawful_example = sharded_cache-IsLawful address ℕ

abbrev stored : Sharded ℕ
stored = sharded_set address key (some 7) new_sharded_cache

shard-lt_example : shard address key < num_shards
shard-lt_example = shard-lt address key
