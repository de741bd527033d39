-- ===== src/Cache/Shards.antt =====
-- The index of a shard is in range: engine.go.
use Prim.Native.Nat.{bit_and, bit_and-bitwise, digits, min}
use fastcopier.Base.{ℕ, zero, suc, ◌/◌, ◌-◌, ◌≤◌, ◌<◌, arith}
use fastcopier.Cache.{PlanKey, shard, num_shards}

-- A number made of digits that are at most those of `b` is at most `b`.
digits-min-le : (n a b : ℕ) → digits (λ b. 0) min n a b ≤ b
digits-min-le zero a b = omega arith
digits-min-le (suc n) zero b = omega arith
digits-min-le (suc n) (suc a) b = omega (arith, digits-min-le n (suc a / 2) (b / 2))

bit_and-le : (a b : ℕ) → bit_and a b ≤ b
bit_and-le a b = omega (arith, bit_and-bitwise a b, digits-min-le a a b)

-- Wherever the descriptions of the types lie, a key belongs to one of the 64 shards.
pub shard-lt : (data_pointer : ℕ → ℕ) (key : PlanKey) → shard data_pointer key < num_shards
unfolding shard
shard-lt data_pointer key = omega (arith, bit_and-le _ (num_shards - 1))
