-- ===== src/Cache/Refinement.antt =====
-- Both caches are maps from keys to entries: engine.go.
use fastcopier.Base.{
  ℕ, zero, suc, ◌<◌, ◌≡◌, ap, false, Option, none, some, [], ◌==◌, nat_eq, eqb_iff, if◌then◌else◌,
  arith, inl, inr, Bool-cases,
}
use fastcopier.Base.Dict.{Dict, lookup, insert, erase, lookup-insert, lookup-erase}
use fastcopier.Cache.{
  PlanKey, plan_key_eq, plan_key_beq, plan_key_beq_iff, IsLawful, simple_cache, sharded_cache,
  Sharded, shard, num_shards, sharded_get, sharded_set, sharded_del, write_shard, clear_below,
  clear,
}
use fastcopier.Cache.Shards.{shard-lt}

-- The plain cache answers as a map from keys to entries does.
pub simple_cache-IsLawful : (P : Type 0) → IsLawful (simple_cache P)
simple_cache-IsLawful P = record { get-set = lookup-insert; get-del = lookup-erase }

module _ (data_pointer : ℕ → ℕ) (P : Type 0) where
  write_shard-lookup :
      (j k : PlanKey) (m : Dict PlanKey (Option P)) (v : Option (Option P)) (s : Sharded P)
      → lookup j m ≡ (if j == k then v else lookup j (s (shard data_pointer k)))
      → lookup j (write_shard (shard data_pointer k) m s (shard data_pointer j))
        ≡ (if j == k then v else lookup j (s (shard data_pointer j)))
  unfolding write_shard
  write_shard-lookup j k m v s h =
      elim (Bool-cases (shard data_pointer j == shard data_pointer k)) [
        | inl same ↦ rw same (rw ((eqb_iff _ _).0 same) h)
        | inr apart ↦ rw apart (elim (Bool-cases (plan_key_beq j k)) [
          | inr differ ↦ rw differ
          | inl equal ↦
              absurd
                (ne_of_eqb _ _ apart (ap (shard data_pointer) ((plan_key_beq_iff j k).0 equal)))
        ])
      ]
    where
      ne_of_eqb : (a b : ℕ) → (a == b) ≡ false → a ≡ b → ⊥
      ne_of_eqb a b h e = ground arith

  -- However the keys fall on the shards, the sharded cache answers as one map from keys to
  -- entries does: a store is seen under its key alone, and a delete removes its key alone.
  pub sharded_cache-IsLawful : IsLawful (sharded_cache data_pointer P)
  unfolding sharded_cache sharded_get sharded_set sharded_del
  sharded_cache-IsLawful = record {
    get-set = λ j k p s.
        let i = shard data_pointer k in
        write_shard-lookup j k (insert k p (s i)) (some p) s (lookup-insert j k p (s i));
    get-del = λ j k s.
        let i = shard data_pointer k in
        write_shard-lookup j k (erase k (s i)) none s (lookup-erase j k (s i));
  }

  clear_below-nil : (n i : ℕ) (s : Sharded P) → i < n → clear_below n s i ≡ []
  unfolding clear_below write_shard
  clear_below-nil zero i s h = absurd (omega arith)
  clear_below-nil (suc n) i s h = ground (arith, clear_below-nil n i s)

  -- After ClearCache no key is found, whatever was stored before.
  pub sharded_get-clear :
      (s : Sharded P) (key : PlanKey) → sharded_get data_pointer key (clear s) ≡ none
  unfolding sharded_get clear lookup
  sharded_get-clear s key =
      rw (clear_below-nil num_shards (shard data_pointer key) s (shard-lt data_pointer key))
