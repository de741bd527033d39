-- ===== src/Entry/FlatClones.antt =====
-- Clone of a flat struct: fastcopier.go.
use fastcopier.Base.{
  ==_refl, List, Option, [], false, list_eq, nat_eq, none, refl, some, string_eq, suc, true, ℕ, ◌≡◌,
}
use fastcopier.Base.Dict.{lookup}
use fastcopier.Base.Outcome.{Outcome, err, ok, out_of_fuel, panic}
use fastcopier.Cache.{plan_key_eq, sharded_get}
use fastcopier.Context.{CopyOption, apply_options, key_for, prepare}
use fastcopier.Entry.{
  Process, Runtime, clone, custom_key_eq, pointer_to, pool_get, validate_and_deref, value_at,
}
use fastcopier.Entry.FlatCopies.{copy-flat, destination, source}
use fastcopier.Errors.{Error}
use fastcopier.Flat.{FlatCache, is_flat_type}
use fastcopier.GoTypes.{StructField, pointer, struct}
use fastcopier.Reflect.{zero_value}
use fastcopier.Resolve.{M, continue, fail, pure, ◌>>=◌}
use fastcopier.Store.{Heap, Place, Value, allocate, read_at, read_place, write_at, write_place}

module _ (t : ℕ) (R : Runtime) (fs : List StructField) (memo : FlatCache) (n : ℕ)
    (is_struct : R.T.desc t ≡ struct fs) (flat : is_flat_type R.T R.depth t [] ≡ ok (true, memo))
    (assigns : R.machine.assignable t t ≡ true) (enough : R.fuel ≡ suc n) where
  abbrev variable : ℕ → Place
  variable b = record { block = b; path = [] }

  abbrev finish : Place → Option Error → M Process (Option Error × Value)
  finish d e = value_at R d >>= λ x. λ P. (ok (e, x), P)

  abbrev outcome : Outcome Error (Unit {0}) × Process → Outcome Error (Option Error) × Process
  outcome r = continue (λ u. pure none) (λ e. pure (some e)) r

  kept :
      (r : Outcome Error (Unit {0}) × Process) (d : Place) (h : Heap) (v : Value)
      → r.0 ≡ ok tt
      → r.1.heap ≡ h
      → read_place h d ≡ some v
      → (continue (finish d) fail (outcome r)).0 ≡ ok (none, v)
  kept (ok u, Q) d h v returned heap e = rw heap (rw e refl)
  kept (err x, Q) d h v returned heap e = cc
  kept (panic, Q) d h v returned heap e = cc
  kept (out_of_fuel, Q) d h v returned heap e = cc

  written :
      (h : Heap) (b : ℕ) (v : Value)
      → read_place (write_place (variable b) v h) (variable b) ≡ some v
  unfolding read_place write_place write_at read_at
  written h b v = rw (==_refl b) refl

  stored : (h : Heap) (v : Value) → read_place (allocate v h) (variable h.next) ≡ some v
  unfolding read_place allocate read_at
  stored h v = rw (==_refl h.next) refl

  pointers-valid :
      (p q : Place)
      → R.T.desc (R.pointer_to t) ≡ pointer t
      → validate_and_deref R.T (pointer_to R t p) (pointer_to R t q)
        ≡ ok (destination t p q, source t p q)
  unfolding validate_and_deref
  pointers-valid p q pointers = rw pointers refl

  -- Clone of a value of a flat struct type gives that value, without an error.
  -- The conditions are those of Copy between variables of the type.
  pub clone-flat :
      (v z : Value) (options : List CopyOption) (P : Process)
      → R.T.desc (R.pointer_to t) ≡ pointer t
      → zero_value R.T R.depth t ≡ ok z
      → lookup (record { dst_type = t; src_type = t }) P.custom_registry ≡ none
      → (apply_options options (pool_get R P.ctx_pool).0).skip_zero_fields ≡ false
      → (apply_options options (pool_get R P.ctx_pool).0).field_mask ≡ none
      → sharded_get R.data_pointer
          (key_for (prepare (apply_options options (pool_get R P.ctx_pool).0)) t t)
          P.global_cache
        ≡ none
      → (clone R t v options P).0 ≡ ok (none, v)
  unfolding clone
  clone-flat v z options P pointers zeros reg skip mask new =
      let h = allocate z P.heap in
      let d = variable P.heap.next in
      let s = variable h.next in
      let returned =
        copy-flat t R fs memo n is_struct flat assigns enough (pointer_to R t d) (pointer_to R t s)
          d s v options (record P { heap = allocate v h }) (pointers-valid d s pointers) reg skip
          mask new (stored h v) in
      rw zeros (kept _ d _ v returned.0 returned.1 (written _ P.heap.next v))
