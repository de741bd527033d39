-- ===== src/Entry/Pools.antt =====
-- The contexts in the pools, over any calls: fastcopier.go.
use fastcopier.Base.{List, Option, String, [], list_eq, nat_eq, string_eq, ℕ, ◌≡◌, ◌⊎◌}
use fastcopier.Context.{CopyOption, new_context, reset}
use fastcopier.Entry.{
  Operand, Pool, Process, Runtime, clear_cache, clone, copy, inspect_arguments, map_slice, merge,
  must_register, pool_get, pool_of, register_copier, set_default_tag,
}
use fastcopier.Entry.Tidy.{
  IsClean, Tidy-at, clone-Tidy, copy-Tidy, inspect_arguments-Tidy, map_slice-Tidy, merge-Tidy,
  must_register-Tidy, pool_get-either, pool_of-IsClean,
}
use fastcopier.Store.{Heap, Value}

module _ (R : Runtime) where
  -- One thing that a program does with the library, or with its own memory.
  pub data Step : Process → Process → Type 0 where
    copies :
        (dst src : Option Operand) (options : List CopyOption) (P : Process)
        → Step P (copy R dst src options P).1
    merges :
        (dst src : Option Operand) (options : List CopyOption) (P : Process)
        → Step P (merge R dst src options P).1
    clones :
        (t : ℕ) (src : Value) (options : List CopyOption) (P : Process)
        → Step P (clone R t src options P).1
    maps :
        (d s : ℕ) (src : Value) (options : List CopyOption) (P : Process)
        → Step P (map_slice R d s src options P).1
    inspects :
        (dst src : Option Operand) (options : List CopyOption) (P : Process)
        → Step P (inspect_arguments R dst src options P).1
    checks :
        (dst src : Option Operand) (options : List CopyOption) (P : Process)
        → Step P (must_register R dst src options P).1
    registers : (d s fn : ℕ) (P : Process) → Step P (register_copier d s fn P)
    clears : (P : Process) → Step P (clear_cache P)
    renames : (tag : String) (P : Process) → Step P (set_default_tag tag P)
    computes : (h : Heap) (P : Process) → Step P (record P { heap = h })

  -- The states of a process that starts with empty pools.
  pub data Reachable : Process → Type 0 where
    start : (P : Process) → P.ctx_pool ≡ [] → P.merge_ctx_pool ≡ [] → Reachable P
    after : {P Q : Process} → Reachable P → Step P Q → Reachable Q

  Step-IsClean : {P Q : Process} → Step P Q → IsClean P → IsClean Q
  unfolding register_copier clear_cache set_default_tag
  Step-IsClean (copies d s o P) h = Tidy-at R (copy-Tidy R d s o) P h
  Step-IsClean (merges d s o P) h = Tidy-at R (merge-Tidy R d s o) P h
  Step-IsClean (clones t s o P) h = Tidy-at R (clone-Tidy R t s o) P h
  Step-IsClean (maps d s v o P) h = Tidy-at R (map_slice-Tidy R d s v o) P h
  Step-IsClean (inspects d s o P) h = Tidy-at R (inspect_arguments-Tidy R d s o) P h
  Step-IsClean (checks d s o P) h = Tidy-at R (must_register-Tidy R d s o) P h
  Step-IsClean (registers d s fn P) h = h
  Step-IsClean (clears P) h = h
  Step-IsClean (renames tag P) h = h
  Step-IsClean (computes m P) h = h

  Reachable-IsClean : {P : Process} → Reachable P → IsClean P
  Reachable-IsClean (start P c m) = (rw c tt, rw m tt)
  Reachable-IsClean (after r s) = Step-IsClean s (Reachable-IsClean r)

  -- Whatever calls a program has made, with whatever options and results, the context that the next
  -- call gets from either pool is a new one or one with the defaults of reset: no option, mask,
  -- tag, cache or visited pointer of an earlier call is in it. Panics are among the results.
  pub pool_get-Reachable :
      (P : Process) (k : Pool)
      → Reachable P
      → ((pool_get R (pool_of k P)).0 ≡ new_context)
        ⊎ ((pool_get R (pool_of k P)).0 ≡ reset new_context)
  pool_get-Reachable P k r = pool_get-either R _ (pool_of-IsClean k P (Reachable-IsClean r))
