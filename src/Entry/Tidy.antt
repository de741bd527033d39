-- ===== src/Entry/Tidy.antt =====
-- Calls that leave only contexts that were reset in the pools: fastcopier.go.
use fastcopier.Base.{
  All, List, Option, Option-cases, [], get_elem?, inl, inr, list_eq, nat_eq, refl, some, string_eq,
  suc, zero, ℕ, ◌∷◌, ◌≡◌, ◌⊎◌,
}
use fastcopier.Base.Outcome.{Outcome, err, ok, out_of_fuel, panic}
use fastcopier.Context.{
  CacheChoice, Context, CopyOption, global_cache, new_context, no_cache, own_cache, reset,
}
use fastcopier.Context.Recycling.{reset_const}
use fastcopier.Entry.{
  Action, Operand, Pool, Process, Runtime, clone, copy, copy_variables, for_copy, for_merge,
  inspect_arguments, map_slice, merge, must_register, pool_get, pool_of, put_back, remove_at,
  run_action, value_at, variable, with_context, with_pool,
}
use fastcopier.Errors.{Error}
use fastcopier.Resolve.{M, continue, fail, handle, lift, pure, ◌>>=◌}
use fastcopier.Store.{Place, Value}

abbrev pub IsReset : List Context → Type 0
IsReset cs = All (λ c. c ≡ reset new_context) cs

-- Every context in a pool is one that was reset.
abbrev pub IsClean : Process → Type 0
IsClean P = IsReset P.ctx_pool × IsReset P.merge_ctx_pool

pub pool_of-IsClean : (k : Pool) (P : Process) → IsClean P → IsReset (pool_of k P)
pool_of-IsClean for_copy P h = h.0
pool_of-IsClean for_merge P h = h.1

with_pool-IsClean :
    (k : Pool) (cs : List Context) (P : Process)
    → IsReset cs
    → IsClean P
    → IsClean (with_pool k cs P)
with_pool-IsClean for_copy cs P r h = (r, h.1)
with_pool-IsClean for_merge cs P r h = (h.0, r)

remove_at-IsReset : (cs : List Context) (i : ℕ) → IsReset cs → IsReset (remove_at cs i)
unfolding remove_at
remove_at-IsReset [] i h = tt
remove_at-IsReset (c ∷ cs) zero h = h.1
remove_at-IsReset (c ∷ cs) (suc i) h = (h.0, remove_at-IsReset cs i h.1)

get_elem?-IsReset :
    (cs : List Context) (i : ℕ) {c : Context}
    → IsReset cs
    → get_elem? cs i ≡ some c
    → c ≡ reset new_context
get_elem?-IsReset [] i h e = cc
get_elem?-IsReset (d ∷ cs) zero h e = cc h.0
get_elem?-IsReset (d ∷ cs) (suc i) h e = get_elem?-IsReset cs i h.1 e

module _ (R : Runtime) where
  pool_get-IsReset : (cs : List Context) → IsReset cs → IsReset (pool_get R cs).1
  unfolding pool_get
  pool_get-IsReset cs h = elim (Option-cases (get_elem? cs (R.pick cs))) [
    | inl e ↦ rw (e, pool_get) h
    | inr (c, e) ↦ rw (e, pool_get) (remove_at-IsReset cs (R.pick cs) h)
  ]

  pub pool_get-either :
      (cs : List Context)
      → IsReset cs
      → ((pool_get R cs).0 ≡ new_context) ⊎ ((pool_get R cs).0 ≡ reset new_context)
  unfolding pool_get
  pool_get-either cs h = elim (Option-cases (get_elem? cs (R.pick cs))) [
    | inl e ↦ rw (e, pool_get) (inl refl)
    | inr (c, e) ↦ rw (e, pool_get) (inr (get_elem?-IsReset cs (R.pick cs) h e))
  ]

  -- A call that leaves the pools clean.
  pub data Tidy {A : Type 0} (m : M Process A) : Type 0 where
    tidy : ((P : Process) → IsClean P → IsClean (m P).1) → Tidy m

  pub Tidy-at :
      {A : Type 0} {m : M Process A} → Tidy m → (P : Process) → IsClean P → IsClean (m P).1
  Tidy-at (tidy h) = h

  lift-Tidy : {A : Type 0} (o : Outcome Error A) → Tidy (lift o)
  lift-Tidy o = tidy (λ P h. h)

  continue-IsClean :
      {A B : Type 0} (f : A → M Process B) (g : Error → M Process B)
      → ((a : A) → Tidy (f a))
      → ((e : Error) → Tidy (g e))
      → (r : Outcome Error A × Process) → IsClean r.1
      → IsClean (continue f g r).1
  continue-IsClean f g hf hg (ok a, P) h = Tidy-at (hf a) P h
  continue-IsClean f g hf hg (err e, P) h = Tidy-at (hg e) P h
  continue-IsClean f g hf hg (panic, P) h = h
  continue-IsClean f g hf hg (out_of_fuel, P) h = h

  handle-Tidy :
      {A B : Type 0} (m : M Process A) (f : A → M Process B) (g : Error → M Process B)
      → Tidy m
      → ((a : A) → Tidy (f a))
      → ((e : Error) → Tidy (g e))
      → Tidy (handle m f g)
  handle-Tidy m f g h hf hg = tidy (λ P c. continue-IsClean f g hf hg (m P) (Tidy-at h P c))

  bind-Tidy :
      {A B : Type 0} (m : M Process A) (f : A → M Process B)
      → Tidy m
      → ((a : A) → Tidy (f a))
      → Tidy (m >>= f)
  bind-Tidy m f h hf = handle-Tidy m f fail h hf (λ e. tidy (λ P c. c))

  put_back-IsClean :
      {A : Type 0} (k : Pool) (r : Outcome Error A × (Context × Process))
      → IsClean r.1.1
      → IsClean (put_back R k r).1
  put_back-IsClean k (ok a, (c, P)) h =
      with_pool-IsClean k _ P (reset_const c new_context, pool_of-IsClean k P h) h
  put_back-IsClean k (err e, (c, P)) h =
      with_pool-IsClean k _ P (reset_const c new_context, pool_of-IsClean k P h) h
  put_back-IsClean k (panic, (c, P)) h = h
  put_back-IsClean k (out_of_fuel, (c, P)) h = h

  run_action-IsClean :
      {A : Type 0} (action : Action R A) (c : Context) (P : Process)
      → IsClean P
      → IsClean (run_action R action c P).1.1
  unfolding run_action
  run_action-IsClean action c P h = choice c.cache
    where
      choice : (k : CacheChoice) → IsClean (run_action R action (record c { cache = k }) P).1.1
      choice no_cache = h
      choice global_cache = h
      choice own_cache = h

  with_context-Tidy :
      {A : Type 0} (k : Pool) (set_up : Context → Context) (action : Action R A)
      → Tidy (with_context R k set_up action)
  unfolding with_context
  with_context-Tidy k set_up action = tidy (λ P h. put_back-IsClean k _ (
      run_action-IsClean action _ _
        (with_pool-IsClean k _ P (pool_get-IsReset _ (pool_of-IsClean k P h)) h)))

  pub copy-Tidy :
      (dst src : Option Operand) (options : List CopyOption) → Tidy (copy R dst src options)
  unfolding copy
  copy-Tidy dst src options = bind-Tidy _ _ (lift-Tidy _) (λ a. with_context-Tidy for_copy _ _)

  pub merge-Tidy :
      (dst src : Option Operand) (options : List CopyOption) → Tidy (merge R dst src options)
  unfolding merge
  merge-Tidy dst src [] = bind-Tidy _ _ (lift-Tidy _) (λ a. with_context-Tidy for_merge _ _)
  merge-Tidy dst src (o ∷ os) = copy-Tidy dst src _

  pure-Tidy : {A : Type 0} (a : A) → Tidy (pure a)
  pure-Tidy a = tidy (λ P h. h)

  variable-Tidy : (v : Value) → Tidy (variable R v)
  variable-Tidy v = tidy (λ P h. h)

  value_at-Tidy : (p : Place) → Tidy (value_at R p)
  value_at-Tidy p = tidy (λ P h. h)

  variables-Tidy :
      (d s : ℕ) (src : Value) (options : List CopyOption) → Tidy (copy_variables R d s src options)
  variables-Tidy d s src options =
      search (bind-Tidy, handle-Tidy, pure-Tidy, lift-Tidy, variable-Tidy, value_at-Tidy, copy-Tidy)
        depth 12

  pub clone-Tidy : (t : ℕ) (src : Value) (options : List CopyOption) → Tidy (clone R t src options)
  unfolding clone
  clone-Tidy t src options = variables-Tidy t t src options

  pub map_slice-Tidy :
      (d s : ℕ) (src : Value) (options : List CopyOption) → Tidy (map_slice R d s src options)
  unfolding map_slice
  map_slice-Tidy d s src options =
      bind-Tidy _ _ (variables-Tidy d s src options) (λ r. lift-Tidy (ok _))

  pub inspect_arguments-Tidy :
      (dst src : Option Operand) (options : List CopyOption)
      → Tidy (inspect_arguments R dst src options)
  unfolding inspect_arguments
  inspect_arguments-Tidy dst src options =
      bind-Tidy _ _ (lift-Tidy _)
        (λ a. bind-Tidy _ _ (with_context-Tidy for_copy _ _) (λ p. lift-Tidy _))

  pub must_register-Tidy :
      (dst src : Option Operand) (options : List CopyOption)
      → Tidy (must_register R dst src options)
  unfolding must_register
  must_register-Tidy dst src options =
      handle-Tidy _ _ _ (inspect_arguments-Tidy dst src options) (λ ip. lift-Tidy (ok tt))
        (λ e. lift-Tidy panic)
