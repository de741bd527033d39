-- ===== src/Context/Recycling.antt =====
-- Contexts from the pool: new ones and those that a call has put back.
use fastcopier.Base.{
  Bool, List, [], arith, false, if◌then◌else◌, list_eq, nat_eq, refl, string_eq, true, ℕ, ◌∷◌, ◌≡◌,
  ◌≢◌,
}
use fastcopier.Context.{
  Context, delete_all, global_cache, new_context, no_cache, own_cache, prepare, raise, reset,
}

delete_all-nil : (ps : List ℕ) → delete_all ps ≡ []
unfolding delete_all
delete_all-nil [] = refl
delete_all-nil (p ∷ ps) = delete_all-nil ps

-- Whatever a call did to its context, reset leaves the same one: no option, mask, cache or
-- visited address of one call reaches the next.
pub reset_const : (c d : Context) → reset c ≡ reset d
unfolding reset
reset_const c d = rw (delete_all-nil c.visited, delete_all-nil d.visited)

-- A context that the pool makes anew does not have the defaults of one that was put back: with
-- no options, a call on a new context refuses to copy between pointers and values and builds its
-- plans in a cache of its own, and a call on a recycled one does the opposite.
pub new_context-differs :
    (used : Context)
    → ((prepare new_context).copy_between_ptr_and_value ≡ false)
      × ((prepare new_context).cache ≡ own_cache)
      × ((prepare (reset used)).copy_between_ptr_and_value ≡ true)
      × ((prepare (reset used)).cache ≡ global_cache)
      × ((prepare new_context).flags ≢ (prepare (reset used)).flags)
unfolding prepare reset raise
new_context-differs used = (refl, refl, refl, refl, omega arith)

-- A prepared context has a cache.
pub prepare-cache : (c : Context) → (prepare c).cache ≢ no_cache
unfolding prepare
prepare-cache c = given c.use_global_cache
  where
    given : (b : Bool) → (if b then global_cache else own_cache) ≢ no_cache
    given true h = cc
    given false h = cc
