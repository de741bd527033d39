-- ===== src/Execution/Access.antt =====
-- The operations of reflect leave ctx.visited alone.
use fastcopier.Base.{
  ℕ, ◌≡◌, refl, Bool, true, false, Option, none, some, List, [], ◌∷◌, if◌then◌else◌,
}
use fastcopier.Base.Outcome.{ok, panic}
use fastcopier.Execution.Balance.{
  Balanced, balanced, pure-Balanced, lift-Balanced, reads-Balanced, bind-Balanced, if-Balanced,
  must-Balanced,
}
use fastcopier.Reflect.{
  System, World, Exec, Spot, at, loaded, Ref, Mark, is_exported, load, put, set_to, zero_at,
  set_zero, new_place, new_variable, set_new, is_nil, is_zero_at, elem_in, elem_at, some_elem, part,
  field_of, next_field, field_by_index,
}
use fastcopier.Store.{Place, Value, null, address, boxed, items, get_value}

module _ (Y : System) where
  pub load-Balanced : (r : Ref) → Balanced Y (load Y r)
  unfolding load
  load-Balanced r = reads-Balanced Y _

  put_spot-Balanced :
      (s : Spot) (e : Bool) (f : Place → World Y.cache.State → World Y.cache.State)
      → ((p : Place) (w : World Y.cache.State) → (f p w).visited ≡ w.visited)
      → Balanced Y {A = Unit {0}}
          (λ w. elim s [ at p ↦ if e then (ok tt, f p w) else (panic, w) | loaded u ↦ (panic, w) ])
  put_spot-Balanced (at p) true f h = balanced (h p)
  put_spot-Balanced (at p) false f h = balanced (λ w. tt)
  put_spot-Balanced (loaded u) e f h = balanced (λ w. tt)

  pub put-Balanced : (r : Ref) (v : Value) → Balanced Y (put Y r v)
  unfolding put
  put-Balanced r v = put_spot-Balanced r.spot (is_exported r.mark) _ (λ p w. refl)

  pub set_to-Balanced : (dst src : Ref) → Balanced Y (set_to Y dst src)
  unfolding set_to
  set_to-Balanced dst src =
      search (bind-Balanced, must-Balanced, load-Balanced, put-Balanced) depth 8

  pub zero_at-Balanced : (t : ℕ) → Balanced Y (zero_at Y t)
  unfolding zero_at
  zero_at-Balanced t = lift-Balanced Y _

  pub set_zero-Balanced : (r : Ref) → Balanced Y (set_zero Y r)
  unfolding set_zero
  set_zero-Balanced r = search (bind-Balanced, zero_at-Balanced, put-Balanced) depth 8

  pub new_place-Balanced : (v : Value) → Balanced Y (new_place Y v)
  unfolding new_place
  new_place-Balanced v = balanced (λ w. refl)

  pub new_variable-Balanced : (t : ℕ) → Balanced Y (new_variable Y t)
  unfolding new_variable
  new_variable-Balanced t =
      search (bind-Balanced, zero_at-Balanced, new_place-Balanced, pure-Balanced) depth 8

  pub set_new-Balanced : (r : Ref) → Balanced Y (set_new Y r)
  unfolding set_new
  set_new-Balanced r =
      search (bind-Balanced, lift-Balanced, zero_at-Balanced, new_place-Balanced, put-Balanced)
        depth 8

  pub is_nil-Balanced : (r : Ref) → Balanced Y (is_nil Y r)
  unfolding is_nil
  is_nil-Balanced r = search (bind-Balanced, must-Balanced, load-Balanced, pure-Balanced) depth 8

  pub is_zero_at-Balanced : (r : Ref) → Balanced Y (is_zero_at Y r)
  unfolding is_zero_at
  is_zero_at-Balanced r = search (bind-Balanced, load-Balanced, pure-Balanced) depth 8

  elem_in-Balanced : (r : Ref) (v : Value) → Balanced Y (elem_in Y r v)
  elem_in-Balanced r null = pure-Balanced Y _
  elem_in-Balanced r (address p) = search (bind-Balanced, lift-Balanced, pure-Balanced) depth 8
  elem_in-Balanced r (boxed t v) = pure-Balanced Y _
  elem_in-Balanced r _ = lift-Balanced Y panic

  pub elem_at-Balanced : (r : Ref) → Balanced Y (elem_at Y r)
  unfolding elem_at
  elem_at-Balanced r =
      search (bind-Balanced, must-Balanced, load-Balanced, elem_in-Balanced) depth 8

  pub some_elem-Balanced : (o : Option Ref) → Balanced Y (some_elem Y o)
  some_elem-Balanced none = lift-Balanced Y panic
  some_elem-Balanced (some r) = pure-Balanced Y r

  pub part-Balanced : (t : ℕ) (m : Mark) (r : Ref) (i : ℕ) → Balanced Y (part Y t m r i)
  part-Balanced t m r i = spot r.spot
    where
      spot : (s : Spot) → Balanced Y (part Y t m (record r { spot = s }) i)
      spot (at p) = balanced (λ w. refl)
      spot (loaded (items vs)) = found (get_value vs i)
        where
          found :
              (o : Option Value)
              → Balanced Y {A = Ref} (λ w. elim o [
                | some v ↦ (ok (record { typ = t; spot = loaded v; mark = m }), w)
                | none ↦ (panic, w)
              ])
          found none = balanced (λ w. tt)
          found (some v) = balanced (λ w. refl)
      spot (loaded _) = balanced (λ w. tt)

  pub field_of-Balanced : (r : Ref) (i : ℕ) → Balanced Y (field_of Y r i)
  unfolding field_of
  field_of-Balanced r i = search (bind-Balanced, lift-Balanced, part-Balanced) depth 8

  next_field-Balanced :
      (s : Option Ref) (i : ℕ) (k : Ref → Exec Y (Option Ref))
      → ((f : Ref) → Balanced Y (k f))
      → Balanced Y (next_field Y s i k)
  next_field-Balanced none i k h = pure-Balanced Y _
  next_field-Balanced (some s) i k h = bind-Balanced Y _ _ (field_of-Balanced s i) h

  pub field_by_index-Balanced :
      (nested : Bool) (r : Ref) (index : List ℕ) → Balanced Y (field_by_index Y nested r index)
  unfolding field_by_index
  field_by_index-Balanced nested r [] = pure-Balanced Y _
  field_by_index-Balanced nested r (i ∷ is) =
      bind-Balanced Y _ _ (if-Balanced Y _ _ _ (elem_at-Balanced r) (pure-Balanced Y _))
        (λ s. next_field-Balanced s i _ (λ f. field_by_index-Balanced true f is))
