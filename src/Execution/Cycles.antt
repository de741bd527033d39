-- ===== src/Execution/Cycles.antt =====
-- The mark of a pointer is taken away again: ptrPlan.Copy and derefPlan.Copy.
use fastcopier.Base.{
  ℕ, ◌≡◌, refl, ap, Bool, true, false, List, [], ◌∷◌, ◌==◌, nat_eq, ==_refl, contains, Option, none,
  some, inl, inr, Bool-cases, if◌then◌else◌,
}
use fastcopier.Base.Outcome.{Outcome, ok, err, panic, out_of_fuel}
use fastcopier.Errors.{Error}
use fastcopier.Execute.{
  forget, visit_pointer, is_skip_policy, check_circular_ref, forgetting, then_forget, copy_elem,
  copy_pointed, pointer_of,
}
use fastcopier.Execution.Access.{set_zero-Balanced, elem_at-Balanced}
use fastcopier.Execution.Balance.{Worlds, Post, Balanced, balanced, Balanced-at, bind-Balanced}
use fastcopier.Execution.Reads.{Reads, reads, is_nil-Reads, pointer_of-Reads}
use fastcopier.Reflect.{System, Exec, Ref, is_nil, elem_at, set_zero}
use fastcopier.Resolve.{fail, continue, ◌>>=◌}
use fastcopier.Store.{Heap}

forget-absent : (p : ℕ) (qs : List ℕ) → contains qs p ≡ false → forget p qs ≡ qs
unfolding forget
forget-absent p [] h = refl
forget-absent p (q ∷ qs) h = elim (Bool-cases (p == q)) [
  | inl e ↦ cc (rw e at h)
  | inr e ↦ rw e (ap (λ xs. q ∷ xs) (forget-absent p qs (rw e at h)))
]

pub forget-first : (p : ℕ) (qs : List ℕ) → contains qs p ≡ false → forget p (p ∷ qs) ≡ qs
unfolding forget
forget-first p qs h = rw (==_refl p) (forget-absent p qs h)

module _ (Y : System) where
  forgetting-Post :
      (p : ℕ) (w : Worlds Y) (r : Outcome Error (Unit {0}) × Worlds Y)
      → contains w.visited p ≡ false
      → Post Y (record w { visited = p ∷ w.visited }) r
      → Post Y w (r.0, record r.1 { visited = forget p r.1.visited })
  forgetting-Post p w (ok u, w') new h = rw h (forget-first p w.visited new)
  forgetting-Post p w (err e, w') new h = rw h (forget-first p w.visited new)
  forgetting-Post p w (panic, w') new h = tt
  forgetting-Post p w (out_of_fuel, w') new h = tt

  module _ (dst src : Ref) (k : Ref → Exec Y (Unit {0})) (hk : (s : Ref) → Balanced Y (k s)) where
    copy_elem-Balanced : (s : Option Ref) → Balanced Y (copy_elem Y dst k s)
    copy_elem-Balanced none = set_zero-Balanced Y dst
    copy_elem-Balanced (some s) = hk s

    abbrev rest : Exec Y (Unit {0})
    rest = elem_at Y src >>= copy_elem Y dst k

    rest-Balanced : Balanced Y rest
    rest-Balanced = bind-Balanced Y _ _ (elem_at-Balanced Y src) copy_elem-Balanced

    module _ (nil : Heap → Outcome Error Bool) (ptr : Heap → Outcome Error ℕ)
        (is_nil_eq : (w : Worlds Y) → is_nil Y src w ≡ (nil w.heap, w))
        (pointer_eq : (w : Worlds Y) → pointer_of Y src w ≡ (ptr w.heap, w)) where
      marked_Post :
          (w : Worlds Y) (p : ℕ)
          → nil w.heap ≡ ok false
          → ptr w.heap ≡ ok p
          → contains w.visited p ≡ false
          → Post Y w (then_forget Y src rest (record w { visited = p ∷ w.visited }))
      unfolding then_forget forgetting
      marked_Post w p n e new =
          let w' = record w { visited = p ∷ w.visited } in
          rw (is_nil_eq w') (
            rw n (
              rw (pointer_eq w')
                (rw e (forgetting-Post p w (rest w') new (Balanced-at Y rest-Balanced w')))))

      -- A pointer that is not nil, by whether it is marked.
      pointer_Post :
          (w : Worlds Y) (o : Outcome Error ℕ)
          → nil w.heap ≡ ok false
          → ptr w.heap ≡ o
          → Post Y w (
              continue
                (λ skip. if skip then set_zero Y dst else then_forget Y src rest)
                fail
                (continue (visit_pointer Y) fail (o, w)))
      unfolding visit_pointer
      pointer_Post w (ok p) n e = elim (Bool-cases (contains w.visited p)) [
        | inr new ↦ rw new (marked_Post w p n e new)
        | inl old ↦ rw old (elim (Bool-cases (is_skip_policy Y Y.env.ctx.circular_ref)) [
          | inl skip ↦ rw skip (Balanced-at Y (set_zero-Balanced Y dst) w)
          | inr stop ↦ rw stop refl
        ])
      ]
      pointer_Post w (err x) n e = refl
      pointer_Post w panic n e = tt
      pointer_Post w out_of_fuel n e = tt

      copied_Post :
          (w : Worlds Y) (o : Outcome Error Bool)
          → nil w.heap ≡ o
          → Post Y w (copy_pointed Y dst src k w)
      unfolding copy_pointed check_circular_ref then_forget
      copied_Post w (ok true) n =
          rw (is_nil_eq w) (rw n (rw (is_nil_eq w) (rw n (Balanced-at Y rest-Balanced w))))
      copied_Post w (ok false) n =
          rw (is_nil_eq w) (rw n (rw (pointer_eq w) (pointer_Post w (ptr w.heap) n refl)))
      copied_Post w (err x) n = rw (is_nil_eq w) (rw n refl)
      copied_Post w panic n = rw (is_nil_eq w) (rw n tt)
      copied_Post w out_of_fuel n = rw (is_nil_eq w) (rw n tt)

    copy_pointed-by :
        Reads Y (is_nil Y src) → Reads Y (pointer_of Y src) → Balanced Y (copy_pointed Y dst src k)
    copy_pointed-by (reads nil e) (reads ptr f) =
        balanced (λ w. copied_Post nil ptr e f w (nil w.heap) refl)

    pub copy_pointed-Balanced : Balanced Y (copy_pointed Y dst src k)
    copy_pointed-Balanced = copy_pointed-by (is_nil-Reads Y src) (pointer_of-Reads Y src)
