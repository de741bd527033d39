-- ===== src/Execution/Memory.antt =====
-- Reading a memory after a write or an allocation.
use fastcopier.Base.{
  ==_refl, List, Option-cases, [], false, inl, inr, list_eq, nat_eq, refl, some, string_eq, suc,
  zero, ℕ, ◌==◌, ◌∷◌, ◌≡◌,
}
use fastcopier.Store.{
  Heap, Place, Value, Values, allocate, get_value, items, no_values, read_at, read_place, set_value,
  value, write_at, write_place,
}

pub get-set :
    (vs : Values) (i : ℕ) (v w : Value)
    → get_value vs i ≡ some v
    → get_value (set_value vs i w) i ≡ some w
unfolding get_value set_value
get-set no_values i v w h = cc
get-set (value u vs) zero v w h = refl
get-set (value u vs) (suc i) v w h = get-set vs i v w h

read_at-write_at :
    (a : Value) (path : List ℕ) (v w : Value)
    → read_at a path ≡ some v
    → read_at (write_at a path w) path ≡ some w
unfolding read_at write_at
read_at-write_at a [] v w h = refl
read_at-write_at (items vs) (i ∷ is) v w h = elim (Option-cases (get_value vs i)) [
  | inl e ↦ cc (rw (e, read_at) at h)
  | inr (u, e) ↦
      rw (e, write_at)
        (rw (get-set vs i u (write_at u is w) e, read_at)
          (read_at-write_at u is v w (rw (e, read_at) at h)))
]
read_at-write_at _ (i ∷ is) v w h = cc

module _ (h : Heap) (p : Place) where
  -- A variable holds what was written to it.
  pub read_place-write_place :
      (v w : Value) → read_place h p ≡ some v → read_place (write_place p w h) p ≡ some w
  unfolding read_place write_place
  read_place-write_place v w e =
      rw (==_refl p.block) (read_at-write_at (h.block p.block) p.path v w e)

  -- A write changes no other block.
  pub read_place-other :
      (q : Place) (w : Value)
      → (q.block == p.block) ≡ false
      → read_place (write_place p w h) q ≡ read_place h q
  unfolding read_place write_place
  read_place-other q w apart = rw apart refl

  pub read_place-allocate :
      (z : Value) → (p.block == h.next) ≡ false → read_place (allocate z h) p ≡ read_place h p
  unfolding read_place allocate
  read_place-allocate z old = rw old refl
