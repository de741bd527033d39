-- ===== src/Generated/Writes.antt =====
-- Writing the items of a value one by one, and writing the value.
use fastcopier.Base.{
  ℕ, zero, suc, ◌<◌, ◌≡◌, refl, sym, ap, ◌∙◌, List, [], ◌∷◌, ◌++◌, ◌==◌, nat_eq, list_eq, string_eq,
  some, inl, inr, Bool-cases, Option-cases, eqb_iff,
}
use fastcopier.Execution.Items.{get-below}
use fastcopier.Execution.Memory.{get-set}
use fastcopier.Store.{
  Place, below, Value, Values, Heap, items, value, no_values, count_values, get_value, set_value,
  read_at, write_at, read_place, write_place,
}
use mathlib.Core.Option.{some-injective}
use mathlib.Core.Path.{fun_ext, subst}

set-set : (us : Values) (i : ℕ) (v w : Value) → set_value (set_value us i v) i w ≡ set_value us i w
unfolding set_value
set-set no_values i v w = refl
set-set (value u us) zero v w = refl
set-set (value u us) (suc i) v w = ap (value u) (set-set us i v w)

set-same : (us : Values) (i : ℕ) {v : Value} → get_value us i ≡ some v → set_value us i v ≡ us
unfolding get_value set_value
set-same no_values i h = refl
set-same (value u us) zero h = ap (λ x. value x us) (sym (some-injective u _ h))
set-same (value u us) (suc i) h = ap (value u) (set-same us i h)

-- Writing one item of a value, and writing the value with the item replaced.
write_at-item :
    (a : Value) (path : List ℕ) (i : ℕ) (us : Values) (v : Value)
    → read_at a path ≡ some (items us)
    → i < count_values us
    → write_at a (path ++ (i ∷ [])) v ≡ write_at a path (items (set_value us i v))
unfolding read_at write_at
write_at-item (items us) [] i ws v h l =
    let same : us ≡ ws = cc in
    let (u, e) = get-below us i (subst (λ x. i < count_values x) (sym same) l) in
    rw (e, write_at) (ap (λ x. items (set_value x i v)) same)
write_at-item _ [] i ws v h l = cc
write_at-item (items us) (j ∷ js) i ws v h l = elim (Option-cases (get_value us j)) [
  | inl n ↦ cc (rw (n, read_at) at h)
  | inr (u, n) ↦
      rw (n, write_at)
        (ap (λ x. items (set_value us j x)) (write_at-item u js i ws v (rw (n, read_at) at h) l))
]
write_at-item _ (j ∷ js) i ws v h l = cc

write_at-twice :
    (a : Value) (path : List ℕ) (u v w : Value)
    → read_at a path ≡ some u
    → write_at (write_at a path v) path w ≡ write_at a path w
unfolding read_at write_at
write_at-twice a [] u v w h = refl
write_at-twice (items us) (j ∷ js) u v w h = elim (Option-cases (get_value us j)) [
  | inl n ↦ cc (rw (n, read_at) at h)
  | inr (x, n) ↦
      rw (n, write_at)
        (rw (get-set us j x (write_at x js v) n, write_at)
          (ap items (
            set-set us j (write_at x js v) (write_at (write_at x js v) js w)
            ∙ ap (set_value us j) (write_at-twice x js u v w (rw (n, read_at) at h)))))
]
write_at-twice _ (j ∷ js) u v w h = cc

write_at-same :
    (a : Value) (path : List ℕ) (v : Value) → read_at a path ≡ some v → write_at a path v ≡ a
unfolding read_at write_at
write_at-same a [] v h = sym (some-injective a v h)
write_at-same (items us) (j ∷ js) v h = elim (Option-cases (get_value us j)) [
  | inl n ↦ cc (rw (n, read_at) at h)
  | inr (x, n) ↦
      rw (n, write_at)
        (ap items
          (ap (set_value us j) (write_at-same x js v (rw (n, read_at) at h)) ∙ set-same us j n))
]
write_at-same _ (j ∷ js) v h = cc

-- Two memories with the same blocks.
same_blocks :
    (h : Heap) {f g : ℕ → Value}
    → ((b : ℕ) → f b ≡ g b)
    → ◌≡◌ {A = Heap} (record h { block = f }) (record h { block = g })
same_blocks h e = ap (λ f. record h { block = f }) (fun_ext e)

module _ (p : Place) (h : Heap) (us : Values) (holds : read_place h p ≡ some (items us)) where
  pub write_place-item :
      (i : ℕ) (v : Value)
      → i < count_values us
      → write_place (below p i) v h ≡ write_place p (items (set_value us i v)) h
  unfolding write_place read_place
  write_place-item i v l = same_blocks h λ b. elim (Bool-cases (b == p.block)) [
    | inr other ↦ rw other refl
    | inl here ↦ rw here (
        subst
          (λ x.
            write_at (h.block x) (p.path ++ (i ∷ [])) v
            ≡ write_at (h.block x) p.path (items (set_value us i v)))
          (sym ((eqb_iff b p.block).0 here))
          (write_at-item (h.block p.block) p.path i us v holds l))
  ]

module _ (p : Place) (h : Heap) (u : Value) (holds : read_place h p ≡ some u) where
  pub write_place-twice : (v w : Value) → write_place p w (write_place p v h) ≡ write_place p w h
  unfolding write_place read_place
  write_place-twice v w = same_blocks h λ b. elim (Bool-cases (b == p.block)) [
    | inr other ↦ rw other refl
    | inl here ↦ rw here (
        subst
          (λ x. write_at (write_at (h.block x) p.path v) p.path w ≡ write_at (h.block x) p.path w)
          (sym ((eqb_iff b p.block).0 here)) (write_at-twice (h.block p.block) p.path u v w holds))
  ]

  pub write_place-same : write_place p u h ≡ h
  unfolding write_place read_place
  write_place-same = same_blocks h λ b. elim (Bool-cases (b == p.block)) [
    | inr other ↦ rw other refl
    | inl here ↦ rw here (
        subst (λ x. write_at (h.block x) p.path u ≡ h.block x) (sym ((eqb_iff b p.block).0 here))
          (write_at-same (h.block p.block) p.path u holds))
  ]
