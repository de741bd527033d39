-- ===== src/Execution/Items.antt =====
-- The items of a slice in a memory: reading them in turn, and writing them over others.
use fastcopier.Base.{
  List, Option, Option-cases, [], ap, arith, inl, inr, list_eq, nat_eq, none, refl, some, string_eq,
  suc, zero, ℕ, ◌++◌, ◌<◌, ◌∙◌, ◌∷◌, ◌≡◌,
}
use fastcopier.Store.{
  Value, Values, count_values, get_value, items, no_values, read_at, repeat_value, set_value, value,
}

-- `n` values from an index on, if there are as many.
unfoldable pub taken : Values → ℕ → ℕ → Option Values
taken vs i zero = some no_values
taken vs i (suc n) =
    let rest = taken vs (suc i) n in
    elim (get_value vs i) [
      | some v ↦ elim rest [ some ws ↦ some (value v ws) | none ↦ none ]
      | none ↦ none
    ]

-- The first of the values taken, and the others.
pub taken-first :
    (vs : Values) (i n : ℕ) {ws : Values}
    → taken vs i (suc n) ≡ some ws
    → (v : Value) × (us : Values) × (get_value vs i ≡ some v)
      × (taken vs (suc i) n ≡ some us)
      × (ws ≡ value v us)
unfolding taken
taken-first vs i n h = elim (Option-cases (get_value vs i)) [
  | inl e ↦ cc (rw (e, taken) at h)
  | inr (v, e) ↦ elim (Option-cases (taken vs (suc i) n)) [
    | inl f ↦ cc (rw (e, taken, f) at h)
    | inr (us, f) ↦ (v, us, e, f, cc (rw (e, taken, f) at h))
  ]
]

unfoldable pub overwrite : Values → ℕ → Values → Values
unfolding set_value
overwrite us i no_values = us
overwrite us i (value w ws) = overwrite (set_value us i w) (suc i) ws

overwrite-later :
    (u : Value) (us : Values) (i : ℕ) (ws : Values)
    → overwrite (value u us) (suc i) ws ≡ value u (overwrite us i ws)
unfolding overwrite set_value
overwrite-later u us i no_values = refl
overwrite-later u us i (value w ws) = overwrite-later u (set_value us i w) (suc i) ws

-- As many values as there are replace all.
pub overwrite-all : (us ws : Values) → count_values us ≡ count_values ws → overwrite us 0 ws ≡ ws
unfolding overwrite set_value count_values
overwrite-all no_values no_values h = refl
overwrite-all no_values (value w ws) h = absurd (omega (arith, h))
overwrite-all (value u us) no_values h = absurd (omega (arith, h))
overwrite-all (value u us) (value w ws) h =
    overwrite-later w us 0 ws ∙ ap (λ vs. value w vs) (overwrite-all us ws (omega (arith, h)))

pub count-taken :
    (vs : Values) (i n : ℕ) {ws : Values} → taken vs i n ≡ some ws → count_values ws ≡ n
unfolding taken count_values
count-taken vs i zero h = cc
count-taken vs i (suc n) h =
    let (v, us, e, f, g) = taken-first vs i n h in rw g (ap suc (count-taken vs (suc i) n f))

pub count-repeat : (n : ℕ) (v : Value) → count_values (repeat_value n v) ≡ n
unfolding count_values repeat_value
count-repeat zero v = refl
count-repeat (suc n) v = ap suc (count-repeat n v)

pub count-set :
    (us : Values) (i : ℕ) (w : Value) → count_values (set_value us i w) ≡ count_values us
unfolding count_values set_value
count-set no_values i w = refl
count-set (value u us) zero w = refl
count-set (value u us) (suc i) w = ap suc (count-set us i w)

pub get-below :
    (us : Values) (i : ℕ) → i < count_values us → (v : Value) × (get_value us i ≡ some v)
unfolding count_values get_value
get-below no_values i h = absurd (omega (arith, h))
get-below (value u us) zero h = (u, refl)
get-below (value u us) (suc i) h = get-below us i (omega (arith, h))

-- An item of a value under a path.
pub read_at-item :
    (a : Value) (path : List ℕ) (i : ℕ) (vs : Values) (v : Value)
    → read_at a path ≡ some (items vs)
    → get_value vs i ≡ some v
    → read_at a (path ++ (i ∷ [])) ≡ some v
unfolding read_at
read_at-item (items us) [] i vs v h e =
    let same : get_value us i ≡ some v = cc in rw (same, read_at) refl
read_at-item _ [] i vs v h e = cc
read_at-item (items us) (j ∷ js) i vs v h e = elim (Option-cases (get_value us j)) [
  | inl n ↦ cc (rw (n, read_at) at h)
  | inr (u, n) ↦ rw (n, read_at) (read_at-item u js i vs v (rw (n, read_at) at h) e)
]
read_at-item _ (j ∷ js) i vs v h e = cc

-- All the values of a list, by their number.
taken-later : (u : Value) (us : Values) (i n : ℕ) → taken (value u us) (suc i) n ≡ taken us i n
unfolding taken get_value
taken-later u us i zero = refl
taken-later u us i (suc n) =
    ap
      (λ rest. elim (get_value us i) [
        | some v ↦ elim rest [ some ws ↦ some (value v ws) | none ↦ none ]
        | none ↦ none
      ])
      (taken-later u us (suc i) n)

pub taken-all : (us : Values) → taken us 0 (count_values us) ≡ some us
unfolding taken get_value count_values
taken-all no_values = refl
taken-all (value u us) = rw (taken-later u us 0 (count_values us), taken-all us) refl
