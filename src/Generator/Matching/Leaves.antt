-- ===== src/Generator/Matching/Leaves.antt =====
-- The recursions of collectFields and of visit go over one list: the fields that are not
-- descended into, in the order of declaration.
use fastcopier.Base.{
  ℕ, zero, suc, String, ◌≡◌, refl, sym, ap, ◌∙◌, List, [], ◌∷◌, ◌++◌, none, some, inl, inr,
  Option-cases,
}
use fastcopier.Base.Outcome.{Outcome, ok, err, panic, out_of_fuel, ◌>>=◌}
use fastcopier.Generator.Matching.{
  Collected, add_field, collect_fields, collect_loop, collect_step, embedded_struct, var_at, visit,
  visit_loop, visit_step, list_field,
}
use fastcopier.Generator.Universe.{Universe, Struct, Var}
use fastcopier.GoTypes.{StructField}

-- What an embedded struct stands for, and a field that embeds none.
unfoldable pub leaf_step :
    Universe → (Struct → Outcome String (List Var)) → Var → Outcome String (List Var)
leaf_step U rec f = elim (embedded_struct U f.field) [ some st ↦ rec st | none ↦ ok (f ∷ []) ]

unfoldable pub leaf_loop :
    Universe
    → (Struct → Outcome String (List Var))
    → ℕ
    → ℕ
    → List StructField
    → Outcome String (List Var)
leaf_loop U rec id i [] = ok []
leaf_loop U rec id i (sf ∷ fs) =
    leaf_step U rec (var_at id i sf) >>= λ vs. leaf_loop U rec id (suc i) fs >>= λ ws. ok (vs ++ ws)

unfoldable pub leaves : Universe → ℕ → Struct → Outcome String (List Var)
leaves U zero st = out_of_fuel
leaves U (suc fuel) st = leaf_loop U (leaves U fuel) st.id 0 st.fields

module _ {S : Type 0} (step : Var → S → S) where
  -- A step for each of the fields, in order.
  unfoldable pub each : List Var → S → S
  each [] s = s
  each (f ∷ fs) s = each fs (step f s)

  each-append : (vs ws : List Var) (s : S) → each (vs ++ ws) s ≡ each ws (each vs s)
  unfolding each
  each-append [] ws s = refl
  each-append (v ∷ vs) ws s = each-append vs ws (step v s)

  -- The run of a loop over one field and then over the others, as a run over their leaves.
  each-bind :
      (m l : Outcome String (List Var)) (s : S) (next : S → Outcome String S)
      → ((s' : S) → next s' ≡ (l >>= λ ws. ok (each ws s')))
      → ((m >>= λ vs. ok (each vs s)) >>= next)
        ≡ ((m >>= λ vs. l >>= λ ws. ok (vs ++ ws)) >>= λ us. ok (each us s))
  each-bind (err e) l s next h = refl
  each-bind panic l s next h = refl
  each-bind out_of_fuel l s next h = refl
  each-bind (ok vs) (ok ws) s next h = h (each vs s) ∙ ap ok (sym (each-append vs ws s))
  each-bind (ok vs) (err e) s next h = h (each vs s)
  each-bind (ok vs) panic s next h = h (each vs s)
  each-bind (ok vs) out_of_fuel s next h = h (each vs s)

  -- A recursion that treats the leaves of a struct by the step.
  abbrev pub RunsOver :
      (Struct → S → Outcome String S) → (Struct → Outcome String (List Var)) → Type 0
  RunsOver run walk = (st : Struct) (s : S) → run st s ≡ (walk st >>= λ vs. ok (each vs s))

module _ (U : Universe) where
  collect_step-RunsOver :
      (run : Struct → Collected → Outcome String Collected)
      (walk : Struct → Outcome String (List Var))
      → RunsOver add_field run walk
      → (f : Var) (s : Collected)
      → collect_step U run f s ≡ (leaf_step U walk f >>= λ vs. ok (each add_field vs s))
  unfolding collect_step leaf_step each
  collect_step-RunsOver run walk h f s = elim (Option-cases (embedded_struct U f.field)) [
    | inl e ↦ rw (e, collect_step, leaf_step) refl
    | inr (st, e) ↦ rw (e, collect_step, leaf_step) (h st s)
  ]

  collect_loop-RunsOver :
      (run : Struct → Collected → Outcome String Collected)
      (walk : Struct → Outcome String (List Var))
      → RunsOver add_field run walk
      → (id i : ℕ) (fs : List StructField) (s : Collected)
      → collect_loop U run id i fs s ≡ (leaf_loop U walk id i fs >>= λ vs. ok (each add_field vs s))
  unfolding collect_loop leaf_loop each
  collect_loop-RunsOver run walk h id i [] s = refl
  collect_loop-RunsOver run walk h id i (sf ∷ fs) s =
      let next = collect_loop U run id (suc i) fs in
      ap (λ m. m >>= next) (collect_step-RunsOver run walk h (var_at id i sf) s)
      ∙ each-bind add_field (leaf_step U walk (var_at id i sf)) (leaf_loop U walk id (suc i) fs) s
          next (collect_loop-RunsOver run walk h id (suc i) fs)

  pub collect_fields-leaves :
      (fuel : ℕ) → RunsOver add_field (collect_fields U fuel) (leaves U fuel)
  unfolding collect_fields leaves
  collect_fields-leaves zero st s = refl
  collect_fields-leaves (suc fuel) st s =
      collect_loop-RunsOver (collect_fields U fuel) (leaves U fuel) (collect_fields-leaves fuel)
        st.id 0 st.fields s

  visit_step-RunsOver :
      (c : Collected) (run : Struct → List Var → Outcome String (List Var))
      (walk : Struct → Outcome String (List Var))
      → RunsOver (list_field c) run walk
      → (f : Var) (out : List Var)
      → visit_step U run c f out ≡ (leaf_step U walk f >>= λ vs. ok (each (list_field c) vs out))
  unfolding visit_step leaf_step each
  visit_step-RunsOver c run walk h f out = elim (Option-cases (embedded_struct U f.field)) [
    | inl e ↦ rw (e, visit_step, leaf_step) refl
    | inr (st, e) ↦ rw (e, visit_step, leaf_step) (h st out)
  ]

  visit_loop-RunsOver :
      (c : Collected) (run : Struct → List Var → Outcome String (List Var))
      (walk : Struct → Outcome String (List Var))
      → RunsOver (list_field c) run walk
      → (id i : ℕ) (fs : List StructField) (out : List Var)
      → visit_loop U run c id i fs out
        ≡ (leaf_loop U walk id i fs >>= λ vs. ok (each (list_field c) vs out))
  unfolding visit_loop leaf_loop each
  visit_loop-RunsOver c run walk h id i [] out = refl
  visit_loop-RunsOver c run walk h id i (sf ∷ fs) out =
      let next = visit_loop U run c id (suc i) fs in
      ap (λ m. m >>= next) (visit_step-RunsOver c run walk h (var_at id i sf) out)
      ∙ each-bind (list_field c) (leaf_step U walk (var_at id i sf))
          (leaf_loop U walk id (suc i) fs) out next (visit_loop-RunsOver c run walk h id (suc i) fs)

  pub visit-leaves :
      (c : Collected) (fuel : ℕ) → RunsOver (list_field c) (visit U c fuel) (leaves U fuel)
  unfolding visit leaves
  visit-leaves c zero st out = refl
  visit-leaves c (suc fuel) st out =
      visit_loop-RunsOver c (visit U c fuel) (leaves U fuel) (visit-leaves c fuel) st.id 0 st.fields
        out
