-- ===== src/Generator/Code/Printed.antt =====
-- The text of each statement is what the helper of fieldLines for it emits:
-- cmd/fastcopier-gen/main.go.
use fastcopier.Base.{
  ℕ, String, ◌≡◌, refl, Bool, true, false, ◌||◌, List, arith, if◌then◌else◌, Option, none, some,
  contains, string_eq,
}
use fastcopier.Base.Outcome.{Outcome, ok, err, panic, out_of_fuel, ◌>>=◌}
use fastcopier.GoTypes.{or_panic}
use fastcopier.Generator.Universe.{Universe}
use fastcopier.Generator.Kinds.{is_flat_go_type, type_name}
use fastcopier.Generator.Lines.{
  Generator, slice_elem_of, map_elem_of, pointer_elem_of, copier_name, element_copier,
  slice_struct_lines, map_lines, pointer_lines, struct_lines, slice_struct_body, deref_lines,
  new_lines, field_call,
}
use fastcopier.Generator.Code.{
  Stmt, slice_loop, map_loop, pointer_new, pointer_deref, call, library, generated, calls_library,
  render, own_copier, callee_or_library,
}

pub or_false : (b : Bool) → (b || false) ≡ b
or_false b = ground arith

pub or_true : (b : Bool) → (b || true) ≡ true
or_true b = ground arith

module _ (U : Universe) (g : Generator) where
  -- The lines of a statement, and the flag that it leaves.
  abbrev pub printed : Bool → Stmt → List String × Bool
  printed needs s = (render U g s, needs || calls_library s)

  element-printed :
      (f : String) (t : ℕ) (needs : Bool) (o : Option String)
      → ◌≡◌ {A = Outcome String (List String × Bool)}
          (elim o [
            | some fn ↦ ok (slice_struct_body U g f t fn, needs)
            | none ↦ ok (slice_struct_body U g f t "fastcopier.Copy", true)
          ])
          (ok (printed needs (slice_loop f t (callee_or_library o))))
  unfolding render
  element-printed f t needs none = rw (or_true needs) refl
  element-printed f t needs (some fn) = rw (or_false needs) refl

  pub slice_struct_lines-printed :
      (f : String) (s d : ℕ) (needs : Bool)
      → slice_struct_lines U g f s d needs ≡ (
          (or_panic (slice_elem_of (U.types.desc s)) >>= λ se.
          or_panic (slice_elem_of (U.types.desc d)) >>= λ de. ok (
            slice_loop f d
              (callee_or_library (element_copier U g (type_name U se) (type_name U de)))))
          >>= λ st. ok (printed needs st))
  unfolding slice_struct_lines
  slice_struct_lines-printed f s d needs =
      go (slice_elem_of (U.types.desc s)) (slice_elem_of (U.types.desc d))
    where
      go :
          (o p : Option ℕ)
          → (or_panic {E = String} o >>= λ se. or_panic p >>= λ de.
              elim (element_copier U g (type_name U se) (type_name U de)) [
                | some fn ↦ ok (slice_struct_body U g f d fn, needs)
                | none ↦ ok (slice_struct_body U g f d "fastcopier.Copy", true)
              ])
            ≡ ((or_panic {E = String} o >>= λ se. or_panic p >>= λ de. ok (
                  slice_loop f d
                    (callee_or_library (element_copier U g (type_name U se) (type_name U de)))))
                >>= λ st. ok (printed needs st))
      go none p = refl
      go (some se) none = refl
      go (some se) (some de) =
          element-printed f d needs (element_copier U g (type_name U se) (type_name U de))

  pub map_lines-printed :
      (f : String) (t : ℕ) (needs : Bool)
      → map_lines U g f t true needs ≡ (
          (or_panic (map_elem_of (U.types.desc t)) >>= λ e. ok (map_loop f t e)) >>= λ st.
          ok (printed needs st))
  unfolding map_lines render
  map_lines-printed f t needs = go (map_elem_of (U.types.desc t))
    where
      go :
          (o : Option ℕ)
          → (or_panic {E = String} o >>= λ e. ok (render U g (map_loop f t e), true)) ≡ (
              (or_panic {E = String} o >>= λ e. ok (map_loop f t e)) >>= λ st.
              ok (printed needs st))
      go none = refl
      go (some e) = rw (or_true needs) refl

  pub pointer_lines-printed :
      (fuel : ℕ) (f : String) (t : ℕ) (needs : Bool)
      → pointer_lines U g fuel f t needs ≡ (
          (or_panic (pointer_elem_of (U.types.desc t)) >>= λ e.
          if contains g.known_types (type_name U e)
          then ok (pointer_new f e (own_copier U g (type_name U e)))
          else (is_flat_go_type U fuel e >>= λ b.
              if b then ok (pointer_deref f) else ok (pointer_new f e library)))
          >>= λ st. ok (printed needs st))
  unfolding pointer_lines render own_copier
  pointer_lines-printed fuel f t needs = go (pointer_elem_of (U.types.desc t))
    where
      flat :
          (e : ℕ) (m : Outcome String Bool)
          → (m >>= λ b.
              if b
              then ok (deref_lines f, needs)
              else ok (new_lines f (type_name U e) "fastcopier.Copy", true))
            ≡ ((m >>= λ b. if b then ok (pointer_deref f) else ok (pointer_new f e library))
                >>= λ st. ok (printed needs st))
      flat e (ok true) = rw (or_false needs) refl
      flat e (ok false) = rw (or_true needs) refl
      flat e (err x) = refl
      flat e panic = refl
      flat e out_of_fuel = refl

      known :
          (e : ℕ) (b : Bool)
          → (if b
              then ok
                  (new_lines f (type_name U e) (copier_name (type_name U e) (type_name U e)), needs)
              else (is_flat_go_type U fuel e >>= λ b.
                  if b
                  then ok (deref_lines f, needs)
                  else ok (new_lines f (type_name U e) "fastcopier.Copy", true)))
            ≡ ((if b
                  then ok (
                      pointer_new f e (
                        if b
                        then generated (copier_name (type_name U e) (type_name U e))
                        else library))
                  else (is_flat_go_type U fuel e >>= λ b.
                      if b then ok (pointer_deref f) else ok (pointer_new f e library)))
                >>= λ st. ok (printed needs st))
      known e true = rw (or_false needs) refl
      known e false = flat e (is_flat_go_type U fuel e)

      go :
          (o : Option ℕ)
          → (or_panic {E = String} o >>= λ e.
              if contains g.known_types (type_name U e)
              then ok
                  (new_lines f (type_name U e) (copier_name (type_name U e) (type_name U e)), needs)
              else (is_flat_go_type U fuel e >>= λ b.
                  if b
                  then ok (deref_lines f, needs)
                  else ok (new_lines f (type_name U e) "fastcopier.Copy", true)))
            ≡ ((or_panic {E = String} o >>= λ e.
                  if contains g.known_types (type_name U e)
                  then ok (pointer_new f e (own_copier U g (type_name U e)))
                  else (is_flat_go_type U fuel e >>= λ b.
                      if b then ok (pointer_deref f) else ok (pointer_new f e library)))
                >>= λ st. ok (printed needs st))
      go none = refl
      go (some e) = known e (contains g.known_types (type_name U e))

  pub struct_lines-printed :
      (f : String) (t : ℕ) (needs : Bool)
      → struct_lines U g f t needs ≡ printed needs (call f (own_copier U g (type_name U t)))
  unfolding struct_lines render own_copier
  struct_lines-printed f t needs = go (contains g.known_types (type_name U t))
    where
      go :
          (b : Bool)
          → (if b
              then (field_call f (copier_name (type_name U t) (type_name U t)), needs)
              else (field_call f "fastcopier.Copy", true))
            ≡ printed needs (
                call f
                  (if b then generated (copier_name (type_name U t) (type_name U t)) else library))
      go true = rw (or_false needs) refl
      go false = rw (or_true needs) refl
