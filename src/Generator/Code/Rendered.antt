-- ===== src/Generator/Code/Rendered.antt =====
-- The lines that fieldLines and the loop of genFunc emit are the text of statements:
-- cmd/fastcopier-gen/main.go.
use fastcopier.Base.{ℕ, String, ◌≡◌, refl, ap, Bool, ◌||◌, List, [], ◌∷◌, ◌++◌, arith, string_eq}
use fastcopier.Base.Outcome.{Outcome, ok, err, panic, out_of_fuel, ◌>>=◌}
use fastcopier.Generator.Universe.{Universe}
use fastcopier.Generator.Matching.{FieldPair}
use fastcopier.Generator.Kinds.{TypeKind, classify_type}
use fastcopier.Generator.Lines.{Generator, field_lines, lines_of_kind, map_lines}
use fastcopier.Generator.Code.Printed.{
  or_false, or_true, printed, slice_struct_lines-printed, map_lines-printed, pointer_lines-printed,
  struct_lines-printed,
}
use fastcopier.Generator.Source.{body_lines}
use fastcopier.Generator.Code.{
  Stmt, calls_library, any_calls_library, render, render_all, stmt_of, stmt_of_kind, stmts_of,
}

module _ (U : Universe) (g : Generator) where
  lines_of_kind-printed :
      (fuel : ℕ) (fp : FieldPair) (needs : Bool) (k : TypeKind)
      → lines_of_kind U g fuel fp needs k
        ≡ (stmt_of_kind U g fuel fp k >>= λ s. ok (printed U g needs s))
  unfolding lines_of_kind stmt_of_kind render map_lines
  lines_of_kind-printed fuel fp needs TypeKind.flat = rw (or_false needs) refl
  lines_of_kind-printed fuel fp needs TypeKind.slice_flat = rw (or_false needs) refl
  lines_of_kind-printed fuel fp needs TypeKind.slice_struct =
      slice_struct_lines-printed U g fp.dst_field.field.name fp.src_field.field.typ
        fp.dst_field.field.typ needs
  lines_of_kind-printed fuel fp needs TypeKind.map_flat = rw (or_false needs) refl
  lines_of_kind-printed fuel fp needs TypeKind.map_complex =
      map_lines-printed U g fp.dst_field.field.name fp.src_field.field.typ needs
  lines_of_kind-printed fuel fp needs TypeKind.pointer_to =
      pointer_lines-printed U g fuel fp.dst_field.field.name fp.src_field.field.typ needs
  lines_of_kind-printed fuel fp needs TypeKind.nested =
      ap ok (struct_lines-printed U g fp.dst_field.field.name fp.src_field.field.typ needs)
  lines_of_kind-printed fuel fp needs TypeKind.fallback = rw (or_true needs) refl

  field_lines-printed :
      (fuel : ℕ) (fp : FieldPair) (needs : Bool)
      → field_lines U g fuel fp needs ≡ (stmt_of U g fuel fp >>= λ s. ok (printed U g needs s))
  unfolding field_lines stmt_of
  field_lines-printed fuel fp needs = go (classify_type U fuel fp.src_field.field.typ)
    where
      go :
          (m : Outcome String TypeKind)
          → (m >>= lines_of_kind U g fuel fp needs)
            ≡ (m >>= stmt_of_kind U g fuel fp >>= λ s. ok (printed U g needs s))
      go (ok k) = lines_of_kind-printed fuel fp needs k
      go (err e) = refl
      go panic = refl
      go out_of_fuel = refl

  abbrev printed_all : Bool → List Stmt → List String × Bool
  printed_all needs ss = (render_all U g ss, needs || any_calls_library ss)

  abbrev joined : List String → List String × Bool → List String × Bool
  joined lines r = (lines ++ r.0, r.1)

  or_assoc : (a b c : Bool) → ((a || b) || c) ≡ (a || (b || c))
  or_assoc a b c = ground arith

  -- The body of a generated function is the text of the statements for its fields, in order, and
  -- the flag says whether one of them calls fastcopier.Copy.
  pub body_lines-printed :
      (fuel : ℕ) (fps : List FieldPair) (needs : Bool)
      → body_lines U fuel g fps needs ≡ (stmts_of U g fuel fps >>= λ ss. ok (printed_all needs ss))
  unfolding body_lines stmts_of render_all any_calls_library
  body_lines-printed fuel [] needs = rw (or_false needs) refl
  body_lines-printed fuel (fp ∷ fps) needs =
      rw (field_lines-printed fuel fp needs)
        (go (stmt_of U g fuel fp) (λ s. body_lines-printed fuel fps (needs || calls_library s)))
    where
      rest :
          (s : Stmt) (m : Outcome String (List Stmt))
          → ◌≡◌ {A = Outcome String (List String × Bool)}
              ((m >>= λ ss. ok (printed_all (needs || calls_library s) ss)) >>= λ r.
                ok (joined (render U g s) r))
              ((m >>= λ more. ok (s ∷ more)) >>= λ ss. ok (printed_all needs ss))
      rest s (ok ss) =
          ap (λ b. ok (render U g s ++ render_all U g ss, b))
            (or_assoc needs (calls_library s) (any_calls_library ss))
      rest s (err e) = refl
      rest s panic = refl
      rest s out_of_fuel = refl

      go :
          (m : Outcome String Stmt)
          → ((s : Stmt)
              → body_lines U fuel g fps (needs || calls_library s)
                ≡ (stmts_of U g fuel fps >>= λ ss. ok (printed_all (needs || calls_library s) ss)))
          → ◌≡◌ {A = Outcome String (List String × Bool)}
              ((m >>= λ s. ok (printed U g needs s)) >>= λ r.
                body_lines U fuel g fps r.1 >>= λ r'. ok (joined r.0 r'))
              ((m >>= λ s. stmts_of U g fuel fps >>= λ more. ok (s ∷ more)) >>= λ ss.
                ok (printed_all needs ss))
      go (ok s) h = rw (h s) (rest s (stmts_of U g fuel fps))
      go (err e) h = refl
      go panic h = refl
      go out_of_fuel h = refl
