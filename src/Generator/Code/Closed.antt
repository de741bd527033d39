-- ===== src/Generator/Code/Closed.antt =====
-- A generated file for one type per copier calls only functions of the file, and the library:
-- generate and genFunc of cmd/fastcopier-gen/main.go.
use fastcopier.Base.{
  ℕ, String, ◌≡◌, refl, ap, ◌∙◌, sym, Bool, true, false, ◌&&◌, List, [], ◌∷◌, ◌<>◌, arith, inl, inr,
  if◌then◌else◌, Option, some, Bool-cases, Option-cases, contains, string_eq, All, ◌==◌,
}
use fastcopier.Base.Dict.{lookup}
use fastcopier.Base.Outcome.{Outcome, ok, ◌>>=◌, >>=-eq-ok, ok-injective}
use fastcopier.GoTypes.{or_panic}
use fastcopier.Generator.Universe.{Universe}
use fastcopier.Generator.Matching.{FieldPair, match_fields}
use fastcopier.Generator.Kinds.{TypeKind, is_flat_go_type, classify_type, type_name}
use fastcopier.Generator.Lines.{
  PkgInfo, Generator, slice_elem_of, map_elem_of, pointer_elem_of, copier_name, element_copier,
}
use fastcopier.Generator.Source.{TypePair, GenFunc, new_generator, body_lines, gen_func, gen_funcs}
use fastcopier.Generator.Code.{
  Callee, Stmt, library, generated, callee_of, callee_or_library, render_all, stmt_of, stmt_of_kind,
  stmts_of, own_copier, pointer_new, pointer_deref,
}
use fastcopier.Generator.Code.Known.{Knows, func_names, new_generator-Knows}
use fastcopier.Generator.Code.Rendered.{body_lines-printed}
use mathlib.Core.Path.{subst}

abbrev pub declared : List GenFunc → List String
declared [] = []
declared (fn ∷ fns) = fn.func_name ∷ declared fns

abbrev pub Calls : List String → Option Callee → Type 0
Calls names (some (generated fn)) = contains names fn ≡ true
Calls names _ = Unit

-- A function whose body is the text of statements that call only these functions, or
-- fastcopier.Copy.
pub record IsClosed (U : Universe) (g : Generator) (names : List String) (fn : GenFunc)
    : Type 0 where
  pub stmts : List Stmt
  pub body : fn.lines ≡ render_all U g stmts
  pub calls : All (λ s. Calls names (callee_of s)) stmts

module _ (U : Universe) (g : Generator) (names : List String) (k : Knows names g) where
  own_copier-Calls : (n : String) → Calls names (some (own_copier U g n))
  unfolding own_copier
  own_copier-Calls n = elim (Bool-cases (contains g.known_types n)) [
    | inl known ↦ rw (known, own_copier) (k.of_type n known)
    | inr other ↦ rw (other, own_copier) tt
  ]

  element_copier-Calls :
      (m n : String) → Calls names (some (callee_or_library (element_copier U g m n)))
  unfolding element_copier
  element_copier-Calls m n = elim (Option-cases (lookup (m <> "->" <> n) g.known_pairs)) [
    | inr (fn, e) ↦ rw (e, element_copier) (k.of_pair _ fn e)
    | inl absent ↦ elim (Bool-cases (contains g.known_types m && m == n)) [
      | inl both ↦ rw (absent, element_copier, both) (k.of_type m (and-first _ _ both))
      | inr other ↦ rw (absent, element_copier, other) tt
    ]
  ]
    where
      and-first : (a b : Bool) → (a && b) ≡ true → a ≡ true
      and-first a b h = ground arith

  made : {r s : Stmt} → r ≡ s → Calls names (callee_of r) → Calls names (callee_of s)
  made e h = subst (λ x. Calls names (callee_of x)) e h

  deref-Calls :
      (f : String) (m : ℕ) (c : Bool) {s : Stmt}
      → ◌≡◌ {A = Outcome String Stmt}
          (if c then ok (pointer_deref f) else ok (pointer_new f m library))
          (ok s)
      → Calls names (callee_of s)
  deref-Calls f m true e = made (ok-injective e) tt
  deref-Calls f m false e = made (ok-injective e) tt

  pointed-Calls :
      (fuel : ℕ) (f : String) (m : ℕ) (b : Bool) {s : Stmt}
      → (if b
          then ok (pointer_new f m (own_copier U g (type_name U m)))
          else (is_flat_go_type U fuel m >>= λ c.
              if c then ok (pointer_deref f) else ok (pointer_new f m library)))
        ≡ ok s
      → Calls names (callee_of s)
  pointed-Calls fuel f m true e = made (ok-injective e) (own_copier-Calls (type_name U m))
  pointed-Calls fuel f m false e =
      let (c, e₁, e₂) = >>=-eq-ok (is_flat_go_type U fuel m) _ e in deref-Calls f m c e₂

  stmt_of_kind-Calls :
      (fuel : ℕ) (fp : FieldPair) (kind : TypeKind) (s : Stmt)
      → stmt_of_kind U g fuel fp kind ≡ ok s
      → Calls names (callee_of s)
  unfolding stmt_of_kind
  stmt_of_kind-Calls fuel fp TypeKind.flat s e = made (ok-injective e) tt
  stmt_of_kind-Calls fuel fp TypeKind.slice_flat s e = made (ok-injective e) tt
  stmt_of_kind-Calls fuel fp TypeKind.slice_struct s e =
      let (m, e₁, e₂) =
        >>=-eq-ok (or_panic (slice_elem_of (U.types.desc fp.src_field.field.typ))) _ e in
      let (n, e₃, e₄) =
        >>=-eq-ok (or_panic (slice_elem_of (U.types.desc fp.dst_field.field.typ))) _ e₂ in
      made (ok-injective e₄) (element_copier-Calls (type_name U m) (type_name U n))
  stmt_of_kind-Calls fuel fp TypeKind.map_flat s e = made (ok-injective e) tt
  stmt_of_kind-Calls fuel fp TypeKind.map_complex s e =
      let (m, e₁, e₂) =
        >>=-eq-ok (or_panic (map_elem_of (U.types.desc fp.src_field.field.typ))) _ e in
      made (ok-injective e₂) tt
  stmt_of_kind-Calls fuel fp TypeKind.pointer_to s e =
      let (m, e₁, e₂) =
        >>=-eq-ok (or_panic (pointer_elem_of (U.types.desc fp.src_field.field.typ))) _ e in
      pointed-Calls fuel fp.dst_field.field.name m (contains g.known_types (type_name U m)) e₂
  stmt_of_kind-Calls fuel fp TypeKind.nested s e =
      made (ok-injective e) (own_copier-Calls (type_name U fp.src_field.field.typ))
  stmt_of_kind-Calls fuel fp TypeKind.fallback s e = made (ok-injective e) tt

  stmts_of-Calls :
      (fuel : ℕ) (fps : List FieldPair) (ss : List Stmt)
      → stmts_of U g fuel fps ≡ ok ss
      → All (λ s. Calls names (callee_of s)) ss
  unfolding stmts_of stmt_of
  stmts_of-Calls fuel [] ss e = subst (All (λ s. Calls names (callee_of s))) (ok-injective e) tt
  stmts_of-Calls fuel (fp ∷ fps) ss e =
      let (s, e₁, e₂) = >>=-eq-ok (stmt_of U g fuel fp) _ e in
      let (more, e₃, e₄) = >>=-eq-ok (stmts_of U g fuel fps) _ e₂ in
      let (kind, e₅, e₆) = >>=-eq-ok (classify_type U fuel fp.src_field.field.typ) _ e₁ in
      subst (All (λ s. Calls names (callee_of s))) (ok-injective e₄)
        (stmt_of_kind-Calls fuel fp kind s e₆, stmts_of-Calls fuel fps more e₃)

  -- What a generated function is: closed, and named after its types.
  abbrev Made : TypePair → GenFunc → Type 0
  Made p fn = IsClosed U g names fn × (fn.func_name ≡ copier_name p.src.name p.dst.name)

  gen_func-IsClosed :
      (fuel : ℕ) (p : TypePair) (needs : Bool) (r : GenFunc × Bool)
      → gen_func U fuel g p needs ≡ ok r
      → Made p r.0
  unfolding gen_func
  gen_func-IsClosed fuel p needs r e =
      let (fps, e₁, e₂) = >>=-eq-ok (match_fields U fuel p.dst p.src) _ e in
      let (lines, e₃, e₄) = >>=-eq-ok (body_lines U fuel g fps needs) _ e₂ in
      let (ss, e₅, e₆) =
        >>=-eq-ok (stmts_of U g fuel fps) _ (sym (body_lines-printed U g fuel fps needs) ∙ e₃) in
      subst (λ x. Made p x.0) (ok-injective e₄)
        (
          record {
            stmts = ss;
            body = sym (ap (λ x. x.0) (ok-injective e₆));
            calls = stmts_of-Calls fuel fps ss e₅;
          },
          refl,
        )

  gen_funcs-IsClosed :
      (fuel : ℕ) (ps : List TypePair) (needs : Bool) (r : List GenFunc × Bool)
      → gen_funcs U fuel g ps needs ≡ ok r
      → All (IsClosed U g names) r.0 × (declared r.0 ≡ func_names ps)
  unfolding gen_funcs func_names
  gen_funcs-IsClosed fuel [] needs r e =
      subst (λ x. All (IsClosed U g names) x.0 × (declared x.0 ≡ [])) (ok-injective e) (tt, refl)
  gen_funcs-IsClosed fuel (p ∷ ps) needs r e =
      let (first, e₁, e₂) = >>=-eq-ok (gen_func U fuel g p needs) _ e in
      let (more, e₃, e₄) = >>=-eq-ok (gen_funcs U fuel g ps first.1) _ e₂ in
      let head = gen_func-IsClosed fuel p needs first e₁ in
      let tail = gen_funcs-IsClosed fuel ps first.1 more e₃ in
      subst
        (λ x.
          All (IsClosed U g names) x.0
          × (declared x.0 ≡ copier_name p.src.name p.dst.name ∷ func_names ps))
        (ok-injective e₄) ((head.0, tail.0), ap2 head.1 tail.1)
    where
      ap2 : {a b : String} {xs bs : List String} → a ≡ b → xs ≡ bs → (a ∷ xs) ≡ (b ∷ bs)
      ap2 p q = cc

-- Where every copier is asked for between two types of one name, as -types asks for them, each
-- function of the generated file has a body that is the text of statements for fields, and
-- the functions that these call are fastcopier.Copy and functions of the same file.
pub generated-IsClosed :
    (U : Universe) (fuel : ℕ) (pkg : PkgInfo) (ps : List TypePair) (r : List GenFunc × Bool)
    → All (λ p. p.src.name ≡ p.dst.name) ps
    → gen_funcs U fuel (new_generator pkg ps) ps false ≡ ok r
    → All (IsClosed U (new_generator pkg ps) (declared r.0)) r.0
generated-IsClosed U fuel pkg ps r same e =
    let h =
      gen_funcs-IsClosed U (new_generator pkg ps) (func_names ps) (new_generator-Knows pkg ps same)
        fuel ps false r e in
    subst (λ names. All (IsClosed U (new_generator pkg ps) names) r.0) (sym h.1) h.0

-- The functions that are generated are those of the pairs, in their order.
pub generated-declared :
    (U : Universe) (fuel : ℕ) (pkg : PkgInfo) (ps : List TypePair) (r : List GenFunc × Bool)
    → All (λ p. p.src.name ≡ p.dst.name) ps
    → gen_funcs U fuel (new_generator pkg ps) ps false ≡ ok r
    → declared r.0 ≡ func_names ps
generated-declared U fuel pkg ps r same e =
    (gen_funcs-IsClosed U (new_generator pkg ps) (func_names ps) (new_generator-Knows pkg ps same)
      fuel ps false r e).1
