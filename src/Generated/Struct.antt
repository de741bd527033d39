-- ===== src/Generated/Struct.antt =====
-- The copier that cmd/fastcopier-gen writes for a flat struct type.
use fastcopier.Base.{
  ℕ, suc, String, ◌≡◌, refl, ap, ◌∙◌, Bool, true, false, ◌&&◌, ◌||◌, List, [], ◌∷◌, ◌==◌, ==_refl,
  ==_comm, string_eq, some, arith, All, nat_eq,
}
use fastcopier.Base.Outcome.{Outcome, ok, ◌>>=◌}
use fastcopier.Generated.Assigns.{assigns, Distinct}
use fastcopier.Generator.Code.{Stmt, stmt_of, stmts_of, any_calls_library, render_all, stmt_of_kind}
use fastcopier.Generator.Code.Printed.{or_false}
use fastcopier.Generator.Code.Rendered.{body_lines-printed}
use fastcopier.Generator.Kinds.{is_flat_go_type, classify_type}
use fastcopier.Generator.Lines.{Generator, copier_name}
use fastcopier.Generator.Matching.{FieldPair, match_fields, embedded_struct, var_at}
use fastcopier.Generator.Matching.Leaves.{leaves, leaf_loop, leaf_step}
use fastcopier.Generator.Matching.Pairing.{unique, paired, has_name, match_fields-paired}
use fastcopier.Generator.Source.{gen_func}
use fastcopier.Generator.Universe.{Universe, Named, Struct, Var, struct_at}
use fastcopier.GoTypes.{StructField, struct}

abbrev vars : ℕ → ℕ → List StructField → List Var
vars id i [] = []
vars id i (sf ∷ fs) = var_at id i sf ∷ vars id (suc i) fs

-- A field that the struct declares itself, that other packages see.
abbrev pub IsOwn : StructField → Type 0
IsOwn sf = (sf.anonymous ≡ false) × (sf.exported ≡ true)

leaf_loop-vars :
    (U : Universe) (walk : Struct → Outcome String (List Var)) (id i : ℕ) (fs : List StructField)
    → All IsOwn fs
    → leaf_loop U walk id i fs ≡ ok (vars id i fs)
unfolding leaf_loop leaf_step embedded_struct
leaf_loop-vars U walk id i [] h = refl
leaf_loop-vars U walk id i (sf ∷ fs) h = simp (h.0.0, leaf_loop-vars U walk id (suc i) fs h.1)

leaves-vars :
    (U : Universe) (fuel : ℕ) (st : Struct)
    → All IsOwn st.fields
    → leaves U (suc fuel) st ≡ ok (vars st.id 0 st.fields)
unfolding leaves
leaves-vars U fuel st h = leaf_loop-vars U (leaves U fuel) st.id 0 st.fields h

has_name-apart :
    (k : String) (id i : ℕ) (fs : List StructField)
    → All (λ g. (g.name == k) ≡ false) fs
    → has_name k (vars id i fs) ≡ false
has_name-apart k id i [] h = refl
has_name-apart k id i (f ∷ fs) h =
    rw (==_comm k f.name, h.0, has_name-apart k id (suc i) fs h.1) (and-false f.exported)
  where
    and-false : (b : Bool) → (b && false || false) ≡ false
    and-false b = ground arith

-- Each of the fields is the only one of its name.
abbrev Sole : List Var → List Var → Type 0
Sole all fs = All (λ f. unique f.field.name all ≡ some f) fs

Sole-later :
    (f : StructField) (id i j : ℕ) (all : List Var) (fs : List StructField)
    → All (λ g. (g.name == f.name) ≡ false) fs
    → Sole all (vars id j fs)
    → Sole (var_at id i f ∷ all) (vars id j fs)
unfolding unique
Sole-later f id i j all [] apart h = tt
Sole-later f id i j all (g ∷ fs) apart h =
    (rw apart.0 (rw (and-false f.exported) h.0), Sole-later f id i (suc j) all fs apart.1 h.1)
  where
    and-false : (b : Bool) → (b && false) ≡ false
    and-false b = ground arith

Distinct-Sole :
    (id i : ℕ) (fs : List StructField)
    → All IsOwn fs
    → Distinct fs
    → Sole (vars id i fs) (vars id i fs)
unfolding unique
Distinct-Sole id i [] own h = tt
Distinct-Sole id i (f ∷ fs) own h = (
  simp (own.0.1, ==_refl f.name, has_name-apart f.name id (suc i) fs h.0),
  Sole-later f id i (suc i) (vars id (suc i) fs) fs h.0 (Distinct-Sole id (suc i) fs own.1 h.1),
)

abbrev pairs_of : List Var → List FieldPair
pairs_of [] = []
pairs_of (f ∷ fs) = record { dst_field = f; src_field = f } ∷ pairs_of fs

paired-pairs_of :
    (all : List Var) (id i : ℕ) (fs : List StructField)
    → All IsOwn fs
    → Sole all (vars id i fs)
    → paired all all (vars id i fs) ≡ pairs_of (vars id i fs)
unfolding paired
paired-pairs_of all id i [] own h = refl
paired-pairs_of all id i (f ∷ fs) own h =
    simp (own.0.1, h.0)
      (ap (◌∷◌ (record { dst_field = var_at id i f; src_field = var_at id i f }))
        (paired-pairs_of all id (suc i) fs own.1 h.1))

module _ (U : Universe) (g : Generator) where
  stmts_of-assigns :
      (fuel id i : ℕ) (fs : List StructField)
      → All (λ sf. is_flat_go_type U fuel sf.typ ≡ ok true) fs
      → stmts_of U g fuel (pairs_of (vars id i fs)) ≡ ok (assigns fs)
  unfolding stmts_of stmt_of stmt_of_kind classify_type assigns
  stmts_of-assigns fuel id i [] h = refl
  stmts_of-assigns fuel id i (f ∷ fs) h = rw h.0 (rw (stmts_of-assigns fuel id (suc i) fs h.1) refl)

  any_calls_library-assigns : (fs : List StructField) → any_calls_library (assigns fs) ≡ false
  unfolding any_calls_library assigns
  any_calls_library-assigns [] = refl
  any_calls_library-assigns (f ∷ fs) = any_calls_library-assigns fs

  -- The statements of the copier for two types: one for each pair of fields.
  abbrev pub copier_stmts : ℕ → Named → Named → Outcome String (List Stmt)
  copier_stmts fuel d s = match_fields U fuel d s >>= stmts_of U g fuel

  module _ (fuel t : ℕ) (n : String) (fs : List StructField) (e : U.types.desc t ≡ struct fs)
      (own : All IsOwn fs) (distinct : Distinct fs) where
    own_vars : List Var
    own_vars = vars (U.struct_id t) 0 fs

    st : Struct
    st = record { id = U.struct_id t; fields = fs }

    own_matched :
        match_fields U (suc fuel) (record { typ = t; name = n }) (record { typ = t; name = n })
        ≡ ok (pairs_of (vars (U.struct_id t) 0 fs))
    unfolding own_vars st
    own_matched =
        match_fields-paired U (suc fuel) (record { typ = t; name = n })
          (record { typ = t; name = n }) st st own_vars own_vars (ap (struct_at (U.struct_id t)) e)
          (ap (struct_at (U.struct_id t)) e) (leaves-vars U fuel st own) (leaves-vars U fuel st own)
        ∙ ap ok (
            paired-pairs_of own_vars (U.struct_id t) 0 fs own
              (Distinct-Sole (U.struct_id t) 0 fs own distinct))

    -- The copier of a struct type with its own exported flat fields is made of assignments.
    pub copier_stmts-assigns :
        All (λ sf. is_flat_go_type U (suc fuel) sf.typ ≡ ok true) fs
        → copier_stmts (suc fuel) (record { typ = t; name = n }) (record { typ = t; name = n })
          ≡ ok (assigns fs)
    copier_stmts-assigns flat =
        rw own_matched (stmts_of-assigns (suc fuel) (U.struct_id t) 0 fs flat)

  -- For a struct type whose fields are its own, exported, of flat types and of different names,
  -- genFunc emits one assignment for each field, in order, and nothing that calls the library.
  pub gen_func-assigns :
      (fuel t : ℕ) (n : String) (fs : List StructField) (needs : Bool)
      → U.types.desc t ≡ struct fs
      → All IsOwn fs
      → Distinct fs
      → All (λ sf. is_flat_go_type U (suc fuel) sf.typ ≡ ok true) fs
      → gen_func U
          (suc fuel)
          g
          (record { dst = record { typ = t; name = n }; src = record { typ = t; name = n } })
          needs
        ≡ ok (
          record {
            func_name = copier_name n n;
            dst_type = n;
            src_type = n;
            lines = render_all U g (assigns fs);
          },
          needs,
        )
  unfolding gen_func
  gen_func-assigns fuel t n fs needs e own distinct flat =
      rw (own_matched fuel t n fs e own distinct) (
        rw (body_lines-printed U g (suc fuel) (pairs_of (vars (U.struct_id t) 0 fs)) needs) (
          rw (stmts_of-assigns (suc fuel) (U.struct_id t) 0 fs flat)
            (rw (any_calls_library-assigns fs, or_false needs) refl)))
