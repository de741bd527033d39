-- ===== src/Generator/Matching/Depth.antt =====
-- When the recursion of collectFields ends: cmd/fastcopier-gen/main.go.
use fastcopier.Base.{ℕ, zero, suc, ◌≡◌, refl, ◌<◌, List, ◌∷◌, some, All}
use fastcopier.Base.Outcome.{Outcome, out_of_fuel}
use fastcopier.Generator.Matching.{embedded_struct, flatten_fields, match_fields, nothing_collected}
use fastcopier.Generator.Matching.Leaves.{leaves, leaf_step, leaf_loop, collect_fields-leaves}
use fastcopier.Generator.Universe.{Universe, Struct, Named, underlying_struct}
use fastcopier.GoTypes.{StructField}

-- The struct that a field embeds, if any, lies below.
abbrev EmbedsBelow : Universe → (ℕ → ℕ) → Struct → StructField → Type 0
EmbedsBelow U rank st sf =
    (inner : Struct) → embedded_struct U sf ≡ some inner → rank inner.id < rank st.id

module _ (U : Universe) where
  -- No struct embeds itself, directly or through others: `rank` falls from a struct to those
  -- that it embeds.
  abbrev pub IsFounded : (ℕ → ℕ) → Type 0
  IsFounded rank =
      (t : ℕ) (st : Struct)
      → underlying_struct U t ≡ some st
      → All (EmbedsBelow U rank st) st.fields

  leaves-endless :
      (s : Struct) (sf : StructField) (more : List StructField)
      → s.fields ≡ sf ∷ more
      → embedded_struct U sf ≡ some s
      → (fuel : ℕ) → leaves U fuel s ≡ out_of_fuel
  unfolding leaves leaf_loop leaf_step
  leaves-endless s sf more fields e zero = refl
  leaves-endless s sf more fields e (suc fuel) =
      rw (fields, leaf_loop) (rw (e, leaf_step) (rw (leaves-endless s sf more fields e fuel) refl))

  -- A struct type whose first field embeds a pointer to the type sends matchFields into a recursion
  -- without end, whatever the fuel: `type T struct { *T }` is valid Go.
  pub match_fields-endless :
      (fuel : ℕ) (dst src : Named) (s : Struct) (sf : StructField) (more : List StructField)
      → underlying_struct U src.typ ≡ some s
      → s.fields ≡ sf ∷ more
      → embedded_struct U sf ≡ some s
      → match_fields U fuel dst src ≡ out_of_fuel
  unfolding match_fields flatten_fields
  match_fields-endless fuel dst src s sf more es fields e =
      rw
        (
          es,
          collect_fields-leaves U fuel s nothing_collected,
          leaves-endless s sf more fields e fuel,
        )
        refl
