-- ===== src/Flat.antt =====
-- engine.go: the bit mask of the scalar kinds, and the memoised test for flat types.
pub mod Mask
pub mod Correct
pub mod Total
use Prim.Native.Nat.{bit_and, bit_or}
use fastcopier.Base.{
  ℕ, zero, suc, ◌^◌, Bool, true, false, List, [], ◌∷◌, foldl, ltb, nat_eq, Option, some, none,
}
use fastcopier.Base.Dict.{Dict, lookup, insert}
use fastcopier.Base.Outcome.{Outcome, ok, out_of_fuel, ◌>>=◌}
use fastcopier.Errors.{Error}
use fastcopier.GoTypes.{Types, StructField, Desc, Basic, array, struct, basic_kind, kind_of}

abbrev scalar_list : List ℕ
scalar_list =
    basic_kind Basic.bool
    ∷ basic_kind Basic.string
    ∷ basic_kind Basic.int
    ∷ basic_kind Basic.int8
    ∷ basic_kind Basic.int16
    ∷ basic_kind Basic.int32
    ∷ basic_kind Basic.int64
    ∷ basic_kind Basic.uint
    ∷ basic_kind Basic.uint8
    ∷ basic_kind Basic.uint16
    ∷ basic_kind Basic.uint32
    ∷ basic_kind Basic.uint64
    ∷ basic_kind Basic.float32
    ∷ basic_kind Basic.float64
    ∷ basic_kind Basic.complex64
    ∷ basic_kind Basic.complex128
    ∷ basic_kind Basic.uintptr
    ∷ basic_kind Basic.func
    ∷ []

unfoldable pub scalar_kinds : ℕ
scalar_kinds = foldl (λ n k. bit_or n (2 ^ k)) 0 scalar_list

-- `scalarKinds & (1 << k) > 0`
unfoldable pub is_scalar : ℕ → Bool
unfolding scalar_kinds
is_scalar k = ltb 0 (bit_and scalar_kinds (2 ^ k))

-- flatCache
abbrev pub FlatCache : Type 0
FlatCache = Dict ℕ Bool

abbrev pub FlatTest : Type 0
FlatTest = ℕ → FlatCache → Outcome Error (Bool × FlatCache)

-- The loop over the fields stops at the first that is not flat.
unfoldable pub flat_fields :
    FlatTest → List StructField → FlatCache → Outcome Error (Bool × FlatCache)
flat_fields test [] c = ok (true, c)
flat_fields test (sf ∷ fs) c =
    test sf.typ c >>= λ r. elim r.0 [ false ↦ ok (false, r.1) | true ↦ flat_fields test fs r.1 ]

unfoldable pub compute_flat_type : FlatTest → Desc → FlatCache → Outcome Error (Bool × FlatCache)
compute_flat_type test (struct fs) c = flat_fields test fs c
compute_flat_type test (array e n) c = test e c
compute_flat_type test d c = ok (is_scalar (kind_of d), c)

abbrev pub remember : ℕ → Bool × FlatCache → Outcome Error (Bool × FlatCache)
remember t (result, c) = ok (result, insert t result c)

module _ (T : Types) where
  unfoldable pub is_flat_type : ℕ → FlatTest
  is_flat_type zero t c = out_of_fuel
  is_flat_type (suc fuel) t c = elim (lookup t c) [
    | some v ↦ ok (v, c)
    | none ↦ compute_flat_type (is_flat_type fuel) (T.desc t) c >>= remember t
  ]
