-- ===== src/Flat/Mask.antt =====
-- The mask holds exactly the scalar kinds: engine.go.
use fastcopier.Base.{◌^◌, ◌<◌, ◌≡◌, refl, Bool, true, false, nat_eq, arith}
use fastcopier.Flat.{scalar_kinds, is_scalar}
use fastcopier.GoTypes.{Desc, Basic, basic, array, kind_of}

-- Go's scalars, and functions, which an assignment shares: the basic types but unsafe.Pointer.
abbrev pub is_plain : Desc → Bool
is_plain (basic Basic.unsafe_pointer) = false
is_plain (basic _) = true
is_plain _ = false

is_scalar-basic : (b : Basic) → is_scalar (kind_of (basic b)) ≡ is_plain (basic b)
unfolding is_scalar
is_scalar-basic Basic.bool = refl
is_scalar-basic Basic.unsafe_pointer = refl
is_scalar-basic _ = refl

-- The test of the bit mask passes for exactly the basic types other than unsafe.Pointer.
pub is_scalar-is_plain : (d : Desc) → is_scalar (kind_of d) ≡ is_plain d
unfolding is_scalar
is_scalar-is_plain (basic b) = is_scalar-basic b
is_scalar-is_plain (array e n) = refl
is_scalar-is_plain _ = refl

pub scalar_kinds-lt : scalar_kinds < 2 ^ 32
unfolding scalar_kinds
scalar_kinds-lt = omega arith
