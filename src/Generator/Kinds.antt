-- ===== src/Generator/Kinds.antt =====
-- How a field is copied, by its type: isFlatGoType, classifyType and typeName of
-- cmd/fastcopier-gen/main.go.
pub mod Flatness
use Prim.Native.Char.{code}
use fastcopier.Base.{
  ℕ, zero, suc, String, Bool, true, false, List, [], ◌∷◌, ◌==◌, nat_eq, if◌then◌else◌, Option, none,
  some,
}
use fastcopier.Base.Outcome.{Outcome, ok, out_of_fuel, ◌>>=◌}
use fastcopier.GoTypes.{StructField, Desc, basic, array, mapping, pointer, slice, struct}
use fastcopier.Generator.Universe.{Universe, as_named, as_pointer}

-- typeKind
pub data TypeKind : Type 0 where
  flat slice_flat slice_struct map_flat map_complex pointer_to nested fallback : TypeKind

unfoldable pub flat_go_fields : (ℕ → Outcome String Bool) → List StructField → Outcome String Bool
flat_go_fields test [] = ok true
flat_go_fields test (sf ∷ fs) =
    test sf.typ >>= λ b. elim b [ false ↦ ok false | true ↦ flat_go_fields test fs ]

-- A *types.Signature is `basic func`.
unfoldable pub flat_go_desc : (ℕ → Outcome String Bool) → Desc → Outcome String Bool
flat_go_desc test (basic b) = ok true
flat_go_desc test (array e n) = test e
flat_go_desc test (struct fs) = flat_go_fields test fs
flat_go_desc test _ = ok false

abbrev pub is_struct : Desc → Bool
is_struct (struct fs) = true
is_struct _ = false

-- `strings.LastIndex(s, ".")` and the part after it.
unfoldable pub after_dot : String → Option String
after_dot String.[] = none
after_dot (String.◌∷◌ c s) = elim (after_dot s) [
  | some r ↦ some r
  | none ↦ if code c == b'.' then some s else none
]

unfoldable pub base_name : String → String
base_name s = elim (after_dot s) [ none ↦ s | some r ↦ r ]

module _ (U : Universe) where
  unfoldable pub is_flat_go_type : ℕ → ℕ → Outcome String Bool
  is_flat_go_type zero t = out_of_fuel
  is_flat_go_type (suc fuel) t = flat_go_desc (is_flat_go_type fuel) (U.types.desc t)

  -- The classes of the types that are not flat.
  unfoldable pub classify_desc : ℕ → Desc → Outcome String TypeKind
  classify_desc fuel (slice e) = is_flat_go_type fuel e >>= λ b.
      if b
      then ok TypeKind.slice_flat
      else if is_struct (U.types.desc e)
      then ok TypeKind.slice_struct
      else ok TypeKind.fallback
  classify_desc fuel (mapping k e) = is_flat_go_type fuel k >>= λ b. elim b [
    | false ↦ ok TypeKind.map_complex
    | true ↦
        is_flat_go_type fuel e >>= λ c. if c then ok TypeKind.map_flat else ok TypeKind.map_complex
  ]
  classify_desc fuel (pointer e) = ok TypeKind.pointer_to
  classify_desc fuel (struct fs) = ok TypeKind.nested
  classify_desc fuel _ = ok TypeKind.fallback

  unfoldable pub classify_type : ℕ → ℕ → Outcome String TypeKind
  classify_type fuel t = is_flat_go_type fuel t >>= λ b. elim b [
    | true ↦ ok TypeKind.flat
    | false ↦ classify_desc fuel (U.types.desc t)
  ]

  -- The two cases of typeName's switch.
  unfoldable pub object_name : ℕ → Option String
  object_name t = elim (as_named U t) [
    | some n ↦ some n
    | none ↦ elim (as_pointer U t) [ none ↦ none | some e ↦ as_named U e ]
  ]

  unfoldable pub type_name : ℕ → String
  type_name t = elim (object_name t) [ some n ↦ n | none ↦ base_name (U.type_string none t) ]
