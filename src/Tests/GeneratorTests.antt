-- ===== src/Tests/GeneratorTests.antt =====
-- cmd/fastcopier-gen on the types of internal/gentest, and its theorems at concrete inputs.
use fastcopier.Base.{
  ℕ, zero, suc, String, [], list_eq, nat_eq, refl, string_eq, ◌∷◌, ◌≡◌, List, Bool, true, false,
  arith, ◌≢◌,
}
use fastcopier.Base.Outcome.{ok}
use fastcopier.Base.Dict.{lookup}
use fastcopier.Context.{trim_space, is_space}
use fastcopier.Fields.{split_comma}
use fastcopier.Flat.Total.{IsFinite}
use fastcopier.Flat.{FlatCache, is_flat_type}
use fastcopier.Generator.Command.{keep_names, split_names}
use fastcopier.Generator.Command.Names.{join_comma, has_comma, has_space, split_names-join_comma}
use fastcopier.Generator.Kinds.{is_flat_go_type}
use fastcopier.Generator.Kinds.Flatness.{is_flat_go_type-is_flat_type}
use fastcopier.Generator.Matching.{FieldPair, match_fields, embedded_struct, var_at}
use fastcopier.Generator.Matching.Leaves.{leaves, leaf_loop, leaf_step}
use fastcopier.Generator.Matching.Pairing.{match_fields-paired, paired, unique}
use fastcopier.Generator.Universe.{Universe, Named, Var, named}
use fastcopier.Gentest.Declared.{
  gentest_universe, user_dto, user_entity, user_dto_fields, user_entity_fields, field,
}
use fastcopier.GoTypes.{Desc, StructField, struct, array, basic, Basic}

names_split : split_names " Simple,, Nested ,Complex" ≡ "Simple" ∷ "Nested" ∷ "Complex" ∷ []
unfolding split_names keep_names trim_space split_comma
names_split = refl

split_names-join_comma_example :
    split_names (join_comma ("Simple" ∷ "Nested" ∷ [])) ≡ "Simple" ∷ "Nested" ∷ []
unfolding has_comma has_space is_space
split_names-join_comma_example =
    split_names-join_comma ("Simple" ∷ "Nested" ∷ []) ((refl, refl, refl), ((refl, refl, refl), tt))

abbrev struct_named : ℕ → String → Named
struct_named t n = record { typ = t; name = n }

abbrev dto : Named
dto = struct_named user_dto "UserDTO"

abbrev entity : Named
entity = struct_named user_entity "UserEntity"

-- The fields of a struct of internal/gentest are its leaves.
abbrev own_vars : ℕ → ℕ → List StructField → List Var
own_vars id i [] = []
own_vars id i (sf ∷ fs) = var_at id i sf ∷ own_vars id (suc i) fs

abbrev same_named : List Var → List Var → List FieldPair
same_named (f ∷ fs) (g ∷ gs) = record { dst_field = f; src_field = g } ∷ same_named fs gs
same_named _ _ = []

-- The password has no field to go to.
match_fields-paired_example :
    match_fields gentest_universe 1 dto entity
    ≡ ok (
        same_named
          (own_vars user_dto 0 user_dto_fields)
          (own_vars user_entity 0 user_entity_fields))
unfolding leaves leaf_loop leaf_step embedded_struct paired unique
match_fields-paired_example =
    match_fields-paired gentest_universe 1 dto entity
      (record { id = user_dto; fields = user_dto_fields })
      (record { id = user_entity; fields = user_entity_fields })
      (own_vars user_dto 0 user_dto_fields) (own_vars user_entity 0 user_entity_fields) refl refl
      refl refl

-- Type 0 is a struct, and each other one a struct that embeds the one before.
abbrev chain_desc : ℕ → Desc
chain_desc zero = struct (field "X" 100 ∷ [])
chain_desc (suc t) = struct (record (field "Base" t) { anonymous = true } ∷ [])

abbrev chain : Universe
chain = record {
  types = record {
    desc = chain_desc;
    name = λ t. "T";
    underlying = λ t. t;
    implements = λ t i. false;
  };
  form = λ t. named "T";
  struct_id = λ t. t;
  type_string = λ q t. "T";
}

-- Type 0 is int, and each other one an array of the one before.
abbrev grid_desc : ℕ → Desc
grid_desc zero = basic Basic.int
grid_desc (suc t) = array t 2

abbrev grid : Universe
grid = record chain {
  types = record {
    desc = grid_desc;
    name = λ t. "T";
    underlying = λ t. t;
    implements = λ t i. false;
  };
}

grid-IsFinite : IsFinite grid.types (λ t. t)
grid-IsFinite zero = tt
grid-IsFinite (suc t) = omega arith

grid-safe : (t : ℕ) → grid.types.desc t ≢ basic Basic.unsafe_pointer
grid-safe zero e = cc
grid-safe (suc t) e = cc

is_flat_go_type-is_flat_type_example :
    (b : Bool) × (c' : FlatCache) × (is_flat_go_type grid 4 3 ≡ ok b)
    × (is_flat_type grid.types 4 3 [] ≡ ok (b, c'))
unfolding lookup
is_flat_go_type-is_flat_type_example =
    is_flat_go_type-is_flat_type grid grid-safe (λ t. t) grid-IsFinite 4 3 [] (omega arith)
      (λ t v e. cc)
