-- ===== src/Gentest/Copiers.antt =====
-- internal/gentest/copy_gen.go and copy_user_gen.go: the generated copiers.
use fastcopier.Base.{List, [], ◌∷◌}
use fastcopier.Generated.{Copier, Setting, run_stmts}
use fastcopier.Generator.Code.{Stmt, generated, assign, slice_copy, map_copy, call}
use fastcopier.Gentest.Declared.{
  strings, ints, simples, string_map, simple_fields, nested_fields, complex_fields,
  user_entity_fields, user_dto_fields,
}

abbrev pub simple_body : List Stmt
simple_body = assign "Name" ∷ assign "Age" ∷ assign "Email" ∷ assign "Score" ∷ assign "Active" ∷ []

abbrev pub nested_body : List Stmt
nested_body =
    assign "ID" ∷ assign "Profile" ∷ slice_copy "Tags" strings ∷ slice_copy "Scores" ints ∷ []

abbrev pub complex_body : List Stmt
complex_body =
    assign "ID"
    ∷ assign "Name"
    ∷ call "Nested" (generated "CopyNestedToNested")
    ∷ slice_copy "Items" simples
    ∷ map_copy "Metadata" string_map
    ∷ []

abbrev pub user_body : List Stmt
user_body = assign "ID" ∷ assign "Name" ∷ assign "Email" ∷ []

-- What the four functions do, where the statement `call` leads to the function it names.
unfoldable pub copy_simple_to_simple : Setting → Copier
copy_simple_to_simple G = run_stmts G simple_fields simple_fields simple_body

unfoldable pub copy_nested_to_nested : Setting → Copier
copy_nested_to_nested G = run_stmts G nested_fields nested_fields nested_body

unfoldable pub copy_complex_to_complex : Setting → Copier
copy_complex_to_complex G =
    run_stmts (record G { callee = λ fn. copy_nested_to_nested G }) complex_fields complex_fields
      complex_body

unfoldable pub copy_user_entity_to_user_dto : Setting → Copier
copy_user_entity_to_user_dto G = run_stmts G user_dto_fields user_entity_fields user_body
