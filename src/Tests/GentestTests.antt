-- ===== src/Tests/GentestTests.antt =====
-- cmd/fastcopier-gen on internal/gentest: the file that it writes, and the theorems on its functions.
use fastcopier.Base.{
  false, contains, ℕ, String, [], list_eq, nat_eq, refl, some, string_eq, none, ◌==◌, ◌<>◌, ◌∷◌,
  ◌≡◌, List,
}
use fastcopier.Base.Outcome.{Outcome, ok, ◌>>=◌, panic}
use fastcopier.Base.Dict.{lookup, insert, erase}
use fastcopier.Context.{trim_space}
use fastcopier.Fields.{split_comma}
use fastcopier.Generated.Assigns.{assigns}
use fastcopier.Generated.Struct.{gen_func-assigns}
use fastcopier.Generator.Code.{Stmt, render_all, stmts_of, own_copier, stmt_of, stmt_of_kind}
use fastcopier.Generator.Code.Known.{func_names}
use fastcopier.Generator.Command.Written.{IsOutput, run_command-IsOutput}
use fastcopier.Generator.Command.{keep_names, split_names}
use fastcopier.Generator.Command.{
  Flags, Host, run_command, load_package, has_go_mod, fail_with, pick_package, checked_package,
  first_package, is_test_package, collect_pairs, same_type_pairs, named_struct, lookup_struct,
  generated_text, written,
}
use fastcopier.Generator.Kinds.{
  is_flat_go_type, after_dot, base_name, classify_desc, classify_type, flat_go_desc, flat_go_fields,
  object_name, type_name,
}
use fastcopier.Generator.Lines.{
  Generator, copier_name, element_copier, field_lines, lines_of_kind, slice_flat_lines, map_lines,
  map_body, struct_lines, slice_struct_lines, field_call, call_line, reuse_or_make, unless_nil,
  type_str, qualifier,
}
use fastcopier.Generator.Matching.{
  match_fields, embedded_struct, flatten_fields, collect_fields, collect_loop, collect_step,
  flatten_field_list, visit, visit_loop, visit_step, pair_fields, list_field, is_listed, add_field,
}
use fastcopier.Generator.Source.{
  GenFunc, TypePair, gen_func, gen_funcs, new_generator, know_pair, body_lines, file_text, generate,
  without_output, format_source,
}
use fastcopier.Generator.Universe.{Named}
use fastcopier.Gentest.Copiers.{simple_body, nested_body, complex_body, user_body}
use fastcopier.Gentest.Declared.{
  simples, gentest_info, gentest_universe, simple, complex, nested, user_dto, user_entity,
  simple_fields,
}

abbrev struct_named : ℕ → String → Named
struct_named t n = record { typ = t; name = n }

abbrev dto : Named
dto = struct_named user_dto "UserDTO"

abbrev entity : Named
entity = struct_named user_entity "UserEntity"

abbrev same_type : Named → TypePair
same_type n = record { dst = n; src = n }

abbrev gentest_pairs : List TypePair
gentest_pairs =
    same_type (struct_named simple "Simple")
    ∷ same_type (struct_named nested "Nested")
    ∷ same_type (struct_named complex "Complex")
    ∷ []

abbrev gentest_generator : Generator
gentest_generator = new_generator gentest_info gentest_pairs

-- The statements of copy_gen.go and of copy_user_gen.go are those that the generator makes.
abbrev body_of : Generator → TypePair → Outcome String (List Stmt)
body_of g p = match_fields gentest_universe 3 p.dst p.src >>= stmts_of gentest_universe g 3

abbrev user_pair : TypePair
user_pair = record { dst = dto; src = entity }

copiers_made :
    (body_of gentest_generator (same_type (struct_named simple "Simple")) ≡ ok simple_body)
    × (body_of gentest_generator (same_type (struct_named nested "Nested")) ≡ ok nested_body)
    × (body_of gentest_generator (same_type (struct_named complex "Complex")) ≡ ok complex_body)
    × (body_of (new_generator gentest_info (user_pair ∷ [])) user_pair ≡ ok user_body)
unfolding match_fields flatten_fields collect_fields collect_loop collect_step embedded_struct
    flatten_field_list visit visit_loop visit_step stmts_of pair_fields list_field is_listed
    add_field lookup insert erase own_copier stmt_of stmt_of_kind after_dot base_name classify_desc
    classify_type flat_go_desc flat_go_fields is_flat_go_type object_name type_name copier_name
    element_copier new_generator know_pair
copiers_made = (refl, refl, refl, refl)

abbrev func_of : String → String → List String → GenFunc
func_of fn typ lines = record { func_name = fn; dst_type = typ; src_type = typ; lines = lines }

abbrev gentest_funcs : List GenFunc
gentest_funcs =
    func_of "CopySimpleToSimple" "Simple" (
      "dst.Name = src.Name" ∷ "dst.Age = src.Age" ∷ "dst.Email = src.Email"
      ∷ "dst.Score = src.Score" ∷ "dst.Active = src.Active" ∷ [])
    ∷ func_of "CopyNestedToNested" "Nested" (
        "dst.ID = src.ID" ∷ "dst.Profile = src.Profile" ∷ "if src.Tags != nil {"
        ∷ "  if cap(dst.Tags) >= len(src.Tags) {" ∷ "    dst.Tags = dst.Tags[:len(src.Tags)]"
        ∷ "  } else {" ∷ "    dst.Tags = make([]string, len(src.Tags))" ∷ "  }"
        ∷ "  copy(dst.Tags, src.Tags)" ∷ "} else {" ∷ "  dst.Tags = nil" ∷ "}"
        ∷ "if src.Scores != nil {" ∷ "  if cap(dst.Scores) >= len(src.Scores) {"
        ∷ "    dst.Scores = dst.Scores[:len(src.Scores)]" ∷ "  } else {"
        ∷ "    dst.Scores = make([]int, len(src.Scores))" ∷ "  }" ∷ "  copy(dst.Scores, src.Scores)"
        ∷ "} else {" ∷ "  dst.Scores = nil" ∷ "}" ∷ [])
    ∷ func_of "CopyComplexToComplex" "Complex" (
        "dst.ID = src.ID" ∷ "dst.Name = src.Name"
        ∷ "if err := CopyNestedToNested(&dst.Nested, &src.Nested); err != nil { return err }"
        ∷ "if src.Items != nil {" ∷ "  if cap(dst.Items) >= len(src.Items) {"
        ∷ "    dst.Items = dst.Items[:len(src.Items)]" ∷ "  } else {"
        ∷ "    dst.Items = make([]Simple, len(src.Items))" ∷ "  }" ∷ "  copy(dst.Items, src.Items)"
        ∷ "} else {" ∷ "  dst.Items = nil" ∷ "}" ∷ "if src.Metadata != nil {"
        ∷ "  dst.Metadata = make(map[string]string, len(src.Metadata))"
        ∷ "  for k, v := range src.Metadata {" ∷ "    dst.Metadata[k] = v" ∷ "  }" ∷ "} else {"
        ∷ "  dst.Metadata = nil" ∷ "}" ∷ [])
    ∷ []

-- The functions of copy_gen.go, before gofmt.
funcs_made :
    gen_funcs gentest_universe 3 gentest_generator gentest_pairs false ≡ ok (gentest_funcs, false)
unfolding gen_funcs gen_func body_lines field_lines lines_of_kind slice_flat_lines map_lines
    map_body struct_lines field_call call_line reuse_or_make unless_nil type_str qualifier
    match_fields flatten_fields collect_fields collect_loop collect_step embedded_struct
    flatten_field_list visit visit_loop visit_step stmts_of pair_fields list_field is_listed
    add_field lookup insert erase own_copier stmt_of stmt_of_kind after_dot base_name classify_desc
    classify_type flat_go_desc flat_go_fields is_flat_go_type object_name type_name copier_name
    element_copier new_generator know_pair
funcs_made = refl

gen_func-assigns_example :
    gen_func gentest_universe 3 gentest_generator (same_type (struct_named simple "Simple")) false
    ≡ ok (
      record {
        func_name = copier_name "Simple" "Simple";
        dst_type = "Simple";
        src_type = "Simple";
        lines = render_all gentest_universe gentest_generator (assigns simple_fields);
      },
      false,
    )
unfolding is_flat_go_type flat_go_desc
gen_func-assigns_example =
    gen_func-assigns gentest_universe gentest_generator 2 simple "Simple" simple_fields false refl
      ((refl, refl), ((refl, refl), ((refl, refl), ((refl, refl), ((refl, refl), tt)))))
      (
        (refl, (refl, (refl, (refl, tt)))),
        ((refl, (refl, (refl, tt))), ((refl, (refl, tt)), ((refl, tt), (tt, tt)))),
      )
      (refl, (refl, (refl, (refl, (refl, tt)))))

abbrev gentest_host : Host
gentest_host = record {
  absolute = λ p. ok "/repo/internal/gentest";
  join = λ a b. a <> "/" <> b;
  parent_dir = λ p. "/repo";
  exists_file = λ p. p == "/repo/go.mod";
  environ = [];
  load = λ dir env. ok (record { name = "gentest"; types = some gentest_info; errors = [] } ∷ []);
  format = ok;
  quote = λ s. s;
  write_file = λ p t. none;
}

abbrev gentest_flags : Flags
gentest_flags = record {
  types = "Simple,Nested,Complex";
  src = "";
  dst = "";
  out_name = "copy_gen.go";
  pkg_dir = ".";
}

-- The command writes these functions to copy_gen.go.
command_run :
    run_command gentest_host gentest_universe 3 gentest_flags
    ≡ ok (
      "/repo/internal/gentest/copy_gen.go",
      file_text (record { pkg_name = "gentest"; has_copy_fallback = false; funcs = gentest_funcs }),
    )
unfolding run_command load_package has_go_mod fail_with pick_package checked_package first_package
    is_test_package collect_pairs same_type_pairs named_struct lookup_struct split_names keep_names
    trim_space split_comma generated_text written generate without_output format_source
command_run = rw funcs_made refl

run_command-IsOutput_example : IsOutput gentest_host gentest_universe 3 gentest_flags (
  "/repo/internal/gentest/copy_gen.go",
  file_text (record { pkg_name = "gentest"; has_copy_fallback = false; funcs = gentest_funcs }),
)
run_command-IsOutput_example =
    run_command-IsOutput gentest_host gentest_universe 3 gentest_flags
      (
        "/repo/internal/gentest/copy_gen.go",
        file_text
            (record { pkg_name = "gentest"; has_copy_fallback = false; funcs = gentest_funcs }),
      )
      refl command_run

-- For a cross-type pair, a field of the source's own type gets a call of a function that the file
-- does not have.
undefined_call :
    (struct_lines gentest_universe
        (new_generator gentest_info (user_pair ∷ []))
        "Owner"
        user_entity
        false
      ≡ (
        "if err := CopyUserEntityToUserEntity(&dst.Owner, &src.Owner); err != nil { return err }"
            ∷ [],
        false,
      ))
    × (contains (func_names (user_pair ∷ [])) "CopyUserEntityToUserEntity" ≡ false)
unfolding struct_lines field_call call_line type_name object_name copier_name new_generator
    know_pair func_names
undefined_call = (refl, refl)

-- A slice of structs whose namesake in the destination is no slice.
no_slice_panic :
    slice_struct_lines gentest_universe gentest_generator "Items" simples user_dto false ≡ panic
unfolding slice_struct_lines
no_slice_panic = refl
