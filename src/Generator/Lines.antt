-- ===== src/Generator/Lines.antt =====
-- The statements that copy one field: fieldLines and its helpers in cmd/fastcopier-gen/main.go.
-- The flag `needsFC` of the generator is passed along; the maps it reads do not change.
use fastcopier.Base.{
  ℕ, String, Bool, true, false, ◌&&◌, List, [], ◌∷◌, ◌++◌, ◌==◌, ◌<>◌, string_eq, contains,
  if◌then◌else◌, Option, none, some,
}
use fastcopier.Base.Dict.{Dict, lookup}
use fastcopier.Base.Outcome.{Outcome, ok, ◌>>=◌}
use fastcopier.GoTypes.{Desc, pointer, slice, mapping, or_panic}
use fastcopier.Generator.Universe.{Universe, Package}
use fastcopier.Generator.Matching.{FieldPair}
use fastcopier.Generator.Kinds.{TypeKind, is_flat_go_type, classify_type, type_name}

-- pkgInfo. `scope` is Scope.Lookup with the type of the object it finds.
pub record PkgInfo : Type 0 where
  pub name : String
  pub path : String
  pub scope : String → Option ℕ

-- generator, without needsFC.
pub record Generator : Type 0 where
  pub pkg : PkgInfo
  pub known_types : List String
  pub known_pairs : Dict String String

-- The type assertions to *types.Slice, *types.Map and *types.Pointer.
abbrev pub slice_elem_of : Desc → Option ℕ
slice_elem_of (slice e) = some e
slice_elem_of _ = none

abbrev pub map_elem_of : Desc → Option ℕ
map_elem_of (mapping k e) = some e
map_elem_of _ = none

abbrev pub pointer_elem_of : Desc → Option ℕ
pointer_elem_of (pointer e) = some e
pointer_elem_of _ = none

unfoldable pub copier_name : String → String → String
copier_name src dst = "Copy" <> src <> "To" <> dst

-- `if err := fn(to, from); err != nil { return err }`
unfoldable pub call_line : String → String → String → String
call_line fn to from =
    "if err := " <> fn <> "(" <> to <> ", " <> from <> "); err != nil { return err }"

unfoldable pub qualifier : PkgInfo → Package → String
qualifier pkg p = if p.path == pkg.path then "" else p.name

-- Lines between the nil check of the source field and its other branch.
unfoldable pub unless_nil : String → List String → List String
unless_nil f body =
    ("if src." <> f <> " != nil {") ∷ body ++ ("} else {" ∷ ("  dst." <> f <> " = nil") ∷ "}" ∷ [])

unfoldable pub reuse_or_make : String → String → List String
reuse_or_make f typ =
    ("  if cap(dst." <> f <> ") >= len(src." <> f <> ") {")
    ∷ ("    dst." <> f <> " = dst." <> f <> "[:len(src." <> f <> ")]")
    ∷ "  } else {"
    ∷ ("    dst." <> f <> " = make(" <> typ <> ", len(src." <> f <> "))")
    ∷ "  }"
    ∷ []

unfoldable pub new_lines : String → String → String → List String
new_lines f elem_name fn = unless_nil f (
    ("  dst." <> f <> " = new(" <> elem_name <> ")")
    ∷ ("  " <> call_line fn ("dst." <> f) ("src." <> f))
    ∷ [])

unfoldable pub deref_lines : String → List String
deref_lines f = unless_nil f (("  v := *src." <> f) ∷ ("  dst." <> f <> " = &v") ∷ [])

unfoldable pub field_call : String → String → List String
field_call f fn = call_line fn ("&dst." <> f) ("&src." <> f) ∷ []

module _ (U : Universe) (g : Generator) where
  unfoldable pub type_str : ℕ → String
  type_str t = U.type_string (some (qualifier g.pkg)) t

  unfoldable pub slice_flat_lines : String → ℕ → List String
  slice_flat_lines f t =
      unless_nil f
        (reuse_or_make f (type_str t) ++ (("  copy(dst." <> f <> ", src." <> f <> ")") ∷ []))

  -- The function that copies one element, when there is a generated one.
  unfoldable pub element_copier : String → String → Option String
  element_copier src_elem dst_elem = elim (lookup (src_elem <> "->" <> dst_elem) g.known_pairs) [
    | some fn ↦ some fn
    | none ↦
        if contains g.known_types src_elem && src_elem == dst_elem
        then some (copier_name src_elem src_elem)
        else none
  ]

  unfoldable pub slice_struct_body : String → ℕ → String → List String
  slice_struct_body f dst_type fn = unless_nil f (
      reuse_or_make f (type_str dst_type)
      ++ (("  for i := range src." <> f <> " {")
          ∷ ("  " <> call_line fn ("&dst." <> f <> "[i]") ("&src." <> f <> "[i]"))
          ∷ "  }"
          ∷ []))

  unfoldable pub slice_struct_lines : String → ℕ → ℕ → Bool → Outcome String (List String × Bool)
  slice_struct_lines f src_type dst_type needs =
      or_panic (slice_elem_of (U.types.desc src_type)) >>= λ src_elem.
      or_panic (slice_elem_of (U.types.desc dst_type)) >>= λ dst_elem.
      elim (element_copier (type_name U src_elem) (type_name U dst_elem)) [
        | some fn ↦ ok (slice_struct_body f dst_type fn, needs)
        | none ↦ ok (slice_struct_body f dst_type "fastcopier.Copy", true)
      ]

  unfoldable pub map_body : String → ℕ → List String → List String
  map_body f t body = unless_nil f (
      ("  dst." <> f <> " = make(" <> type_str t <> ", len(src." <> f <> "))")
        ∷ ("  for k, v := range src." <> f <> " {")
        ∷ body
      ++ ("  }" ∷ []))

  unfoldable pub map_lines : String → ℕ → Bool → Bool → Outcome String (List String × Bool)
  map_lines f t false needs = ok (map_body f t (("    dst." <> f <> "[k] = v") ∷ []), needs)
  map_lines f t true needs = or_panic (map_elem_of (U.types.desc t)) >>= λ e. ok (
    map_body f t (
        ("    var dstVal " <> type_str e)
        ∷ ("    " <> call_line "fastcopier.Copy" "&dstVal" "&v")
        ∷ ("    dst." <> f <> "[k] = dstVal")
        ∷ []),
    true,
  )

  unfoldable pub pointer_lines : ℕ → String → ℕ → Bool → Outcome String (List String × Bool)
  pointer_lines fuel f t needs = or_panic (pointer_elem_of (U.types.desc t)) >>= λ e.
      let elem_name = type_name U e in
      if contains g.known_types elem_name
      then ok (new_lines f elem_name (copier_name elem_name elem_name), needs)
      else (is_flat_go_type U fuel e >>= λ b.
          if b
          then ok (deref_lines f, needs)
          else ok (new_lines f elem_name "fastcopier.Copy", true))

  unfoldable pub struct_lines : String → ℕ → Bool → List String × Bool
  struct_lines f t needs =
      let sname = type_name U t in
      if contains g.known_types sname
      then (field_call f (copier_name sname sname), needs)
      else (field_call f "fastcopier.Copy", true)

  unfoldable pub lines_of_kind :
      ℕ → FieldPair → Bool → TypeKind → Outcome String (List String × Bool)
  lines_of_kind fuel fp needs TypeKind.flat =
      let f = fp.dst_field.field.name in ok (("dst." <> f <> " = src." <> f) ∷ [], needs)
  lines_of_kind fuel fp needs TypeKind.slice_flat =
      ok (slice_flat_lines fp.dst_field.field.name fp.src_field.field.typ, needs)
  lines_of_kind fuel fp needs TypeKind.slice_struct =
      slice_struct_lines fp.dst_field.field.name fp.src_field.field.typ fp.dst_field.field.typ needs
  lines_of_kind fuel fp needs TypeKind.map_flat =
      map_lines fp.dst_field.field.name fp.src_field.field.typ false needs
  lines_of_kind fuel fp needs TypeKind.map_complex =
      map_lines fp.dst_field.field.name fp.src_field.field.typ true needs
  lines_of_kind fuel fp needs TypeKind.pointer_to =
      pointer_lines fuel fp.dst_field.field.name fp.src_field.field.typ needs
  lines_of_kind fuel fp needs TypeKind.nested =
      ok (struct_lines fp.dst_field.field.name fp.src_field.field.typ needs)
  lines_of_kind fuel fp needs TypeKind.fallback =
      ok (field_call fp.dst_field.field.name "fastcopier.Copy", true)

  unfoldable pub field_lines : ℕ → FieldPair → Bool → Outcome String (List String × Bool)
  field_lines fuel fp needs =
      classify_type U fuel fp.src_field.field.typ >>= lines_of_kind fuel fp needs
