-- ===== src/Generator/Code.antt =====
-- The statements that fieldLines prints, as data: what they do to memory, and what they call, is
-- said of them, and their text is that of the lines.
pub mod Printed
pub mod Rendered
pub mod Known
pub mod Closed
use fastcopier.Base.{
  ℕ, String, Bool, true, false, ◌||◌, List, [], ◌∷◌, ◌++◌, ◌<>◌, string_eq, contains, if◌then◌else◌,
  Option, none, some,
}
use fastcopier.Base.Outcome.{Outcome, ok, ◌>>=◌}
use fastcopier.GoTypes.{Desc, or_panic}
use fastcopier.Generator.Universe.{Universe}
use fastcopier.Generator.Matching.{FieldPair}
use fastcopier.Generator.Kinds.{TypeKind, is_flat_go_type, classify_type, type_name}
use fastcopier.Generator.Lines.{
  Generator, slice_elem_of, map_elem_of, pointer_elem_of, copier_name, element_copier,
  slice_flat_lines, slice_struct_body, map_body, new_lines, deref_lines, field_call, type_str,
  call_line,
}

-- fastcopier.Copy, or a generated function of the same package.
pub data Callee : Type 0 where
  library : Callee
  generated : String → Callee

abbrev pub callee_text : Callee → String
callee_text library = "fastcopier.Copy"
callee_text (generated fn) = fn

-- One statement for one field, by the field's name.
pub data Stmt : Type 0 where
  assign : String → Stmt
  slice_copy : String → ℕ → Stmt
  slice_loop : String → ℕ → Callee → Stmt
  map_copy : String → ℕ → Stmt
  map_loop : String → ℕ → ℕ → Stmt
  pointer_new : String → ℕ → Callee → Stmt
  pointer_deref : String → Stmt
  call : String → Callee → Stmt

abbrev pub callee_of : Stmt → Option Callee
callee_of (slice_loop f t fn) = some fn
callee_of (map_loop f t e) = some library
callee_of (pointer_new f e fn) = some fn
callee_of (call f fn) = some fn
callee_of _ = none

abbrev pub is_library : Option Callee → Bool
is_library (some library) = true
is_library _ = false

-- The statement calls fastcopier.Copy.
abbrev pub calls_library : Stmt → Bool
calls_library s = is_library (callee_of s)

abbrev pub callee_or_library : Option String → Callee
callee_or_library none = library
callee_or_library (some fn) = generated fn

module _ (U : Universe) (g : Generator) where
  unfoldable pub render : Stmt → List String
  render (assign f) = ("dst." <> f <> " = src." <> f) ∷ []
  render (slice_copy f t) = slice_flat_lines U g f t
  render (slice_loop f t fn) = slice_struct_body U g f t (callee_text fn)
  render (map_copy f t) = map_body U g f t (("    dst." <> f <> "[k] = v") ∷ [])
  render (map_loop f t e) = map_body U g f t (
      ("    var dstVal " <> type_str U g e)
      ∷ ("    " <> call_line "fastcopier.Copy" "&dstVal" "&v")
      ∷ ("    dst." <> f <> "[k] = dstVal")
      ∷ [])
  render (pointer_new f e fn) = new_lines f (type_name U e) (callee_text fn)
  render (pointer_deref f) = deref_lines f
  render (call f fn) = field_call f (callee_text fn)

  -- The function for a type, if the generator makes one.
  unfoldable pub own_copier : String → Callee
  own_copier n = if contains g.known_types n then generated (copier_name n n) else library

  unfoldable pub stmt_of_kind : ℕ → FieldPair → TypeKind → Outcome String Stmt
  stmt_of_kind fuel fp TypeKind.flat = ok (assign fp.dst_field.field.name)
  stmt_of_kind fuel fp TypeKind.slice_flat =
      ok (slice_copy fp.dst_field.field.name fp.src_field.field.typ)
  stmt_of_kind fuel fp TypeKind.slice_struct =
      or_panic (slice_elem_of (U.types.desc fp.src_field.field.typ)) >>= λ s.
      or_panic (slice_elem_of (U.types.desc fp.dst_field.field.typ)) >>= λ d. ok (
        slice_loop fp.dst_field.field.name fp.dst_field.field.typ
          (callee_or_library (element_copier U g (type_name U s) (type_name U d))))
  stmt_of_kind fuel fp TypeKind.map_flat =
      ok (map_copy fp.dst_field.field.name fp.src_field.field.typ)
  stmt_of_kind fuel fp TypeKind.map_complex =
      or_panic (map_elem_of (U.types.desc fp.src_field.field.typ)) >>= λ e.
      ok (map_loop fp.dst_field.field.name fp.src_field.field.typ e)
  stmt_of_kind fuel fp TypeKind.pointer_to =
      or_panic (pointer_elem_of (U.types.desc fp.src_field.field.typ)) >>= λ e.
      if contains g.known_types (type_name U e)
      then ok (pointer_new fp.dst_field.field.name e (own_copier (type_name U e)))
      else (is_flat_go_type U fuel e >>= λ b.
          if b
          then ok (pointer_deref fp.dst_field.field.name)
          else ok (pointer_new fp.dst_field.field.name e library))
  stmt_of_kind fuel fp TypeKind.nested =
      ok (call fp.dst_field.field.name (own_copier (type_name U fp.src_field.field.typ)))
  stmt_of_kind fuel fp TypeKind.fallback = ok (call fp.dst_field.field.name library)

  unfoldable pub stmt_of : ℕ → FieldPair → Outcome String Stmt
  stmt_of fuel fp = classify_type U fuel fp.src_field.field.typ >>= stmt_of_kind fuel fp

  -- The statements of a body, in order.
  unfoldable pub stmts_of : ℕ → List FieldPair → Outcome String (List Stmt)
  stmts_of fuel [] = ok []
  stmts_of fuel (fp ∷ fps) = stmt_of fuel fp >>= λ s. stmts_of fuel fps >>= λ more. ok (s ∷ more)

  unfoldable pub render_all : List Stmt → List String
  render_all [] = []
  render_all (s ∷ ss) = render s ++ render_all ss

-- A statement of the body calls fastcopier.Copy.
unfoldable pub any_calls_library : List Stmt → Bool
any_calls_library [] = false
any_calls_library (s ∷ ss) = calls_library s || any_calls_library ss
