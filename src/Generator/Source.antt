-- ===== src/Generator/Source.antt =====
-- The generated file: genFunc, generate and fileTmpl of cmd/fastcopier-gen/main.go. The printer
-- go/format is a parameter.
use fastcopier.Base.{ℕ, String, Bool, false, List, [], ◌∷◌, ◌++◌, ◌<>◌, foldl, string_eq}
use fastcopier.Base.Dict.{insert}
use fastcopier.Base.Outcome.{Outcome, ok, err, panic, out_of_fuel, ◌>>=◌}
use fastcopier.Generator.Universe.{Universe, Named}
use fastcopier.Generator.Matching.{FieldPair, match_fields}
use fastcopier.Generator.Lines.{PkgInfo, Generator, copier_name, field_lines}

-- typePair. Nothing reads its field SameType.
pub record TypePair : Type 0 where
  pub dst : Named
  pub src : Named

-- genFunc
pub record GenFunc : Type 0 where
  pub func_name : String
  pub dst_type : String
  pub src_type : String
  pub lines : List String

-- genData
pub record GenData : Type 0 where
  pub pkg_name : String
  pub has_copy_fallback : Bool
  pub funcs : List GenFunc

-- The two results of generate when its error is not nil: the bytes and the error's text.
pub record Failure : Type 0 where
  pub output : String
  pub message : String

-- The loop of generate over the pairs that fills the two maps.
unfoldable pub know_pair : Generator → TypePair → Generator
know_pair g p = record g {
  known_types = p.src.name ∷ p.dst.name ∷ g.known_types;
  known_pairs =
      insert (p.src.name <> "->" <> p.dst.name) (copier_name p.src.name p.dst.name) g.known_pairs;
}

unfoldable pub new_generator : PkgInfo → List TypePair → Generator
new_generator pkg pairs =
    foldl know_pair (record { pkg = pkg; known_types = []; known_pairs = [] }) pairs

abbrev pub concat_text : List String → String
concat_text [] = ""
concat_text (s ∷ ss) = s <> concat_text ss

-- `{{- range .Funcs}}` inside init.
abbrev pub registrations : List GenFunc → String
registrations [] = ""
registrations (fn ∷ fns) =
    "\n\tfastcopier.RegisterCopier(" <> fn.func_name <> ")" <> registrations fns

-- `{{- range .Lines}}`
abbrev pub indented : List String → String
indented [] = ""
indented (l ∷ ls) = "\n\t" <> l <> indented ls

unfoldable pub func_text : GenFunc → String
func_text fn =
    "\n// "
    <> fn.func_name
    <> " copies src into dst with zero reflection overhead.\n"
    <> "// It is auto-registered with fastcopier.RegisterCopier so that\n"
    <> "// fastcopier.Copy(&dst, &src) routes here automatically.\n"
    <> "// You may also call it directly for the lowest possible overhead.\n"
    <> "func "
    <> fn.func_name
    <> "(dst *"
    <> fn.dst_type
    <> ", src *"
    <> fn.src_type
    <> ") error {"
    <> indented fn.lines
    <> "\n\treturn nil\n}\n"

abbrev pub func_texts : List GenFunc → String
func_texts [] = ""
func_texts (fn ∷ fns) = func_text fn <> func_texts fns

-- fileTmpl. Its execution does not fail: it writes strings to a buffer.
unfoldable pub file_text : GenData → String
file_text d =
    "// Code generated by fastcopier-gen. DO NOT EDIT.\n\n"
    <> "//go:build !fastcopier_no_gen\n\n"
    <> "package "
    <> d.pkg_name
    <> "\n\n"
    <> "import (\n\tfastcopier \"github.com/expego/fastcopier\"\n)\n\n"
    <> "func init() {"
    <> registrations d.funcs
    <> "\n}\n"
    <> func_texts d.funcs

-- `if err != nil { return nil, err }`
unfoldable pub without_output : {A : Type 0} → Outcome String A → Outcome Failure A
without_output (ok a) = ok a
without_output (err e) = err (record { output = ""; message = e })
without_output panic = panic
without_output out_of_fuel = out_of_fuel

unfoldable pub format_source : (String → Outcome String String) → String → Outcome Failure String
format_source format text = elim (format text) [
  | ok formatted ↦ ok formatted
  | err e ↦ err (record {
    output = text;
    message = "formatting generated code: " <> e <> "\n--- unformatted ---\n" <> text;
  })
  | panic ↦ panic
  | out_of_fuel ↦ out_of_fuel
]

module _ (U : Universe) (fuel : ℕ) (g : Generator) where
  -- The loop of genFunc.
  unfoldable pub body_lines : List FieldPair → Bool → Outcome String (List String × Bool)
  body_lines [] needs = ok ([], needs)
  body_lines (fp ∷ fps) needs = field_lines U g fuel fp needs >>= λ (lines, needs').
      body_lines fps needs' >>= λ (more, needs''). ok (lines ++ more, needs'')

  unfoldable pub gen_func : TypePair → Bool → Outcome String (GenFunc × Bool)
  gen_func p needs = match_fields U fuel p.dst p.src >>= λ fps.
      body_lines fps needs >>= λ (lines, needs'). ok (
        record {
          func_name = copier_name p.src.name p.dst.name;
          dst_type = p.dst.name;
          src_type = p.src.name;
          lines = lines;
        },
        needs',
      )

  -- The loop of generate.
  unfoldable pub gen_funcs : List TypePair → Bool → Outcome String (List GenFunc × Bool)
  gen_funcs [] needs = ok ([], needs)
  gen_funcs (p ∷ ps) needs = gen_func p needs >>= λ (fn, needs').
      gen_funcs ps needs' >>= λ (fns, needs''). ok (fn ∷ fns, needs'')

unfoldable pub generate :
    Universe
    → ℕ
    → (String → Outcome String String)
    → PkgInfo
    → List TypePair
    → Outcome Failure String
generate U fuel format pkg pairs =
    without_output (gen_funcs U fuel (new_generator pkg pairs) pairs false) >>= λ (fns, needs).
    format_source format
      (file_text (record { pkg_name = pkg.name; has_copy_fallback = needs; funcs = fns }))
