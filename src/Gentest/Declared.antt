-- ===== src/Gentest/Declared.antt =====
-- internal/gentest/types.go: the declared types, and those written out in them.
use fastcopier.Base.{
  ℕ, String, true, false, List, [], ◌∷◌, ◌==◌, nat_eq, if◌then◌else◌, Option, none, some, ◌<>◌,
  string_eq,
}
use fastcopier.GoTypes.{Types, StructField, Desc, Basic, basic, slice, struct, mapping}
use fastcopier.Generator.Universe.{Universe, Form, Package, named, literal}
use fastcopier.Generator.Lines.{PkgInfo}

abbrev pub field : String → ℕ → StructField
field name t = record { name = name; typ = t; tags = []; anonymous = false; exported = true }

abbrev pub string_type : ℕ
string_type = 1

abbrev pub int_type : ℕ
int_type = 2

abbrev pub float64_type : ℕ
float64_type = 3

abbrev pub bool_type : ℕ
bool_type = 4

abbrev pub simple : ℕ
simple = 5

abbrev pub nested : ℕ
nested = 6

abbrev pub complex : ℕ
complex = 7

abbrev pub user_entity : ℕ
user_entity = 8

abbrev pub user_dto : ℕ
user_dto = 9

abbrev pub strings : ℕ
strings = 10

abbrev pub ints : ℕ
ints = 11

abbrev pub simples : ℕ
simples = 12

abbrev pub string_map : ℕ
string_map = 13

abbrev pub simple_fields : List StructField
simple_fields =
    field "Name" string_type
    ∷ field "Age" int_type
    ∷ field "Email" string_type
    ∷ field "Score" float64_type
    ∷ field "Active" bool_type
    ∷ []

abbrev pub nested_fields : List StructField
nested_fields =
    field "ID" int_type ∷ field "Profile" simple ∷ field "Tags" strings ∷ field "Scores" ints ∷ []

abbrev pub complex_fields : List StructField
complex_fields =
    field "ID" int_type
    ∷ field "Name" string_type
    ∷ field "Nested" nested
    ∷ field "Items" simples
    ∷ field "Metadata" string_map
    ∷ []

abbrev pub user_entity_fields : List StructField
user_entity_fields =
    field "ID" int_type
    ∷ field "Name" string_type
    ∷ field "Email" string_type
    ∷ field "Password" string_type
    ∷ []

abbrev pub user_dto_fields : List StructField
user_dto_fields = field "ID" int_type ∷ field "Name" string_type ∷ field "Email" string_type ∷ []

abbrev pub describe : ℕ → Desc
describe t =
    if t == string_type
    then basic Basic.string
    else if t == float64_type
    then basic Basic.float64
    else if t == bool_type
    then basic Basic.bool
    else if t == simple
    then struct simple_fields
    else if t == nested
    then struct nested_fields
    else if t == complex
    then struct complex_fields
    else if t == user_entity
    then struct user_entity_fields
    else if t == user_dto
    then struct user_dto_fields
    else if t == strings
    then slice string_type
    else if t == ints
    then slice int_type
    else if t == simples
    then slice simple
    else if t == string_map
    then mapping string_type string_type
    else basic Basic.int

abbrev pub declared_name : ℕ → Option String
declared_name t =
    if t == simple
    then some "Simple"
    else if t == nested
    then some "Nested"
    else if t == complex
    then some "Complex"
    else if t == user_entity
    then some "UserEntity"
    else if t == user_dto
    then some "UserDTO"
    else none

abbrev pub form_of : ℕ → Form
form_of t = elim (declared_name t) [ none ↦ literal | some n ↦ named n ]

abbrev pub basic_name : ℕ → String
basic_name t =
    if t == string_type
    then "string"
    else if t == float64_type
    then "float64"
    else if t == bool_type
    then "bool"
    else "int"

abbrev pub gentest_package : Package
gentest_package = record {
  path = "github.com/expego/fastcopier/internal/gentest";
  name = "gentest";
}

abbrev pub dotted : String → String → String
dotted q n = if q == "" then n else q <> "." <> n

abbrev pub simple_type_text : (Package → String) → ℕ → String
simple_type_text qualify t = elim (declared_name t) [
  | none ↦ basic_name t
  | some n ↦ dotted (qualify gentest_package) n
]

abbrev pub type_text : (Package → String) → ℕ → String
type_text qualify t =
    if t == strings
    then "[]string"
    else if t == ints
    then "[]int"
    else if t == simples
    then "[]" <> simple_type_text qualify simple
    else if t == string_map
    then "map[string]string"
    else simple_type_text qualify t

abbrev pub gentest_types : Types
gentest_types = record {
  desc = describe;
  name = λ t. elim (declared_name t) [ none ↦ "" | some n ↦ n ];
  underlying = λ t. t;
  implements = λ t i. false;
}

abbrev pub gentest_universe : Universe
gentest_universe = record {
  types = gentest_types;
  form = form_of;
  struct_id = λ t. t;
  type_string = λ q. elim q [ none ↦ type_text (λ p. p.path) | some qualify ↦ type_text qualify ];
}

abbrev pub scope_of : String → Option ℕ
scope_of n =
    if n == "Simple"
    then some simple
    else if n == "Nested"
    then some nested
    else if n == "Complex"
    then some complex
    else if n == "UserEntity"
    then some user_entity
    else if n == "UserDTO"
    then some user_dto
    else none

abbrev pub gentest_info : PkgInfo
gentest_info = record {
  name = "gentest";
  path = "github.com/expego/fastcopier/internal/gentest";
  scope = scope_of;
}
