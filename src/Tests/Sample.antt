-- ===== src/Tests/Sample.antt =====
-- A table of types: struct types User and UserDto that tags match, a slice type of itself, a struct
-- that embeds a pointer to itself, a struct with a pointer to itself, a struct with
-- a field that hides a promoted one, two channel types, a slice type, and a struct with a field that is not exported.
use fastcopier.Base.{ℕ, String, true, false, List, [], ◌∷◌, ◌==◌, nat_eq, if◌then◌else◌}
use fastcopier.Base.Dict.{Dict}
use fastcopier.Base.Outcome.{Outcome, ok}
use fastcopier.Errors.{Error}
use fastcopier.Fields.{Metas, Parsed}
use fastcopier.GoTypes.{Types, StructField, Desc, Basic, basic, slice, struct, pointer, chan}

abbrev pub field : String → ℕ → Dict String String → StructField
field name t tags = record { name = name; typ = t; tags = tags; anonymous = false; exported = true }

abbrev pub embedded : String → ℕ → StructField
embedded name t = record { name = name; typ = t; tags = []; anonymous = true; exported = true }

abbrev pub tag : String → Dict String String
tag value = ("fastcopier", value) ∷ []

abbrev pub string_type : ℕ
string_type = 1

abbrev pub int_type : ℕ
int_type = 2

abbrev pub user : ℕ
user = 3

abbrev pub user_dto : ℕ
user_dto = 4

abbrev pub tree : ℕ
tree = 5

abbrev pub node : ℕ
node = 6

abbrev pub node_pointer : ℕ
node_pointer = 7

abbrev pub inner : ℕ
inner = 8

abbrev pub middle : ℕ
middle = 9

abbrev pub linked : ℕ
linked = 10

abbrev pub linked_pointer : ℕ
linked_pointer = 11

abbrev pub int_channel : ℕ
int_channel = 12

abbrev pub string_channel : ℕ
string_channel = 13

abbrev pub hidden : ℕ
hidden = 14

abbrev pub int_slice : ℕ
int_slice = 15

abbrev pub hidden_field : StructField
hidden_field = record { name = "n"; typ = int_type; tags = []; anonymous = false; exported = false }

abbrev pub user_fields : List StructField
user_fields =
    field "Name" string_type (tag "full_name,required")
    ∷ field "Age" int_type []
    ∷ field "Password" string_type (tag "-")
    ∷ []

abbrev pub user_dto_fields : List StructField
user_dto_fields = field "FullName" string_type (tag "full_name") ∷ field "Age" int_type [] ∷ []

abbrev pub describe : ℕ → Desc
describe t =
    if t == string_type
    then basic Basic.string
    else if t == user
    then struct user_fields
    else if t == user_dto
    then struct user_dto_fields
    else if t == tree
    then slice tree
    else if t == node
    then struct (embedded "Node" node_pointer ∷ field "V" int_type [] ∷ [])
    else if t == node_pointer
    then pointer node
    else if t == inner
    then struct (field "X" int_type [] ∷ [])
    else if t == middle
    then struct (field "X" int_type [] ∷ embedded "Inner" inner ∷ [])
    else if t == linked
    then struct (field "Next" linked_pointer [] ∷ [])
    else if t == linked_pointer
    then pointer linked
    else if t == int_channel
    then chan int_type
    else if t == string_channel
    then chan string_type
    else if t == hidden
    then struct (hidden_field ∷ [])
    else if t == int_slice
    then slice int_type
    else basic Basic.int

abbrev pub types : Types
types = record {
  desc = describe;
  name = λ t. if t == user then "User" else "T";
  underlying = λ t. t;
  implements = λ t i. false;
}

-- A table in which one struct type embeds another type and no type contains itself.
abbrev pub small_fields : List StructField
small_fields = embedded "Base" 0 ∷ field "X" 0 [] ∷ []

abbrev pub small : Types
small = record {
  desc = λ t. if t == 1 then struct small_fields else basic Basic.int;
  name = λ t. "T";
  underlying = λ t. t;
  implements = λ t i. false;
}

-- Iteration in the order of the entries.
abbrev pub order : Metas → Metas
order m = m

-- The fields of a parse that returns.
abbrev pub parsed_of : Outcome Error Parsed → Parsed
parsed_of (ok p) = p
parsed_of _ = record { direct_keys = []; direct = []; inherited_keys = []; inherited = [] }
