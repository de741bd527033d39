-- ===== src/GoTypes.antt =====
-- The part of package reflect that the copier reads of a type. A reflect.Type is a number, its
-- identity; what it describes stands in a table, so that a type may refer to itself.
pub mod Kinds
use fastcopier.Base.{
  ℕ, String, Bool, false, ◌&&◌, ◌||◌, List, leb, ◌==◌, nat_eq, string_eq, Option, none, some,
}
use fastcopier.Base.Dict.{Dict}
use fastcopier.Base.Outcome.{Outcome, ok, panic}

-- The kinds whose types have no parts.
pub data Basic : Type 0 where
  bool int int8 int16 int32 int64 uint uint8 uint16 uint32 uint64 uintptr : Basic
  float32 float64 complex64 complex128 string func unsafe_pointer : Basic

-- reflect.StructField: the tag is the table that Tag.Lookup reads.
pub record StructField : Type 0 where
  pub name : String
  pub typ : ℕ
  pub tags : Dict String String
  pub anonymous : Bool
  pub exported : Bool

pub data Desc : Type 0 where
  basic : Basic → Desc
  array : ℕ → ℕ → Desc
  chan : ℕ → Desc
  iface : Desc
  mapping : ℕ → ℕ → Desc
  pointer : ℕ → Desc
  slice : ℕ → Desc
  struct : List StructField → Desc

-- `underlying` and `implements` are the relations of the language specification that conversion
-- between types asks for.
pub record Types : Type 0 where
  pub desc : ℕ → Desc
  pub name : ℕ → String
  pub underlying : ℕ → ℕ
  pub implements : ℕ → ℕ → Bool

-- reflect.Kind is a number.
abbrev pub array_kind : ℕ
array_kind = 17

abbrev pub chan_kind : ℕ
chan_kind = 18

abbrev pub iface_kind : ℕ
iface_kind = 20

abbrev pub map_kind : ℕ
map_kind = 21

abbrev pub pointer_kind : ℕ
pointer_kind = 22

abbrev pub slice_kind : ℕ
slice_kind = 23

abbrev pub string_kind : ℕ
string_kind = 24

abbrev pub struct_kind : ℕ
struct_kind = 25

abbrev pub basic_kind : Basic → ℕ
basic_kind Basic.bool = 1
basic_kind Basic.int = 2
basic_kind Basic.int8 = 3
basic_kind Basic.int16 = 4
basic_kind Basic.int32 = 5
basic_kind Basic.int64 = 6
basic_kind Basic.uint = 7
basic_kind Basic.uint8 = 8
basic_kind Basic.uint16 = 9
basic_kind Basic.uint32 = 10
basic_kind Basic.uint64 = 11
basic_kind Basic.uintptr = 12
basic_kind Basic.float32 = 13
basic_kind Basic.float64 = 14
basic_kind Basic.complex64 = 15
basic_kind Basic.complex128 = 16
basic_kind Basic.func = 19
basic_kind Basic.string = 24
basic_kind Basic.unsafe_pointer = 26

abbrev pub kind_of : Desc → ℕ
kind_of (basic b) = basic_kind b
kind_of (array e n) = 17
kind_of (chan e) = 18
kind_of iface = 20
kind_of (mapping k e) = 21
kind_of (pointer e) = 22
kind_of (slice e) = 23
kind_of (struct fs) = 25

-- Type.Elem and Type.Key panic at other kinds.
abbrev pub elem_of : Desc → Option ℕ
elem_of (array e n) = some e
elem_of (chan e) = some e
elem_of (mapping k e) = some e
elem_of (pointer e) = some e
elem_of (slice e) = some e
elem_of _ = none

abbrev pub key_of : Desc → Option ℕ
key_of (mapping k e) = some k
key_of _ = none

abbrev pub fields_of : Desc → Option (List StructField)
fields_of (struct fs) = some fs
fields_of _ = none

abbrev pub or_panic {ℓ κ} : {E : Type κ} {A : Type ℓ} → Option A → Outcome E A
or_panic none = panic
or_panic (some a) = ok a

module _ (T : Types) where
  abbrev pub kind : ℕ → ℕ
  kind t = kind_of (T.desc t)

  is_integer : ℕ → Bool
  is_integer k = leb 2 k && leb k 12

  is_float : ℕ → Bool
  is_float k = k == 13 || k == 14

  is_complex : ℕ → Bool
  is_complex k = k == 15 || k == 16

  -- A slice of bytes or of runes, of the predeclared types themselves: reflect converts no text to
  -- a slice of a type that a package declares.
  is_text_slice : Desc → Bool
  is_text_slice (slice e) = T.name e == "uint8" || T.name e == "int32"
  is_text_slice _ = false

  -- reflect's ConvertibleTo for a source of basic or func kind, as the language specification
  -- has it: numbers, an integer to a string, a string to bytes or runes, types with one
  -- underlying type, and an interface that the source implements.
  pub convertible_to : ℕ → ℕ → Bool
  unfolding is_integer is_float is_complex is_text_slice
  convertible_to src dst =
      let s = kind src in
      let d = kind dst in
      (is_integer s || is_float s) && (is_integer d || is_float d)
      || is_integer s && d == string_kind
      || is_complex s && is_complex d
      || s == string_kind && is_text_slice (T.desc dst)
      || T.underlying src == T.underlying dst
      || d == iface_kind && T.implements src dst
