-- ===== src/Generator/Universe.antt =====
-- Package go/types as cmd/fastcopier-gen/main.go reads it: a types.Type is a number, and a table
-- describes its underlying type; what the type is itself is its form.
use fastcopier.Base.{ℕ, String, List, Option, none, some}
use fastcopier.GoTypes.{Types, StructField, Desc, struct, pointer}

-- A *types.Named with the name of its object, a *types.Alias, or a type written out.
pub data Form : Type 0 where
  named : String → Form
  alias : Form
  literal : Form

-- *types.Package
pub record Package : Type 0 where
  pub path : String
  pub name : String

-- `struct_id` is the *types.Struct that Underlying returns. `type_string` is types.TypeString; its
-- qualifier may be nil.
pub record Universe : Type 0 where
  pub types : Types
  pub form : ℕ → Form
  pub struct_id : ℕ → ℕ
  pub type_string : Option (Package → String) → ℕ → String

-- *types.Struct
pub record Struct : Type 0 where
  pub id : ℕ
  pub fields : List StructField

-- A *types.Var that is the field of a struct: the struct and the index are its identity.
pub record Var : Type 0 where
  pub owner : ℕ
  pub index : ℕ
  pub field : StructField

-- *types.Named
pub record Named : Type 0 where
  pub typ : ℕ
  pub name : String

-- `desc.(*types.Struct)`, at the identity.
abbrev pub struct_at : ℕ → Desc → Option Struct
struct_at i (struct fs) = some (record { id = i; fields = fs })
struct_at i _ = none

-- The forms at which `t.(*types.Named)` and `t.(*types.Pointer)` hold.
abbrev pub name_at : Form → Option String
name_at (named n) = some n
name_at _ = none

abbrev pub pointer_at : Form → Desc → Option ℕ
pointer_at literal (pointer e) = some e
pointer_at _ _ = none

module _ (U : Universe) where
  abbrev pub underlying_struct : ℕ → Option Struct
  underlying_struct t = struct_at (U.struct_id t) (U.types.desc t)

  abbrev pub as_named : ℕ → Option String
  as_named t = name_at (U.form t)

  abbrev pub as_pointer : ℕ → Option ℕ
  as_pointer t = pointer_at (U.form t) (U.types.desc t)
