-- ===== src/Plan.antt =====
-- plans.go and the plan_*.go files: the plans as data. The interface Plan is one type with a
-- constructor for each struct that implements it; a nil Plan is the constructor `absent`.
use fastcopier.Base.{ℕ, String, Bool, List}
use fastcopier.Fields.{Parsed}

-- slimFieldMeta without its cached plan.
pub record SlimMeta : Type 0 where
  pub field_type : ℕ
  pub key : String
  pub required : Bool
  pub nil_on_zero : Bool
  pub index : List ℕ

-- What fieldPlan holds beside its inner plan.
pub record FieldPath : Type 0 where
  pub dst_index : List ℕ
  pub dst_nil_on_zero : Bool
  pub src_index : List ℕ
  pub src_key : String
  pub dst_key : String

-- What val2FieldPlan holds beside its inner plan.
pub record ValuePath : Type 0 where
  pub dst_index : List ℕ
  pub dst_nil_on_zero : Bool
  pub required : Bool

-- What field2MapPlan holds beside its entry: its key as a text with the type that the stored value has.
pub record EntryPath : Type 0 where
  pub key : String
  pub key_type : ℕ
  pub src_index : List ℕ
  pub required : Bool
  pub skip_on_error : Bool

mutual
  pub data Plan : Type 0 where
    skip_plan assign_plan convert_plan chan_plan iface_src_plan iface_dst_plan : Plan
    registered_plan : ℕ → Plan
    ptr_plan deref_plan addr_plan : Plan → Plan
    deferred_plan : ℕ → ℕ → Plan
    slice_plan : Plan → Bool → Plan
    struct_plan : String → Plans → Parsed → Parsed → Plan
    map_plan : Entry → Entry → Plan
    map_to_struct_plan : Slims → ℕ → Plan
    struct_to_map_plan : Plans → Plan
    field_plan : Maybe → FieldPath → Plan
    val2_field_plan : Maybe → ValuePath → Plan
    field2_map_plan : Entry → EntryPath → Plan

  pub data Maybe : Type 0 where
    absent : Maybe
    present : Plan → Maybe

  pub data Plans : Type 0 where
    done : Plans
    first : Plan → Plans → Plans

  -- mapEntryPlan, or nil.
  pub data Entry : Type 0 where
    direct : Entry
    through : ℕ → Plan → Entry

  pub data Slims : Type 0 where
    none_left : Slims
    slim : String → SlimMeta → Maybe → Slims → Slims

-- `append(plans, p)`
unfoldable pub append_plan : Plans → Plan → Plans
append_plan done p = first p done
append_plan (first q qs) p = first q (append_plan qs p)
