-- ===== src/Tests/InspectTests.antt =====
-- Inspect at concrete types.
use fastcopier.Base.{
  ℕ, String, ◌≡◌, ◌↔◌, refl, true, false, List, [], ◌∷◌, ◌<>◌, map, contains, string_eq,
}
use fastcopier.Base.Outcome.{ok}
use fastcopier.Fields.{Parsed, parse_struct_fields}
use fastcopier.Inspect.Text.{plan_text, mapping_line, pad_right, spaced}
use fastcopier.Inspect.{
  FieldMapping, InspectPlan, inspect_fields, inspect_plan, type_by_index, field_name_by_index,
}
use fastcopier.Inspect.Skipped.{IsUnmatched, pair_of, field_pairs, inspect_plan-IsUnmatched}
use fastcopier.Plan.{FieldPath, Plans, done, first, field_plan, absent, struct_plan}
use fastcopier.Tests.Sample.{order, parsed_of, types, user, user_dto}

abbrev fields_of : ℕ → Parsed
fields_of t = parsed_of (parse_struct_fields types order "fastcopier" 3 t)

abbrev path : String → ℕ → FieldPath
path key i = record {
  dst_index = i ∷ [];
  dst_nil_on_zero = false;
  src_index = i ∷ [];
  src_key = key;
  dst_key = key;
}

-- The field plans for a user that is copied to a UserDto.
abbrev plans : Plans
plans =
    first (field_plan absent (path "full_name" 0)) (first (field_plan absent (path "Age" 1)) done)

abbrev mapping : String → FieldMapping
mapping key = record {
  src_field = key;
  dst_field = key;
  src_type = "T";
  dst_type = "T";
  action = "assign";
}

abbrev mappings : List FieldMapping
mappings = mapping "full_name" ∷ mapping "Age" ∷ []

abbrev start : InspectPlan
start = record { src_type = "User"; dst_type = "T"; fields = []; skipped = [] }

user_fields : inspect_fields types plans user user_dto ≡ ok (mappings, "Name" ∷ "Age" ∷ [])
unfolding inspect_fields type_by_index field_name_by_index
user_fields = refl

inspect_plan-IsUnmatched_example :
    (r : InspectPlan) × (inspect_plan types order
        (struct_plan "fastcopier" plans (fields_of user) (fields_of user_dto))
        user
        user_dto
        start
      ≡ ok r)
    × (r.fields ≡ mappings)
    × (map pair_of mappings ≡ field_pairs plans)
    × ((contains r.skipped "Email" ≡ true)
        ↔ IsUnmatched ("Name" ∷ "Age" ∷ []) (fields_of user) (fields_of user_dto) "Email")
inspect_plan-IsUnmatched_example =
    inspect_plan-IsUnmatched types order "fastcopier" plans (fields_of user) (fields_of user_dto)
      user user_dto mappings ("Name" ∷ "Age" ∷ []) start "Email" (λ ms k. refl) refl user_fields

abbrev mapped : InspectPlan
mapped = record {
  src_type = "User";
  dst_type = "Row";
  fields =
      record {
        src_field = "Name";
        dst_field = "name";
        src_type = "string";
        dst_type = "string";
        action = "assign";
      }
      ∷ record {
        src_field = "Age";
        dst_field = "age";
        src_type = "int32";
        dst_type = "int64";
        action = "convert";
      }
      ∷ [];
  skipped = "Password" ∷ "Token" ∷ [];
}

mapped_text :
    plan_text mapped
    ≡ "Copy User → Row\n" <> "  Name                 → name                  [string]  assign\n"
      <> "  Age                  → age                   int32 → int64  [convert]\n"
      <> "  skipped (no dst match): [Password Token]\n"
unfolding plan_text mapping_line pad_right spaced
mapped_text = refl
