-- ===== src/Inspect/Text.antt =====
-- inspect.go: the text of an InspectPlan, with the two verbs of fmt that it uses.
use fastcopier.Base.{ℕ, zero, suc, String, List, [], ◌∷◌, ◌==◌, ◌<>◌, string_eq, if◌then◌else◌}
use fastcopier.Inspect.{FieldMapping, InspectPlan}

-- The verb `%-20s` for a width: blanks follow up to so many characters.
unfoldable pub pad_right : ℕ → String → String
pad_right zero s = s
pad_right (suc n) String.[] = " " <> pad_right n ""
pad_right (suc n) (String.◌∷◌ c s) = String.◌∷◌ c (pad_right n s)

-- The verb `%v` of a list of strings.
unfoldable pub spaced : List String → String
spaced [] = ""
spaced (s ∷ []) = s
spaced (s ∷ t ∷ ss) = s <> " " <> spaced (t ∷ ss)

abbrev pub bracketed : List String → String
bracketed ss = "[" <> spaced ss <> "]"

unfoldable pub mapping_line : FieldMapping → String
mapping_line f =
    if f.src_type == f.dst_type
    then "  "
      <> pad_right 20 f.src_field
      <> " → "
      <> pad_right 20 f.dst_field
      <> "  ["
      <> f.src_type
      <> "]  "
      <> f.action
      <> "\n"
    else "  "
      <> pad_right 20 f.src_field
      <> " → "
      <> pad_right 20 f.dst_field
      <> "  "
      <> f.src_type
      <> " → "
      <> f.dst_type
      <> "  ["
      <> f.action
      <> "]\n"

abbrev pub mapping_lines : List FieldMapping → String
mapping_lines [] = ""
mapping_lines (f ∷ fs) = mapping_line f <> mapping_lines fs

abbrev pub skipped_line : List String → String
skipped_line [] = ""
skipped_line (s ∷ ss) = "  skipped (no dst match): " <> bracketed (s ∷ ss) <> "\n"

-- InspectPlan.String
unfoldable pub plan_text : InspectPlan → String
plan_text p =
    "Copy "
    <> p.src_type
    <> " → "
    <> p.dst_type
    <> "\n"
    <> mapping_lines p.fields
    <> skipped_line p.skipped
