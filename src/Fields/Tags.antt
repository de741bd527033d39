-- ===== src/Fields/Tags.antt =====
-- What a struct tag says of its field: applyTag of fields.go.
use text.Mathlib.TextEquality.{eq_iff}
use fastcopier.Base.{
  ℕ, String, ◌≡◌, refl, ◌∙◌, ==_comm, List, [], ◌∷◌, foldl, ◌==◌, string_eq, contains,
  if◌then◌else◌, Option, some, none, arith, inl, inr, Bool-cases, ◌&&◌, ◌||◌, not, false,
}
use fastcopier.Base.Dict.{lookup}
use fastcopier.Fields.{
  FieldMeta, new_meta, apply_tag, apply_value, apply_name, apply_option, is_nillable, split_comma,
}
use fastcopier.GoTypes.{Types, StructField, kind}

-- The descriptor after all options of a tag.
abbrev with_options : Types → FieldMeta → List String → FieldMeta
with_options T m opts = record m {
  required = m.required || (not m.ignored && contains opts "required");
  nil_on_zero = m.nil_on_zero || (is_nillable (kind T m.field.typ) && contains opts "nilonzero");
}

module _ (T : Types) (m : FieldMeta) (opts : List String) where
  required-with :
      with_options T (apply_option T m "required") opts ≡ with_options T m ("required" ∷ opts)
  unfolding apply_option
  required-with = ground arith

  nilonzero-with :
      with_options T (apply_option T m "nilonzero") opts ≡ with_options T m ("nilonzero" ∷ opts)
  unfolding apply_option
  nilonzero-with = ground arith

  other-with :
      (opt : String)
      → (opt == "required") ≡ false
      → (opt == "nilonzero") ≡ false
      → with_options T (apply_option T m opt) opts ≡ with_options T m (opt ∷ opts)
  unfolding apply_option
  other-with opt e e' = rw (==_comm "required" opt, ==_comm "nilonzero" opt, e, e')

  apply_option-with :
      (opt : String) → with_options T (apply_option T m opt) opts ≡ with_options T m (opt ∷ opts)
  apply_option-with opt = elim (Bool-cases (opt == "required")) [
    | inl e ↦ rw ((eq_iff opt "required").0 e) required-with
    | inr e ↦ elim (Bool-cases (opt == "nilonzero")) [
      | inl e' ↦ rw ((eq_iff opt "nilonzero").0 e') nilonzero-with
      | inr e' ↦ other-with opt e e'
    ]
  ]

foldl-apply_option :
    (T : Types) (m : FieldMeta) (opts : List String)
    → foldl (apply_option T) m opts ≡ with_options T m opts
foldl-apply_option T m [] = ground arith
foldl-apply_option T m (o ∷ os) =
    foldl-apply_option T (apply_option T m o) os ∙ apply_option-with T m os o

-- What a tag means: `-` leaves the field out, any other first part but an empty one is its key,
-- and an option counts wherever it stands after the first comma.
abbrev pub described : Types → StructField → List ℕ → Option String → FieldMeta
described T sf index none = new_meta sf index
described T sf index (some value) =
    let parts = split_comma value in
    let unnamed = parts.0 == "-" || parts.0 == "" in
    record {
      field = sf;
      key = if unnamed then sf.name else parts.0;
      ignored = parts.0 == "-";
      required = not (parts.0 == "-") && contains parts.1 "required";
      nil_on_zero = is_nillable (kind T sf.typ) && contains parts.1 "nilonzero";
      renamed = not unnamed;
      index = index;
      nested = [];
    }

apply_name-described :
    (T : Types) (sf : StructField) (index : List ℕ) (part : String) (opts : List String)
    → with_options T (apply_name (new_meta sf index) part) opts ≡ (
        let unnamed = part == "-" || part == "" in
        record {
          field = sf;
          key = if unnamed then sf.name else part;
          ignored = part == "-";
          required = not (part == "-") && contains opts "required";
          nil_on_zero = is_nillable (kind T sf.typ) && contains opts "nilonzero";
          renamed = not unnamed;
          index = index;
          nested = [];
        })
apply_name-described T sf index part opts = elim (Bool-cases (part == "-")) [
  | inl e ↦ rw e
  | inr e ↦ elim (Bool-cases (part == "")) [ inl e' ↦ rw (e, e') | inr e' ↦ rw (e, e') ]
]

apply_value-described :
    (T : Types) (sf : StructField) (index : List ℕ) (value : Option String)
    → apply_value T (new_meta sf index) value ≡ described T sf index value
unfolding apply_value
apply_value-described T sf index none = refl
apply_value-described T sf index (some value) =
    let parts = split_comma value in
    foldl-apply_option T (apply_name (new_meta sf index) parts.0) parts.1
    ∙ apply_name-described T sf index parts.0 parts.1

-- Reading the tag of a fresh descriptor gives exactly the descriptor that the tag describes: its
-- key, and whether it is ignored, required, renamed and made nil when it is zero. `-` wins over
-- `required`, and `nilonzero` counts only at a type that can be nil.
pub apply_tag-described :
    (T : Types) (sf : StructField) (index : List ℕ) (tag_name : String)
    → apply_tag T (new_meta sf index) tag_name ≡ described T sf index (lookup tag_name sf.tags)
unfolding apply_tag
apply_tag-described T sf index tag_name = apply_value-described T sf index _
