-- ===== src/Generator/Matching.antt =====
-- Which fields a generated copier copies: matchFields, flattenFields, flattenFieldList and
-- collectFields of cmd/fastcopier-gen/main.go.
pub mod Leaves
pub mod Pairing
pub mod Depth
use fastcopier.Base.{
  ℕ, zero, suc, String, Bool, false, ◌&&◌, not, List, [], ◌∷◌, ◌++◌, ◌==◌, nat_eq, string_eq,
  contains, if◌then◌else◌, Option, none, some,
}
use fastcopier.Base.Dict.{Dict, lookup, insert, erase, has_value}
use fastcopier.Base.Outcome.{Outcome, ok, out_of_fuel, ◌>>=◌}
use fastcopier.GoTypes.{StructField, or_panic}
use fastcopier.Generator.Universe.{
  Universe, Struct, Var, Named, underlying_struct, as_named, as_pointer,
}

-- fieldPair
pub record FieldPair : Type 0 where
  pub dst_field : Var
  pub src_field : Var

-- `f == g` of two *types.Var.
abbrev pub same_var : Var → Var → Bool
same_var f g = f.owner == g.owner && f.index == g.index

-- The two maps that collectFields fills.
pub record Collected : Type 0 where
  pub result : Dict String Var
  pub ambiguous : List String

abbrev pub nothing_collected : Collected
nothing_collected = record { result = []; ambiguous = [] }

unfoldable pub add_field : Var → Collected → Collected
add_field f s =
    if not f.field.exported
    then s
    else if contains s.ambiguous f.field.name
    then s
    else if has_value (lookup f.field.name s.result)
    then record { result = erase f.field.name s.result; ambiguous = f.field.name ∷ s.ambiguous }
    else record s { result = insert f.field.name f s.result }

abbrev pub var_at : ℕ → ℕ → StructField → Var
var_at id i sf = record { owner = id; index = i; field = sf }

-- The condition of visit for `append(out, f)`.
unfoldable pub is_listed : Collected → Var → Bool
is_listed s f =
    if not f.field.exported
    then false
    else if contains s.ambiguous f.field.name
    then false
    else elim (lookup f.field.name s.result) [ none ↦ false | some g ↦ same_var g f ]

unfoldable pub list_field : Collected → Var → List Var → List Var
list_field s f out = if is_listed s f then out ++ (f ∷ []) else out

-- The loop of matchFields.
unfoldable pub pair_fields : Dict String Var → List Var → List FieldPair
pair_fields src_by_name [] = []
pair_fields src_by_name (df ∷ dfs) =
    let rest = pair_fields src_by_name dfs in
    if not df.field.exported then rest else elim (lookup df.field.name src_by_name) [
      | none ↦ rest
      | some sf ↦ record { dst_field = df; src_field = sf } ∷ rest
    ]

module _ (U : Universe) where
  abbrev pub strip_pointer : ℕ → ℕ
  strip_pointer t = elim (as_pointer U t) [ none ↦ t | some e ↦ e ]

  -- The struct type that an anonymous field embeds, when it is a named one or a pointer to one.
  unfoldable pub embedded_struct : StructField → Option Struct
  embedded_struct sf =
      let ft = strip_pointer sf.typ in
      if sf.anonymous
      then elim (as_named U ft) [ none ↦ none | some n ↦ underlying_struct U ft ]
      else none

  unfoldable pub collect_step :
      (Struct → Collected → Outcome String Collected) → Var → Collected → Outcome String Collected
  collect_step rec f s = elim (embedded_struct f.field) [
    | some st ↦ rec st s
    | none ↦ ok (add_field f s)
  ]

  unfoldable pub collect_loop :
      (Struct → Collected → Outcome String Collected)
      → ℕ
      → ℕ
      → List StructField
      → Collected
      → Outcome String Collected
  collect_loop rec id i [] s = ok s
  collect_loop rec id i (sf ∷ fs) s =
      collect_step rec (var_at id i sf) s >>= collect_loop rec id (suc i) fs

  unfoldable pub collect_fields : ℕ → Struct → Collected → Outcome String Collected
  collect_fields zero st s = out_of_fuel
  collect_fields (suc fuel) st s = collect_loop (collect_fields fuel) st.id 0 st.fields s

  unfoldable pub flatten_fields : ℕ → Named → Outcome String (Dict String Var)
  flatten_fields fuel n = or_panic (underlying_struct U n.typ) >>= λ st.
      collect_fields fuel st nothing_collected >>= λ s. ok s.result

  unfoldable pub visit_step :
      (Struct → List Var → Outcome String (List Var))
      → Collected
      → Var
      → List Var
      → Outcome String (List Var)
  visit_step rec s f out = elim (embedded_struct f.field) [
    | some st ↦ rec st out
    | none ↦ ok (list_field s f out)
  ]

  unfoldable pub visit_loop :
      (Struct → List Var → Outcome String (List Var))
      → Collected
      → ℕ
      → ℕ
      → List StructField
      → List Var
      → Outcome String (List Var)
  visit_loop rec s id i [] out = ok out
  visit_loop rec s id i (sf ∷ fs) out =
      visit_step rec s (var_at id i sf) out >>= visit_loop rec s id (suc i) fs

  unfoldable pub visit : Collected → ℕ → Struct → List Var → Outcome String (List Var)
  visit s zero st out = out_of_fuel
  visit s (suc fuel) st out = visit_loop (visit s fuel) s st.id 0 st.fields out

  unfoldable pub flatten_field_list : ℕ → Named → Outcome String (List Var)
  flatten_field_list fuel n = or_panic (underlying_struct U n.typ) >>= λ st.
      collect_fields fuel st nothing_collected >>= λ s. visit s fuel st []

  unfoldable pub match_fields : ℕ → Named → Named → Outcome String (List FieldPair)
  match_fields fuel dst src = flatten_fields fuel src >>= λ src_by_name.
      flatten_field_list fuel dst >>= λ dst_fields. ok (pair_fields src_by_name dst_fields)
