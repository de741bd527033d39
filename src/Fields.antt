-- ===== src/Fields.antt =====
-- fields.go: field descriptors, struct tags, and the direct and promoted fields of a struct type.
-- A descriptor is identified by its index path, so the flags `done` that the code sets through
-- pointers are the set of the marked paths. `range` is the order in which Go iterates a map.
pub mod Tags
pub mod Direct
pub mod Promoted
pub mod Cycles
pub mod Collisions
pub mod Shadowing
use Prim.Native.Char.{code}
use fastcopier.Base.{
  ℕ, zero, suc, String, Bool, true, false, ◌&&◌, ◌||◌, not, List, [], ◌∷◌, ◌++◌, foldl, ◌==◌,
  nat_eq, string_eq, list_eq, contains, if◌then◌else◌, Option, none, some,
}
use fastcopier.Base.Dict.{Dict, lookup, insert, erase, has_value}
use fastcopier.Base.Outcome.{Outcome, ok, out_of_fuel, ◌>>=◌}
use fastcopier.Errors.{Error}
use fastcopier.GoTypes.{
  Types, StructField, kind, elem_of, fields_of, or_panic, iface_kind, map_kind, pointer_kind,
  slice_kind, struct_kind,
}

-- `nested` holds the paths of the descriptors that are reachable through `nestedFields`.
pub record FieldMeta : Type 0 where
  pub field : StructField
  pub key : String
  pub ignored : Bool
  pub required : Bool
  pub nil_on_zero : Bool
  pub renamed : Bool
  pub index : List ℕ
  pub nested : List (List ℕ)

abbrev pub Metas : Type 0
Metas = Dict String FieldMeta

abbrev pub DoneSet : Type 0
DoneSet = List (List ℕ)

unfoldable pub mark_done : FieldMeta → DoneSet → DoneSet
mark_done m done = (m.index ∷ m.nested) ++ done

unfoldable pub is_done : FieldMeta → DoneSet → Bool
is_done m done = contains done m.index

-- `strings.Split(s, ",")`: the first part, and the others.
unfoldable pub split_comma : String → String × List String
split_comma String.[] = ("", [])
split_comma (String.◌∷◌ c s) =
    let rest = split_comma s in
    if code c == b',' then ("", rest.0 ∷ rest.1) else (String.◌∷◌ c rest.0, rest.1)

abbrev pub new_meta : StructField → List ℕ → FieldMeta
new_meta sf index = record {
  field = sf;
  key = sf.name;
  ignored = false;
  required = false;
  nil_on_zero = false;
  renamed = false;
  index = index;
  nested = [];
}

unfoldable pub is_nillable : ℕ → Bool
is_nillable k = k == pointer_kind || k == iface_kind || k == slice_kind || k == map_kind

abbrev pub apply_name : FieldMeta → String → FieldMeta
apply_name m part =
    if part == "-"
    then record m { ignored = true }
    else if not (part == "")
    then record m { key = part; renamed = true }
    else m

module _ (T : Types) where
  unfoldable pub apply_option : FieldMeta → String → FieldMeta
  apply_option m opt =
      if opt == "required"
      then (if m.ignored then m else record m { required = true })
      else if opt == "nilonzero"
      then (if is_nillable (kind T m.field.typ) then record m { nil_on_zero = true } else m)
      else m

  -- `!ok` of Tag.Lookup is `none`.
  unfoldable pub apply_value : FieldMeta → Option String → FieldMeta
  unfolding apply_option is_nillable split_comma
  apply_value m none = m
  apply_value m (some value) =
      let parts = split_comma value in foldl apply_option (apply_name m parts.0) parts.1

  unfoldable pub apply_tag : FieldMeta → String → FieldMeta
  unfolding apply_value lookup
  apply_tag m tag_name =
      apply_value (record m { key = m.field.name }) (lookup tag_name m.field.tags)

  -- An embedded pointer is read through.
  abbrev pub through_pointer : ℕ → Outcome Error ℕ
  through_pointer t = if kind T t == pointer_kind then or_panic (elem_of (T.desc t)) else ok t

-- The state of the loop of parseNestedFields.
pub record Promoting : Type 0 where
  pub result : Metas
  pub ambiguous : List String

-- A key that is met again is taken out, and stays out.
unfoldable pub add_promoted : FieldMeta → String → Promoting → Promoting × Bool
add_promoted m key s =
    if contains s.ambiguous key
    then (s, false)
    else if has_value (lookup key s.result)
    then (record { result = erase key s.result; ambiguous = key ∷ s.ambiguous }, false)
    else (record s { result = insert key m s.result }, true)

-- The inner loop, over the promoted fields of an embedded field. Returns the paths that the
-- embedded field's descriptor reaches too.
unfoldable pub add_nested : Metas → Promoting → Promoting × List (List ℕ)
add_nested [] s = (s, [])
add_nested ((key, detail) ∷ more) s =
    let (s', added) = add_promoted detail key s in
    let (s'', paths) = add_nested more s' in
    (s'', if added then (detail.index ∷ detail.nested) ++ paths else paths)

-- `m.nestedFields = append(…)`, seen through the pointer in the map.
unfoldable pub set_nested : FieldMeta → List (List ℕ) → Metas → Metas
set_nested m paths result = elim (lookup m.key result) [
  | none ↦ result
  | some m' ↦ insert m.key (record m' { nested = paths }) result
]

-- What the two loops share: the promoted fields of a type under a path.
abbrev pub Promote : Type 0
Promote = ℕ → List ℕ → Outcome Error Metas

module _ (T : Types) (range : Metas → Metas) (tag_name : String) where
  unfoldable pub nested_step : Promote → StructField → List ℕ → Promoting → Outcome Error Promoting
  nested_step promote sf idx s =
      let m = apply_tag T (new_meta sf idx) tag_name in
      if m.ignored
      then ok s
      else let (s', added) = add_promoted m m.key s in
        if added && sf.anonymous
        then (promote sf.typ idx >>= λ inner.
            let (s'', paths) = add_nested (range inner) s' in
            ok (record s'' { result = set_nested m paths s''.result }))
        else ok s'

  unfoldable pub nested_loop :
      Promote → List StructField → ℕ → List ℕ → Promoting → Outcome Error Promoting
  nested_loop promote [] i index s = ok s
  nested_loop promote (sf ∷ fs) i index s =
      nested_step promote sf (index ++ (i ∷ [])) s >>= nested_loop promote fs (suc i) index

  -- The body at the type read through, over the recursive calls.
  unfoldable pub promoted_of : Promote → List ℕ → ℕ → Outcome Error Metas
  promoted_of promote index u =
      if kind T u == struct_kind
      then (or_panic (fields_of (T.desc u)) >>= λ fs.
          nested_loop promote fs 0 index (record { result = []; ambiguous = [] }) >>= λ s.
          ok s.result)
      else ok []

  unfoldable pub parse_nested_fields : ℕ → ℕ → List ℕ → Outcome Error Metas
  parse_nested_fields zero t index = out_of_fuel
  parse_nested_fields (suc fuel) t index =
      through_pointer T t >>= promoted_of (parse_nested_fields fuel) index

-- What parseStructFields returns.
pub record Parsed : Type 0 where
  pub direct_keys : List String
  pub direct : Metas
  pub inherited_keys : List String
  pub inherited : Metas

-- An explicit rename takes a key from a field that has it by its own name.
unfoldable pub add_direct : FieldMeta → Parsed → Parsed
add_direct m p = elim (lookup m.key p.direct) [
  | some existing ↦
      if not existing.renamed && m.renamed then record p { direct = insert m.key m p.direct } else p
  | none ↦ record p {
    direct_keys = p.direct_keys ++ (m.key ∷ []);
    direct = insert m.key m p.direct;
  }
]

unfoldable pub add_inherited : Metas → Parsed → Parsed
add_inherited [] p = p
add_inherited ((key, detail) ∷ more) p = add_inherited more (record p {
  inherited_keys = p.inherited_keys ++ (key ∷ []);
  inherited = insert key detail p.inherited;
})

abbrev pub paths_of : Metas → List (List ℕ)
paths_of [] = []
paths_of ((key, detail) ∷ more) = (detail.index ∷ detail.nested) ++ paths_of more

-- The descriptor is in the map only if it won its key.
unfoldable pub set_direct_nested : FieldMeta → List (List ℕ) → Metas → Metas
set_direct_nested m paths direct = elim (lookup m.key direct) [
  | none ↦ direct
  | some m' ↦
      if m'.index == m.index then insert m.key (record m' { nested = paths }) direct else direct
]

module _ (T : Types) (range : Metas → Metas) (tag_name : String) where
  unfoldable pub direct_step : ℕ → StructField → ℕ → Parsed → Outcome Error Parsed
  direct_step fuel sf i p =
      let m = apply_tag T (new_meta sf (i ∷ [])) tag_name in
      if m.ignored
      then ok p
      else let p' = add_direct m p in
        if sf.anonymous
        then (parse_nested_fields T range tag_name fuel sf.typ (i ∷ []) >>= λ found.
            let inner = range found in
            let p'' = add_inherited inner p' in
            ok (record p'' { direct = set_direct_nested m (paths_of inner) p''.direct }))
        else ok p'

  unfoldable pub direct_loop : ℕ → List StructField → ℕ → Parsed → Outcome Error Parsed
  direct_loop fuel [] i p = ok p
  direct_loop fuel (sf ∷ fs) i p = direct_step fuel sf i p >>= direct_loop fuel fs (suc i)

  -- NumField panics at a type that is no struct.
  unfoldable pub parse_struct_fields : ℕ → ℕ → Outcome Error Parsed
  parse_struct_fields fuel t = or_panic (fields_of (T.desc t)) >>= λ fs.
      direct_loop fuel fs 0
        (record { direct_keys = []; direct = []; inherited_keys = []; inherited = [] })
