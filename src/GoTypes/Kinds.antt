-- ===== src/GoTypes/Kinds.antt =====
-- What a kind says of a type: the parts that reflect then reads without a panic.
use fastcopier.Base.{ℕ, ◌≡◌, refl, true, false, List, ◌==◌, nat_eq, ◌||◌, some}
use fastcopier.GoTypes.{
  StructField, Desc, basic, array, mapping, pointer, slice, struct, Basic, kind_of, elem_of, key_of,
  fields_of, pointer_kind, slice_kind, array_kind, map_kind, struct_kind,
}

basic_kind-ne :
    (b : Basic)
    → ((kind_of (basic b) == pointer_kind) ≡ false)
      × ((kind_of (basic b) == slice_kind) ≡ false)
      × ((kind_of (basic b) == array_kind) ≡ false)
      × ((kind_of (basic b) == map_kind) ≡ false)
      × ((kind_of (basic b) == struct_kind) ≡ false)
basic_kind-ne Basic.bool = (refl, refl, refl, refl, refl)
basic_kind-ne _ = (refl, refl, refl, refl, refl)

pub pointer_elem : (d : Desc) → (kind_of d == pointer_kind) ≡ true → (e : ℕ) × (elem_of d ≡ some e)
pointer_elem (basic b) h = cc (h, (basic_kind-ne b).0)
pointer_elem (pointer e) h = (e, refl)
pointer_elem _ h = cc

pub slice_elem :
    (d : Desc)
    → (kind_of d == slice_kind || kind_of d == array_kind) ≡ true
    → (e : ℕ) × (elem_of d ≡ some e)
slice_elem (basic b) h =
    let f = (basic_kind-ne b).1 in let g = (basic_kind-ne b).2 in cc (rw (f, g) at h)
slice_elem (slice e) h = (e, refl)
slice_elem (array e n) h = (e, refl)
slice_elem _ h = cc

pub map_parts :
    (d : Desc)
    → (kind_of d == map_kind) ≡ true
    → (k e : ℕ) × (key_of d ≡ some k) × (elem_of d ≡ some e)
map_parts (basic b) h = cc (h, (basic_kind-ne b).3)
map_parts (mapping k e) h = (k, e, refl, refl)
map_parts _ h = cc

pub struct_fields :
    (d : Desc)
    → (kind_of d == struct_kind) ≡ true
    → (fs : List StructField) × (fields_of d ≡ some fs)
struct_fields (basic b) h = cc (h, (basic_kind-ne b).4)
struct_fields (struct fs) h = (fs, refl)
struct_fields _ h = cc

pub fields_of_struct : (d : Desc) {fs : List StructField} → fields_of d ≡ some fs → d ≡ struct fs
fields_of_struct (struct fs) h = cc
fields_of_struct _ h = cc
