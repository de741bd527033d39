-- ===== src/Execution/Plans.antt =====
-- The plans for pointers, interfaces, slices and structs leave ctx.visited as it was.
use fastcopier.Base.{ℕ, zero, suc, Bool, Option, none, some}
use fastcopier.Execute.{
  Run, copy_ptr, copy_deref, copy_addr, copy_deferred, copy_iface_src, copy_iface_dst, copy_each,
  copy_sequence, copy_array, copy_slice, copy_maybe, copy_found, copy_field, copy_fields,
}
use fastcopier.Execution.Access.{
  set_to-Balanced, set_zero-Balanced, new_variable-Balanced, is_nil-Balanced,
}
use fastcopier.Execution.Balance.{
  Balanced, pure-Balanced, bind-Balanced, then-Balanced, if-Balanced,
}
use fastcopier.Execution.Containers.{
  length_at-Balanced, capacity_at-Balanced, set_length-Balanced, make_slice-Balanced,
  index_at-Balanced,
}
use fastcopier.Execution.Cycles.{copy_pointed-Balanced}
use fastcopier.Plan.{Plan, Maybe, absent, present, Plans, done, first, FieldPath}
use fastcopier.Reflect.{System, Ref}
use fastcopier.Execution.Parts.{
  concrete-Balanced, copy_bulk-Balanced, destination_field-Balanced, elem_then-Balanced,
  field_set_zero-Balanced, nil_on_zero_value-Balanced, pointed_variable-Balanced,
  resolving-Balanced, skips-Balanced, source_field-Balanced, when-Balanced, zero_rest-Balanced,
}

module _ (Y : System) where
  abbrev pub RunBalanced : Run Y → Type 0
  RunBalanced run = (p : Plan) (d s : Ref) → Balanced Y (run p d s)

  module _ (run : Run Y) (h : RunBalanced run) where
    pub copy_ptr-Balanced : (p : Plan) (dst src : Ref) → Balanced Y (copy_ptr Y run p dst src)
    unfolding copy_ptr
    copy_ptr-Balanced p dst src =
        copy_pointed-Balanced Y dst src _
          λ s. bind-Balanced Y _ _ (pointed_variable-Balanced Y dst) λ d. h p d s

    pub copy_deref-Balanced : (p : Plan) (dst src : Ref) → Balanced Y (copy_deref Y run p dst src)
    unfolding copy_deref
    copy_deref-Balanced p dst src = copy_pointed-Balanced Y dst src _ λ s. h p dst s

    pub copy_addr-Balanced : (p : Plan) (dst src : Ref) → Balanced Y (copy_addr Y run p dst src)
    unfolding copy_addr
    copy_addr-Balanced p dst src =
        bind-Balanced Y _ _ (pointed_variable-Balanced Y dst) λ d. h p d src

    pub copy_deferred-Balanced :
        (fuel d s : ℕ) (dst src : Ref) → Balanced Y (copy_deferred Y fuel run d s dst src)
    unfolding copy_deferred
    copy_deferred-Balanced fuel d s dst src =
        bind-Balanced Y _ _ (resolving-Balanced Y fuel d s) λ p. h p dst src

    pub copy_iface_src-Balanced :
        (fuel : ℕ) (dst src : Ref) → Balanced Y (copy_iface_src Y fuel run dst src)
    unfolding copy_iface_src
    copy_iface_src-Balanced fuel dst src = bind-Balanced Y _ _ (concrete-Balanced Y src) (
        elem_then-Balanced Y dst _
          λ s. bind-Balanced Y _ _ (resolving-Balanced Y fuel dst.typ s.typ) λ p. h p dst s)

    pub copy_iface_dst-Balanced :
        (fuel : ℕ) (dst src : Ref) → Balanced Y (copy_iface_dst Y fuel run dst src)
    unfolding copy_iface_dst
    copy_iface_dst-Balanced fuel dst src = bind-Balanced Y _ _ (concrete-Balanced Y src) (
        elem_then-Balanced Y dst _ λ s.
          bind-Balanced Y _ _ (new_variable-Balanced Y s.typ) λ cloned.
            bind-Balanced Y _ _ (resolving-Balanced Y fuel s.typ s.typ)
              λ p. then-Balanced Y _ _ (h p cloned s) (set_to-Balanced Y dst cloned))

    pub copy_each-Balanced :
        (p : Plan) (dst src : Ref) (n i : ℕ) → Balanced Y (copy_each Y run p dst src n i)
    unfolding copy_each
    copy_each-Balanced p dst src zero i = pure-Balanced Y tt
    copy_each-Balanced p dst src (suc n) i = bind-Balanced Y _ _ (index_at-Balanced Y dst i) λ d.
        bind-Balanced Y _ _ (index_at-Balanced Y src i)
          λ s. then-Balanced Y _ _ (h p d s) (copy_each-Balanced p dst src n (suc i))

    pub copy_sequence-Balanced :
        (p : Plan) (dst src : Ref) (n : ℕ) → Balanced Y (copy_sequence Y run p dst src n)
    unfolding copy_sequence
    copy_sequence-Balanced p dst src n =
        search
          (
            bind-Balanced, if-Balanced, capacity_at-Balanced, set_length-Balanced,
            copy_each-Balanced, make_slice-Balanced, set_to-Balanced,
          )
          depth 10

    pub copy_array-Balanced :
        (p : Plan) (dst src : Ref) (n : ℕ) → Balanced Y (copy_array Y run p dst src n)
    unfolding copy_array
    copy_array-Balanced p dst src n =
        bind-Balanced Y _ _ (length_at-Balanced Y dst)
          λ m. then-Balanced Y _ _ (copy_each-Balanced p dst src _ 0) (zero_rest-Balanced Y dst _ _)

    pub copy_slice-Balanced :
        (p : Plan) (bulk : Bool) (dst src : Ref) → Balanced Y (copy_slice Y run p bulk dst src)
    unfolding copy_slice
    copy_slice-Balanced p bulk dst src =
        search
          (
            bind-Balanced, length_at-Balanced, if-Balanced, is_nil-Balanced, pure-Balanced,
            set_zero-Balanced, copy_bulk-Balanced, copy_sequence-Balanced, copy_array-Balanced,
          )
          depth 12

    pub copy_maybe-Balanced : (p : Maybe) (dst src : Ref) → Balanced Y (copy_maybe Y run p dst src)
    copy_maybe-Balanced absent dst src = set_to-Balanced Y dst src
    copy_maybe-Balanced (present p) dst src = h p dst src

    pub copy_fields-Balanced :
        (ps : Plans) (dst src : Ref) → Balanced Y (copy_fields Y run ps dst src)
    unfolding copy_fields
    copy_fields-Balanced done dst src = pure-Balanced Y tt
    copy_fields-Balanced (first p ps) dst src =
        then-Balanced Y _ _ (h p dst src) (copy_fields-Balanced ps dst src)

    pub copy_found-Balanced :
        (fuel : ℕ) (p : Maybe) (path : FieldPath) (dst : Ref) (s : Option Ref)
        → Balanced Y (copy_found Y fuel run p path dst s)
    copy_found-Balanced fuel p path dst none = field_set_zero-Balanced Y dst path.dst_index
    copy_found-Balanced fuel p path dst (some s) = bind-Balanced Y _ _ (skips-Balanced Y s) λ z.
        if-Balanced Y z _ _ (pure-Balanced Y tt) (
          bind-Balanced Y _ _ (destination_field-Balanced Y dst path.dst_index) λ d.
            then-Balanced Y _ _ (copy_maybe-Balanced p d s)
              (when-Balanced Y path.dst_nil_on_zero _ (nil_on_zero_value-Balanced Y fuel d)))

    pub copy_field-Balanced :
        (fuel : ℕ) (p : Maybe) (path : FieldPath) (dst src : Ref)
        → Balanced Y (copy_field Y fuel run p path dst src)
    unfolding copy_field
    copy_field-Balanced fuel p path dst src =
        bind-Balanced Y _ _ (source_field-Balanced Y src path.src_index)
          (copy_found-Balanced fuel p path dst)
