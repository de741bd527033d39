-- ===== src/Execution/Panics.antt =====
-- Copies that panic in reflect instead of returning an error: plan_struct.go and plans.go.
use fastcopier.Base.{
  ℕ, suc, ◌≡◌, refl, ◌==◌, nat_eq, ==_refl, Bool, true, false, List, [], ◌∷◌, get_elem?, Option,
  none, some, inl, inr, Bool-cases, Option-cases, ◌⊎◌, if◌then◌else◌,
}
use fastcopier.Base.Outcome.{Outcome, ok, err, panic, out_of_fuel}
use fastcopier.Cache.{PlanCache}
use fastcopier.Context.{key_for}
use fastcopier.Errors.{Error}
use fastcopier.Execute.{Run, copy_step, copy_plan, copy_field, copy_found, skips}
use fastcopier.Execution.Balance.{Worlds}
use fastcopier.Flat.{FlatCache, is_scalar, is_flat_type}
use fastcopier.Fields.{FieldMeta}
use fastcopier.GoTypes.{StructField, chan, struct, or_panic}
use fastcopier.Plan.{chan_plan, absent, FieldPath}
use fastcopier.Reflect.{
  System, Exec, Mark, exported, embedded_only, sticky, Spot, at, loaded, Ref, load, put, set_to,
  part, field_of, field_mark, is_exported,
}
use fastcopier.Resolve.{
  pure, continue, Rec, resolve_by_kind, resolve_step, resolve_plan, build_field_plan,
  make_field_plan, field_path,
}
use fastcopier.Store.{Value, items, get_value, read_place}

same-test : (a b : ℕ) → a ≡ b → (a == b) ≡ true
same-test a b h = rw h (==_refl b)

module _ (Y : System) where
  put-unexported :
      (r : Ref) (v : Value) (w : Worlds Y) → is_exported r.mark ≡ false → (put Y r v w).0 ≡ panic
  unfolding put
  put-unexported r v w h = spot r.spot
    where
      spot : (s : Spot) → (put Y (record r { spot = s }) v w).0 ≡ panic
      spot (at p) = rw h refl
      spot (loaded u) = refl

  set_to-refused :
      (dst src : Ref) (w : Worlds Y)
      → Y.machine.assignable dst.typ src.typ ≡ false
      → (set_to Y dst src w).0 ≡ panic
  unfolding set_to
  set_to-refused dst src w h = elim (Bool-cases (is_exported src.mark)) [
    | inl may ↦ rw (may, h) refl
    | inr may ↦ rw may refl
  ]

  -- Two channel types get a plan whatever they carry, and if a value of the one cannot be assigned
  -- to the other, running that plan panics. The types are not registered, and there is no plan
  -- for them in the cache.
  pub copy_plan-chan_panic :
      (fuel more c e : ℕ) (dst src : Ref) (w : Worlds Y)
      → Y.env.T.desc dst.typ ≡ chan c
      → Y.env.T.desc src.typ ≡ chan e
      → Y.env.registry dst.typ src.typ ≡ none
      → PlanCache.get Y.cache (key_for Y.env.ctx dst.typ src.typ) w.plans ≡ none
      → Y.machine.assignable dst.typ src.typ ≡ false
      → (resolve_plan Y.env Y.cache (suc fuel) dst.typ src.typ w.plans ≡ (ok chan_plan, w.plans))
        × ((copy_plan Y (suc more) chan_plan dst src w).0 ≡ panic)
  unfolding resolve_plan resolve_step resolve_by_kind is_scalar copy_plan copy_step
  copy_plan-chan_panic fuel more c e dst src w hd hs r n a =
      (rw (r, resolve_step) (rw n (rw (hd, hs) refl)), set_to-refused dst src w a)

  continue-panic :
      {A B : Type 0} (f : A → Exec Y B) (g : Error → Exec Y B) (r : Outcome Error A × Worlds Y)
      → r.0 ≡ panic
      → (continue f g r).0 ≡ panic
  continue-panic f g (ok a, w) h = cc
  continue-panic f g (err e, w) h = cc
  continue-panic f g (panic, w) h = refl
  continue-panic f g (out_of_fuel, w) h = cc

  or_panic-cases :
      {A : Type 0} (o : Option A) (w : Worlds Y)
      → (◌≡◌ {A = Outcome Error A × Worlds Y} (or_panic o, w) (panic, w))
        ⊎ ((a : A) × (◌≡◌ {A = Outcome Error A × Worlds Y} (or_panic o, w) (ok a, w)))
  or_panic-cases none w = inl refl
  or_panic-cases (some a) w = inr (a, refl)

  load-cases :
      (r : Ref) (w : Worlds Y)
      → (load Y r w ≡ (panic, w)) ⊎ ((v : Value) × (load Y r w ≡ (ok v, w)))
  unfolding load
  load-cases r w = spot r.spot
    where
      spot :
          (s : Spot)
          → (load Y (record r { spot = s }) w ≡ (panic, w))
            ⊎ ((v : Value) × (load Y (record r { spot = s }) w ≡ (ok v, w)))
      spot (at p) = or_panic-cases (read_place w.heap p) w
      spot (loaded v) = inr (v, refl)

  -- Set asks both values for exported fields.
  set_to-unexported :
      (dst src : Ref) (w : Worlds Y)
      → (is_exported dst.mark ≡ false) ⊎ (is_exported src.mark ≡ false)
      → (set_to Y dst src w).0 ≡ panic
  unfolding set_to
  set_to-unexported dst src w (inr shut) = rw shut refl
  set_to-unexported dst src w (inl shut) = elim (Bool-cases (is_exported src.mark)) [
    | inr closed ↦ rw closed refl
    | inl may ↦ rw may (elim (Bool-cases (Y.machine.assignable dst.typ src.typ)) [
      | inr apart ↦ rw apart refl
      | inl fits ↦ rw fits (elim (load-cases src w) [
        | inl e ↦ rw e refl
        | inr (v, e) ↦ rw e (put-unexported dst _ w shut)
      ])
    ])
  ]

  -- The part of a value has the type and the mark that were asked for.
  part-cases :
      (t : ℕ) (m : Mark) (r : Ref) (i : ℕ) (w : Worlds Y)
      → (part Y t m r i w ≡ (panic, w))
        ⊎ ((s : Spot) × (part Y t m r i w ≡ (ok (record { typ = t; spot = s; mark = m }), w)))
  part-cases t m r i w = spot r.spot
    where
      spot :
          (s : Spot)
          → (part Y t m (record r { spot = s }) i w ≡ (panic, w))
            ⊎ ((u : Spot) × (part Y t m (record r { spot = s }) i w
                  ≡ (ok (record { typ = t; spot = u; mark = m }), w)))
      spot (at p) = inr (_, refl)
      spot (loaded (items vs)) = elim (Option-cases (get_value vs i)) [
        | inl e ↦ inl (rw (e, part) refl)
        | inr (v, e) ↦ inr (loaded v, rw (e, part) refl)
      ]
      spot (loaded _) = inl refl

  field_mark-unexported :
      (m : Mark) (sf : StructField) → sf.exported ≡ false → is_exported (field_mark m sf) ≡ false
  field_mark-unexported sticky sf h = refl
  field_mark-unexported exported sf h = rw h (closed sf.anonymous)
    where
      closed : (b : Bool) → is_exported (if b then embedded_only else sticky) ≡ false
      closed true = refl
      closed false = refl
  field_mark-unexported embedded_only sf h = rw h (closed sf.anonymous)
    where
      closed : (b : Bool) → is_exported (if b then embedded_only else sticky) ≡ false
      closed true = refl
      closed false = refl

  field_of-eq :
      (r : Ref) (i : ℕ) (fs : List StructField) (sf : StructField) (w : Worlds Y)
      → Y.env.T.desc r.typ ≡ struct fs
      → get_elem? fs i ≡ some sf
      → field_of Y r i w ≡ part Y sf.typ (field_mark r.mark sf) r i w
  unfolding field_of
  field_of-eq r i fs sf w d e = rw (d, e) refl

  skips-none : (r : Ref) → Y.env.ctx.skip_zero_fields ≡ false → skips Y r ≡ pure false
  skips-none r z = simp z

  -- The field of the source and that of the destination are got, or the step panics before.
  module _ (fuel i j : ℕ) (path : FieldPath) (dst src : Ref) (fs gs : List StructField)
      (df sf : StructField) (di : path.dst_index ≡ j ∷ []) (si : path.src_index ≡ i ∷ [])
      (hd : Y.env.T.desc dst.typ ≡ struct fs) (hs : Y.env.T.desc src.typ ≡ struct gs)
      (ed : get_elem? fs j ≡ some df) (es : get_elem? gs i ≡ some sf)
      (shut : (df.exported ≡ false) ⊎ (sf.exported ≡ false))
      (z : Y.env.ctx.skip_zero_fields ≡ false) where
    found_panic :
        (run : Run Y) (s : Spot) (w : Worlds Y)
        → (copy_found Y fuel run absent path dst
            (some (record { typ = sf.typ; spot = s; mark = field_mark src.mark sf }))
            w).0
          ≡ panic
    found_panic run s w =
        rw (skips-none (record { typ = sf.typ; spot = s; mark = field_mark src.mark sf }) z) (
          rw di (
            rw (field_of-eq dst j fs df w hd ed)
              (elim (part-cases df.typ (field_mark dst.mark df) dst j w) [
                | inl e ↦ rw e refl
                | inr (u, e) ↦
                    rw e (continue-panic _ _ _ (set_to-unexported _ _ w (closed_sides shut)))
              ])))
      where
        closed_sides :
            (df.exported ≡ false) ⊎ (sf.exported ≡ false)
            → (is_exported (field_mark dst.mark df) ≡ false)
              ⊎ (is_exported (field_mark src.mark sf) ≡ false)
        closed_sides (inl h) = inl (field_mark-unexported dst.mark df h)
        closed_sides (inr h) = inr (field_mark-unexported src.mark sf h)

    copy_field-panic :
        (run : Run Y) (w : Worlds Y) → (copy_field Y fuel run absent path dst src w).0 ≡ panic
    unfolding copy_field
    copy_field-panic run w = rw si (
        rw (field_of-eq src i gs sf w hs es)
          (elim (part-cases sf.typ (field_mark src.mark sf) src i w) [
            | inl e ↦ rw e refl
            | inr (u, e) ↦ rw e (found_panic run u w)
          ]))

  -- Two structs with a field of one flat type under one key, which is not exported on one side or on
  -- both: the field gets a plan, as one that can be copied does, and running it panics. Both fields
  -- are direct ones, and zero fields are not skipped.
  pub copy_plan-unexported_panic :
      (fuel i j : ℕ) (fs gs : List StructField) (dm sm : FieldMeta) (rec : Rec Y.env Y.cache)
      (d s : ℕ) (memo : FlatCache) (c : PlanCache.State Y.cache) (dst src : Ref) (w : Worlds Y)
      → sm.field.typ ≡ dm.field.typ
      → is_flat_type Y.env.T Y.env.depth sm.field.typ [] ≡ ok (true, memo)
      → Y.env.T.desc dst.typ ≡ struct fs
      → Y.env.T.desc src.typ ≡ struct gs
      → get_elem? fs j ≡ some dm.field
      → get_elem? gs i ≡ some sm.field
      → dm.index ≡ j ∷ []
      → sm.index ≡ i ∷ []
      → (dm.field.exported ≡ false) ⊎ (sm.field.exported ≡ false)
      → Y.env.ctx.skip_zero_fields ≡ false
      → (build_field_plan Y.env Y.cache rec d s dm sm c ≡ (ok (make_field_plan dm sm absent), c))
        × ((copy_plan Y (suc fuel) (make_field_plan dm sm absent) dst src w).0 ≡ panic)
  unfolding build_field_plan copy_plan copy_step
  copy_plan-unexported_panic fuel i j fs gs dm sm rec d s memo c dst src w same flat hd hs ed es di
        si shut z =
      (
        rw (same-test sm.field.typ dm.field.typ same) (rw flat refl),
        copy_field-panic fuel i j (field_path dm sm) dst src fs gs dm.field sm.field di si hd hs ed
            es shut z _ w,
      )
