-- ===== src/Execute/Slices.antt =====
-- plan_slice.go: slicePlan.Copy.
use fastcopier.Base.{ℕ, zero, suc, ◌-◌, Bool, false, ltb, leb, ◌==◌, nat_eq, if◌then◌else◌}
use fastcopier.Execute.Pointers.{Run}
use fastcopier.GoTypes.{slice_kind}
use fastcopier.Plan.{Plan}
use fastcopier.Reflect.{
  System, Exec, Ref, kind_at, set_to, set_zero, is_nil, length_at, capacity_at, set_length,
  make_slice, copy_items, index_at,
}
use fastcopier.Resolve.{pure, ◌>>=◌, ◌>>◌}

module _ (Y : System) where
  -- `for i := …; i < …; i++ { elem.Copy(dst.Index(i), src.Index(i), ctx) }`, with the rounds left
  unfoldable pub copy_each : Run Y → Plan → Ref → Ref → ℕ → ℕ → Exec Y (Unit {0})
  copy_each run p dst src zero i = pure tt
  copy_each run p dst src (suc n) i = do
    d ← index_at Y dst i
    s ← index_at Y src i
    run p d s
    copy_each run p dst src n (suc i)

  -- The bulk path into a slice.
  unfoldable pub copy_bulk : Ref → Ref → ℕ → Exec Y (Unit {0})
  copy_bulk dst src n = do
    c ← capacity_at Y dst
    if leb n c
        then set_length Y dst n >> copy_items Y dst src
        else (do out ← make_slice Y dst.typ n; copy_items Y out src; set_to Y dst out)

  -- The path into a slice that copies each item.
  unfoldable pub copy_sequence : Run Y → Plan → Ref → Ref → ℕ → Exec Y (Unit {0})
  copy_sequence run p dst src n = do
    c ← capacity_at Y dst
    if leb n c
        then set_length Y dst n >> copy_each run p dst src n 0
        else (do out ← make_slice Y dst.typ n; copy_each run p out src n 0; set_to Y dst out)

  -- Setting the items from one index on, with the rounds left.
  unfoldable pub zero_rest : Ref → ℕ → ℕ → Exec Y (Unit {0})
  zero_rest dst zero i = pure tt
  zero_rest dst (suc n) i = do d ← index_at Y dst i; set_zero Y d; zero_rest dst n (suc i)

  -- The path into an array.
  unfoldable pub copy_array : Run Y → Plan → Ref → Ref → ℕ → Exec Y (Unit {0})
  copy_array run p dst src n = do
    m ← length_at Y dst
    let k = if ltb m n then m else n
    copy_each run p dst src k 0
    zero_rest dst (m - k) k

  unfoldable pub copy_slice : Run Y → Plan → Bool → Ref → Ref → Exec Y (Unit {0})
  copy_slice run p bulk dst src = do
    n ← length_at Y src
    if kind_at Y dst == slice_kind
        then (do
          is_null ← (if kind_at Y src == slice_kind then is_nil Y src else pure false)
          if is_null
              then set_zero Y dst
              else if bulk
              then copy_bulk dst src n
              else copy_sequence run p dst src n)
        else copy_array run p dst src n
