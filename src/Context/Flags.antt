-- ===== src/Context/Flags.antt =====
-- What a plan key says of the options: prepare and keyFor of engine.go.
use fastcopier.Base.{
  ℕ, ◌^◌, ◌/◌, ◌%◌, ◌<◌, ltb, ◌≡◌, ◌↔◌, refl, sym, ◌∙◌, Bool, true, false, arith, ap,
}
use fastcopier.Cache.{PlanKey}
use fastcopier.Context.{Context, prepare, raise, key_for}

-- The flags as a number, with the bits that the code leaves free at 0.
abbrev bits_of : Bool → Bool → Bool → ℕ
bits_of p i s = raise s 5 (raise i 3 (raise p 1 0))

bits_of-lt : (p i s : Bool) → bits_of p i s < 2 ^ 8
unfolding raise
bits_of-lt true true true = omega arith
bits_of-lt true true false = omega arith
bits_of-lt true false true = omega arith
bits_of-lt true false false = omega arith
bits_of-lt false true true = omega arith
bits_of-lt false true false = omega arith
bits_of-lt false false true = omega arith
bits_of-lt false false false = omega arith

-- The flags fit the byte that holds them.
pub prepare-flags-lt : (c : Context) → (prepare c).flags < 2 ^ 8
unfolding prepare
prepare-flags-lt c =
    bits_of-lt c.copy_between_ptr_and_value c.ignore_non_copyable_types c.skip_zero_fields

-- Reading one bit back.
abbrev bit : ℕ → ℕ → Bool
bit n f = ltb 0 (f / 2 ^ n % 2)

abbrev Reads : Bool → Bool → Bool → Type 0
Reads p i s =
    (bit 1 (bits_of p i s) ≡ p) × (bit 3 (bits_of p i s) ≡ i) × (bit 5 (bits_of p i s) ≡ s)

bits_of-Reads : (p i s : Bool) → Reads p i s
unfolding raise
bits_of-Reads true true true = (refl, refl, refl)
bits_of-Reads true true false = (refl, refl, refl)
bits_of-Reads true false true = (refl, refl, refl)
bits_of-Reads true false false = (refl, refl, refl)
bits_of-Reads false true true = (refl, refl, refl)
bits_of-Reads false true false = (refl, refl, refl)
bits_of-Reads false false true = (refl, refl, refl)
bits_of-Reads false false false = (refl, refl, refl)

-- The options that decide which plan is built, as far as the key of a plan tells them apart.
pub record SameOptions (c d : Context) : Type 0 where
  pub between : c.copy_between_ptr_and_value ≡ d.copy_between_ptr_and_value
  pub ignore : c.ignore_non_copyable_types ≡ d.ignore_non_copyable_types
  pub skip : c.skip_zero_fields ≡ d.skip_zero_fields

bits_of-injective :
    (p i s p' i' s' : Bool) → bits_of p i s ≡ bits_of p' i' s' → (p ≡ p') × (i ≡ i') × (s ≡ s')
bits_of-injective p i s p' i' s' e =
    let r = bits_of-Reads p i s in
    let r' = bits_of-Reads p' i' s' in
    (sym r.0 ∙ ap (bit 1) e ∙ r'.0, sym r.1 ∙ ap (bit 3) e ∙ r'.1, sym r.2 ∙ ap (bit 5) e ∙ r'.2)

-- Two prepared contexts have one key for their plans exactly when the types are the same and so
-- are CopyBetweenPtrAndValue, IgnoreNonCopyableTypes and SkipZeroFields. No other option counts.
pub key_for-injective :
    (c d : Context) (dst src dst' src' : ℕ)
    → (key_for (prepare c) dst src ≡ key_for (prepare d) dst' src')
      ↔ ((dst ≡ dst') × (src ≡ src') × SameOptions c d)
unfolding key_for prepare
key_for-injective c d dst src dst' src' = (
  λ e.
      let (between, ignore, skip) =
        bits_of-injective c.copy_between_ptr_and_value c.ignore_non_copyable_types
          c.skip_zero_fields d.copy_between_ptr_and_value d.ignore_non_copyable_types
          d.skip_zero_fields (ap (λ (k : PlanKey). k.flags) e) in
      (
        ap (λ (k : PlanKey). k.dst_type) e,
        ap (λ (k : PlanKey). k.src_type) e,
        record { between = between; ignore = ignore; skip = skip },
      ),
  λ (a, b, same). rw (a, b, same.between, same.ignore, same.skip),
)
