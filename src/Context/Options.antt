-- ===== src/Context/Options.antt =====
-- Options and their order: the With functions of fastcopier.go.
use fastcopier.Base.{
  ℕ, String, ◌≡◌, ◌≢◌, refl, true, false, List, [], ◌∷◌, ◌++◌, string_eq, some, arith,
}
use text.Mathlib.TextEquality.{eq_iff}
use fastcopier.Context.{
  Context, global_cache, own_cache, prepare, key_for, apply_options, CopyOption, with_global_cache,
  with_fields, with_tag_name, trim_space,
}

with_tag_name-set :
    (tag : String) (c : Context)
    → trim_space tag ≢ ""
    → with_tag_name tag c ≡ record c { tag_name = trim_space tag; use_global_cache = false }
unfolding with_tag_name
with_tag_name-set tag c h = ground (arith, eq_iff (trim_space tag) "")

-- WithFields or WithTagName before WithGlobalCache(true) leaves a restricted copy on the global
-- cache, under the key of the unrestricted copy between the same types: the plan that is built
-- with the mask and the other tag is the one that later calls without them find.
pub with_fields-global :
    (c : Context) (f : String) (fs : List String) (tag : String) (dst src : ℕ)
    → trim_space tag ≢ ""
    → let restricted = prepare (
        apply_options (with_fields (f ∷ fs) ∷ with_tag_name tag ∷ with_global_cache true ∷ []) c) in
      let plain = prepare (apply_options (with_global_cache true ∷ []) c) in
      (restricted.cache ≡ global_cache)
      × (restricted.field_mask ≡ some (f ∷ fs))
      × (restricted.tag_name ≡ trim_space tag)
      × (plain.cache ≡ global_cache)
      × (plain.field_mask ≡ c.field_mask)
      × (key_for restricted dst src ≡ key_for plain dst src)
unfolding apply_options with_fields with_global_cache prepare key_for
with_fields-global c f fs tag dst src h =
    rw (with_tag_name-set tag (record c { field_mask = some (f ∷ fs); use_global_cache = false }) h)
      (refl, refl, refl, refl, refl, refl)

-- If no option is given after it that asks for the global cache, a mask or a tag keeps a call off
-- the global cache.
pub with_fields-own :
    (c : Context) (f : String) (fs : List String) (options : List CopyOption)
    → (prepare (apply_options (options ++ (with_fields (f ∷ fs) ∷ [])) c)).cache ≡ own_cache
unfolding apply_options with_fields prepare
with_fields-own c f fs [] = refl
with_fields-own c f fs (o ∷ os) = with_fields-own (o c) f fs os
