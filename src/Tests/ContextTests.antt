-- ===== src/Tests/ContextTests.antt =====
-- The theorems on contexts and options at concrete values.
use fastcopier.Base.{ℕ, ◌≡◌, ◌≢◌, ◌↔◌, true, false, [], ◌∷◌, some, none, arith}
use fastcopier.Context.{
  Context, new_context, reset, prepare, key_for, trim_space, is_space, own_cache, global_cache,
  apply_options, with_fields, with_tag_name, with_global_cache,
}
use fastcopier.Context.Flags.{key_for-injective, SameOptions}
use fastcopier.Context.Options.{with_fields-global}
use fastcopier.Context.Recycling.{new_context-differs}
use text.Mathlib.TextEquality.{eq_iff}

abbrev used : Context
used = record new_context {
  field_mask = some ("Name" ∷ []);
  skip_zero_fields = true;
  visited = 192 ∷ [];
}

key_for-injective_example :
    (key_for (prepare used) 4 3 ≡ key_for (prepare (reset used)) 4 3)
    ↔ (◌≡◌ {A = ℕ} 4 4 × ◌≡◌ {A = ℕ} 3 3 × SameOptions used (reset used))
key_for-injective_example = key_for-injective used (reset used) 4 3 4 3

json_trimmed : trim_space "json" ≢ ""
unfolding trim_space is_space
json_trimmed e = ground (arith, eq_iff "json" "")

with_fields-global_example :
    let restricted = prepare (
      apply_options
        (with_fields ("Name" ∷ []) ∷ with_tag_name "json" ∷ with_global_cache true ∷ [])
        new_context) in
    let plain = prepare (apply_options (with_global_cache true ∷ []) new_context) in
    (restricted.cache ≡ global_cache)
    × (restricted.field_mask ≡ some ("Name" ∷ []))
    × (restricted.tag_name ≡ trim_space "json")
    × (plain.cache ≡ global_cache)
    × (plain.field_mask ≡ none)
    × (key_for restricted 4 3 ≡ key_for plain 4 3)
with_fields-global_example = with_fields-global new_context "Name" [] "json" 4 3 json_trimmed

defaults_differ :
    ((prepare new_context).copy_between_ptr_and_value ≡ false)
    × ((prepare new_context).cache ≡ own_cache)
    × ((prepare (reset used)).copy_between_ptr_and_value ≡ true)
    × ((prepare (reset used)).cache ≡ global_cache)
    × ((prepare new_context).flags ≢ (prepare (reset used)).flags)
defaults_differ = new_context-differs used
