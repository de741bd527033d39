-- ===== src/Context.antt =====
-- fastcopier.go and engine.go: the options of a call, the pooled Context that carries them, and
-- the preparation and the reset around a call.
pub mod Options
pub mod Flags
pub mod Recycling
use Prim.Native.Char.{Char, code}
use Prim.Native.Nat.{bit_or}
use fastcopier.Base.{
  ℕ, zero, suc, ◌^◌, String, Bool, true, false, ◌&&◌, ◌||◌, not, List, [], ◌∷◌, foldl, ◌==◌, nat_eq,
  string_eq, leb, Option, none, some, if◌then◌else◌,
}
use fastcopier.Cache.{PlanKey}

pub data CircularRefPolicy : Type 0 where
  circular_ref_error circular_ref_skip : CircularRefPolicy

-- The nil interface, globalCache, and a new simpleCache.
pub data CacheChoice : Type 0 where
  no_cache global_cache own_cache : CacheChoice

-- `field_mask` is none for nil; `visited` is the set of the addresses on the way.
pub record Context : Type 0 where
  pub copy_between_ptr_and_value : Bool
  pub ignore_non_copyable_types : Bool
  pub use_global_cache : Bool
  pub circular_ref : CircularRefPolicy
  pub skip_zero_fields : Bool
  pub tag_name : String
  pub field_mask : Option (List String)
  pub cache : CacheChoice
  pub visited : List ℕ
  pub flags : ℕ

-- `&Context{}`, what the function New of both pools makes.
abbrev pub new_context : Context
new_context = record {
  copy_between_ptr_and_value = false;
  ignore_non_copyable_types = false;
  use_global_cache = false;
  circular_ref = circular_ref_error;
  skip_zero_fields = false;
  tag_name = "";
  field_mask = none;
  cache = no_cache;
  visited = [];
  flags = 0;
}

-- The loop deletes every key of `visited`.
unfoldable pub delete_all : List ℕ → List ℕ
delete_all [] = []
delete_all (p ∷ ps) = delete_all ps

unfoldable pub reset : Context → Context
unfolding delete_all
reset c = record {
  copy_between_ptr_and_value = true;
  ignore_non_copyable_types = false;
  use_global_cache = true;
  circular_ref = circular_ref_error;
  skip_zero_fields = false;
  tag_name = "";
  field_mask = none;
  cache = no_cache;
  visited = delete_all c.visited;
  flags = 0;
}

abbrev pub flag_bit_copy_between_ptr_and_value : ℕ
flag_bit_copy_between_ptr_and_value = 1

abbrev pub flag_bit_ignore_non_copyable_types : ℕ
flag_bit_ignore_non_copyable_types = 3

abbrev pub flag_bit_skip_zero_fields : ℕ
flag_bit_skip_zero_fields = 5

-- `if on { flags |= 1 << bit }`
unfoldable pub raise : Bool → ℕ → ℕ → ℕ
raise on bit flags = if on then bit_or flags (2 ^ bit) else flags

unfoldable pub prepare : Context → Context
unfolding raise
prepare c =
    let f₁ = raise c.copy_between_ptr_and_value flag_bit_copy_between_ptr_and_value 0 in
    let f₂ = raise c.ignore_non_copyable_types flag_bit_ignore_non_copyable_types f₁ in
    let f₃ = raise c.skip_zero_fields flag_bit_skip_zero_fields f₂ in
    record c { cache = if c.use_global_cache then global_cache else own_cache; flags = f₃ }

unfoldable pub key_for : Context → ℕ → ℕ → PlanKey
key_for c dst src = record { dst_type = dst; src_type = src; flags = c.flags }

unfoldable pub effective_tag_name : String → Context → String
effective_tag_name default_tag_name c =
    if not (c.tag_name == "") then c.tag_name else default_tag_name

-- unicode.IsSpace
unfoldable pub is_space : ℕ → Bool
is_space c =
    leb 9 c && leb c 13
    || c == 32
    || c == 0x85
    || c == 0xa0
    || c == 0x1680
    || leb 0x2000 c && leb c 0x200a
    || c == 0x2028
    || c == 0x2029
    || c == 0x202f
    || c == 0x205f
    || c == 0x3000

-- strings.TrimSpace
unfoldable pub trim_left : String → String
unfolding is_space
trim_left String.[] = ""
trim_left (String.◌∷◌ c s) =
    let rest = trim_left s in if is_space (code c) then rest else String.◌∷◌ c s

unfoldable pub trim_right : String → String
unfolding is_space
trim_right String.[] = ""
trim_right (String.◌∷◌ c s) =
    let rest = trim_right s in if is_space (code c) && rest == "" then "" else String.◌∷◌ c rest

unfoldable pub trim_space : String → String
unfolding trim_left trim_right
trim_space s = trim_right (trim_left s)

-- Option is a function on the context.
abbrev pub CopyOption : Type 0
CopyOption = Context → Context

unfoldable pub with_copy_between_ptr_and_value : Bool → CopyOption
with_copy_between_ptr_and_value flag c = record c { copy_between_ptr_and_value = flag }

unfoldable pub with_ignore_non_copyable_types : Bool → CopyOption
with_ignore_non_copyable_types flag c = record c { ignore_non_copyable_types = flag }

unfoldable pub with_global_cache : Bool → CopyOption
with_global_cache flag c = record c { use_global_cache = flag }

unfoldable pub with_circular_reference_policy : CircularRefPolicy → CopyOption
with_circular_reference_policy p c = record c { circular_ref = p }

unfoldable pub with_tag_name : String → CopyOption
with_tag_name tag c =
    let trimmed = trim_space tag in
    if not (trimmed == "") then record c { tag_name = trimmed; use_global_cache = false } else c

unfoldable pub with_fields : List String → CopyOption
with_fields [] c = c
with_fields (f ∷ fs) c = record c { field_mask = some (f ∷ fs); use_global_cache = false }

unfoldable pub with_skip_zero_fields : Bool → CopyOption
with_skip_zero_fields skip c = record c { skip_zero_fields = skip }

-- `for _, opt := range options { opt(ctx) }`
unfoldable pub apply_options : List CopyOption → Context → Context
apply_options [] c = c
apply_options (o ∷ os) c = apply_options os (o c)

-- The options that Merge passes on when it is given some.
unfoldable pub merge_options : List CopyOption → List CopyOption
unfolding with_skip_zero_fields
merge_options options = with_skip_zero_fields true ∷ options

-- SetDefaultTagName
unfoldable pub set_default_tag_name : String → String → String
unfolding trim_space
set_default_tag_name tag current =
    let trimmed = trim_space tag in if not (trimmed == "") then trimmed else current
