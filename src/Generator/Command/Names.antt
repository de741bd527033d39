-- ===== src/Generator/Command/Names.antt =====
-- The flag -types lists type names: splitComma of cmd/fastcopier-gen/main.go.
use Prim.Native.Char.{code}
use fastcopier.Base.{
  String, ◌≡◌, refl, ap, ◌∙◌, Bool, false, ◌||◌, List, [], ◌∷◌, ◌==◌, ◌<>◌, nat_eq, string_eq,
  arith, All,
}
use text.Mathlib.TextLemmas.{nil-append, cons-append}
use fastcopier.Context.{is_space, trim_left, trim_right, trim_space}
use fastcopier.Fields.{split_comma}
use fastcopier.Generator.Command.{keep_names, split_names}

-- Text without a comma.
unfoldable pub has_comma : String → Bool
has_comma String.[] = false
has_comma (String.◌∷◌ c s) = code c == b',' || has_comma s

-- Text between commas.
unfoldable pub join_comma : List String → String
join_comma [] = ""
join_comma (n ∷ []) = n
join_comma (n ∷ m ∷ ns) = n <> ("," <> join_comma (m ∷ ns))

or-false : (a b : Bool) → (a || b) ≡ false → (a ≡ false) × (b ≡ false)
or-false a b h = ground arith

split_comma-plain : (n : String) → has_comma n ≡ false → split_comma n ≡ (n, [])
unfolding split_comma has_comma
split_comma-plain String.[] h = refl
split_comma-plain (String.◌∷◌ c n) h =
    let (other, more) = or-false (code c == b',') (has_comma n) h in
    rw (other, split_comma-plain n more) refl

split_comma-comma :
    (s : String) → split_comma ("," <> s) ≡ ("", (split_comma s).0 ∷ (split_comma s).1)
unfolding split_comma
split_comma-comma s = ap split_comma (cons-append "," "" s ∙ ap (String.◌∷◌ ",") (nil-append s))

split_comma-append :
    (n s : String)
    → has_comma n ≡ false
    → split_comma (n <> ("," <> s)) ≡ (n, (split_comma s).0 ∷ (split_comma s).1)
unfolding split_comma has_comma
split_comma-append String.[] s h = ap split_comma (nil-append ("," <> s)) ∙ split_comma-comma s
split_comma-append (String.◌∷◌ c n) s h =
    ap split_comma (cons-append c n ("," <> s))
    ∙ let (other, more) = or-false (code c == b',') (has_comma n) h in
      rw (other, split_comma-append n s more) refl

-- Text without a space.
unfoldable pub has_space : String → Bool
has_space String.[] = false
has_space (String.◌∷◌ c s) = is_space (code c) || has_space s

trim_right-plain : (n : String) → has_space n ≡ false → trim_right n ≡ n
unfolding trim_right has_space
trim_right-plain String.[] h = refl
trim_right-plain (String.◌∷◌ c n) h =
    let (other, more) = or-false (is_space (code c)) (has_space n) h in
    rw (other, trim_right-plain n more) refl

trim_left-plain : (n : String) → has_space n ≡ false → trim_left n ≡ n
unfolding trim_left has_space
trim_left-plain String.[] h = refl
trim_left-plain (String.◌∷◌ c n) h =
    let (other, more) = or-false (is_space (code c)) (has_space n) h in rw other refl

trim_space-plain : (n : String) → has_space n ≡ false → trim_space n ≡ n
unfolding trim_space
trim_space-plain n h = ap trim_right (trim_left-plain n h) ∙ trim_right-plain n h

-- What names a Go type: text that is not empty, without a space and without a comma.
abbrev pub IsName : String → Type 0
IsName n = (has_comma n ≡ false) × (has_space n ≡ false) × ((n == "") ≡ false)

keep_names-names : (ns : List String) → All IsName ns → keep_names ns ≡ ns
unfolding keep_names
keep_names-names [] h = refl
keep_names-names (n ∷ ns) h =
    rw (trim_space-plain n h.0.1, h.0.2) (ap (◌∷◌ n) (keep_names-names ns h.1))

split_comma-join_comma :
    (n : String) (ns : List String)
    → All IsName (n ∷ ns)
    → split_comma (join_comma (n ∷ ns)) ≡ (n, ns)
unfolding join_comma
split_comma-join_comma n [] h = split_comma-plain n h.0.0
split_comma-join_comma n (m ∷ ns) h =
    split_comma-append n (join_comma (m ∷ ns)) h.0.0
    ∙ ap (λ p. (n, p.0 ∷ p.1)) (split_comma-join_comma m ns h.1)

-- Names that are joined by commas are what splitComma returns.
pub split_names-join_comma : (ns : List String) → All IsName ns → split_names (join_comma ns) ≡ ns
unfolding split_names join_comma split_comma keep_names trim_space trim_left trim_right
split_names-join_comma [] h = refl
split_names-join_comma (n ∷ ns) h =
    ap (λ p. keep_names (p.0 ∷ p.1)) (split_comma-join_comma n ns h) ∙ keep_names-names (n ∷ ns) h
