-- ===== src/Generator/Code/Known.antt =====
-- The maps of the generator lead only to copiers that it makes, where each copier is for types of
-- one name: generate of cmd/fastcopier-gen/main.go.
use fastcopier.Base.{
  String, ◌≡◌, refl, ◌∙◌, sym, Bool, true, false, ◌||◌, List, [], ◌∷◌, ◌<>◌, arith, inl, inr, some,
  ◌⊎◌, Bool-cases, contains, string_eq, All, All-map, ◌==◌, ==_refl, foldl,
}
use fastcopier.Base.Dict.{lookup, lookup-insert}
use fastcopier.Generator.Lines.{PkgInfo, Generator, copier_name}
use fastcopier.Generator.Source.{TypePair, know_pair, new_generator}
use mathlib.Core.Path.{subst}
use mathlib.Core.Option.{some-injective}
use text.Mathlib.TextEquality.{eq_iff}

-- The functions that the pairs of types give.
unfoldable pub func_names : List TypePair → List String
func_names [] = []
func_names (p ∷ ps) = copier_name p.src.name p.dst.name ∷ func_names ps

abbrev SameNames : TypePair → Type 0
SameNames p = p.src.name ≡ p.dst.name

-- Every copier that the maps of the generator lead to is one of these.
pub record Knows (names : List String) (g : Generator) : Type 0 where
  pub of_pair : (k fn : String) → lookup k g.known_pairs ≡ some fn → contains names fn ≡ true
  pub of_type :
      (n : String) → contains g.known_types n ≡ true → contains names (copier_name n n) ≡ true

either : (a b : Bool) → (a || b) ≡ true → (a ≡ true) ⊎ (b ≡ true)
either true b h = inl refl
either false b h = inr h

know_pair-Knows :
    (names : List String) (g : Generator) (p : TypePair)
    → SameNames p
    → contains names (copier_name p.src.name p.dst.name) ≡ true
    → Knows names g
    → Knows names (know_pair g p)
unfolding know_pair
know_pair-Knows names g p same has k = record { of_pair = pairs; of_type = types }
  where
    pairs :
        (j fn : String) → lookup j (know_pair g p).known_pairs ≡ some fn → contains names fn ≡ true
    pairs j fn e =
        let key = p.src.name <> "->" <> p.dst.name in
        let made = copier_name p.src.name p.dst.name in
        elim (Bool-cases (j == key)) [
          | inl new ↦
              subst (λ x. contains names x ≡ true)
                (some-injective made fn (rw (lookup-insert j key made g.known_pairs, new) at e)) has
          | inr old ↦ k.of_pair j fn (rw (lookup-insert j key made g.known_pairs, old) at e)
        ]

    of_name :
        (m n : String) → p.src.name ≡ m → (n == m) ≡ true → contains names (copier_name n n) ≡ true
    of_name m n a b =
        let at_n : p.src.name ≡ n = a ∙ sym ((eq_iff n m).0 b) in
        subst (λ x. contains names (copier_name x x) ≡ true) at_n
          (subst (λ x. contains names (copier_name p.src.name x) ≡ true) (sym same) has)

    types :
        (n : String)
        → contains (know_pair g p).known_types n ≡ true
        → contains names (copier_name n n) ≡ true
    types n e = elim (either (n == p.src.name) (n == p.dst.name || contains g.known_types n) e) [
      | inl is_src ↦ of_name p.src.name n refl is_src
      | inr rest ↦ elim (either (n == p.dst.name) (contains g.known_types n) rest) [
        | inl is_dst ↦ of_name p.dst.name n same is_dst
        | inr known ↦ k.of_type n known
      ]
    ]

AllKnown : List String → List TypePair → Type 0
AllKnown names ps =
    All (λ p. SameNames p × (contains names (copier_name p.src.name p.dst.name) ≡ true)) ps

foldl-Knows :
    (names : List String) (ps : List TypePair) (g : Generator)
    → AllKnown names ps
    → Knows names g
    → Knows names (foldl know_pair g ps)
unfolding AllKnown
foldl-Knows names [] g h k = k
foldl-Knows names (p ∷ ps) g h k =
    foldl-Knows names ps (know_pair g p) h.1 (know_pair-Knows names g p h.0.0 h.0.1 k)

func_names-AllKnown : (ps : List TypePair) → All SameNames ps → AllKnown (func_names ps) ps
unfolding AllKnown func_names
func_names-AllKnown [] h = tt
func_names-AllKnown (p ∷ ps) h =
    let first = copier_name p.src.name p.dst.name in
    (
      (h.0, rw (==_refl first) refl),
      All-map ps (λ q a. (a.0, rw a.1 (or_true _))) (func_names-AllKnown ps h.1),
    )
  where
    or_true : (b : Bool) → (b || true) ≡ true
    or_true b = ground arith

pub new_generator-Knows :
    (pkg : PkgInfo) (ps : List TypePair)
    → All SameNames ps
    → Knows (func_names ps) (new_generator pkg ps)
unfolding new_generator lookup
new_generator-Knows pkg ps h =
    foldl-Knows (func_names ps) ps (record { pkg = pkg; known_types = []; known_pairs = [] })
      (func_names-AllKnown ps h) (record { of_pair = λ k fn e. cc; of_type = λ n e. cc })
