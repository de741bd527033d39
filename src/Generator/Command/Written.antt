-- ===== src/Generator/Command/Written.antt =====
-- What the command writes for -types: main and generate of cmd/fastcopier-gen/main.go.
use fastcopier.Base.{
  ℕ, String, ◌≡◌, refl, ap, ◌&&◌, ◌||◌, Bool, true, false, List, [], ◌∷◌, ◌==◌, string_eq,
  if◌then◌else◌, Option, none, some, All, ◌<>◌, not,
}
use fastcopier.Base.Outcome.{Outcome, ok, err, panic, out_of_fuel, ◌>>=◌, >>=-eq-ok, ok-injective}
use fastcopier.Generator.Code.Closed.{IsClosed, declared, generated-IsClosed, generated-declared}
use fastcopier.Generator.Code.Known.{func_names}
use fastcopier.Generator.Command.{
  Host, Flags, collect_pairs, fail_with, generated_text, load_package, named_struct, run_command,
  same_type_pairs, split_names, written,
}
use fastcopier.Generator.Lines.{PkgInfo}
use fastcopier.Generator.Source.{
  TypePair, GenFunc, Failure, file_text, format_source, gen_funcs, generate, new_generator,
  without_output,
}
use fastcopier.Generator.Universe.{Universe}
use mathlib.Core.Path.{subst}

without_output-ok : {A : Type 0} (m : Outcome String A) {a : A} → without_output m ≡ ok a → m ≡ ok a
unfolding without_output
without_output-ok (ok b) e = cc
without_output-ok (err x) e = cc
without_output-ok panic e = cc
without_output-ok out_of_fuel e = cc

format_source-ok :
    (format : String → Outcome String String) (text : String) {out : String}
    → format_source format text ≡ ok out
    → format text ≡ ok out
unfolding format_source
format_source-ok format text {out} e = go (format text) e
  where
    go :
        (m : Outcome String String)
        → ◌≡◌ {A = Outcome Failure String}
            (elim m [
              | ok formatted ↦ ok formatted
              | err x ↦ err (record {
                output = text;
                message = "formatting generated code: " <> x <> "\n--- unformatted ---\n" <> text;
              })
              | panic ↦ panic
              | out_of_fuel ↦ out_of_fuel
            ])
            (ok out)
        → m ≡ ok out
    go (ok s) e = cc
    go (err x) e = cc
    go panic e = cc
    go out_of_fuel e = cc

generated_text-ok :
    (H : Host) (m : Outcome Failure String) {out : String}
    → generated_text H m ≡ ok out
    → m ≡ ok out
unfolding generated_text
generated_text-ok H (ok s) e = cc
generated_text-ok H (err x) e = cc
generated_text-ok H panic e = cc
generated_text-ok H out_of_fuel e = cc

written-ok :
    (H : Host) (path out : String) {r : String × String}
    → written H path out ≡ ok r
    → (path, out) ≡ r
unfolding written
written-ok H path out {r} e = go (H.write_file path out) e
  where
    go :
        (o : Option String)
        → ◌≡◌ {A = Outcome String (String × String)}
            (elim o [
              | none ↦ ok (path, out)
              | some x ↦ err ("fastcopier-gen: writing " <> path <> ": " <> x)
            ])
            (ok r)
        → (path, out) ≡ r
    go none e = ok-injective e
    go (some x) e = cc

-- Under -types both types of a pair are one type.
same_type_pairs-same :
    (H : Host) (U : Universe) (pkg : PkgInfo) (names : List String) (ps : List TypePair)
    → same_type_pairs H U pkg names ≡ ok ps
    → All (λ p. p.src.name ≡ p.dst.name) ps
unfolding same_type_pairs
same_type_pairs-same H U pkg [] ps e =
    subst (All (λ p. p.src.name ≡ p.dst.name)) (ok-injective e) tt
same_type_pairs-same H U pkg (n ∷ names) ps e =
    let (t, e₁, e₂) = >>=-eq-ok (named_struct H U pkg "type" n) _ e in
    let (more, e₃, e₄) = >>=-eq-ok (same_type_pairs H U pkg names) _ e₂ in
    subst (All (λ p. p.src.name ≡ p.dst.name)) (ok-injective e₄)
      (refl, same_type_pairs-same H U pkg names more e₃)

-- What stands in a file for -types: functions of the pairs, closed among themselves, printed and
-- formatted.
pub record IsFileOf (H : Host) (U : Universe) (pkg : PkgInfo) (names : List String) (out : String)
    : Type 0 where
  pub pairs : List TypePair
  pub funcs : List GenFunc
  pub needs : Bool
  pub asked : same_type_pairs H U pkg names ≡ ok pairs
  pub named : declared funcs ≡ func_names pairs
  pub closed : All (IsClosed U (new_generator pkg pairs) (declared funcs)) funcs
  pub formatted :
      H.format
        (file_text (record { pkg_name = pkg.name; has_copy_fallback = needs; funcs = funcs }))
      ≡ ok out

-- What the command leaves for -types: a file of the package that the flags name, beside it.
pub record IsOutput (H : Host) (U : Universe) (fuel : ℕ) (flags : Flags) (r : String × String)
    : Type 0 where
  pub dir : String
  pub pkg : PkgInfo
  pub located : H.absolute flags.pkg_dir ≡ ok dir
  pub loaded : load_package H fuel dir ≡ ok pkg
  pub path : H.join dir flags.out_name ≡ r.0
  pub text : IsFileOf H U pkg (split_names flags.types) r.1

fail_with-ok :
    {A : Type 0} (words : String) (m : Outcome String A) {a : A}
    → fail_with words m ≡ ok a
    → m ≡ ok a
unfolding fail_with
fail_with-ok words (ok b) e = cc
fail_with-ok words (err x) e = cc
fail_with-ok words panic e = cc
fail_with-ok words out_of_fuel e = cc

generate-IsFileOf :
    (H : Host) (U : Universe) (fuel : ℕ) (names : List String) (pkg : PkgInfo) (ps : List TypePair)
    {out : String}
    → same_type_pairs H U pkg names ≡ ok ps
    → generate U fuel H.format pkg ps ≡ ok out
    → IsFileOf H U pkg names out
unfolding generate
generate-IsFileOf H U fuel names pkg ps asked e =
    let (made, e₁, e₂) =
      >>=-eq-ok (without_output (gen_funcs U fuel (new_generator pkg ps) ps false)) _ e in
    let funcs = without_output-ok (gen_funcs U fuel (new_generator pkg ps) ps false) e₁ in
    let same = same_type_pairs-same H U pkg names ps asked in
    record {
      pairs = ps;
      funcs = made.0;
      needs = made.1;
      asked = asked;
      named = generated-declared U fuel pkg ps made same funcs;
      closed = generated-IsClosed U fuel pkg ps made same funcs;
      formatted = format_source-ok H.format _ e₂;
    }

-- When the command ends without an error under -types, the file that it writes is the one that -out
-- names in the directory of -pkg, its text is the formatted text of one function for each type
-- that -types names in the package that is loaded from there, in this order, and the bodies of
-- these functions call only fastcopier.Copy and functions of the file.
pub run_command-IsOutput :
    (H : Host) (U : Universe) (fuel : ℕ) (flags : Flags) (r : String × String)
    → (flags.types == "") ≡ false
    → run_command H U fuel flags ≡ ok r
    → IsOutput H U fuel flags r
unfolding run_command collect_pairs
run_command-IsOutput H U fuel flags r named e = go (flags.types == "") named e
  where
    go :
        (b : Bool)
        → b ≡ false
        → (if b && (flags.src == "" || flags.dst == "")
            then err "fastcopier-gen: provide -types OR both -src and -dst"
            else (fail_with "fastcopier-gen: resolving package dir: " (H.absolute flags.pkg_dir)
                >>= λ dir.
                    fail_with "fastcopier-gen: loading package: " (load_package H fuel dir)
                    >>= λ pkg.
                        (if not b
                          then same_type_pairs H U pkg (split_names flags.types)
                          else (named_struct H U pkg "src type" flags.src >>= λ s.
                              named_struct H U pkg "dst type" flags.dst >>= λ d.
                              ok (record { dst = d; src = s } ∷ [])))
                        >>= λ pairs.
                            generated_text H (generate U fuel H.format pkg pairs) >>= λ out.
                            written H (H.join dir flags.out_name) out))
          ≡ ok r
        → IsOutput H U fuel flags r
    go true p e = cc
    go false p e =
        let (dir, e₁, e₂) = >>=-eq-ok (fail_with _ (H.absolute flags.pkg_dir)) _ e in
        let (pkg, e₃, e₄) = >>=-eq-ok (fail_with _ (load_package H fuel dir)) _ e₂ in
        let (ps, asked, e₅) = >>=-eq-ok (same_type_pairs H U pkg (split_names flags.types)) _ e₄ in
        let (out, e₆, e₇) = >>=-eq-ok (generated_text H (generate U fuel H.format pkg ps)) _ e₅ in
        let final = written-ok H (H.join dir flags.out_name) out e₇ in
        let made = generated_text-ok H (generate U fuel H.format pkg ps) e₆ in
        record {
          dir = dir;
          pkg = pkg;
          located = fail_with-ok _ (H.absolute flags.pkg_dir) e₁;
          loaded = fail_with-ok _ (load_package H fuel dir) e₃;
          path = ap (λ x. x.0) final;
          text =
              subst (IsFileOf H U pkg (split_names flags.types)) (ap (λ x. x.1) final)
                (generate-IsFileOf H U fuel (split_names flags.types) pkg ps asked made);
        }
