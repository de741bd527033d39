-- ===== src/Generator/Command.antt =====
-- The command itself: main, loadPackage, hasGoMod, lookupStruct and splitComma of
-- cmd/fastcopier-gen/main.go. An error is its text; log.Fatal ends the command with one.
pub mod Names
pub mod Written
use fastcopier.Base.{
  ℕ, zero, suc, String, Bool, true, false, ◌&&◌, ◌||◌, not, List, [], ◌∷◌, ◌++◌, ◌==◌, ◌<>◌,
  string_eq, if◌then◌else◌, Option, none, some,
}
use fastcopier.Base.Outcome.{Outcome, ok, err, panic, out_of_fuel, ◌>>=◌}
use fastcopier.Context.{trim_space}
use fastcopier.Fields.{split_comma}
use fastcopier.Generator.Universe.{Universe, Named, underlying_struct, as_named}
use fastcopier.Generator.Lines.{PkgInfo}
use fastcopier.Generator.Source.{TypePair, Failure, generate}

-- The command-line flags, after flag.Parse. `out_name` and `pkg_dir` are -out and -pkg.
pub record Flags : Type 0 where
  pub types : String
  pub src : String
  pub dst : String
  pub out_name : String
  pub pkg_dir : String

-- *packages.Package. `types` is none for nil.
pub record LoadedPackage : Type 0 where
  pub name : String
  pub types : Option PkgInfo
  pub errors : List String

-- What the command calls: filepath.Abs, Join and Dir, whether os.Stat returns no error,
-- os.Environ, packages.Load in a directory with an environment, format.Source, the verb %q, and
-- os.WriteFile with its error.
pub record Host : Type 0 where
  pub absolute : String → Outcome String String
  pub join : String → String → String
  pub parent_dir : String → String
  pub exists_file : String → Bool
  pub environ : List String
  pub load : String → List String → Outcome String (List LoadedPackage)
  pub format : String → Outcome String String
  pub quote : String → String
  pub write_file : String → String → Option String

-- An error that is wrapped with words before it.
unfoldable pub fail_with : {A : Type 0} → String → Outcome String A → Outcome String A
fail_with words (ok a) = ok a
fail_with words (err e) = err (words <> e)
fail_with words panic = panic
fail_with words out_of_fuel = out_of_fuel

-- The loop of splitComma.
unfoldable pub keep_names : List String → List String
keep_names [] = []
keep_names (p ∷ ps) =
    let t = trim_space p in let rest = keep_names ps in if not (t == "") then t ∷ rest else rest

unfoldable pub split_names : String → List String
split_names s = let parts = split_comma s in keep_names (parts.0 ∷ parts.1)

unfoldable pub is_test_package : String → Bool
is_test_package String.[] = false
is_test_package (String.◌∷◌ c r) = String.◌∷◌ c r == "_test" || is_test_package r

-- The first package that is no test package.
unfoldable pub first_package : List LoadedPackage → Option LoadedPackage
first_package [] = none
first_package (p ∷ ps) = if not (is_test_package p.name) then some p else first_package ps

abbrev pub no_packages : String → String
no_packages dir = "no packages found in " <> dir

unfoldable pub types_missing : String → List String → Outcome String PkgInfo
types_missing dir [] = err (no_packages dir)
types_missing dir (e ∷ es) = err ("loading package in " <> dir <> ": " <> e)

-- The checks on the package that was picked; what is left when its types are there.
unfoldable pub checked_package : String → LoadedPackage → Outcome String PkgInfo
checked_package dir p = elim p.types [
  | none ↦ types_missing dir p.errors
  | some info ↦ if info.name == "" then types_missing dir p.errors else ok info
]

unfoldable pub pick_package : String → List LoadedPackage → Outcome String PkgInfo
pick_package dir [] = err (no_packages dir)
pick_package dir (p ∷ ps) = elim (first_package (p ∷ ps)) [
  | none ↦ err ("no non-test package found in " <> dir)
  | some q ↦ checked_package dir q
]

unfoldable pub lookup_struct : Universe → (String → Option ℕ) → String → Option Named
lookup_struct U scope name = elim (scope name) [
  | none ↦ none
  | some t ↦ elim (as_named U t) [
    | none ↦ none
    | some n ↦ elim (underlying_struct U t) [
      | none ↦ none
      | some st ↦ some (record { typ = t; name = n })
    ]
  ]
]

module _ (H : Host) where
  unfoldable pub has_go_mod : ℕ → String → Outcome String Bool
  has_go_mod zero dir = out_of_fuel
  has_go_mod (suc fuel) dir =
      let above = has_go_mod fuel (H.parent_dir dir) in
      if H.exists_file (H.join dir "go.mod")
      then ok true
      else if H.parent_dir dir == dir
      then ok false
      else above

  unfoldable pub load_package : ℕ → String → Outcome String PkgInfo
  load_package fuel dir = has_go_mod fuel dir >>= λ found.
      let env =
        if not found then H.environ ++ ("GO111MODULE=off" ∷ "GOWORK=off" ∷ []) else H.environ in
      fail_with ("loading package in " <> dir <> ": ") (H.load dir env) >>= pick_package dir

  -- A type that the command names, or its fatal error.
  unfoldable pub named_struct : Universe → PkgInfo → String → String → Outcome String Named
  named_struct U pkg kind name = elim (lookup_struct U pkg.scope name) [
    | none ↦ err ("fastcopier-gen: " <> kind <> " " <> H.quote name <> " not found in package")
    | some t ↦ ok t
  ]

  unfoldable pub same_type_pairs : Universe → PkgInfo → List String → Outcome String (List TypePair)
  same_type_pairs U pkg [] = ok []
  same_type_pairs U pkg (name ∷ names) = named_struct U pkg "type" name >>= λ t.
      same_type_pairs U pkg names >>= λ ps. ok (record { dst = t; src = t } ∷ ps)

  unfoldable pub collect_pairs : Universe → PkgInfo → Flags → Outcome String (List TypePair)
  collect_pairs U pkg flags =
      if not (flags.types == "")
      then same_type_pairs U pkg (split_names flags.types)
      else (named_struct U pkg "src type" flags.src >>= λ s.
          named_struct U pkg "dst type" flags.dst >>= λ d. ok (record { dst = d; src = s } ∷ []))

  -- `log.Fatalf("fastcopier-gen: generating code: %v", err)` drops the output.
  unfoldable pub generated_text : Outcome Failure String → Outcome String String
  generated_text (ok out) = ok out
  generated_text (err e) = err ("fastcopier-gen: generating code: " <> e.message)
  generated_text panic = panic
  generated_text out_of_fuel = out_of_fuel

  unfoldable pub written : String → String → Outcome String (String × String)
  written path out = elim (H.write_file path out) [
    | none ↦ ok (path, out)
    | some e ↦ err ("fastcopier-gen: writing " <> path <> ": " <> e)
  ]

  -- The types are known once the package is loaded. The result is the file that is written: its
  -- path and its text.
  unfoldable pub run_command : Universe → ℕ → Flags → Outcome String (String × String)
  run_command U fuel flags =
      if flags.types == "" && (flags.src == "" || flags.dst == "")
      then err "fastcopier-gen: provide -types OR both -src and -dst"
      else (fail_with "fastcopier-gen: resolving package dir: " (H.absolute flags.pkg_dir)
          >>= λ dir.
              fail_with "fastcopier-gen: loading package: " (load_package fuel dir) >>= λ pkg.
              collect_pairs U pkg flags >>= λ pairs.
              generated_text (generate U fuel H.format pkg pairs) >>= λ out.
              written (H.join dir flags.out_name) out)
