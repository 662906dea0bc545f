-- ===== src/Discover/Libraries/Dependencies.antt =====
-- What `DiscoverDependencies` of internal/discover/library.go lists.
use rbln_container_toolkit.Prelude.{
  String, ◌≡◌, refl, sym, ap, ◌∙◌, inl, inr, Bool, true, false, Option, none, some, List, [], ◌∷◌,
  map, contains, Distinct, Bool-cases, if◌then◌else◌, ◌==◌, string_eq, eq_iff, All,
}
use rbln_container_toolkit.Prelude.Texts.{base}
use rbln_container_toolkit.Prelude.Dict.{Dict, lookup, NodupKeys}
use rbln_container_toolkit.Config.{Config}
use rbln_container_toolkit.Discover.{Library}
use rbln_container_toolkit.Discover.FirstWins.{
  keep_first, lookup-keep_first, keep_first-NodupKeys, keep_first-All,
}
use rbln_container_toolkit.Discover.HostFiles.{HostFiles, or_nothing, flat-All, every-All}
use rbln_container_toolkit.Discover.Roots.{to_search_root_path}
use rbln_container_toolkit.Discover.Libraries.{
  is_glibc, paths_of, dependency, dependency_candidates, present, discover_dependencies,
}

abbrev pub library_paths : List Library → List String
library_paths = map (λ library. library.path)

-- The first candidate of a path, and it is none of glibc.
abbrev pub is_kept : Option (Option Library) → Bool
is_kept (some (some library)) = true
is_kept _ = false

module _ (host : HostFiles) (cfg : Config) where
  abbrev IsFound : String × Option Library → Type 0
  IsFound (path, none) = Unit
  IsFound (path, some library) = (library.path ≡ path) × (is_glibc host cfg library.name ≡ false)

  dependency-IsFound : (found : String) → IsFound (dependency host cfg found)
  unfolding dependency
  dependency-IsFound found = elim (Bool-cases (is_glibc host cfg (base found))) [
    | inl excluded ↦ rw excluded tt
    | inr other ↦ rw other (refl, other)
  ]

  candidates-IsFound : (libs : List Library) → All IsFound (dependency_candidates host cfg libs)
  unfolding dependency_candidates
  candidates-IsFound libs =
      flat-All IsFound
        (λ library.
          map (dependency host cfg)
            (or_nothing (host.dependencies (to_search_root_path cfg library.path))))
        libs (λ library. every-All IsFound (dependency host cfg) _ dependency-IsFound)

  contains-present :
      (m : Dict (Option Library)) (path : String)
      → All IsFound m
      → NodupKeys m
      → contains (library_paths (present m)) path ≡ is_kept (lookup path m)
  unfolding present lookup
  contains-present [] path all once = refl
  contains-present ((k, none) ∷ m) path all once = elim (Bool-cases (k == path)) [
    | inl same ↦ rw same (
        contains-present m path all.1 once.1
        ∙ ap is_kept (ap (λ j. lookup j m) (sym ((eq_iff k path).0 same)) ∙ once.0))
    | inr other ↦ rw other (contains-present m path all.1 once.1)
  ]
  contains-present ((k, some library) ∷ m) path all once =
      rw all.0.0 (elim (Bool-cases (k == path)) [
        | inl same ↦ rw same refl
        | inr other ↦ rw other (contains-present m path all.1 once.1)
      ])

  present-Distinct :
      (m : Dict (Option Library))
      → All IsFound m
      → NodupKeys m
      → Distinct (library_paths (present m))
  unfolding present
  present-Distinct [] all once = tt
  present-Distinct ((k, none) ∷ m) all once = present-Distinct m all.1 once.1
  present-Distinct ((k, some library) ∷ m) all once = (
    contains-present m library.path all.1 once.1
        ∙ ap is_kept (ap (λ j. lookup j m) all.0.0 ∙ once.0),
    present-Distinct m all.1 once.1,
  )

  present-All :
      (m : Dict (Option Library))
      → All IsFound m
      → All (λ library. is_glibc host cfg library.name ≡ false) (present m)
  unfolding present
  present-All [] all = tt
  present-All ((k, none) ∷ m) all = present-All m all.1
  present-All ((k, some library) ∷ m) all = (all.0.1, present-All m all.1)

  -- The listed dependencies are those that are found, each path once: a path is listed when no given
  -- library has it and the first dependency with it is none of glibc.
  pub discover_dependencies-listed :
      (libs : List Library)
      → ((path : String)
          → contains (library_paths (discover_dependencies host cfg libs)) path ≡ (
              if contains (paths_of libs) path
              then false
              else is_kept (lookup path (dependency_candidates host cfg libs))))
        × Distinct (library_paths (discover_dependencies host cfg libs))
        × All
            (λ library. is_glibc host cfg library.name ≡ false)
            (discover_dependencies host cfg libs)
  unfolding discover_dependencies
  discover_dependencies-listed libs =
      let seen = paths_of libs in
      let found = dependency_candidates host cfg libs in
      let all : All IsFound (keep_first seen found) =
        keep_first-All IsFound seen found (candidates-IsFound libs) in
      let once = keep_first-NodupKeys seen found in
      (
        λ path.
            contains-present (keep_first seen found) path all once
            ∙ ap is_kept (lookup-keep_first seen found path)
            ∙ (elim (contains seen path)
                as (λ b.
                  is_kept (if b then none else lookup path found)
                  ≡ (if b then false else is_kept (lookup path found))) [
                    | true ↦ refl
                    | false ↦ refl
                  ]),
        present-Distinct (keep_first seen found) all once,
        present-All (keep_first seen found) all,
      )
