-- ===== src/Discover/Elf.antt =====
-- internal/discover/elf.go: the dependencies of a library, found over the names that ELF files need.
pub mod Scan
pub mod Ends
pub mod Reached
use rbln_container_toolkit.Prelude.{
  ℕ, zero, suc, String, ◌<>◌, Bool, true, false, not, ◌&&◌, ◌||◌, Option, none, some, List, [], ◌∷◌,
  ◌++◌, contains, if◌then◌else◌, ◌==◌, string_eq,
}
use rbln_container_toolkit.Prelude.Texts.{path_join}
use rbln_container_toolkit.Prelude.Relative.{rel}
use rbln_container_toolkit.Discover.HostFiles.{HostFiles, Mode}

-- `visited` is the map of the paths that were seen; `pending` the queue.
pub record Walk : Type 0 where
  pub visited : List String
  pub pending : List String
  pub found : List String

pub data Outcome : Type 0 where
  done : List String → Outcome
  out_of_fuel : Outcome

abbrev pub start : String → Walk
start library = record { visited = library ∷ []; pending = library ∷ []; found = [] }

module _ (host : HostFiles) (driver_root : String) (search_paths : List String) where
  -- The path of a link from the driver root.
  abbrev through_link : String → String → String
  through_link candidate otherwise = elim (host.eval_symlinks candidate) [
    | none ↦ otherwise
    | some real ↦ elim (rel driver_root real) [ none ↦ otherwise | some path ↦ "/" <> path ]
  ]

  abbrev resolved_as : Option Mode → String → String → String → String
  resolved_as none candidate plain otherwise = otherwise
  resolved_as (some Mode.symlink) candidate plain otherwise = through_link candidate otherwise
  resolved_as (some _) candidate plain otherwise = plain

  -- The loop of `resolveLibrary`.
  unfoldable pub resolve_in : String → List String → String
  unfolding path_join rel
  resolve_in name [] = ""
  resolve_in name (search_path ∷ more) =
      let candidate = path_join (driver_root ∷ search_path ∷ name ∷ []) in
      resolved_as (host.lstat candidate) candidate (path_join (search_path ∷ name ∷ []))
        (resolve_in name more)

  -- "" when the library is not found.
  unfoldable pub resolve_library : String → String
  unfolding resolve_in
  resolve_library name = resolve_in name search_paths

  unfoldable pub full_path : String → String
  unfolding path_join
  full_path resolved = path_join (driver_root ∷ resolved ∷ [])

  -- The body of the loop over the names that a file needs.
  unfoldable pub offer : Walk → String → Walk
  unfolding resolve_library full_path
  offer walk name =
      let resolved = resolve_library name in
      let path = full_path resolved in
      if resolved == "" || contains walk.visited path then walk else record {
        visited = path ∷ walk.visited;
        pending = walk.pending ++ path ∷ [];
        found = walk.found ++ resolved ∷ [];
      }

  unfoldable pub offer_all : Walk → List String → Walk
  unfolding offer
  offer_all walk [] = walk
  offer_all walk (name ∷ names) = offer_all (offer walk name) names

  -- `needed` is `elfReadNeeded`; `none` an error.
  module _ (needed : String → Option (List String)) where
    -- One turn, after `current` left the queue; an error passes over the file.
    unfoldable pub expand : Walk → String → List String → Walk
    unfolding offer_all
    expand walk current rest = elim (needed current) [
      | none ↦ record walk { pending = rest }
      | some names ↦ offer_all (record walk { pending = rest }) names
    ]

    unfoldable pub loop : ℕ → Walk → Outcome
    unfolding expand
    loop zero walk = elim walk.pending [ [] ↦ done walk.found | current ∷ rest ↦ out_of_fuel ]
    loop (suc fuel) walk = elim walk.pending [
      | [] ↦ done walk.found
      | current ∷ rest ↦ loop fuel (expand walk current rest)
    ]

    -- `Run`
    unfoldable pub resolve_all : ℕ → String → Outcome
    unfolding loop
    resolve_all fuel library = loop fuel (start library)
