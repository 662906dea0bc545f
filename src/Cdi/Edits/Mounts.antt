-- ===== src/Cdi/Edits/Mounts.antt =====
-- Which file is mounted where: the mounts against the list of files that are asked for, in order.
use mathlib.Core.List.{map-append, append-nil, append_assoc}
use rbln_container_toolkit.Prelude.{
  String, ◌≡◌, refl, sym, ◌∙◌, ap, inl, inr, Bool, true, false, not, ◌&&◌, Option, none, some, List,
  [], ◌∷◌, ◌++◌, map, contains, is_empty, subst, Bool-cases, ◌==◌, string_eq, eq_iff, arith,
  if◌then◌else◌,
}
use rbln_container_toolkit.Prelude.Dict.{
  Dict, lookup, NodupKeys, or_else, lookup-append, NodupKeys-snoc,
}
use rbln_container_toolkit.Config.{Config}
use rbln_container_toolkit.Discover.{Library, RdmaProvider, DiscoveryResult}
use rbln_container_toolkit.Cdi.Spec.{Mount, Hook}
use rbln_container_toolkit.Cdi.Edits.{
  Mounted, Host, create_mount, mount_once, mount_library, add_provider, add_library, add_providers,
  add_libraries, nothing_mounted, target_of, source_of, build_common_edits, tool_mounts,
  create_env_vars, create_ldcache_hook, create_symlink_hook, compute_symlinks,
}

-- Container path and host path of each mount.
abbrev pub pairs : List Mount → Dict String
pairs = map (λ m. (m.container_path, m.host_path))

abbrev is_some : Option String → Bool
is_some none = false
is_some (some v) = true

-- The mounts give each container path the file that `files` asks for first.
record Serves (files : Dict String) (m : Mounted) : Type 0 where
  same : (c : String) → lookup c (pairs m.mounts) ≡ lookup c files
  taken : (c : String) → contains m.paths c ≡ is_some (lookup c files)
  nodup : NodupKeys (pairs m.mounts)

pairs-snoc :
    (cfg : Config) (h c : String) (ms : List Mount)
    → pairs (ms ++ create_mount cfg h c ∷ []) ≡ pairs ms ++ (c, h) ∷ []
unfolding create_mount
pairs-snoc cfg h c ms =
    map-append (λ m. (m.container_path, m.host_path)) ms (create_mount cfg h c ∷ [])

module _ (cfg : Config) (h c : String) (files : Dict String) (m : Mounted)
    (s : Serves files m) where
  lookup_files :
      (k : String)
      → lookup k (files ++ (c, h) ∷ []) ≡ or_else (lookup k files) (if c == k then some h else none)
  lookup_files k =
      lookup-append k files ((c, h) ∷ []) ∙ ap (or_else (lookup k files)) (unfold lookup in refl)

  -- A path that is taken stays as it is; one that is free gets the file.
  mounted_lookup :
      contains m.paths c ≡ false
      → (k : String)
      → lookup k (pairs (m.mounts ++ create_mount cfg h c ∷ [])) ≡ lookup k (files ++ (c, h) ∷ [])
  mounted_lookup free k = rw pairs-snoc (
      lookup-append k (pairs m.mounts) ((c, h) ∷ [])
      ∙ (ap (λ o. or_else o (lookup k ((c, h) ∷ []))) (s.same k)
          ∙ sym (lookup-append k files ((c, h) ∷ []))))

  taken_after : (k : String) → contains (c ∷ m.paths) k ≡ is_some (lookup k (files ++ (c, h) ∷ []))
  taken_after k = rw lookup_files (ground (arith, s.taken k))

  kept_lookup :
      contains m.paths c ≡ true → (k : String) → lookup k files ≡ lookup k (files ++ (c, h) ∷ [])
  kept_lookup full k = rw lookup_files (ground (arith, s.taken k, s.taken c, eq_iff c k))

  nodup_after :
      contains m.paths c ≡ false → NodupKeys (pairs (m.mounts ++ create_mount cfg h c ∷ []))
  nodup_after free =
      rw pairs-snoc (
        NodupKeys-snoc (pairs m.mounts) c h s.nodup (s.same c ∙ none_free (sym (s.taken c) ∙ free)))
    where
      none_free : is_some (lookup c files) ≡ false → lookup c files ≡ none
      none_free e = ground arith

  mount_once-Serves : Serves (files ++ (c, h) ∷ []) (mount_once cfg h c m)
  unfolding mount_once
  mount_once-Serves = elim (Bool-cases (contains m.paths c)) [
    | inl full ↦ rw full (record {
      same = λ k. s.same k ∙ kept_lookup full k;
      taken = λ k. s.taken k ∙ ap is_some (kept_lookup full k);
      nodup = s.nodup;
    })
    | inr free ↦
        rw free
          (record { same = mounted_lookup free; taken = taken_after; nodup = nodup_after free })
  ]

  mount_library-Serves : Serves (files ++ (c, h) ∷ []) (mount_library cfg h c m)
  unfolding mount_library
  mount_library-Serves = elim (Bool-cases (contains m.paths c)) [
    | inl full ↦ rw full (record {
      same = λ k. s.same k ∙ kept_lookup full k;
      taken = λ k. s.taken k ∙ ap is_some (kept_lookup full k);
      nodup = s.nodup;
    })
    | inr free ↦
        rw free
          (record { same = mounted_lookup free; taken = taken_after; nodup = nodup_after free })
  ]

-- The files that one provider, all providers, and all libraries ask for, in the code's order.
abbrev pub provider_files : RdmaProvider → Dict String
provider_files p =
    (p.container_path, p.path)
    ∷ (if p.driver_path == "" then [] else (p.driver_path, p.driver_path) ∷ [])

pub providers_files : List RdmaProvider → Dict String
providers_files [] = []
providers_files (p ∷ ps) = provider_files p ++ providers_files ps

pub libraries_files : Config → List Library → Dict String
libraries_files cfg [] = []
libraries_files cfg (lib ∷ libs) = (target_of cfg lib, source_of lib) ∷ libraries_files cfg libs

-- The providers come first.
pub asked_files : Config → DiscoveryResult → Dict String
unfolding providers_files libraries_files
asked_files cfg result =
    providers_files result.rdma_providers ++ libraries_files cfg result.libraries

add_provider-Serves :
    (cfg : Config) (p : RdmaProvider) (files : Dict String) (m : Mounted)
    → Serves files m
    → Serves (files ++ provider_files p) (add_provider cfg p m)
unfolding add_provider
add_provider-Serves cfg p files m s = elim (Bool-cases (p.driver_path == "")) [
  | inl without ↦ rw without (mount_once-Serves cfg p.path p.container_path files m s)
  | inr given ↦ rw given (
      subst
        (λ fs.
          Serves fs
            (mount_once cfg p.driver_path p.driver_path (mount_once cfg p.path p.container_path m)))
        (append_assoc files ((p.container_path, p.path) ∷ []) ((p.driver_path, p.driver_path) ∷ []))
        (mount_once-Serves cfg p.driver_path p.driver_path
          (files ++ (p.container_path, p.path) ∷ []) (mount_once cfg p.path p.container_path m)
          (mount_once-Serves cfg p.path p.container_path files m s)))
]

add_providers-Serves :
    (cfg : Config) (ps : List RdmaProvider) (files : Dict String) (m : Mounted)
    → Serves files m
    → Serves (files ++ providers_files ps) (add_providers cfg ps m)
unfolding add_providers providers_files
add_providers-Serves cfg [] files m s = rw append-nil s
add_providers-Serves cfg (p ∷ ps) files m s =
    subst (λ fs. Serves fs (add_providers cfg ps (add_provider cfg p m)))
      (append_assoc files (provider_files p) (providers_files ps))
      (add_providers-Serves cfg ps (files ++ provider_files p) (add_provider cfg p m)
        (add_provider-Serves cfg p files m s))

add_libraries-Serves :
    (cfg : Config) (libs : List Library) (files : Dict String) (m : Mounted)
    → Serves files m
    → Serves (files ++ libraries_files cfg libs) (add_libraries cfg libs m)
unfolding add_libraries libraries_files
add_libraries-Serves cfg [] files m s = rw append-nil s
add_libraries-Serves cfg (lib ∷ libs) files m s =
    subst (λ fs. Serves fs (add_libraries cfg libs (add_library cfg lib m)))
      (append_assoc files ((target_of cfg lib, source_of lib) ∷ []) (libraries_files cfg libs))
      (add_libraries-Serves cfg libs (files ++ (target_of cfg lib, source_of lib) ∷ [])
        (add_library cfg lib m)
        (unfold add_library in
          mount_library-Serves cfg (source_of lib) (target_of cfg lib) files m s))

nothing-Serves : Serves [] nothing_mounted
nothing-Serves = record { same = λ c. refl; taken = λ c. unfold lookup in refl; nodup = tt }

abbrev mounted_files : Config → DiscoveryResult → Mounted
mounted_files cfg r =
    add_libraries cfg r.libraries (add_providers cfg r.rdma_providers nothing_mounted)

all_mounted :
    (cfg : Config) (r : DiscoveryResult) → Serves (asked_files cfg r) (mounted_files cfg r)
unfolding asked_files
all_mounted cfg r =
    add_libraries-Serves cfg r.libraries (providers_files r.rdma_providers)
      (add_providers cfg r.rdma_providers nothing_mounted)
      (add_providers-Serves cfg r.rdma_providers [] nothing_mounted nothing-Serves)

-- The common edits mount, in front of the tools, a list of files that takes no container path
-- twice, and has at each container path the file that is asked for first: those of the RDMA
-- providers before those of the libraries. So every library and provider is mounted at its place,
-- unless one before it took that place, and a provider always wins over a library.
pub build_common_edits-mounts :
    (cfg : Config) (host : Host) (r : DiscoveryResult)
    → (ms : List Mount) × ((build_common_edits cfg host (some r)).mounts
        ≡ ms ++ tool_mounts cfg r.tools)
      × NodupKeys (pairs ms)
      × ((c : String) → lookup c (pairs ms) ≡ lookup c (asked_files cfg r))
unfolding build_common_edits
build_common_edits-mounts cfg host r =
    let s = all_mounted cfg r in ((mounted_files cfg r).mounts, refl, s.nodup, s.same)

is_empty-append : (xs ys : List Hook) → is_empty (xs ++ ys) ≡ (is_empty xs && is_empty ys)
is_empty-append [] ys = refl
is_empty-append (x ∷ xs) ys = refl

no_fallback :
    (cfg : Config) (host : Host) (links : List Hook) (paths : List String)
    → create_env_vars host paths (not (is_empty links && is_empty (create_ldcache_hook cfg paths)))
      ≡ []
unfolding create_env_vars create_ldcache_hook
no_fallback cfg host links [] = ground arith
no_fallback cfg host links (p ∷ ps) = ground arith

-- The common edits never set an environment variable: `LD_LIBRARY_PATH` is the fallback for library
-- paths with no hook, and where there are library paths there is the hook that updates the ldcache.
pub build_common_edits-env :
    (cfg : Config) (host : Host) (result : Option DiscoveryResult)
    → (build_common_edits cfg host result).env ≡ []
unfolding build_common_edits
build_common_edits-env cfg host none = refl
build_common_edits-env cfg host (some r) = rw is_empty-append (
    no_fallback cfg host (create_symlink_hook cfg (compute_symlinks cfg host r.libraries))
      (mounted_files cfg r).lib_paths)
