-- ===== src/Discover/Libraries.antt =====
-- internal/discover/library.go: the libraries of RBLN, what they depend on, the plugins, and the RDMA
-- providers of a host.
pub mod Dependencies
use rbln_container_toolkit.Prelude.{
  String, ◌<>◌, Bool, true, false, not, ◌&&◌, ◌||◌, Option, none, some, List, [], ◌∷◌, ◌++◌, map,
  if◌then◌else◌, ◌==◌, string_eq,
}
use rbln_container_toolkit.Prelude.Texts.{path_join, base, has_suffix, contains_text}
use rbln_container_toolkit.Prelude.Dict.{Dict}
use rbln_container_toolkit.Config.{Config, RdmaProviderConfig}
use rbln_container_toolkit.Discover.{Library, LibraryType, RdmaProvider}
use rbln_container_toolkit.Discover.FirstWins.{keep_first, values}
use rbln_container_toolkit.Discover.HostFiles.{
  HostFiles, Mode, or_nothing, flat, is_regular, is_plain, or_itself,
}
use rbln_container_toolkit.Discover.Roots.{
  search_root_of, to_host_path, to_container_path, get_plugin_container_path, to_search_root_path,
  to_driver_root_path,
}

-- The paths that are seen before the first dependency.
unfoldable pub paths_of : List Library → List String
paths_of [] = []
paths_of (library ∷ libs) =
    let rest = paths_of libs in
    library.path ∷ (if library.real_path == "" then rest else library.real_path ∷ rest)

unfoldable pub present : Dict (Option Library) → List Library
present [] = []
present ((path, none) ∷ rest) = present rest
present ((path, some library) ∷ rest) = library ∷ present rest

module _ (host : HostFiles) (cfg : Config) where
  -- A match with the file it leads to; a link is passed over.
  unfoldable pub rbln_library : String → Dict Library
  unfolding search_root_of to_host_path to_container_path base
  rbln_library path =
      let host_path = to_host_path cfg path (search_root_of cfg) in
      let library : Library = record {
        name = base path;
        path = host_path;
        container_path = to_container_path cfg host_path;
        real_path = "";
        kind = LibraryType.rbln;
      } in
      if is_plain (host.lstat path)
      then (or_itself (host.eval_symlinks path) path, library) ∷ []
      else []

  -- The matches of a pattern in a directory; a pattern in error has none.
  unfoldable pub matches_in : String → String → List String
  unfolding search_root_of path_join
  matches_in pattern directory =
      or_nothing
        (host.glob (path_join (path_join (search_root_of cfg ∷ directory ∷ []) ∷ pattern ∷ [])))

  -- What the loops of `DiscoverRBLN` come upon, with the file each leads to.
  unfoldable pub rbln_candidates : Dict Library
  unfolding rbln_library matches_in
  rbln_candidates =
      flat
        (λ pattern.
          flat (λ directory. flat rbln_library (matches_in pattern directory))
            cfg.search_paths.libraries)
        cfg.libraries.patterns

  unfoldable pub discover_rbln : List Library
  unfolding rbln_candidates keep_first
  discover_rbln = values (keep_first [] rbln_candidates)

  unfoldable pub is_glibc : String → Bool
  is_glibc name = matches_any cfg.glibc_exclude
    where
      matches_any : List String → Bool
      matches_any [] = false
      matches_any (pattern ∷ patterns) = host.matches_name pattern name || matches_any patterns

  -- A dependency with its path on the host; one of glibc is seen, and not kept.
  unfoldable pub dependency : String → String × Option Library
  unfolding is_glibc to_driver_root_path to_container_path base
  dependency found =
      let host_path = to_driver_root_path cfg found in
      let library : Library = record {
        name = base found;
        path = host_path;
        container_path = to_container_path cfg host_path;
        real_path = "";
        kind = LibraryType.dependency;
      } in
      (host_path, if is_glibc (base found) then none else some library)

  unfoldable pub dependency_candidates : List Library → Dict (Option Library)
  unfolding dependency to_search_root_path
  dependency_candidates = flat (λ library.
      map dependency (or_nothing (host.dependencies (to_search_root_path cfg library.path))))

  unfoldable pub discover_dependencies : List Library → List Library
  unfolding dependency_candidates paths_of present keep_first
  discover_dependencies libs = present (keep_first (paths_of libs) (dependency_candidates libs))

  unfoldable pub plugin : String → String × Bool → Dict Library
  unfolding search_root_of to_host_path get_plugin_container_path path_join base has_suffix
      contains_text
  plugin plugin_path (name, directory) =
      let file_path = path_join (path_join (search_root_of cfg ∷ plugin_path ∷ []) ∷ name ∷ []) in
      let host_path = to_host_path cfg file_path (search_root_of cfg) in
      let library : Library = record {
        name = name;
        path = host_path;
        container_path = get_plugin_container_path cfg host_path (base plugin_path);
        real_path = "";
        kind = LibraryType.plugin;
      } in
      if directory
      then []
      else if not (has_suffix name ".so") && not (contains_text name ".so.")
      then []
      else (or_itself (host.eval_symlinks file_path) file_path, library) ∷ []

  unfoldable pub plugin_candidates : Dict Library
  unfolding plugin search_root_of path_join
  plugin_candidates =
      flat
        (λ plugin_path.
          flat (plugin plugin_path)
            (or_nothing (host.read_dir (path_join (search_root_of cfg ∷ plugin_path ∷ [])))))
        cfg.libraries.plugin_paths

  unfoldable pub discover_plugins : List Library
  unfolding plugin_candidates keep_first
  discover_plugins = values (keep_first [] plugin_candidates)

  unfoldable pub is_host_file : String → Bool
  unfolding path_join
  is_host_file path = is_regular (host.stat (path_join (cfg.host_root ∷ path ∷ [])))

  -- A provider whose library, and driver file if it names one, are on the host.
  unfoldable pub rdma_provider : RdmaProviderConfig → List RdmaProvider
  unfolding is_host_file path_join base
  rdma_provider provider =
      let found : RdmaProvider = record {
        name = base provider.library;
        path = provider.library;
        container_path = path_join (cfg.libraries.rdma_provider_dir ∷ base provider.library ∷ []);
        driver_path = provider.driver;
      } in
      if provider.library == "" || not (is_host_file provider.library)
      then []
      else if not (provider.driver == "") && not (is_host_file provider.driver)
      then []
      else found ∷ []

  unfoldable pub discover_rdma_providers : List RdmaProvider
  unfolding rdma_provider
  discover_rdma_providers =
      if cfg.libraries.rdma_provider_dir == ""
      then []
      else flat rdma_provider cfg.libraries.rdma_providers
