-- ===== src/Discover/Roots.antt =====
-- The mapping of paths between the root that is searched, the host and a container: the path methods of
-- internal/discover/library.go, tool.go and device.go.
use rbln_container_toolkit.Prelude.{
  String, ◌<>◌, Bool, not, ◌&&◌, ◌||◌, [], ◌∷◌, if◌then◌else◌, ◌==◌, string_eq,
}
use rbln_container_toolkit.Prelude.Texts.{trim_prefix, has_prefix, path_join, base}
use rbln_container_toolkit.Config.{Config}

-- "" or "/"
abbrev pub is_root : String → Bool
is_root p = p == "" || p == "/"

-- A path that begins with a slash.
unfoldable pub with_slash : String → String
unfolding has_prefix
with_slash p = if has_prefix p "/" then p else "/" <> p

-- A path below a root, from the root.
unfoldable pub below_root : String → String → String
unfolding trim_prefix with_slash
below_root path root = with_slash (trim_prefix path root)

-- `getSearchRoot` of libraries and tools
unfoldable pub search_root_of : Config → String
search_root_of cfg = if cfg.search_root == "" then cfg.driver_root else cfg.search_root

-- `libraryDiscoverer.toHostPath`
unfoldable pub to_host_path : Config → String → String → String
unfolding below_root path_join
to_host_path cfg path search_root =
    if is_root search_root
    then path
    else if not (is_root cfg.driver_root)
    then path_join (cfg.driver_root ∷ below_root path search_root ∷ [])
    else below_root path search_root

-- `toolDiscoverer.toHostPath`, which leaves a path below the driver root alone.
unfoldable pub to_tool_host_path : Config → String → String → String
unfolding below_root path_join has_prefix
to_tool_host_path cfg path search_root =
    if is_root search_root
    then path
    else if not (is_root cfg.driver_root)
    then (if has_prefix path cfg.driver_root
        then path
        else path_join (cfg.driver_root ∷ below_root path search_root ∷ []))
    else below_root path search_root

-- `deviceDiscoverer.toHostPath`
unfoldable pub to_device_path : String → String → String
unfolding below_root
to_device_path path search_root = if is_root search_root then path else below_root path search_root

-- The path in a container without isolation: the driver root is taken away.
unfoldable pub without_driver_root : Config → String → String
unfolding below_root
without_driver_root cfg host_path =
    if is_root cfg.driver_root then host_path else below_root host_path cfg.driver_root

-- `getContainerPath`
unfoldable pub get_container_path : Config → String → String
unfolding path_join base
get_container_path cfg host_path =
    if cfg.libraries.container_path == ""
    then host_path
    else path_join (cfg.libraries.container_path ∷ base host_path ∷ [])

-- `libraryDiscoverer.toContainerPath`
unfoldable pub to_container_path : Config → String → String
unfolding get_container_path without_driver_root
to_container_path cfg host_path =
    if not (cfg.libraries.container_path == "")
    then get_container_path cfg host_path
    else without_driver_root cfg host_path

-- `getPluginContainerPath`
unfoldable pub get_plugin_container_path : Config → String → String → String
unfolding without_driver_root path_join base
get_plugin_container_path cfg host_path subdir =
    if not (cfg.libraries.container_path == "")
    then path_join (cfg.libraries.container_path ∷ subdir ∷ base host_path ∷ [])
    else without_driver_root cfg host_path

-- `toSearchRootPath`
unfoldable pub to_search_root_path : Config → String → String
unfolding below_root path_join
to_search_root_path cfg path =
    if cfg.search_root == "" || cfg.search_root == cfg.driver_root
    then path
    else path_join (cfg.search_root ∷ below_root path cfg.driver_root ∷ [])

-- `toDriverRootPath`
unfoldable pub to_driver_root_path : Config → String → String
unfolding search_root_of below_root path_join has_prefix
to_driver_root_path cfg path =
    let relative = below_root path (search_root_of cfg) in
    if is_root (search_root_of cfg) && is_root cfg.driver_root
    then path
    else if not (cfg.search_root == "") && not (cfg.search_root == cfg.driver_root)
    then (if is_root cfg.driver_root then relative else path_join (cfg.driver_root ∷ relative ∷ []))
    else if is_root cfg.driver_root
    then path
    else if has_prefix path cfg.driver_root
    then path
    else path_join (cfg.driver_root ∷ path ∷ [])
