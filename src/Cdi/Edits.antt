-- ===== src/Cdi/Edits.antt =====
-- internal/cdi/generator.go: the edits common to every device selection.
-- A Go map used as a set is a list with no element twice. The files of the host are a `Host`: what
-- `ReadSONAME` and `LinkExists` answer, and the order in which Go walks the set of library paths.
pub mod Mounts
use rbln_container_toolkit.Prelude.{
  String, ◌<>◌, Bool, true, false, ◌&&◌, ◌||◌, not, Option, none, some, List, [], ◌∷◌, ◌++◌,
  contains, is_empty, ◌==◌, string_eq, if◌then◌else◌,
}
use rbln_container_toolkit.Prelude.Texts.{base, dir, join, path_join, trim_prefix, has_prefix}
use rbln_container_toolkit.Prelude.Names.{sort_names, go_bool}
use rbln_container_toolkit.Config.{Config}
use rbln_container_toolkit.Discover.{Library, Tool, RdmaProvider, DiscoveryResult}
use rbln_container_toolkit.Discover.SoLink.{get_so_link}
use rbln_container_toolkit.Cdi.Spec.{Mount, Hook, ContainerEdits, no_edits}

pub record Host : Type 0 where
  pub read_soname : String → Option String
  pub link_exists : String → Bool
  pub map_order : List String → List String

-- `createMountWithContainerPath`
unfoldable pub create_mount : Config → String → String → Mount
create_mount cfg host_path container_path = record {
  host_path = host_path;
  container_path = container_path;
  options =
      "ro"
      ∷ "nosuid"
      ∷ "nodev"
      ∷ "bind"
      ∷ (if cfg.selinux.enabled && not (cfg.selinux.mount_context == "")
          then cfg.selinux.mount_context ∷ []
          else []);
}

-- Strips a root from a path, and makes sure that a slash is in front.
unfoldable pub strip_root : String → String → String
unfolding trim_prefix has_prefix
strip_root path root =
    let rest = trim_prefix path root in if has_prefix rest "/" then rest else "/" <> rest

-- `getSymlinkTargetContainerPath`
unfoldable pub symlink_target_container_path : Config → Library → String
unfolding strip_root path_join base
symlink_target_container_path cfg lib =
    if not (cfg.libraries.container_path == "")
    then path_join (cfg.libraries.container_path ∷ base lib.real_path ∷ [])
    else if not (cfg.driver_root == "/") && not (cfg.driver_root == "")
    then strip_root lib.real_path cfg.driver_root
    else lib.real_path

-- The mounts so far, the container paths that they take, and the directories of the libraries.
pub record Mounted : Type 0 where
  pub mounts : List Mount
  pub paths : List String
  pub lib_paths : List String

abbrev pub add_path : String → List String → List String
add_path p ps = if contains ps p then ps else ps ++ (p ∷ [])

-- A mount, unless its container path is taken.
unfoldable pub mount_once : Config → String → String → Mounted → Mounted
unfolding create_mount
mount_once cfg host_path container_path m =
    if contains m.paths container_path then m else record m {
      mounts = m.mounts ++ (create_mount cfg host_path container_path ∷ []);
      paths = container_path ∷ m.paths;
    }

-- The same for a library, whose directory is remembered.
unfoldable pub mount_library : Config → String → String → Mounted → Mounted
unfolding create_mount dir
mount_library cfg host_path container_path m =
    if contains m.paths container_path then m else record m {
      mounts = m.mounts ++ (create_mount cfg host_path container_path ∷ []);
      paths = container_path ∷ m.paths;
      lib_paths = add_path (dir container_path) m.lib_paths;
    }

-- The body of the loop over `RDMAProviders`.
unfoldable pub add_provider : Config → RdmaProvider → Mounted → Mounted
unfolding mount_once
add_provider cfg p m =
    let m' = mount_once cfg p.path p.container_path m in
    if p.driver_path == "" then m' else mount_once cfg p.driver_path p.driver_path m'

abbrev pub is_symlink : Library → Bool
is_symlink lib = not (lib.real_path == "") && not (lib.real_path == lib.path)

-- Where the file of a library is mounted, and the file that is mounted there.
abbrev pub target_of : Config → Library → String
target_of cfg lib =
    if is_symlink lib then symlink_target_container_path cfg lib else lib.container_path

abbrev pub source_of : Library → String
source_of lib = if is_symlink lib then lib.real_path else lib.path

-- The body of the loop over `Libraries`.
unfoldable pub add_library : Config → Library → Mounted → Mounted
unfolding mount_library symlink_target_container_path
add_library cfg lib m = mount_library cfg (source_of lib) (target_of cfg lib) m

unfoldable pub add_providers : Config → List RdmaProvider → Mounted → Mounted
unfolding add_provider
add_providers cfg [] m = m
add_providers cfg (p ∷ ps) m = add_providers cfg ps (add_provider cfg p m)

unfoldable pub add_libraries : Config → List Library → Mounted → Mounted
unfolding add_library
add_libraries cfg [] m = m
add_libraries cfg (lib ∷ libs) m = add_libraries cfg libs (add_library cfg lib m)

abbrev pub nothing_mounted : Mounted
nothing_mounted = record { mounts = []; paths = []; lib_paths = [] }

unfoldable pub tool_mounts : Config → List Tool → List Mount
unfolding create_mount
tool_mounts cfg [] = []
tool_mounts cfg (tool ∷ tools) =
    create_mount cfg tool.path tool.container_path ∷ tool_mounts cfg tools

-- `getHostPathForRead`
unfoldable pub host_path_for_read : Config → String → String
unfolding strip_root path_join
host_path_for_read cfg path =
    if cfg.search_root == "" || (cfg.search_root == "/" || cfg.search_root == cfg.driver_root)
    then path
    else path_join (cfg.search_root ∷ strip_root path cfg.driver_root ∷ [])

-- `linkExistsOnHost`
unfoldable pub link_exists_on_host : Config → Host → String → String → Bool
unfolding host_path_for_read path_join
link_exists_on_host cfg host directory link_name =
    if link_name == ""
    then false
    else host.link_exists (host_path_for_read cfg (path_join (directory ∷ link_name ∷ [])))

abbrev pub link_spec : String → String → String
link_spec target link = target <> ("::" <> link)

abbrev or_else : String → String → String
or_else s d = if s == "" then d else s

-- The links of one library whose SONAME has been read.
unfoldable pub add_links : Config → Host → Library → String → List String → List String
unfolding link_exists_on_host get_so_link base dir path_join
add_links cfg host lib soname links =
    let host_dir = dir lib.path in
    let library_name = base lib.path in
    let container_dir =
      if cfg.libraries.container_path == ""
      then dir lib.container_path
      else cfg.libraries.container_path in
    let so_target = or_else soname library_name in
    let so_link = get_so_link so_target in
    let links' =
      if not (soname == library_name) && link_exists_on_host cfg host host_dir soname
      then add_path (link_spec library_name (path_join (container_dir ∷ soname ∷ []))) links
      else links in
    if not (so_link == "")
      && (not (so_link == so_target) && link_exists_on_host cfg host host_dir so_link)
    then add_path (link_spec so_target (path_join (container_dir ∷ so_link ∷ []))) links'
    else links'

-- The loop of `computeSymlinks`.
unfoldable pub links_from : Config → Host → List Library → List String → List String
unfolding add_links host_path_for_read
links_from cfg host [] links = links
links_from cfg host (lib ∷ libs) links = links_from cfg host libs (
    if is_symlink lib then links else elim (host.read_soname (host_path_for_read cfg lib.path)) [
      | none ↦ links
      | some soname ↦ add_links cfg host lib soname links
    ])

-- `computeSymlinks`
unfoldable pub compute_symlinks : Config → Host → List Library → List String
unfolding links_from
compute_symlinks cfg host libs = links_from cfg host libs []

-- Each value with its flag in front.
unfoldable pub with_flag : String → List String → List String
with_flag flag [] = []
with_flag flag (v ∷ vs) = flag ∷ v ∷ with_flag flag vs

-- `createSymlinkHook`
unfoldable pub create_symlink_hook : Config → List String → List Hook
unfolding with_flag
create_symlink_hook cfg [] = []
create_symlink_hook cfg (l ∷ links) =
    record {
      hook_name = "createContainer";
      path = cfg.hooks.path;
      args = "rbln-cdi-hook" ∷ "create-symlinks" ∷ with_flag "--link" (l ∷ links);
      env = [];
    }
    ∷ []

-- `createLdcacheHook`
unfoldable pub create_ldcache_hook : Config → List String → List Hook
unfolding with_flag sort_names
create_ldcache_hook cfg [] = []
create_ldcache_hook cfg (p ∷ paths) =
    record {
      hook_name = "createContainer";
      path = cfg.hooks.path;
      args = "rbln-cdi-hook" ∷ "update-ldcache" ∷ with_flag "--folder" (sort_names (p ∷ paths));
      env =
          ("RBLN_CDI_HOOK_LDCONFIG_PATH=" <> cfg.hooks.ldconfig_path)
          ∷ ("RBLN_CDI_HOOK_DEBUG=" <> go_bool cfg.debug)
          ∷ [];
    }
    ∷ []

-- `createEnvVars`
unfoldable pub create_env_vars : Host → List String → Bool → List String
unfolding join
create_env_vars host lib_paths has_hooks =
    if not has_hooks && not (is_empty lib_paths)
    then ("LD_LIBRARY_PATH=" <> join ":" (host.map_order lib_paths)) ∷ []
    else []

-- `buildCommonEdits`
unfoldable pub build_common_edits : Config → Host → Option DiscoveryResult → ContainerEdits
unfolding add_providers add_libraries tool_mounts compute_symlinks create_symlink_hook
    create_ldcache_hook create_env_vars
build_common_edits cfg host none = no_edits
build_common_edits cfg host (some result) =
    let m =
      add_libraries cfg result.libraries
        (add_providers cfg result.rdma_providers nothing_mounted) in
    let hooks =
      create_symlink_hook cfg (compute_symlinks cfg host result.libraries)
      ++ create_ldcache_hook cfg m.lib_paths in
    record no_edits {
      mounts = m.mounts ++ tool_mounts cfg result.tools;
      hooks = hooks;
      env = create_env_vars host m.lib_paths (not (is_empty hooks));
    }
