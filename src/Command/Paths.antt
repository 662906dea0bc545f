-- ===== src/Command/Paths.antt =====
-- cmd/rbln-ctk-daemon/root.go: the paths that the daemon works on, and the configuration that it
-- generates specs with.
pub mod Watched
use rbln_container_toolkit.Prelude.{
  String, ◌<>◌, Bool, true, false, not, ◌&&◌, ◌||◌, Option, none, some, List, [], ◌∷◌, map,
  if◌then◌else◌, ◌==◌, string_eq,
}
use rbln_container_toolkit.Prelude.Texts.{trim_prefix, contains_text, path_join}
use rbln_container_toolkit.Config.{Config, DeviceConfig, LibraryConfig}
use rbln_container_toolkit.Runtime.Detect.{DetectOptions, runtime_containerd, runtime_crio}
use rbln_container_toolkit.Runtime.Configurator.{default_config_path}

unfoldable pub is_kubernetes_runtime : String → Bool
is_kubernetes_runtime runtime = runtime == runtime_containerd || runtime == runtime_crio

-- `joinSearchPrefix`
unfoldable pub join_search_prefix : String → String → String
unfolding trim_prefix path_join
join_search_prefix host_root driver_root =
    let relative = trim_prefix driver_root "/" in
    if relative == ""
    then host_root
    else if host_root == "" || host_root == "/"
    then "/" <> relative
    else path_join (host_root ∷ relative ∷ [])

-- `rerootUnder`
unfoldable pub reroot_under : String → String → String
unfolding trim_prefix path_join
reroot_under prefix abs = path_join (prefix ∷ trim_prefix abs "/" ∷ [])

-- `refreshLibDirs`, with the directories of the configuration.
unfoldable pub refresh_lib_dirs : List String → String → String → List String
unfolding join_search_prefix reroot_under
refresh_lib_dirs dirs host_root driver_root =
    let prefix = join_search_prefix host_root driver_root in
    if prefix == "" || prefix == "/" then dirs else map (reroot_under prefix) dirs

-- The configuration that `regenerateCDISpec` makes of the one that is loaded.
unfoldable pub refresh_config : String → String → String → String → Config → Config
unfolding join_search_prefix is_kubernetes_runtime
refresh_config runtime host_root driver_root library_path cfg = record cfg {
  driver_root = driver_root;
  host_root = host_root;
  search_root =
      if not (host_root == "/") && not (host_root == "")
      then join_search_prefix host_root driver_root
      else cfg.search_root;
  libraries =
      if library_path == ""
      then cfg.libraries
      else record cfg.libraries { container_path = library_path };
  devices =
      if is_kubernetes_runtime runtime then record cfg.devices { disabled = true } else cfg.devices;
}

-- `resolveConfigPath`
unfoldable pub resolve_config_path : String → String → String → String
unfolding default_config_path path_join
resolve_config_path runtime host_root config_path =
    if not (config_path == "")
    then config_path
    else if not (host_root == "/") && not (host_root == "")
    then path_join (host_root ∷ default_config_path runtime ∷ [])
    else default_config_path runtime

-- `detectHostRoot`, with whether /host is there.
unfoldable pub detect_host_root : Bool → String → String
detect_host_root has_host flag =
    if not (flag == "") then flag else if has_host then "/host" else "/"

-- `buildDetectOptions`; no socket gives nil.
unfoldable pub build_detect_options : String → Option DetectOptions
unfolding contains_text
build_detect_options socket =
    let own : DetectOptions = record {
      containerd_socket = "/run/containerd/containerd.sock";
      crio_socket = "/var/run/crio/crio.sock";
      docker_socket = "/var/run/docker.sock";
      explicit_runtime = "";
    } in
    if socket == ""
    then none
    else if contains_text socket "containerd"
    then some (record own { containerd_socket = socket })
    else if contains_text socket "crio"
    then some (record own { crio_socket = socket })
    else if contains_text socket "docker"
    then some (record own { docker_socket = socket })
    else some own
