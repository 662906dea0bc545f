-- ===== src/Discover/Nodes.antt =====
-- internal/discover/device.go and tool.go: the device nodes of a host, and the tools of the driver.
pub mod Listing
use mathlib.Core.Option
use rbln_container_toolkit.Prelude.{
  String, ◌<>◌, Bool, Option, none, some, List, [], ◌∷◌, ◌++◌, if◌then◌else◌, ◌==◌, string_eq,
}
use rbln_container_toolkit.Prelude.Texts.{path_join}
use rbln_container_toolkit.Prelude.TextOrder.{text_ltb}
use rbln_container_toolkit.Prelude.Sorting.{sort}
use rbln_container_toolkit.Prelude.Dict.{Dict}
use rbln_container_toolkit.Config.{Config}
use rbln_container_toolkit.Discover.{Device, Tool}
use rbln_container_toolkit.Discover.FirstWins.{keep_first, values}
use rbln_container_toolkit.Discover.HostFiles.{HostFiles, flat, is_node, is_executable}
use rbln_container_toolkit.Discover.Roots.{
  search_root_of, to_device_path, to_tool_host_path, without_driver_root,
}

abbrev pub by_path : Device → Device → Bool
by_path y x = text_ltb y.path x.path

-- One device for each path, sorted by path.
unfoldable pub sorted_devices : Dict Device → List Device
unfolding keep_first sort text_ltb
sorted_devices found = sort by_path (values (keep_first [] found))

module _ (host : HostFiles) (cfg : Config) where
  -- `deviceDiscoverer.getSearchRoot`
  unfoldable pub device_root : String
  device_root = if cfg.host_root == "" then "/" else cfg.host_root

  -- A match with its path on the host.
  unfoldable pub device_node : String → Dict Device
  unfolding device_root to_device_path
  device_node path =
      let host_path = to_device_path path device_root in
      if is_node (host.lstat path)
      then (host_path, record { path = host_path; container_path = host_path }) ∷ []
      else []

  -- What the loops come upon; a pattern in error ends them.
  unfoldable pub device_candidates : List String → Option (Dict Device)
  unfolding device_root device_node path_join
  device_candidates [] = some []
  device_candidates (pattern ∷ patterns) =
      let rest = device_candidates patterns in
      elim (host.glob (path_join (device_root ∷ pattern ∷ []))) [
        | none ↦ none
        | some matches ↦ Option.map (λ more. flat device_node matches ++ more) rest
      ]

  -- `none` is the error of a pattern.
  unfoldable pub discover_devices : Option (List Device)
  unfolding device_candidates sorted_devices
  discover_devices = Option.map sorted_devices (device_candidates cfg.devices.patterns)

  -- `findTool`: the first directory that has the file, executable.
  unfoldable pub find_tool : String → List String → Option Tool
  unfolding search_root_of path_join to_tool_host_path without_driver_root
  find_tool name [] = none
  find_tool name (bin_path ∷ more) =
      let rest = find_tool name more in
      let full_path = path_join (search_root_of cfg ∷ bin_path ∷ name ∷ []) in
      let host_path = to_tool_host_path cfg full_path (search_root_of cfg) in
      if is_executable (host.stat full_path)
      then some (record {
        name = name;
        path = host_path;
        container_path = without_driver_root cfg host_path;
      })
      else rest

  unfoldable pub tool_candidates : List String → Dict Tool
  unfolding find_tool
  tool_candidates [] = []
  tool_candidates (name ∷ names) =
      let rest = tool_candidates names in
      elim (find_tool name cfg.search_paths.binaries) [
        | none ↦ rest
        | some tool ↦ (name, tool) ∷ rest
      ]

  unfoldable pub discover_tools : List Tool
  unfolding tool_candidates keep_first
  discover_tools = values (keep_first [] (tool_candidates cfg.tools))
