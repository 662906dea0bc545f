-- ===== src/Cdi/Entries.antt =====
-- internal/cdi/generator.go: the device entries of the NPU spec and of the RDS spec.
pub mod Groups
use rbln_container_toolkit.Prelude.{
  ℕ, String, ◌<>◌, Bool, true, false, Option, none, some, List, [], ◌∷◌, ◌++◌, map, ◌==◌, nat_eq,
  if◌then◌else◌,
}
use rbln_container_toolkit.Prelude.Decimal.{parse_uint}
use rbln_container_toolkit.Discover.{Device}
use rbln_container_toolkit.Topology.{RsdResolver}
use rbln_container_toolkit.Cdi.Spec.{DeviceNode, Entry, node_edits}
use rbln_container_toolkit.Cdi.Device.{device_index}

abbrev pub all_device_name : String
all_device_name = "all"

abbrev pub legacy_runtime_device_name : String
legacy_runtime_device_name = "runtime"

abbrev pub rsd_entry_prefix : String
rsd_entry_prefix = "rsd"

abbrev pub rblnfs_entry_prefix : String
rblnfs_entry_prefix = "rblnfs"

abbrev pub rsd_container_path : String
rsd_container_path = "/dev/rsd0"

-- `createDeviceNode`
unfoldable pub create_device_node : Device → DeviceNode
create_device_node dev = record {
  path = dev.container_path;
  host_path = dev.path;
  permissions = "rw";
}

-- `createRSDAliasNode`
unfoldable pub create_rsd_alias_node : Device → DeviceNode
unfolding create_device_node
create_rsd_alias_node dev = record (create_device_node dev) { path = rsd_container_path }

-- What the map holds under `i` after the entry of `dev` and the later ones.
abbrev pub keep_later : Option Device → Option ℕ → ℕ → Device → Option Device
keep_later (some later) number i dev = some later
keep_later none none i dev = none
keep_later none (some j) i dev = if j == i then some dev else none

-- `indexRSDDevices`, as a function: of two devices with one index the later is kept.
unfoldable pub index_rsd_devices : List Device → ℕ → Option Device
unfolding device_index parse_uint
index_rsd_devices [] i = none
index_rsd_devices (dev ∷ devs) i =
    keep_later (index_rsd_devices devs i) (parse_uint (device_index dev) 32) i dev

-- `resolveRSDFor`
unfoldable pub resolve_rsd_for : RsdResolver → Device → (ℕ → Option Device) → Option Device
unfolding device_index parse_uint
resolve_rsd_for resolver npu rsd_by_index = elim (parse_uint (device_index npu) 32) [
  | none ↦ none
  | some idx ↦ elim (resolver idx) [ none ↦ none | some rsd_idx ↦ rsd_by_index rsd_idx ]
]

abbrev alias_nodes : Option Device → List DeviceNode
alias_nodes none = []
alias_nodes (some dev) = create_rsd_alias_node dev ∷ []

-- The entry of one NPU: its node, and the alias of its group where the group is known.
unfoldable pub npu_entry : RsdResolver → (ℕ → Option Device) → Device → Entry
unfolding create_device_node create_rsd_alias_node resolve_rsd_for
npu_entry resolver rsd_by_index dev = record {
  name = device_index dev;
  edits =
      node_edits (create_device_node dev ∷ alias_nodes (resolve_rsd_for resolver dev rsd_by_index));
}

unfoldable pub rsd_entry : Device → Entry
unfolding create_rsd_alias_node device_index
rsd_entry dev = record {
  name = rsd_entry_prefix <> device_index dev;
  edits = node_edits (create_rsd_alias_node dev ∷ []);
}

-- `buildDeviceEntries`
unfoldable pub build_device_entries : RsdResolver → List Device → List Device → List Entry
unfolding npu_entry rsd_entry index_rsd_devices create_device_node
build_device_entries resolver rbln_devs rsd_devs =
    let all_edits =
      node_edits (map create_device_node rbln_devs ++ map create_device_node rsd_devs) in
    map (npu_entry resolver (index_rsd_devices rsd_devs)) rbln_devs
    ++ (map rsd_entry rsd_devs
        ++ (record { name = all_device_name; edits = all_edits }
            ∷ record { name = legacy_runtime_device_name; edits = all_edits }
            ∷ []))

unfoldable pub rblnfs_entry : Device → Entry
unfolding create_device_node device_index
rblnfs_entry dev = record {
  name = rblnfs_entry_prefix <> device_index dev;
  edits = node_edits (create_device_node dev ∷ []);
}

-- `buildRBLNFSDeviceEntries`
unfoldable pub build_rblnfs_device_entries : List Device → List Entry
unfolding rblnfs_entry create_device_node
build_rblnfs_device_entries devs =
    map rblnfs_entry devs
    ++ (record { name = all_device_name; edits = node_edits (map create_device_node devs) } ∷ [])
