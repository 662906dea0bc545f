-- ===== src/Cdi/Device.antt =====
-- internal/cdi/generator.go: the class and the index of a device, read off its name, and the
-- selection and order of the devices of a class.
pub mod Selection
use rbln_container_toolkit.Prelude.{
  ℕ, String, ◌≡◌, refl, Bool, true, false, Option, none, some, List, [], ◌∷◌, if◌then◌else◌,
}
use rbln_container_toolkit.Prelude.Int.{ℤ, pos}
use rbln_container_toolkit.Prelude.Texts.{base, cut_prefix}
use rbln_container_toolkit.Prelude.Decimal.{atoi, atoi_value}
use rbln_container_toolkit.Prelude.Sorting.{sort_by}
use rbln_container_toolkit.Config.{Config}
use rbln_container_toolkit.Discover.{Device, DiscoveryResult}

pub data DeviceClass : Type 0 where
  unknown rbln rsd rblnfs : DeviceClass

-- One `if` of `parseDeviceClass`: the prefix, and a number behind it.
abbrev is_numbered : String → String → Bool
is_numbered prefix name = elim (cut_prefix name prefix) [
  | none ↦ false
  | some rest ↦ elim (atoi rest) [ none ↦ false | some n ↦ true ]
]

unfoldable pub class_of_name : String → DeviceClass
unfolding cut_prefix atoi
class_of_name name =
    if is_numbered "rblnfs" name
    then rblnfs
    else if is_numbered "rbln" name
    then rbln
    else if is_numbered "rsd" name
    then rsd
    else unknown

-- `parseDeviceClass`
unfoldable pub parse_device_class : Device → DeviceClass
unfolding class_of_name base
parse_device_class dev = class_of_name (base dev.container_path)

unfoldable pub index_of_name : String → String
unfolding cut_prefix
index_of_name name = elim (cut_prefix name "rblnfs") [
  | some rest ↦ rest
  | none ↦ elim (cut_prefix name "rbln") [
    | some rest ↦ rest
    | none ↦ elim (cut_prefix name "rsd") [ some rest ↦ rest | none ↦ name ]
  ]
]

-- `deviceIndex`
unfoldable pub device_index : Device → String
unfolding index_of_name base
device_index dev = index_of_name (base dev.container_path)

-- The key of `sortDevicesByIndex`
unfoldable pub index_key : Device → ℤ
unfolding device_index atoi_value
index_key dev = atoi_value (device_index dev)

-- `sortDevicesByIndex`
unfoldable pub sort_devices_by_index : List Device → List Device
unfolding index_key sort_by
sort_devices_by_index = sort_by index_key

abbrev pub is_class : DeviceClass → DeviceClass → Bool
is_class rbln rbln = true
is_class rsd rsd = true
is_class rblnfs rblnfs = true
is_class unknown unknown = true
is_class _ _ = false

-- The devices of one class, in the order in which they were found.
unfoldable pub of_class : DeviceClass → List Device → List Device
unfolding parse_device_class
of_class c [] = []
of_class c (dev ∷ devs) =
    let rest = of_class c devs in if is_class (parse_device_class dev) c then dev ∷ rest else rest

-- `classifyDevices`: the NPU devices and the RSD devices. A nil result is `none`.
unfoldable pub classify_devices : Config → Option DiscoveryResult → List Device × List Device
unfolding of_class sort_devices_by_index
classify_devices cfg none = ([], [])
classify_devices cfg (some result) = if cfg.devices.disabled then ([], []) else (
  sort_devices_by_index (of_class rbln result.devices),
  sort_devices_by_index (of_class rsd result.devices),
)

-- `classifyRBLNFSDevices`
unfoldable pub classify_rblnfs_devices : Option DiscoveryResult → List Device
unfolding of_class sort_devices_by_index
classify_rblnfs_devices none = []
classify_rblnfs_devices (some result) = sort_devices_by_index (of_class rblnfs result.devices)

abbrev dev_node : String → Device
dev_node path = record { path = path; container_path = path }

class_examples :
    (parse_device_class (dev_node "/dev/rblnfs0") ≡ rblnfs)
    × (parse_device_class (dev_node "/dev/rbln12") ≡ rbln)
    × (parse_device_class (dev_node "/dev/rsd1") ≡ rsd)
    × (parse_device_class (dev_node "/dev/rblnx") ≡ unknown)
    × (device_index (dev_node "/dev/rblnfs3") ≡ "3")
unfolding parse_device_class device_index
class_examples = (refl, refl, refl, refl, refl)
