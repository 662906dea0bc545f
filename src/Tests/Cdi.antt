-- ===== src/Tests/Cdi.antt =====
-- The theorems about internal/cdi at concrete inputs.
use mathlib.Core.List.{Mem}
use rbln_container_toolkit.Prelude.{
  String, ◌≡◌, ◌≢◌, ◌↔◌, ◌⊎◌, refl, inl, true, false, ◌&&◌, some, List, [], ◌∷◌, ◌++◌, is_empty,
  All,
}
use rbln_container_toolkit.Prelude.Dict.{lookup, NodupKeys}
use rbln_container_toolkit.Prelude.Decimal.{parse_uint}
use rbln_container_toolkit.Config.{Config, default_config}
use rbln_container_toolkit.Discover.{
  Device, Library, RdmaProvider, DiscoveryResult, rbln, no_result,
}
use rbln_container_toolkit.Topology.{RsdResolver, new_cached_resolver}
use rbln_container_toolkit.Cdi.Spec.{Mount, Spec, no_edits, is_container_edits_empty}
use rbln_container_toolkit.Cdi.Device.{
  DeviceClass, unknown, rsd, rblnfs, device_index, of_class, classify_devices,
  classify_rblnfs_devices,
}
use rbln_container_toolkit.Cdi.Device
use rbln_container_toolkit.Cdi.Device.Selection.{IsSelection, classify-IsSelection}
use rbln_container_toolkit.Cdi.Entries.{create_device_node, index_rsd_devices, npu_entry}
use rbln_container_toolkit.Cdi.Entries.Groups.{number_of, npu_entry-group}
use rbln_container_toolkit.Cdi.Edits.{Host, build_common_edits, tool_mounts}
use rbln_container_toolkit.Cdi.Edits.Mounts.{pairs, asked_files, build_common_edits-mounts}
use rbln_container_toolkit.Cdi.Fold.{fold_common_edits_into_empty_devices}
use rbln_container_toolkit.Cdi.Fold.Effective.{effective, fold_keeps_effective}
use rbln_container_toolkit.Cdi.Generator.{generate}
use rbln_container_toolkit.Cdi.Generator.Accepted.{
  IsAccepted, generate-IsAccepted_iff, generate_disabled,
}

abbrev node : String → Device
node path = record { path = path; container_path = path }

abbrev found_devices : List Device
found_devices = node "/dev/rbln10" ∷ node "/dev/rsd3" ∷ node "/dev/rbln2" ∷ node "/dev/rblnfs0" ∷ []

abbrev umd : Library
umd = record {
  name = "librbln-ml.so.1.2";
  path = "/usr/lib64/librbln-ml.so.1.2";
  container_path = "/usr/lib64/librbln-ml.so.1.2";
  real_path = "";
  kind = rbln;
}

abbrev bnxt : RdmaProvider
bnxt = record {
  name = "bnxt_re";
  path = "/usr/local/lib/libbnxt_re-rdmav34.so";
  container_path = "/usr/lib64/libibverbs/libbnxt_re-rdmav34.so";
  driver_path = "/etc/libibverbs.d/bnxt_re.driver";
}

abbrev found : DiscoveryResult
found = record no_result {
  libraries = umd ∷ [];
  rdma_providers = bnxt ∷ [];
  devices = found_devices;
}

abbrev some_host : Host
some_host = record {
  read_soname = λ path. some "librbln-ml.so.1";
  link_exists = λ path. true;
  map_order = λ ps. ps;
}

abbrev kubernetes_config : Config
kubernetes_config = record default_config {
  devices = record default_config.devices { disabled = true };
}

abbrev groups : RsdResolver
groups = new_cached_resolver ((10, 3) ∷ (2, 0) ∷ [])

classify-IsSelection_example :
    IsSelection Device.rbln found_devices (classify_devices default_config (some found)).0
    × IsSelection rsd found_devices (classify_devices default_config (some found)).1
    × IsSelection rblnfs found_devices (classify_rblnfs_devices (some found))
classify-IsSelection_example = classify-IsSelection default_config found refl

npu_number : number_of (node "/dev/rbln10") ≡ some 10
unfolding parse_uint device_index
npu_number = refl

npu_group : groups 10 ≡ some 3
unfolding new_cached_resolver
npu_group = refl

npu_entry-group_example :
    ((r : Device) × Mem r found_devices
      × (number_of r ≡ some 3)
      × ((npu_entry groups
            (index_rsd_devices found_devices)
            (node "/dev/rbln10")).edits.device_nodes
          ≡ create_device_node (node "/dev/rbln10")
            ∷ record { path = "/dev/rsd0"; host_path = r.path; permissions = "rw" }
            ∷ []))
    ⊎ (All (λ r. number_of r ≢ some 3) found_devices
        × ((npu_entry groups
              (index_rsd_devices found_devices)
              (node "/dev/rbln10")).edits.device_nodes
            ≡ create_device_node (node "/dev/rbln10") ∷ []))
npu_entry-group_example =
    npu_entry-group groups found_devices (node "/dev/rbln10") 10 3 npu_number npu_group

build_common_edits-mounts_example :
    (ms : List Mount) × ((build_common_edits default_config some_host (some found)).mounts
      ≡ ms ++ tool_mounts default_config [])
    × NodupKeys (pairs ms)
    × ((c : String) → lookup c (pairs ms) ≡ lookup c (asked_files default_config found))
build_common_edits-mounts_example = build_common_edits-mounts default_config some_host found

abbrev bare : Spec
bare = record {
  version = "0.5.0";
  kind = "rebellions.ai/npu";
  devices = record { name = "all"; edits = no_edits } ∷ [];
  edits = record no_edits { env = "A=1" ∷ [] };
}

no_edits-empty : is_container_edits_empty no_edits ≡ true
unfolding is_container_edits_empty
no_edits-empty = refl

fold_keeps_effective_example :
    effective (fold_common_edits_into_empty_devices bare) ≡ effective bare
fold_keeps_effective_example = fold_keeps_effective bare (inl (no_edits-empty, tt))

generate-IsAccepted_iff_example :
    IsAccepted (generate default_config groups some_host (some found)) ↔ (
      (is_empty (classify_devices default_config (some found)).0
        && is_empty (classify_devices default_config (some found)).1)
      ≡ false)
generate-IsAccepted_iff_example =
    generate-IsAccepted_iff default_config groups some_host (some found) refl

generate_disabled_example :
    let spec = generate kubernetes_config groups some_host (some found) in
    let common = build_common_edits kubernetes_config some_host (some found) in
    (effective spec ≡ ("all", common) ∷ ("runtime", common) ∷ [])
    × (IsAccepted spec ↔ (is_container_edits_empty common ≡ false))
generate_disabled_example = generate_disabled kubernetes_config groups some_host (some found) refl
