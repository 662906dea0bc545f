-- ===== src/Cdi/Generator.antt =====
-- internal/cdi/generator.go: `Generate` and `GenerateRDS`.
pub mod Accepted
use rbln_container_toolkit.Prelude.{
  String, ◌<>◌, Bool, true, false, Option, none, some, List, [], ◌∷◌, if◌then◌else◌,
}
use rbln_container_toolkit.Config.{Config}
use rbln_container_toolkit.Discover.{DiscoveryResult, Device}
use rbln_container_toolkit.Topology.{RsdResolver}
use rbln_container_toolkit.Cdi.Spec.{Spec, no_edits}
use rbln_container_toolkit.Cdi.Device.{classify_devices, classify_rblnfs_devices}
use rbln_container_toolkit.Cdi.Entries.{build_device_entries, build_rblnfs_device_entries}
use rbln_container_toolkit.Cdi.Fold.{fold_common_edits_into_empty_devices}
use rbln_container_toolkit.Cdi.Edits.{Host, build_common_edits}

abbrev pub cdi_version : String
cdi_version = "0.5.0"

-- The spec that `Generate` builds first.
unfoldable pub unfolded_spec : Config → RsdResolver → Host → Option DiscoveryResult → Spec
unfolding build_common_edits classify_devices build_device_entries
unfolded_spec cfg resolver host result =
    let (rbln_devs, rsd_devs) = classify_devices cfg result in
    record {
      version = cdi_version;
      kind = cfg.cdi.vendor <> ("/" <> cfg.cdi.class);
      devices = build_device_entries resolver rbln_devs rsd_devs;
      edits = build_common_edits cfg host result;
    }

-- `Generate`; it never returns an error.
unfoldable pub generate : Config → RsdResolver → Host → Option DiscoveryResult → Spec
generate cfg resolver host result =
    if cfg.devices.disabled
    then fold_common_edits_into_empty_devices (unfolded_spec cfg resolver host result)
    else unfolded_spec cfg resolver host result

-- The RDS spec of the devices found, if there are any.
unfoldable pub rds_spec : Config → List Device → Option Spec
unfolding build_rblnfs_device_entries
rds_spec cfg [] = none
rds_spec cfg (d ∷ devs) = some (record {
  version = cdi_version;
  kind = cfg.cdi.vendor <> ("/" <> cfg.rds.class);
  devices = build_rblnfs_device_entries (d ∷ devs);
  edits = no_edits;
})

-- `GenerateRDS`; it never returns an error.
unfoldable pub generate_rds : Config → Option DiscoveryResult → Option Spec
unfolding classify_rblnfs_devices rds_spec
generate_rds cfg result = rds_spec cfg (classify_rblnfs_devices result)
