-- ===== src/Tests/Setup.antt =====
-- The theorems about the writer, the validator and the setup of internal/cdi at concrete inputs.
use rbln_container_toolkit.Prelude.{
  String, ◌<>◌, ◌≡◌, ◌⊎◌, refl, false, none, some, [], ◌∷◌, All, string_eq,
}
use rbln_container_toolkit.Prelude.Dict.{Dict, lookup}
use rbln_container_toolkit.Prelude.Results.{ok}
use rbln_container_toolkit.Config.{default_config}
use rbln_container_toolkit.Discover.{Device, DiscoveryResult}
use rbln_container_toolkit.Topology.{noop_resolver}
use rbln_container_toolkit.Cdi.Edits.{Host}
use rbln_container_toolkit.Cdi.Generator.{generate}
use rbln_container_toolkit.Cdi.Writer.{Calls, write_text, after_calls}
use rbln_container_toolkit.Cdi.Writer.Watched.{states}
use rbln_container_toolkit.Cdi.Writer.Atomic.{IsBefore, IsAfter, write_text-atomic}
use rbln_container_toolkit.Cdi.Writer.Outcome.{write_text-failed}
use rbln_container_toolkit.Cdi.Setup.{
  strict, Options, Around, default_setup_options, by_mode, discovered, resolve_topology,
  build_rds_spec,
}
use rbln_container_toolkit.Cdi.Setup.Emission.{generate_cdi_spec}
use rbln_container_toolkit.Cdi.Setup.Parts.{HoldsSpec, RdsLeft}
use rbln_container_toolkit.Cdi.Setup.Published.{generate_cdi_spec-HoldsSpec}

abbrev spec_path : String
spec_path = "/var/run/cdi/rbln.yaml"

abbrev rds_path : String
rds_path = "/var/run/cdi/rbln-rds.yaml"

abbrev working : String → Calls
working path = record {
  temp_path = path <> ".tmp-1";
  written_part = "";
  mkdir_error = none;
  create_error = none;
  write_error = none;
  chmod_error = none;
  sync_error = none;
  close_error = none;
  rename_error = none;
  remove_error = none;
}

-- The disk is full when the file is flushed.
abbrev full_disk : Calls
full_disk = record (working spec_path) { sync_error = some "no space left on device" }

abbrev before : Dict String
before = (spec_path, "old") ∷ (rds_path, "stale") ∷ ("/var/run/cdi/other.yaml", "other") ∷ []

write_text-atomic_example :
    All
      (λ s.
        IsBefore "/var/run/cdi/rbln.yaml.tmp-1" before s
        ⊎ IsAfter "/var/run/cdi/rbln.yaml.tmp-1" spec_path "new" before s)
      (states "/var/run/cdi/rbln.yaml.tmp-1" spec_path
        (write_text (working spec_path) spec_path "new").calls
        before)
write_text-atomic_example = write_text-atomic (working spec_path) spec_path "new" before

write_text-failed_example :
    lookup spec_path (
      after_calls "/var/run/cdi/rbln.yaml.tmp-1" spec_path
        (write_text full_disk spec_path "new").calls
        before)
    ≡ lookup spec_path before
unfolding write_text lookup
write_text-failed_example =
    write_text-failed full_disk spec_path "new" refl before
      "sync temp file /var/run/cdi/rbln.yaml.tmp-1: no space left on device" spec_path refl refl

abbrev npu : Device
npu = record { path = "/dev/rbln0"; container_path = "/dev/rbln0" }

abbrev bare_host : Host
bare_host = record { read_soname = λ path. none; link_exists = λ path. false; map_order = λ ps. ps }

-- One NPU is found, and no library, tool or RDS device.
abbrev pub surroundings : Around
surroundings = record {
  new_library_discoverer = λ cfg. record {
    discover_rbln = ok [];
    discover_dependencies = λ libs. ok [];
    discover_plugins = ok [];
    discover_rdma_providers = ok [];
  };
  new_tool_discoverer = λ cfg. ok [];
  new_device_discoverer = λ cfg. ok (npu ∷ []);
  loaded_resolver = noop_resolver;
  host = bare_host;
  encoders = record { yaml = λ spec. ok "cdiVersion: 0.5.0"; json = λ spec. ok "{}" };
  calls = working;
  remove_error = none;
}

abbrev setup_options : Options
setup_options = record default_setup_options {
  config = some default_config;
  rds_output_path = rds_path;
}

generate_cdi_spec-HoldsSpec_example :
    (found : DiscoveryResult) × (by_mode strict
        (discovered surroundings setup_options default_config)
      ≡ ok found)
    × HoldsSpec surroundings "yaml" spec_path
        (generate default_config
          (resolve_topology surroundings setup_options default_config)
          bare_host
          (some found))
        (generate_cdi_spec surroundings (some setup_options) before).files
    × RdsLeft surroundings setup_options
        (build_rds_spec surroundings setup_options default_config)
        before
        (generate_cdi_spec surroundings (some setup_options) before).files
unfolding generate_cdi_spec
generate_cdi_spec-HoldsSpec_example =
    generate_cdi_spec-HoldsSpec surroundings setup_options default_config before refl refl refl
      (record { own = refl; apart = refl; different = refl })
      (record { own = refl; apart = refl; different = refl }) refl refl
