-- ===== src/Cdi/Setup.antt =====
-- internal/cdi/setup: discovery and generation of both specs; Emission writes them. What the discoverers, the native
-- topology library, the encoders and the file system answer is a parameter.
pub mod Emission
pub mod Parts
pub mod Published
use rbln_container_toolkit.Prelude.{
  ℕ, String, ◌<>◌, Bool, true, false, not, ◌&&◌, Option, none, some, List, [], ◌∷◌, ◌++◌, ◌==◌,
  string_eq, is_empty, if◌then◌else◌,
}
use rbln_container_toolkit.Prelude.Dict.{Dict, erase}
use rbln_container_toolkit.Prelude.Results.{Result, ok, err, ◌>>=◌, wrap}
use rbln_container_toolkit.Config.{
  Config, CdiConfig, RdsConfig, LibraryConfig, SearchPathConfig, SeLinuxConfig, DeviceConfig,
  HookConfig,
}
use rbln_container_toolkit.Discover.{
  Library, Tool, RdmaProvider, Device, DiscoveryResult, no_result,
}
use rbln_container_toolkit.Topology.{RsdResolver, noop_resolver}
use rbln_container_toolkit.Cdi.Spec.{Spec}
use rbln_container_toolkit.Cdi.Edits.{Host}
use rbln_container_toolkit.Cdi.Generator.{generate, generate_rds}
use rbln_container_toolkit.Cdi.Writer.{Encoders, Calls, Wrote, write, write_to_writer, after_calls}

-- `LibraryDiscoverer`, `ToolDiscoverer` and `DeviceDiscoverer`, by their answers.
pub record LibraryDiscoverer : Type 0 where
  pub discover_rbln : Result (List Library)
  pub discover_dependencies : List Library → Result (List Library)
  pub discover_plugins : Result (List Library)
  pub discover_rdma_providers : Result (List RdmaProvider)

abbrev pub ToolDiscoverer : Type 0
ToolDiscoverer = Result (List Tool)

abbrev pub DeviceDiscoverer : Type 0
DeviceDiscoverer = Result (List Device)

-- `ErrorMode`
pub data ErrorMode : Type 0 where
  strict : ErrorMode
  lenient : ErrorMode

-- `Options`, without the logger. An interface that is nil is `none`.
pub record Options : Type 0 where
  pub config : Option Config
  pub output_path : String
  pub rds_output_path : String
  pub format : String
  pub error_mode : ErrorMode
  pub library_discoverer : Option LibraryDiscoverer
  pub tool_discoverer : Option ToolDiscoverer
  pub device_discoverer : Option DeviceDiscoverer
  pub rds_device_discoverer : Option DeviceDiscoverer
  pub rsd_resolver : Option RsdResolver

-- What the functions reach outside: the discoverers for a configuration, `LoadOrFallbackWithStats`, the
-- files that the generator reads, the encoders, the calls that write a path, and the error of removing
-- the RDS spec.
pub record Around : Type 0 where
  pub new_library_discoverer : Config → LibraryDiscoverer
  pub new_tool_discoverer : Config → ToolDiscoverer
  pub new_device_discoverer : Config → DeviceDiscoverer
  pub loaded_resolver : RsdResolver
  pub host : Host
  pub encoders : Encoders
  pub calls : String → Calls
  pub remove_error : Option String

abbrev pub or_made : {A : Type 0} → Option A → A → A
or_made none made = made
or_made (some given) made = given

-- The `nil` of a tool or a device discoverer leaves out that part.
abbrev pub no_part : {A : Type 0} → Option (Result (List A)) → Result (List A)
no_part none = ok []
no_part (some found) = found

-- `DiscoverResources`
unfoldable pub discover_resources :
    LibraryDiscoverer → Option ToolDiscoverer → Option DeviceDiscoverer → Result DiscoveryResult
discover_resources libs tools devices = do
  rbln_libs ← wrap "discover RBLN libraries: " libs.discover_rbln
  deps ← wrap "discover dependencies: " (libs.discover_dependencies rbln_libs)
  plugins ← wrap "discover plugins: " libs.discover_plugins
  providers ← wrap "discover RDMA providers: " libs.discover_rdma_providers
  found_tools ← wrap "discover tools: " (no_part tools)
  found_devices ← wrap "discover devices: " (no_part devices)
  ok record {
    libraries = rbln_libs ++ (deps ++ plugins);
    rdma_providers = providers;
    tools = found_tools;
    devices = found_devices;
  }

-- `&config.Config{}`
abbrev pub zero_config : Config
zero_config = record {
  cdi = record { output_path = ""; format = ""; vendor = ""; class = "" };
  rds = record { class = ""; output_path = ""; patterns = [] };
  libraries = record {
    patterns = [];
    dependencies = [];
    plugin_paths = [];
    container_path = "";
    rdma_providers = [];
    rdma_provider_dir = "";
  };
  tools = [];
  devices = record { patterns = []; disabled = false };
  search_paths = record { libraries = []; binaries = [] };
  glibc_exclude = [];
  selinux = record { enabled = false; mount_context = "" };
  hooks = record { path = ""; ldconfig_path = "" };
  debug = false;
  driver_root = "";
  search_root = "";
  host_root = "";
}

-- `DefaultOptions`
abbrev pub default_setup_options : Options
default_setup_options = record {
  config = some zero_config;
  output_path = "/var/run/cdi/rbln.yaml";
  rds_output_path = "";
  format = "yaml";
  error_mode = strict;
  library_discoverer = none;
  tool_discoverer = none;
  device_discoverer = none;
  rds_device_discoverer = none;
  rsd_resolver = none;
}

abbrev pub or_default_options : Option Options → Options
or_default_options none = default_setup_options
or_default_options (some o) = o

-- The format, "yaml" where none is given.
abbrev pub format_of : Options → String
format_of o = if o.format == "" then "yaml" else o.format

-- `resolveTopology`: the resolver given, none on the Kubernetes path, or the loaded one.
unfoldable pub resolve_topology : Around → Options → Config → RsdResolver
resolve_topology a o cfg = elim (o.rsd_resolver) [
  | some given ↦ given
  | none ↦ if cfg.devices.disabled then noop_resolver else a.loaded_resolver
]

-- The device discoverer that is used: the one given, or one that is made unless devices are disabled.
abbrev pub device_part : Around → Options → Config → Option DeviceDiscoverer
device_part a o cfg = elim (o.device_discoverer) [
  | some given ↦ some given
  | none ↦ if cfg.devices.disabled then none else some (a.new_device_discoverer cfg)
]

-- The discovery of `GenerateCDISpec`, before its error mode.
unfoldable pub discovered : Around → Options → Config → Result DiscoveryResult
unfolding discover_resources
discovered a o cfg =
    discover_resources (or_made o.library_discoverer (a.new_library_discoverer cfg))
      (some (or_made o.tool_discoverer (a.new_tool_discoverer cfg))) (device_part a o cfg)

-- A discovery that fails is an error in strict mode, and finds nothing in lenient mode.
abbrev pub by_mode : ErrorMode → Result DiscoveryResult → Result DiscoveryResult
by_mode mode (ok found) = ok found
by_mode strict (err e) = err ("discover resources: " <> e)
by_mode lenient (err e) = ok no_result

-- The spec of the NPUs.
unfoldable pub npu_spec : Around → Options → Config → Result Spec
unfolding discovered resolve_topology generate
npu_spec a o cfg = do
  found ← by_mode o.error_mode (discovered a o cfg)
  ok (generate cfg (resolve_topology a o cfg) a.host (some found))

-- `discoverRDSDevices`: the configuration with the RDS patterns in place of the others.
unfoldable pub discover_rds_devices : Around → Options → Config → Result (List Device)
discover_rds_devices a o cfg = elim (o.rds_device_discoverer) [
  | some given ↦ given
  | none ↦
      a.new_device_discoverer
        (record cfg { devices = record { patterns = cfg.rds.patterns; disabled = false } })
]

-- `buildRDSSpec`
unfoldable pub build_rds_spec : Around → Options → Config → Result (Option Spec)
unfolding discover_rds_devices generate_rds
build_rds_spec a o cfg = if is_empty cfg.rds.patterns then ok none else do
  devices ← wrap "discover RDS devices: " (discover_rds_devices a o cfg)
  ok (generate_rds cfg (some (record no_result { devices = devices })))
