-- ===== src/Config.antt =====
-- internal/config/types.go and defaults.go: the configuration and its default values.
pub mod Loader
use rbln_container_toolkit.Prelude.{String, Bool, false, List, [], ◌∷◌}

pub record CdiConfig : Type 0 where
  pub output_path : String
  pub format : String
  pub vendor : String
  pub class : String

pub record RdsConfig : Type 0 where
  pub class : String
  pub output_path : String
  pub patterns : List String

pub record RdmaProviderConfig : Type 0 where
  pub library : String
  pub driver : String

pub record LibraryConfig : Type 0 where
  pub patterns : List String
  pub dependencies : List String
  pub plugin_paths : List String
  pub container_path : String
  pub rdma_providers : List RdmaProviderConfig
  pub rdma_provider_dir : String

pub record SearchPathConfig : Type 0 where
  pub libraries : List String
  pub binaries : List String

pub record SeLinuxConfig : Type 0 where
  pub enabled : Bool
  pub mount_context : String

pub record DeviceConfig : Type 0 where
  pub patterns : List String
  pub disabled : Bool

pub record HookConfig : Type 0 where
  pub path : String
  pub ldconfig_path : String

pub record Config : Type 0 where
  pub cdi : CdiConfig
  pub rds : RdsConfig
  pub libraries : LibraryConfig
  pub tools : List String
  pub devices : DeviceConfig
  pub search_paths : SearchPathConfig
  pub glibc_exclude : List String
  pub selinux : SeLinuxConfig
  pub hooks : HookConfig
  pub debug : Bool
  pub driver_root : String
  pub search_root : String
  pub host_root : String

abbrev pub default_config : Config
default_config = record {
  cdi = record {
    output_path = "/var/run/cdi/rbln.yaml";
    format = "yaml";
    vendor = "rebellions.ai";
    class = "npu";
  };
  rds = record {
    class = "rds";
    output_path = "/var/run/cdi/rbln-rds.yaml";
    patterns = "/dev/rblnfs*" ∷ [];
  };
  libraries = record {
    patterns = "librbln-*.so*" ∷ [];
    dependencies = [];
    plugin_paths = "/usr/lib64/libibverbs" ∷ "/usr/lib/x86_64-linux-gnu/libibverbs" ∷ [];
    container_path = "";
    rdma_providers =
        record {
          library = "/usr/local/lib/libbnxt_re-rdmav34.so";
          driver = "/etc/libibverbs.d/bnxt_re.driver";
        }
        ∷ [];
    rdma_provider_dir = "/usr/lib/x86_64-linux-gnu/libibverbs";
  };
  tools = "rbln-smi" ∷ "rbln-stat" ∷ "rblnBandwidthLatencyTest" ∷ [];
  devices = record { patterns = "/dev/rbln*" ∷ "/dev/rsd*" ∷ []; disabled = false };
  search_paths = record {
    libraries =
        "/usr/lib64" ∷ "/usr/lib/x86_64-linux-gnu" ∷ "/usr/lib" ∷ "/usr/local/lib"
        ∷ "/usr/local/lib64" ∷ "/lib" ∷ "/lib64" ∷ "/lib/x86_64-linux-gnu" ∷ [];
    binaries = "/usr/bin" ∷ "/usr/local/bin" ∷ [];
  };
  glibc_exclude =
      "ld-linux*" ∷ "linux-vdso*" ∷ "libc.so*" ∷ "libm.so*" ∷ "libpthread*" ∷ "libdl*" ∷ "librt*"
      ∷ "libgcc_s*" ∷ "libstdc++*" ∷ "libresolv*" ∷ "libnss_*" ∷ [];
  selinux = record { enabled = false; mount_context = "z" };
  hooks = record { path = "/usr/local/bin/rbln-cdi-hook"; ldconfig_path = "/sbin/ldconfig" };
  debug = false;
  driver_root = "/";
  search_root = "";
  host_root = "";
}
