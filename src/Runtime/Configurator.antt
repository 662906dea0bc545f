-- ===== src/Runtime/Configurator.antt =====
-- The choice by runtime: `NewConfigurator`, `NewReverter`, `DefaultConfigPath` and `CDIReady` of
-- internal/runtime/configure.go.
pub mod Ready
use rbln_container_toolkit.Prelude.{
  String, ◌<>◌, Bool, true, false, Option, none, some, List, ◌==◌, string_eq, if◌then◌else◌,
}
use rbln_container_toolkit.Prelude.Results.{Result, ok, err}
use rbln_container_toolkit.Runtime.Disk.{Disk, Ended}
use rbln_container_toolkit.Runtime.Document.{Codec}
use rbln_container_toolkit.Runtime.Detect.{
  runtime_containerd, runtime_crio, runtime_docker, runtime_not_found,
}
use rbln_container_toolkit.Runtime.Containerd.{
  configure_containerd, dry_run_containerd, containerd_cdi_ready, revert_containerd,
}
use rbln_container_toolkit.Runtime.Crio.{
  configure_crio, dry_run_crio, crio_scans_spec_dir, revert_crio,
}
use rbln_container_toolkit.Runtime.Docker.{
  configure_docker, dry_run_docker, docker_cdi_ready, revert_docker,
}

-- `containerdConfigurator`, `crioConfigurator`, `dockerConfigurator`
pub data Kind : Type 0 where
  containerd : Kind
  crio : Kind
  docker : Kind

-- `cdi_enabled` is the option of `ConfiguratorOptions`.
pub record Configurator : Type 0 where
  pub kind : Kind
  pub config_path : String
  pub cdi_enabled : Bool

-- The kind of a runtime, in the order of the `switch` statements.
unfoldable pub kind_of : String → Option Kind
kind_of runtime =
    if runtime == runtime_containerd
    then some containerd
    else if runtime == runtime_crio
    then some crio
    else if runtime == runtime_docker
    then some docker
    else none

-- The answer of a `switch` without a case for the runtime.
unfoldable pub not_found : String → String
not_found runtime = runtime_not_found <> (": " <> runtime)

abbrev or_enabled : Option Bool → Bool
or_enabled none = true
or_enabled (some b) = b

-- `NewConfigurator`
unfoldable pub new_configurator : String → String → Option Bool → Result Configurator
unfolding kind_of not_found
new_configurator runtime path opts = elim (kind_of runtime) [
  | none ↦ err (not_found runtime)
  | some kind ↦ ok record { kind = kind; config_path = path; cdi_enabled = or_enabled opts }
]

-- `DefaultConfigPath`
unfoldable pub default_config_path : String → String
unfolding kind_of
default_config_path runtime = elim (kind_of runtime) [
  | none ↦ ""
  | some containerd ↦ "/etc/containerd/config.toml"
  | some crio ↦ "/etc/crio/crio.conf.d/99-rbln.conf"
  | some docker ↦ "/etc/docker/daemon.json"
]

-- A reverter: the kind, and the path, which is the runtime's own where none is given.
pub record Reverter : Type 0 where
  pub reverts : Kind
  pub reverter_path : String

-- `NewReverter`
unfoldable pub new_reverter : String → String → Result Reverter
unfolding kind_of not_found default_config_path
new_reverter runtime path = elim (kind_of runtime) [
  | none ↦ err (not_found runtime)
  | some kind ↦ ok record {
    reverts = kind;
    reverter_path = if path == "" then default_config_path runtime else path;
  }
]

module _ (toml json : Codec) where
  -- `Configure` of a configurator
  unfoldable pub configure_kind : Kind → Disk → String → Ended
  unfolding configure_containerd configure_crio configure_docker
  configure_kind containerd d path = configure_containerd toml d path
  configure_kind crio d path = configure_crio d path
  configure_kind docker d path = configure_docker json d path

  unfoldable pub configure : Configurator → Disk → Ended
  unfolding configure_kind
  configure c d = configure_kind c.kind d c.config_path

  -- `DryRun` of a configurator
  unfoldable pub dry_run_kind : Kind → Disk → String → Result String
  unfolding dry_run_containerd dry_run_crio dry_run_docker
  dry_run_kind containerd d path = dry_run_containerd toml d path
  dry_run_kind crio d path = dry_run_crio path
  dry_run_kind docker d path = dry_run_docker json d path

  unfoldable pub dry_run : Configurator → Disk → Result String
  unfolding dry_run_kind
  dry_run c d = dry_run_kind c.kind d c.config_path

  -- `Revert` of a reverter
  unfoldable pub revert_kind : Kind → Disk → String → Ended
  unfolding revert_containerd revert_crio revert_docker
  revert_kind containerd d path = revert_containerd d path
  revert_kind crio d path = revert_crio d path
  revert_kind docker d path = revert_docker json d path

  unfoldable pub revert : Reverter → Disk → Ended
  unfolding revert_kind
  revert r d = revert_kind r.reverts d r.reverter_path

  -- The readiness of a kind of runtime.
  unfoldable pub kind_ready :
      (String × List String → Result String) → Kind → Disk → String → String → Result Bool
  unfolding containerd_cdi_ready crio_scans_spec_dir docker_cdi_ready
  kind_ready runs containerd d path host_root = containerd_cdi_ready toml runs d path host_root
  kind_ready runs crio d path host_root = crio_scans_spec_dir toml d path
  kind_ready runs docker d path host_root = docker_cdi_ready json runs d path host_root

  -- `CDIReady`
  unfoldable pub cdi_ready :
      (String × List String → Result String) → String → Disk → String → String → Result Bool
  unfolding kind_of not_found kind_ready
  cdi_ready runs runtime d path host_root = elim (kind_of runtime) [
    | none ↦ err (not_found runtime)
    | some kind ↦ kind_ready runs kind d path host_root
  ]
