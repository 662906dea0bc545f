-- ===== src/Tests/Command.antt =====
-- The theorems about cmd at concrete inputs.
use rbln_container_toolkit.Prelude.{
  ◌≡◌, refl, ◌∙◌, true, false, none, some, [], ◌∷◌, All, sym, subst, arith, map, string_eq,
}
use rbln_container_toolkit.Prelude.Texts.{clean}
use rbln_container_toolkit.Prelude.Results.{ok, ok-injective}
use rbln_container_toolkit.Config.{default_config}
use rbln_container_toolkit.Daemon.Config.{new_daemon_config}
use rbln_container_toolkit.Daemon.Config as DaemonConfig
use rbln_container_toolkit.Daemon.State.{stopped}
use rbln_container_toolkit.Daemon.Lifecycle.{Daemon, late}
use rbln_container_toolkit.Discover.Roots.{search_root_of}
use rbln_container_toolkit.Runtime.Disk.{Disk, healthy}
use rbln_container_toolkit.Runtime.Document.{of_texts}
use rbln_container_toolkit.Runtime.Configurator.{configure, kind_of, containerd, docker, crio}
use rbln_container_toolkit.Runtime.Configurator.Ready.{Decides}
use rbln_container_toolkit.Command.Setup.Again.{config_of, DecidesFor}
use rbln_container_toolkit.Command.Paths.{refresh_lib_dirs, refresh_config}
use rbln_container_toolkit.Command.Paths.Watched.{
  IsCleanDir, searched_in, refresh_lib_dirs-searched,
}
use rbln_container_toolkit.Command.Setup.{World, Machine, restart_runtime, setup}
use rbln_container_toolkit.Command.Daemon.{
  DaemonFlags, Circumstances, daemon_config, arguments_of, refreshed, run_daemon,
}
use rbln_container_toolkit.Command.Daemon.Ended.{run_daemon_again}
use rbln_container_toolkit.Command.Daemon.Removed.{AreRemoved, run_daemon-AreRemoved}
use rbln_container_toolkit.Command.Configure.{
  Request, Terminal, says_yes, execute_runtime_configure,
}
use rbln_container_toolkit.Command.Configure.Consent.{consents, execute_runtime_configure-kept}
use rbln_container_toolkit.Tests.Runtime.{
  no_version, toml_texts, toml, containerd_disk, toml_texts-IsToml, json_texts, json,
  json_texts-IsJson,
}
use rbln_container_toolkit.Tests.Runtime.Documents.{toml_of, toml_of-IsToml, json_of-IsJson}
use rbln_container_toolkit.Tests.Setup.{surroundings}
use rbln_container_toolkit.Tests.Installer.{outside}

clean_dirs : All IsCleanDir default_config.search_paths.libraries
unfolding clean
clean_dirs = (
  ("usr/lib64", refl, refl),
  (
    ("usr/lib/x86_64-linux-gnu", refl, refl),
    (
      ("usr/lib", refl, refl),
      (
        ("usr/local/lib", refl, refl),
        (
          ("usr/local/lib64", refl, refl),
          (
            ("lib", refl, refl),
            (("lib64", refl, refl), (("lib/x86_64-linux-gnu", refl, refl), tt)),
          ),
        ),
      ),
    ),
  ),
)

-- The driver's libraries are on a host that is mounted at /host.
refresh_lib_dirs-searched_example :
    refresh_lib_dirs default_config.search_paths.libraries "/host" "/run/rbln"
    ≡ map
        (searched_in
          (search_root_of (refresh_config "docker" "/host" "/run/rbln" "" default_config)))
        default_config.search_paths.libraries
refresh_lib_dirs-searched_example =
    refresh_lib_dirs-searched "docker" "/host" "run/rbln" "" default_config refl clean_dirs

-- A daemon for containerd, on a host that is mounted at /host.
abbrev world : World
world = record {
  around = surroundings;
  loaded = default_config;
  mkdir_error = none;
  toml = toml;
  json = json;
  runs = no_version;
  outside = outside;
  copied = none;
}

abbrev circumstances : Circumstances
circumstances = record {
  world = world;
  has_host = false;
  sockets = healthy [] [];
  lock_error = none;
  refreshes = world ∷ [];
  watcher_stops = true;
  cleanup_ends = true;
  signal = late;
  disorder = [];
  spec_error = none;
  rds_error = none;
  quoted = λ s. s;
}

abbrev daemon_flags : DaemonFlags
daemon_flags = record {
  config = record new_daemon_config { runtime = "containerd" };
  config_path = "";
}

abbrev mounted_disk : Disk
mounted_disk =
    healthy (("/host/etc/containerd/config.toml", "version = 2") ∷ []) ("/host/etc/containerd" ∷ [])

abbrev machine : Machine
machine = record { specs = []; disk = mounted_disk; binaries = healthy [] []; restarts = [] }

daemon_fine : (run_daemon circumstances daemon_flags machine).error ≡ none
unfolding run_daemon configure toml_of of_texts restart_runtime
daemon_fine = refl

abbrev checked_config : DaemonConfig.Config
checked_config = record new_daemon_config { runtime = "containerd"; host_root_mount = "/host" }

is_checked : daemon_config circumstances daemon_flags ≡ ok checked_config
unfolding daemon_config
is_checked = refl

decides :
    (cfg : DaemonConfig.Config)
    → daemon_config circumstances daemon_flags ≡ ok cfg
    → DecidesFor world (arguments_of daemon_flags cfg) machine.disk
unfolding kind_of
decides cfg h =
    subst (λ c. DecidesFor world (arguments_of daemon_flags c) machine.disk)
      (ok-injective checked_config cfg (sym is_checked ∙ h))
      λ kind.
        elim kind
          as (λ k.
            kind_of "containerd" ≡ some k
            → Decides toml k machine.disk
                (config_of world (arguments_of daemon_flags checked_config))) [
                  | containerd ↦ λ e. tt
                  | docker ↦ λ e. tt
                  | crio ↦ λ e. absurd (ground (arith, e))
                ]

run_daemon_again_example :
    ((run_daemon circumstances daemon_flags
        (run_daemon circumstances daemon_flags machine).machine).machine.disk
      ≡ (run_daemon circumstances daemon_flags machine).machine.disk)
    × ((run_daemon circumstances daemon_flags
          (run_daemon circumstances daemon_flags machine).machine).machine.restarts
        ≡ (run_daemon circumstances daemon_flags machine).machine.restarts)
run_daemon_again_example =
    run_daemon_again circumstances daemon_flags (toml_of-IsToml toml_texts toml_texts-IsToml)
      (json_of-IsJson json_texts json_texts-IsJson) machine
      (run_daemon circumstances daemon_flags machine).machine decides daemon_fine refl

run_daemon-AreRemoved_example :
    (cfg : DaemonConfig.Config) × (d : Daemon) × (daemon_config circumstances daemon_flags ≡ ok cfg)
    × ((run_daemon circumstances daemon_flags machine).daemon ≡ some d)
    × (d.state ≡ stopped)
    × (d.health.ready ≡ false)
    × AreRemoved cfg.cdi_spec_dir
        (refreshed
          (arguments_of daemon_flags cfg)
          circumstances.refreshes
          (setup world (arguments_of daemon_flags cfg) machine).machine.specs)
        (run_daemon circumstances daemon_flags machine).machine.specs
run_daemon-AreRemoved_example =
    run_daemon-AreRemoved circumstances daemon_flags machine refl refl refl refl refl refl
      daemon_fine

-- The question is answered by "no".
abbrev terminal : Terminal
terminal = record {
  toml = toml;
  json = json;
  detected = ok "containerd";
  answer = ok "no\n";
  lower = λ s. s;
}

abbrev request : Request
request = record {
  runtime_type = "";
  config_path = "";
  cdi_enabled = true;
  dry_run = false;
  skip_confirm = false;
  quiet = false;
}

refused : consents terminal request ≡ false
unfolding says_yes
refused = refl

execute_runtime_configure-kept_example :
    (execute_runtime_configure terminal request containerd_disk).disk ≡ containerd_disk
execute_runtime_configure-kept_example =
    execute_runtime_configure-kept terminal request containerd_disk refused
