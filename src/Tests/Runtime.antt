-- ===== src/Tests/Runtime.antt =====
-- The theorems about internal/runtime at concrete inputs.
pub mod Documents
use rbln_container_toolkit.Prelude.{
  String, ◌<>◌, ◌≡◌, ◌↔◌, refl, Bool, true, false, Option, none, some, List, [], ◌∷◌, ◌++◌, ◌==◌,
  string_eq, contains,
}
use rbln_container_toolkit.Prelude.Spaces.{trim_space}
use rbln_container_toolkit.Prelude.Int.{ℤ, pos}
use rbln_container_toolkit.Prelude.Texts.{dir}
use rbln_container_toolkit.Prelude.Dict.{Dict, lookup}
use rbln_container_toolkit.Prelude.Results.{Result, ok, err}
use rbln_container_toolkit.Runtime.Disk.{Disk, healthy, missing, content, stat, read, Ended, write}
use rbln_container_toolkit.Runtime.Document.{
  Table, number, string, flag, items, table, empty, entry, get, put, get_in, of_texts, texts, Codec,
}
use rbln_container_toolkit.Runtime.Version.{Version, detect_version}
use rbln_container_toolkit.Runtime.Detect.{
  DetectOptions, detected, first_of, detect_runtime_strict, detect_runtime_with_options,
  detect_runtime_strict-with_options,
}
use rbln_container_toolkit.Runtime.Backup.{backup_file, restore_backup}
use rbln_container_toolkit.Runtime.Containerd.{
  cri_plugin_key, enabled, enable_cdi, spec_dirs, configure_containerd, revert_containerd,
  containerd_cdi_ready,
}
use rbln_container_toolkit.Runtime.Containerd.Restore.{
  configure_containerd-revert, configure_containerd_twice-revert,
}
use rbln_container_toolkit.Runtime.Docker
use rbln_container_toolkit.Runtime.Docker.{
  disable_cdi, feature_ready, configure_docker, revert_docker, docker_cdi_ready,
}
use rbln_container_toolkit.Runtime.Docker.Ready.{configure_docker-revert, revert_docker-ready}
use rbln_container_toolkit.Runtime.Crio.{
  generate_config, configure_crio, revert_crio, crio_effective_spec_dirs, said_by,
  crio_scans_spec_dir,
}
use rbln_container_toolkit.Runtime.Crio.Precedence.{crio_effective_spec_dirs-last}
use rbln_container_toolkit.Runtime.Crio.DropIn.{configure_crio-revert}
use rbln_container_toolkit.Runtime.Configurator.{
  containerd, Configurator, new_configurator, configure, cdi_ready,
}
use rbln_container_toolkit.Runtime.Configurator.Ready.{configure-ready}
use rbln_container_toolkit.Tests.Runtime.Documents.{
  toml_of, json_of, toml_of-IsToml, json_of-IsJson, AreTexts,
}

-- A containerd 1.x that is not asked for its version.
abbrev pub no_version : String × List String → Result String
no_version argv = err "executable file not found"

abbrev pub toml_path : String
toml_path = "/etc/containerd/config.toml"

abbrev plain_toml : Table
plain_toml = entry "version" (number (pos 2)) empty

abbrev cdi_toml : Table
cdi_toml = entry "version" (number (pos 2)) (
    entry "plugins"
      (table (
        entry cri_plugin_key
          (table (
            entry "enable_cdi" (flag true)
              (entry "cdi_spec_dirs" (items (of_texts ("/etc/cdi" ∷ "/var/run/cdi" ∷ []))) empty)))
          empty))
      empty)

abbrev pub toml_texts : Dict Table
toml_texts = ("version = 2", plain_toml) ∷ ("version = 2 [cdi]", cdi_toml) ∷ []

abbrev pub toml : Codec
toml = toml_of toml_texts

abbrev pub containerd_disk : Disk
containerd_disk =
    healthy ((toml_path, "version = 2") ∷ ("/etc/hosts", "localhost") ∷ []) ("/etc/containerd" ∷ [])

configured_once : (configure_containerd toml containerd_disk toml_path).error ≡ none
unfolding configure_containerd toml_of of_texts
configured_once = refl

pub toml_texts-IsToml : AreTexts toml_texts
unfolding lookup trim_space
toml_texts-IsToml = (refl, refl, refl, refl, (refl, refl, refl, refl, tt))

configure_containerd-revert_example :
    ((revert_containerd (configure_containerd toml containerd_disk toml_path).disk toml_path).error
      ≡ none)
    × (lookup toml_path
          (revert_containerd
            (configure_containerd toml containerd_disk toml_path).disk
            toml_path).disk.files
        ≡ some "version = 2")
    × (lookup
          (toml_path <> ".backup")
          (revert_containerd
            (configure_containerd toml containerd_disk toml_path).disk
            toml_path).disk.files
        ≡ none)
    × (lookup "/etc/hosts"
          (revert_containerd
            (configure_containerd toml containerd_disk toml_path).disk
            toml_path).disk.files
        ≡ lookup "/etc/hosts" containerd_disk.files)
unfolding configure_containerd toml_of of_texts
configure_containerd-revert_example =
    configure_containerd-revert toml containerd_disk toml_path "version = 2" refl refl refl refl
      refl "/etc/hosts" refl

configure_containerd_twice-revert_example :
    containerd_cdi_ready toml no_version
      (revert_containerd
        (configure_containerd toml
          (configure_containerd toml containerd_disk toml_path).disk
          toml_path).disk
        toml_path).disk
      toml_path
      "/host"
    ≡ ok true
unfolding configure_containerd toml_of of_texts
configure_containerd_twice-revert_example =
    configure_containerd_twice-revert toml (toml_of-IsToml toml_texts toml_texts-IsToml) no_version
      containerd_disk toml_path "version = 2" "/host" refl refl refl refl refl refl

abbrev containerd_configurator : Configurator
containerd_configurator = record { kind = containerd; config_path = toml_path; cdi_enabled = false }

abbrev json_path : String
json_path = "/etc/docker/daemon.json"

abbrev plain_json : Table
plain_json = entry "features" (table (entry "buildkit" (flag true) empty)) empty

abbrev cdi_json : Table
cdi_json =
    entry "features" (table (entry "buildkit" (flag true) (entry "cdi" (flag true) empty))) empty

abbrev pub json_texts : Dict Table
json_texts = ("{buildkit}", plain_json) ∷ ("{buildkit, cdi}", cdi_json) ∷ []

abbrev pub json : Codec
json = json_of json_texts

pub json_texts-IsJson : AreTexts json_texts
unfolding lookup trim_space
json_texts-IsJson = (refl, refl, refl, refl, (refl, refl, refl, refl, tt))

configure-ready_example :
    cdi_ready toml json no_version "containerd"
      (configure toml json containerd_configurator containerd_disk).disk
      toml_path
      "/host"
    ≡ ok true
unfolding configure toml_of of_texts new_configurator
configure-ready_example =
    configure-ready toml json (toml_of-IsToml toml_texts toml_texts-IsToml)
      (json_of-IsJson json_texts json_texts-IsJson) no_version "containerd" toml_path "/host"
      (some false) containerd_configurator containerd_disk refl tt refl

abbrev docker_disk : Disk
docker_disk = healthy ((json_path, "{buildkit}") ∷ []) ("/etc/docker" ∷ [])

configure_docker-revert_example :
    ((revert_docker json (configure_docker json docker_disk json_path).disk json_path).error ≡ none)
    × (lookup json_path
          (revert_docker json
            (configure_docker json docker_disk json_path).disk
            json_path).disk.files
        ≡ some "{buildkit}")
    × (lookup
          (json_path <> ".backup")
          (revert_docker json
            (configure_docker json docker_disk json_path).disk
            json_path).disk.files
        ≡ none)
    × (lookup json_path
          (revert_docker json
            (configure_docker json docker_disk json_path).disk
            json_path).disk.files
        ≡ lookup json_path docker_disk.files)
unfolding configure_docker json_of
configure_docker-revert_example =
    configure_docker-revert json docker_disk json_path "{buildkit}" json_path refl refl refl refl
      refl refl

abbrev drop_in_path : String
drop_in_path = "/etc/crio/crio.conf.d/99-rbln.conf"

abbrev crio_disk : Disk
crio_disk = healthy (("/etc/crio/crio.conf", "version = 2") ∷ []) ("/etc/crio/crio.conf.d" ∷ [])

configure_crio-revert_example :
    (revert_crio (configure_crio crio_disk drop_in_path).disk drop_in_path).disk ≡ crio_disk
unfolding configure_crio revert_crio lookup dir
configure_crio-revert_example =
    configure_crio-revert crio_disk drop_in_path refl refl refl refl refl

abbrev crio_toml : Table
crio_toml =
    entry "crio"
      (table (
        entry "runtime"
          (table (entry "cdi_spec_dirs" (items (of_texts ("/var/run/cdi" ∷ []))) empty)) empty))
      empty

abbrev crio_codec : Codec
crio_codec = toml_of (("a", plain_toml) ∷ ("b", crio_toml) ∷ [])

abbrev layers : Disk
layers = healthy (("/10", "a") ∷ ("/20", "b") ∷ ("/30", "a") ∷ []) []

crio_effective_spec_dirs-last_example :
    crio_effective_spec_dirs crio_codec layers ("/10" ∷ "/20" ∷ "/30" ∷ [])
    ≡ some ("/var/run/cdi" ∷ [])
unfolding said_by toml_of of_texts
crio_effective_spec_dirs-last_example =
    crio_effective_spec_dirs-last crio_codec layers ("/10" ∷ []) ("/30" ∷ []) "/20"
      ("/var/run/cdi" ∷ []) refl (refl, tt)

abbrev sockets : DetectOptions
sockets = record {
  containerd_socket = "/run/containerd/containerd.sock";
  crio_socket = "";
  docker_socket = "/var/run/docker.sock";
  explicit_runtime = "";
}

abbrev docker_host : Disk
docker_host =
    healthy (("/run/containerd/containerd.sock", "") ∷ ("/var/run/docker.sock", "") ∷ []) []

detect_runtime_strict-with_options_example :
    ((detect_runtime_strict docker_host (some sockets) ≡ ok "containerd")
      ↔ (detected docker_host sockets ≡ "containerd" ∷ []))
    × (detect_runtime_with_options docker_host (some sockets)
        ≡ first_of (detected docker_host sockets))
detect_runtime_strict-with_options_example =
    detect_runtime_strict-with_options docker_host sockets "containerd" refl
