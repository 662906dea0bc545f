-- ===== src/Tests/Config.antt =====
-- The theorem about internal/config at concrete files and options.
use rbln_container_toolkit.Prelude.{
  ◌≡◌, refl, false, some, List, [], ◌∷◌, ◌==◌, string_eq, if◌then◌else◌,
}
use rbln_container_toolkit.Prelude.Results.{ok}
use rbln_container_toolkit.Config.{Config, default_config}
use rbln_container_toolkit.Config.Loader
use rbln_container_toolkit.Config.Loader.{
  Surroundings, FileRead, Setting, with_driver_root, with_format, or_given, from_file, load,
}
use rbln_container_toolkit.Config.Loader.Priority.{
  last_given, root_given, output_given, format_given, load-priority,
}

-- A driver root in the file and in the environment, and a format in an option.
abbrev loads : Surroundings
loads = record {
  getenv = λ key. if key == "RBLN_DRIVER_ROOT" then "/run/rbln" else "";
  read_file = λ path.
      if path == "/etc/ctk.yaml" then FileRead.content "driver_root: /opt" else FileRead.absent;
  is_there = λ path. false;
  unmarshal = λ text c. some (record c { driver_root = "/opt" });
}

abbrev format_option : List Setting
format_option = with_format "json" ∷ with_format "" ∷ []

abbrev loaded_config : Config
loaded_config = record default_config {
  driver_root = "/run/rbln";
  cdi = record default_config.cdi { format = "json" };
}

loaded : load loads "/etc/ctk.yaml" format_option ≡ ok loaded_config
unfolding load
loaded = refl

load-priority_example :
    (base : Config) × (from_file loads (Loader.resolve_config_path loads "/etc/ctk.yaml") ≡ ok base)
    × ("/run/rbln"
        ≡ or_given (last_given root_given format_option) (or_given "/run/rbln" base.driver_root))
    × (loaded_config.cdi.output_path
        ≡ or_given (last_given output_given format_option) (or_given "" base.cdi.output_path))
    × ("json" ≡ or_given (last_given format_given format_option) (or_given "" base.cdi.format))
load-priority_example = load-priority loads "/etc/ctk.yaml" format_option loaded_config loaded
