-- ===== src/Config/Loader.antt =====
-- internal/config/loader.go and options.go: the configuration from the defaults, a file, the environment and
-- the options of a command.
pub mod Priority
use rbln_container_toolkit.Prelude.{
  String, ◌<>◌, Bool, true, false, ◌||◌, Option, none, some, List, [], ◌∷◌, if◌then◌else◌, ◌==◌,
  string_eq,
}
use rbln_container_toolkit.Prelude.Results.{Result, ok, err}
use rbln_container_toolkit.Config.{Config, CdiConfig, LibraryConfig, SeLinuxConfig, default_config}

-- What `os.ReadFile` answers.
pub data FileRead : Type 0 where
  absent : FileRead
  failed : String → FileRead
  content : String → FileRead

-- The environment, where an unset variable is "", the files, and `yaml.Unmarshal` into a configuration,
-- whose errors are all `ErrInvalidConfig`.
pub record Surroundings : Type 0 where
  pub getenv : String → String
  pub read_file : String → FileRead
  pub is_there : String → Bool
  pub unmarshal : String → Config → Option Config

-- The options of options.go.
pub data Setting : Type 0 where
  with_config_file : String → Setting
  with_driver_root : String → Setting
  with_output_path : String → Setting
  with_format : String → Setting
  with_debug : Bool → Setting
  with_vendor : String → Setting
  with_class : String → Setting
  with_selinux : Bool → Setting
  with_selinux_context : String → Setting
  with_container_library_path : String → Setting

-- A text that is given, or what stood there.
abbrev pub or_given : String → String → String
or_given given before = if given == "" then before else given

unfoldable pub apply : Setting → Config → Config
apply (with_config_file path) c = c
apply (with_driver_root root) c = record c { driver_root = or_given root c.driver_root }
apply (with_output_path path) c = record c {
  cdi = record c.cdi { output_path = or_given path c.cdi.output_path };
}
apply (with_format format) c = record c {
  cdi = record c.cdi { format = or_given format c.cdi.format };
}
apply (with_debug debug) c = record c { debug = debug }
apply (with_vendor vendor) c = record c {
  cdi = record c.cdi { vendor = or_given vendor c.cdi.vendor };
}
apply (with_class class) c = record c { cdi = record c.cdi { class = or_given class c.cdi.class } }
apply (with_selinux enabled) c = record c { selinux = record c.selinux { enabled = enabled } }
apply (with_selinux_context context) c = record c {
  selinux = record c.selinux { mount_context = or_given context c.selinux.mount_context };
}
apply (with_container_library_path path) c = record c {
  libraries = record c.libraries { container_path = or_given path c.libraries.container_path };
}

-- The loop over the options.
unfoldable pub apply_all : List Setting → Config → Config
unfolding apply
apply_all [] c = c
apply_all (setting ∷ settings) c = apply_all settings (apply setting c)

abbrev pub default_config_paths : List String
default_config_paths = "/etc/rbln/container-toolkit.yaml" ∷ "/etc/rbln/container-toolkit.yml" ∷ []

unfoldable pub first_there : Surroundings → List String → String
first_there w [] = ""
first_there w (path ∷ paths) =
    let rest = first_there w paths in if w.is_there path then path else rest

-- `resolveConfigPath`
unfoldable pub resolve_config_path : Surroundings → String → String
unfolding first_there
resolve_config_path w config_file =
    or_given config_file
      (or_given (w.getenv "RBLN_CTK_CONFIG") (first_there w default_config_paths))

abbrev pub or_invalid : String → Option Config → Result Config
or_invalid path none = err ("parse config file " <> (path <> ": invalid configuration"))
or_invalid path (some c) = ok c

abbrev pub read_into : Surroundings → String → Config → FileRead → Result Config
read_into w path c absent = ok c
read_into w path c (failed e) = err ("read config file " <> (path <> (": " <> e)))
read_into w path c (content text) = or_invalid path (w.unmarshal text c)

-- `loadFromFile`
unfoldable pub load_from_file : Surroundings → String → Config → Result Config
load_from_file w path c = read_into w path c (w.read_file path)

abbrev pub is_yes : String → Bool
is_yes value = value == "true" || value == "1"

-- `applyEnvVars`
unfoldable pub apply_env_vars : Surroundings → Config → Config
apply_env_vars w c = record c {
  debug = if is_yes (w.getenv "RBLN_CTK_DEBUG") then true else c.debug;
  cdi = record c.cdi {
    output_path = or_given (w.getenv "RBLN_CDI_OUTPUT") c.cdi.output_path;
    format = or_given (w.getenv "RBLN_CDI_FORMAT") c.cdi.format;
  };
  driver_root = or_given (w.getenv "RBLN_DRIVER_ROOT") c.driver_root;
}

-- The configuration of the file, or the default one.
unfoldable pub from_file : Surroundings → String → Result Config
unfolding load_from_file
from_file w path = if path == "" then ok default_config else load_from_file w path default_config

abbrev pub finished : Surroundings → List Setting → Result Config → Result Config
finished w settings (err e) = err e
finished w settings (ok c) = ok (apply_all settings (apply_env_vars w c))

-- `Load`
unfoldable pub load : Surroundings → String → List Setting → Result Config
unfolding resolve_config_path from_file apply_env_vars apply_all
load w config_file settings = finished w settings (from_file w (resolve_config_path w config_file))

abbrev or_default : Result Config → Config
or_default (ok c) = c
or_default (err e) = default_config

-- `LoadDefault`
unfoldable pub load_default : Surroundings → Config
unfolding load
load_default w = or_default (load w "" [])
