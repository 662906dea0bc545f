-- ===== src/Ldconfig.antt =====
-- internal/ldconfig/ldconfig.go: the runner that updates the linker's cache in a container root,
-- the arguments through which it starts itself anew, and the file that it writes.
-- What the file system and the `ldconfig` binary answer is a `System`.
pub mod Arguments
pub mod Directories
use rbln_container_toolkit.Prelude.{
  ℕ, String, ◌<>◌, Bool, true, false, ◌||◌, Option, none, some, List, [], ◌∷◌, ◌++◌, length,
  contains, is_empty, ltb, ◌==◌, string_eq, if◌then◌else◌,
}
use rbln_container_toolkit.Prelude.Results.{Result, ok, err}
use rbln_container_toolkit.Prelude.Texts.{has_prefix, path_join}

pub record Ldconfig : Type 0 where
  pub ldconfig_path : String
  pub container_root : String
  pub directories : List String

abbrev pub reexec_command_name : String
reexec_command_name = "rbln-update-ldcache"

abbrev pub default_ldsoconfd_dir : String
default_ldsoconfd_dir = "/etc/ld.so.conf.d"

abbrev pub is_no_root : String → Bool
is_no_root root = root == "" || root == "/"

-- `NewRunner`: the arguments of the command.
unfoldable pub new_runner : String → String → List String → Result (List String)
new_runner path root dirs =
    if is_no_root root
    then err "container root must be specified and not be the system root"
    else ok (reexec_command_name ∷ "--ldconfig-path" ∷ path ∷ "--container-root" ∷ root ∷ dirs)

-- The cases of the `switch` in `runLdconfigUpdate`; `ignored` is another flag.
pub data Arg : Type 0 where
  path_flag root_flag ignored directory : Arg

unfoldable pub arg_of : String → Arg
unfolding has_prefix
arg_of a =
    if a == "--ldconfig-path"
    then path_flag
    else if a == "--container-root"
    then root_flag
    else if has_prefix a "--"
    then ignored
    else directory

-- The loop over the arguments.
unfoldable pub parse_args : List String → Ldconfig → Result Ldconfig
parse_args [] l = ok l
parse_args (a ∷ []) l = elim (arg_of a) [
  | path_flag ↦ err "--ldconfig-path requires an argument"
  | root_flag ↦ err "--container-root requires an argument"
  | ignored ↦ ok l
  | directory ↦ ok (record l { directories = l.directories ++ (a ∷ []) })
]
parse_args (a ∷ value ∷ args) l = elim (arg_of a) [
  | path_flag ↦ parse_args args (record l { ldconfig_path = value })
  | root_flag ↦ parse_args args (record l { container_root = value })
  | ignored ↦ parse_args (value ∷ args) l
  | directory ↦ parse_args (value ∷ args) (record l { directories = l.directories ++ (a ∷ []) })
]

abbrev pub nothing_parsed : Ldconfig
nothing_parsed = record { ldconfig_path = ""; container_root = ""; directories = [] }

-- The checks after the loop.
unfoldable pub check_parsed : Ldconfig → Result Ldconfig
check_parsed l =
    if l.ldconfig_path == ""
    then err "ldconfig path must be specified"
    else if is_no_root l.container_root
    then err "container root must be specified and not be the system root"
    else ok l

-- The loop starts behind the command's name.
abbrev pub parse_behind : List String → Result Ldconfig
parse_behind [] = ok nothing_parsed
parse_behind (name ∷ args) = parse_args args nothing_parsed

-- `runLdconfigUpdate` up to the update itself; the error lists the arguments.
unfoldable pub parse_update : (List String → String) → List String → Result Ldconfig
parse_update show args =
    if ltb (length args) 5
    then err ("insufficient arguments: " <> show args)
    else elim (parse_behind args) [ err e ↦ err e | ok l ↦ check_parsed l ]

-- `writeDirectories`: the lines written, after those of `seen`.
unfoldable pub write_directories : List String → List String → List String
write_directories seen [] = []
write_directories seen (dir ∷ dirs) =
    let rest = write_directories (dir ∷ seen) dirs in
    if contains seen dir then write_directories seen dirs else dir ∷ rest

pub record System : Type 0 where
  pub mkdir_error : Option String
  pub create_error : Option String
  pub write_error : Option String
  pub chmod_error : Option String
  pub stat_error : Option (Bool × String)
  pub run_error : Option String

-- The file that is left in the directory, by its lines, and the error.
pub record Updated : Type 0 where
  pub file : Option (List String)
  pub error : Option String

-- `createLdsoconfdFile`
unfoldable pub create_ldsoconfd_file : System → Ldconfig → Updated
unfolding write_directories
create_ldsoconfd_file sys l =
    if is_empty l.directories then record { file = none; error = none } else elim sys.create_error [
      | some e ↦ record { file = none; error = some ("failed to create config file: " <> e) }
      | none ↦ elim sys.write_error [
        | some e ↦ record { file = some []; error = some ("failed to write directory: " <> e) }
        | none ↦ record {
          file = some (write_directories [] l.directories);
          error = elim sys.chmod_error [
            | some e ↦ some ("failed to chmod config file: " <> e)
            | none ↦ none
          ];
        }
      ]
    ]

-- `runLdconfig`; a stat error tells whether the binary is not there.
unfoldable pub run_ldconfig : System → Option String
run_ldconfig sys = elim sys.stat_error [
  | some (true, e) ↦ some ("ldconfig binary not found: " <> e)
  | some (false, e) ↦ some ("failed to stat ldconfig binary: " <> e)
  | none ↦ elim sys.run_error [ some e ↦ some ("ldconfig failed: " <> e) | none ↦ none ]
]

-- `UpdateLDCache`
unfoldable pub update_ld_cache : System → Ldconfig → Updated
update_ld_cache sys l = elim sys.mkdir_error [
  | some e ↦ record { file = none; error = some ("failed to create ld.so.conf.d: " <> e) }
  | none ↦
      let made = create_ldsoconfd_file sys l in
      elim made.error [
        | some e ↦ record made { error = some ("failed to create ldconfig config file: " <> e) }
        | none ↦ record made { error = run_ldconfig sys }
      ]
]
