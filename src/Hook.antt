-- ===== src/Hook.antt =====
-- internal/oci/state.go: the container state that a hook is given, and the container's root.
pub mod Symlinks
pub mod LdCache
use rbln_container_toolkit.Prelude.{
  ℕ, String, ◌<>◌, ◌≡◌, refl, Bool, true, false, ◌||◌, Option, none, some, [], ◌∷◌, ◌==◌, string_eq,
  if◌then◌else◌,
}
use rbln_container_toolkit.Prelude.Texts.{is_abs, path_join}
use rbln_container_toolkit.Prelude.Dict.{Dict}
use rbln_container_toolkit.Prelude.Int.{ℤ}
use rbln_container_toolkit.Prelude.Results.{Result, ok, err, wrap, ◌>>=◌}

pub record State : Type 0 where
  pub version : String
  pub id : String
  pub status : String
  pub pid : ℤ
  pub bundle : String
  pub annotations : Dict String

pub record Root : Type 0 where
  pub path : String
  pub readonly : Bool

pub record MinimalSpec : Type 0 where
  pub root : Option Root

-- What a hook reads: the standard input, files by their path, and the JSON decoder for both types; and
-- the verb %q.
pub record Input : Type 0 where
  pub stdin : Result String
  pub open_file : String → Result String
  pub decode_state : String → Result State
  pub decode_spec : String → Result MinimalSpec
  pub quoted : String → String

-- `ReadContainerState`
unfoldable pub read_container_state : Input → Result String → Result State
read_container_state input text =
    wrap "failed to decode container state: " (text >>= input.decode_state)

-- `LoadContainerState`
unfoldable pub load_container_state : Input → String → Result State
unfolding read_container_state
load_container_state input filename =
    if filename == "" || filename == "-"
    then read_container_state input input.stdin
    else wrap "failed to open file: " (input.open_file filename) >>= λ text.
        read_container_state input (ok text)

-- `GetSpecFilePath`
unfoldable pub get_spec_file_path : String → String
unfolding path_join
get_spec_file_path bundle = path_join (bundle ∷ "config.json" ∷ [])

-- `loadMinimalSpec`
unfoldable pub load_minimal_spec : Input → State → Result MinimalSpec
unfolding get_spec_file_path
load_minimal_spec input state =
    wrap "failed to open OCI spec file: " (input.open_file (get_spec_file_path state.bundle))
    >>= λ text. wrap "failed to load minimal OCI spec: " (input.decode_spec text)

abbrev root_path : Option Root → String
root_path none = ""
root_path (some root) = root.path

-- The root as it is used: a relative one is below the bundle.
unfoldable pub resolved_root : String → String → String
unfolding is_abs path_join
resolved_root bundle path = if is_abs path then path else path_join (bundle ∷ path ∷ [])

abbrev checked_root : String → Result String
checked_root root =
    if root == "/"
    then err "invalid container root: path is system root"
    else if root == ""
    then err "invalid container root: path is empty"
    else ok root

-- `GetContainerRoot`
unfoldable pub get_container_root : Input → State → Result String
unfolding load_minimal_spec resolved_root
get_container_root input state =
    if state.bundle == ""
    then err "bundle path is empty"
    else load_minimal_spec input state >>= λ spec.
        checked_root (resolved_root state.bundle (root_path spec.root))
