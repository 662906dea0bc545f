-- ===== src/Discover/Distribution.antt =====
-- internal/discover/paths.go: the distribution that /etc/os-release names, its default
-- directories, and SELinux.
use rbln_container_toolkit.Prelude.{
  String, ◌<>◌, ◌≡◌, refl, Bool, true, false, ◌||◌, Option, none, some, List, [], ◌∷◌, nat_beq,
  if◌then◌else◌, ◌==◌, string_eq,
}
use rbln_container_toolkit.Prelude.Texts.{split, join, has_prefix, contains_text}
use rbln_container_toolkit.Prelude.Spaces.{trim_by, trim_space}
use rbln_container_toolkit.Prelude.Dict.{Dict, insert, lookup}

pub data OsType : Type 0 where
  ubuntu rhel coreos unknown : OsType

abbrev pub is_debian : OsType → Bool
is_debian OsType.ubuntu = true
is_debian _ = false

abbrev pub is_rhel : OsType → Bool
is_rhel OsType.rhel = true
is_rhel OsType.coreos = true
is_rhel _ = false

-- A missing key reads as "".
unfoldable pub value_of : String → Dict String → String
unfolding lookup
value_of key entries = elim (lookup key entries) [ none ↦ "" | some value ↦ value ]

-- `strings.SplitN(line, "=", 2)` with two parts, trimmed; the last line with a key counts.
unfoldable pub add_parts : List String → Dict String → Dict String
unfolding trim_by trim_space join insert
add_parts [] entries = entries
add_parts (key ∷ []) entries = entries
add_parts (key ∷ (first ∷ others)) entries =
    insert (trim_space key) (trim_by (nat_beq b'"') (trim_space (join "=" (first ∷ others))))
      entries

unfoldable pub add_line : String → Dict String → Dict String
unfolding trim_space has_prefix split add_parts
add_line untrimmed entries =
    let line = trim_space untrimmed in
    if line == "" || has_prefix line "#" then entries else add_parts (split b'=' line) entries

unfoldable pub add_lines : List String → Dict String → Dict String
unfolding add_line
add_lines [] entries = entries
add_lines (line ∷ lines) entries = add_lines lines (add_line line entries)

-- `lower` is `strings.ToLower`.
unfoldable pub os_named : (String → String) → Dict String → OsType
unfolding value_of contains_text
os_named lower entries =
    let id = lower (value_of "ID" entries) in
    let id_like = lower (value_of "ID_LIKE" entries) in
    if id == "ubuntu"
    then OsType.ubuntu
    else if id == "rhel"
    then OsType.rhel
    else if id == "rhcos" || contains_text (lower (value_of "NAME" entries)) "coreos"
    then OsType.coreos
    else if contains_text id_like "debian" || contains_text id_like "ubuntu"
    then OsType.ubuntu
    else if contains_text id_like "rhel"
        || contains_text id_like "fedora"
        || contains_text id_like "centos"
    then OsType.rhel
    else OsType.unknown

unfoldable pub parse_os_release : (String → String) → String → OsType
unfolding split add_lines os_named
parse_os_release lower content = os_named lower (add_lines (split b'\n' content) [])

-- `none` is a file that is not read.
unfoldable pub detect_os : (String → String) → Option String → OsType
unfolding parse_os_release
detect_os lower none = OsType.unknown
detect_os lower (some content) = parse_os_release lower content

unfoldable pub library_path_for_arch : OsType → String → String
library_path_for_arch os_type arch =
    if is_debian os_type
    then (if arch == "amd64"
        then "/usr/lib/x86_64-linux-gnu"
        else if arch == "arm64"
        then "/usr/lib/aarch64-linux-gnu"
        else if arch == "386"
        then "/usr/lib/i386-linux-gnu"
        else "/usr/lib")
    else if arch == "amd64"
    then "/usr/lib64"
    else if arch == "arm64"
    then "/usr/lib64"
    else "/usr/lib"

-- `arch` is GOARCH.
unfoldable pub default_library_paths : OsType → String → List String
unfolding library_path_for_arch
default_library_paths os_type arch =
    if is_debian os_type
    then library_path_for_arch os_type arch ∷ "/usr/local/lib" ∷ "/usr/lib" ∷ []
    else "/usr/lib64" ∷ "/usr/local/lib64" ∷ "/usr/lib" ∷ "/usr/local/lib" ∷ []

abbrev pub default_binary_paths : OsType → List String
default_binary_paths os_type = "/usr/bin" ∷ "/usr/local/bin" ∷ "/usr/sbin" ∷ "/usr/local/sbin" ∷ []

unfoldable pub default_plugin_paths : OsType → String → List String
unfolding library_path_for_arch
default_plugin_paths os_type arch =
    if is_debian os_type
    then (library_path_for_arch os_type arch <> "/libibverbs") ∷ []
    else "/usr/lib64/libibverbs" ∷ []

-- Whether /sys/fs/selinux is there, and what `enforce` in it reads as.
unfoldable pub is_selinux_enabled : Bool → Option String → Bool
unfolding trim_space
is_selinux_enabled false enforce = false
is_selinux_enabled true none = false
is_selinux_enabled true (some content) = trim_space content == "1"

abbrev pub is_selinux_enabled_by_default : OsType → Bool
is_selinux_enabled_by_default = is_rhel

-- A comment, a quoted value and a key given twice.
parse_os_release_examples :
    (parse_os_release (λ t. t) "# ID=rhel\nID=\"debian\"\nID_LIKE = debian\n" ≡ OsType.ubuntu)
    × (parse_os_release (λ t. t) "ID=rhel\nID=rhcos\n" ≡ OsType.coreos)
    × (parse_os_release (λ t. t) "ID\n" ≡ OsType.unknown)
unfolding parse_os_release
parse_os_release_examples = (refl, refl, refl)
