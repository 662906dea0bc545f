-- ===== src/Runtime/SpecDir.antt =====
-- The directory that CDI specs are written to, and the search for it in a runtime's list:
-- `containsCleanPath` of internal/runtime/containerd_config.go.
use rbln_container_toolkit.Prelude.{
  String, ◌≡◌, refl, Bool, true, false, ◌||◌, List, [], ◌∷◌, ◌++◌, ◌==◌, string_eq, arith,
}
use rbln_container_toolkit.Prelude.Texts.{clean}

-- `defaultCDISpecDir`
abbrev pub default_cdi_spec_dir : String
default_cdi_spec_dir = "/var/run/cdi"

-- `containsCleanPath`
unfoldable pub contains_clean_path : List String → String → Bool
unfolding clean
contains_clean_path [] target = false
contains_clean_path (d ∷ dirs) target = clean d == target || contains_clean_path dirs target

contains_clean_path-default :
    contains_clean_path (default_cdi_spec_dir ∷ []) default_cdi_spec_dir ≡ true
unfolding contains_clean_path
contains_clean_path-default = refl

pub contains_clean_path-append :
    (us vs : List String) (target : String)
    → contains_clean_path (us ++ vs) target
      ≡ (contains_clean_path us target || contains_clean_path vs target)
unfolding contains_clean_path
contains_clean_path-append [] vs target = refl
contains_clean_path-append (u ∷ us) vs target =
    ground (arith, contains_clean_path-append us vs target)

-- A list to which the directory was added has it.
pub contains_clean_path-added :
    (dirs : List String)
    → contains_clean_path (dirs ++ (default_cdi_spec_dir ∷ [])) default_cdi_spec_dir ≡ true
contains_clean_path-added dirs = ground (
  arith,
  contains_clean_path-append dirs (default_cdi_spec_dir ∷ []) default_cdi_spec_dir,
  contains_clean_path-default,
)
