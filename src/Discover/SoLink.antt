-- ===== src/Discover/SoLink.antt =====
-- internal/discover/soname.go: the unversioned name of a shared library.
use Prim.Native.Char.{code}
use rbln_container_toolkit.Prelude.{
  ℕ, zero, suc, String, ◌≡◌, refl, Bool, false, ◌&&◌, ◌||◌, not, Option, none, some, nat_beq, ◌==◌,
  string_eq, if◌then◌else◌,
}

-- The number of characters.
abbrev pub size : String → ℕ
size String.[] = 0
size (String.◌∷◌ c s) = suc (size s)

has_slash : String → Bool
has_slash String.[] = false
has_slash (String.◌∷◌ c s) = nat_beq (code c) b'/' || has_slash s

-- A name taken apart in front of the last dot of its last path element: `filepath.Ext` is the
-- second part, and `strings.TrimSuffix(name, ext)` the first.
unfoldable pub cut_ext : String → Option (String × String)
unfolding has_slash
cut_ext String.[] = none
cut_ext (String.◌∷◌ c s) = elim (cut_ext s) [
  | some (stem, ext) ↦ some (String.◌∷◌ c stem, ext)
  | none ↦ if nat_beq (code c) b'.' && not (has_slash s) then some ("", String.◌∷◌ c s) else none
]

-- `GetSoLink`, with a bound on the depth of its recursion.
unfoldable pub so_link_fuel : ℕ → String → String
unfolding cut_ext
so_link_fuel zero soname = ""
so_link_fuel (suc f) soname = elim (cut_ext soname) [
  | none ↦ ""
  | some (stem, ext) ↦ let shorter = so_link_fuel f stem in if ext == ".so" then soname else shorter
]

-- Each call is on a shorter name, so the length of the name bounds the depth.
unfoldable pub get_so_link : String → String
unfolding so_link_fuel
get_so_link soname = so_link_fuel (suc (size soname)) soname

so_link_examples :
    (get_so_link "librbln-ccl.so.3.0.0" ≡ "librbln-ccl.so")
    × (get_so_link "libfoo" ≡ "")
    × (get_so_link "libfoo.so" ≡ "libfoo.so")
unfolding get_so_link
so_link_examples = (refl, refl, refl)
