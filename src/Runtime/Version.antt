-- ===== src/Runtime/Version.antt =====
-- Versions of the runtimes, and the probe: internal/runtime/version.go.
use rbln_container_toolkit.Prelude.{
  ℕ, ◌-◌, ◌^◌, ◌<◌, ◌≤◌, ◌≡◌, ◌↔◌, ◌⊎◌, refl, String, Bool, true, false, not, ◌&&◌, Option, none,
  some, List, [], ◌∷◌, nat_beq, leb, ltb, ◌==◌, string_eq, if◌then◌else◌, arith,
}
use rbln_container_toolkit.Prelude.Decimal.{digits}
use rbln_container_toolkit.Prelude.Results.{Result, ok, err}
use Prim.Native.Char.{code}

pub record Version : Type 0 where
  pub major : ℕ
  pub minor : ℕ
  pub patch : ℕ

-- `AtLeast`
unfoldable pub at_least : Version → ℕ → ℕ → Bool
at_least v major minor =
    if not (nat_beq v.major major) then ltb major v.major else leb minor v.minor

abbrev is_digit : ℕ → Bool
is_digit c = leb 48 c && leb c 57

-- The digits at the front of a text, and what is behind them.
unfoldable pub digits_run : String → String × String
digits_run String.[] = ("", "")
digits_run (String.◌∷◌ c s) =
    let more = digits_run s in
    if is_digit (code c) then (String.◌∷◌ c more.0, more.1) else ("", String.◌∷◌ c s)

-- The number that `strconv.Atoi` gives for digits, its error ignored: the greatest for one that
-- is out of range.
unfoldable pub number_of : String → ℕ
unfolding digits
number_of s = elim (digits s) [ none ↦ 0 | some n ↦ if ltb n (2 ^ 63) then n else 2 ^ 63 - 1 ]

-- `\.(\d+)` at the front of a text.
unfoldable pub dot_digits : String → Option (String × String)
unfolding digits_run
dot_digits String.[] = none
dot_digits (String.◌∷◌ c s) =
    if nat_beq (code c) b'.'
    then (if (digits_run s).0 == "" then none else some (digits_run s))
    else none

-- The version that `versionPattern` finds at the front of a text.
unfoldable pub version_here : String → Option Version
unfolding digits_run dot_digits number_of
version_here s =
    let first = digits_run s in
    if first.0 == "" then none else elim (dot_digits first.1) [
      | none ↦ none
      | some (minor, rest) ↦ some record {
        major = number_of first.0;
        minor = number_of minor;
        patch = elim (dot_digits rest) [ none ↦ 0 | some (patch, others) ↦ number_of patch ];
      }
    ]

-- `parseVersion`: the leftmost version.
unfoldable pub parse_version : String → Option Version
unfolding version_here
parse_version String.[] = none
parse_version (String.◌∷◌ c s) = elim (version_here (String.◌∷◌ c s)) [
  | some v ↦ some v
  | none ↦ parse_version s
]

-- `versionArgs`
unfoldable pub version_args : String → Option (String × List String)
version_args runtime =
    if runtime == "containerd"
    then some ("containerd", "--version" ∷ [])
    else if runtime == "docker"
    then some ("dockerd", "--version" ∷ [])
    else none

-- What `commandRunner` is given.
unfoldable pub version_command : String → String × List String → String × List String
version_command host_root (name, args) =
    if not (host_root == "") && not (host_root == "/")
    then ("chroot", host_root ∷ name ∷ args)
    else (name, args)

-- `DetectVersion`; `runs` is `commandRunner`, the output of a command or its error.
unfoldable pub detect_version :
    (String × List String → Result String) → String → String → Option Version
unfolding version_args version_command parse_version
detect_version runs runtime host_root = elim (version_args runtime) [
  | none ↦ none
  | some argv ↦ elim (runs (version_command host_root argv)) [
    | err e ↦ none
    | ok banner ↦ parse_version banner
  ]
]

parse_version_examples :
    (parse_version "containerd github.com v2.0.1 abc"
      ≡ some record { major = 2; minor = 0; patch = 1 })
    × (parse_version "Docker version 28.2, build 3"
        ≡ some record { major = 28; minor = 2; patch = 0 })
    × (parse_version "1.x" ≡ none)
unfolding parse_version
parse_version_examples = (refl, refl, refl)

-- `AtLeast` compares the pairs of major and minor number.
pub at_least_iff :
    (v : Version) (major minor : ℕ)
    → (at_least v major minor ≡ true)
      ↔ ((major < v.major) ⊎ ((v.major ≡ major) × (minor ≤ v.minor)))
unfolding at_least
at_least_iff v major minor = ground arith

-- A version that is at least another's numbers is at least all that the other is.
pub at_least_trans :
    (v w : Version) (major minor : ℕ)
    → at_least v w.major w.minor ≡ true
    → at_least w major minor ≡ true
    → at_least v major minor ≡ true
unfolding at_least
at_least_trans v w major minor h k = ground arith

-- Only containerd and Docker are asked for a version.
pub detect_version-others :
    (runs : String × List String → Result String) (runtime host_root : String)
    → (runtime == "containerd") ≡ false
    → (runtime == "docker") ≡ false
    → detect_version runs runtime host_root ≡ none
unfolding detect_version
detect_version-others runs runtime host_root h k = rw (detect_version, version_args, h, k) refl
