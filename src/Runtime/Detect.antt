-- ===== src/Runtime/Detect.antt =====
-- Which container runtime is installed: `DetectRuntimeWithOptions` of internal/runtime/configure.go,
-- and internal/runtime/detect.go.
use rbln_container_toolkit.Prelude.{
  String, ◌<>◌, ◌≡◌, ◌↔◌, Bool, true, false, not, ◌&&◌, Option, none, some, List, [], ◌∷◌, ◌++◌,
  ◌==◌, string_eq, if◌then◌else◌, arith, eq_iff,
}
use rbln_container_toolkit.Prelude.Texts.{join}
use rbln_container_toolkit.Prelude.Results.{Result, ok, err}
use rbln_container_toolkit.Runtime.Disk.{Disk, Found, stat, missing, file, folder, denied}

abbrev pub runtime_containerd : String
runtime_containerd = "containerd"

abbrev pub runtime_crio : String
runtime_crio = "crio"

abbrev pub runtime_docker : String
runtime_docker = "docker"

-- `errors.ErrRuntimeNotFound`
abbrev pub runtime_not_found : String
runtime_not_found = "runtime not found"

-- `DetectStrictOptions`; the fields but the last are those of `DetectOptions`.
pub record DetectOptions : Type 0 where
  pub containerd_socket : String
  pub crio_socket : String
  pub docker_socket : String
  pub explicit_runtime : String

-- What nil options stand for, in both functions.
abbrev pub default_detect_options : DetectOptions
default_detect_options = record {
  containerd_socket = "/run/containerd/containerd.sock";
  crio_socket = "/var/run/crio/crio.sock";
  docker_socket = "/var/run/docker.sock";
  explicit_runtime = "";
}

abbrev pub or_default : Option DetectOptions → DetectOptions
or_default none = default_detect_options
or_default (some o) = o

-- `os.Stat` gives no error.
abbrev pub is_there : Found → Bool
is_there file = true
is_there folder = true
is_there missing = false
is_there (denied e) = false

-- A socket that is asked for and is there.
unfoldable pub has_socket : Disk → String → Bool
has_socket d socket = not (socket == "") && is_there (stat d socket)

-- `DetectRuntimeWithOptions`: the first in the order containerd, CRI-O, Docker.
unfoldable pub detect_runtime_with_options : Disk → Option DetectOptions → Result String
unfolding has_socket
detect_runtime_with_options d opts =
    let o = or_default opts in
    if has_socket d o.containerd_socket
    then ok runtime_containerd
    else if has_socket d o.crio_socket
    then ok runtime_crio
    else if has_socket d o.docker_socket
    then ok runtime_docker
    else err runtime_not_found

-- The runtimes whose socket is there.
unfoldable pub detected : Disk → DetectOptions → List String
unfolding has_socket
detected d o =
    (if has_socket d o.containerd_socket then runtime_containerd ∷ [] else [])
    ++ ((if has_socket d o.crio_socket then runtime_crio ∷ [] else [])
        ++ (if has_socket d o.docker_socket then runtime_docker ∷ [] else []))

unfoldable pub single : List String → Result String
unfolding join
single [] = err "no container runtime detected"
single (r ∷ []) = ok r
single (r ∷ (q ∷ rs)) = err (
    "multiple runtimes detected: ["
    <> (join ", " (r ∷ (q ∷ rs)) <> "]. Use --runtime flag to specify which one to use"))

-- `DetectRuntimeStrict`
unfoldable pub detect_runtime_strict : Disk → Option DetectOptions → Result String
unfolding detected single
detect_runtime_strict d opts =
    let o = or_default opts in
    if not (o.explicit_runtime == "") then ok o.explicit_runtime else single (detected d o)

-- The first of the runtimes that are there.
abbrev pub first_of : List String → Result String
first_of [] = err runtime_not_found
first_of (r ∷ rs) = ok r

-- With no runtime given, strict detection succeeds with a runtime exactly where that is the only one
-- whose socket is there, and detection by priority gives the first of those that are there, in the
-- order containerd, CRI-O, Docker; so it agrees with strict detection wherever that succeeds.
pub detect_runtime_strict-with_options :
    (d : Disk) (o : DetectOptions) (r : String)
    → o.explicit_runtime ≡ ""
    → ((detect_runtime_strict d (some o) ≡ ok r) ↔ (detected d o ≡ r ∷ []))
      × (detect_runtime_with_options d (some o) ≡ first_of (detected d o))
unfolding detect_runtime_strict detect_runtime_with_options
detect_runtime_strict-with_options d o r h =
    (ground (arith, eq_iff o.explicit_runtime ""), ground (arith, eq_iff o.explicit_runtime ""))
