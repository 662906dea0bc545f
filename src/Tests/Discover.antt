-- ===== src/Tests/Discover.antt =====
-- The theorems about internal/discover at concrete inputs.
mod Elf
use rbln_container_toolkit.Prelude.{
  ℕ, String, ◌≡◌, ◌≢◌, refl, false, ◌&&◌, none, some, List, [], ◌∷◌, contains, Distinct, All, ◌==◌,
  string_eq, if◌then◌else◌, arith,
}
use rbln_container_toolkit.Prelude.Int.{pos}
use rbln_container_toolkit.Prelude.Dict.{lookup}
use rbln_container_toolkit.Daemon.Watcher.Diff.{IsSnapshot}
use rbln_container_toolkit.Prelude.Texts.{path_join}
use rbln_container_toolkit.Prelude.Sorting.{IsOrdered}
use rbln_container_toolkit.Config.{Config, default_config}
use rbln_container_toolkit.Discover.{Library, LibraryType, Device}
use rbln_container_toolkit.Discover.HostFiles.{HostFiles, Mode}
use rbln_container_toolkit.Discover.Libraries.{
  is_glibc, paths_of, dependency_candidates, discover_dependencies,
}
use rbln_container_toolkit.Discover.Libraries.Dependencies.{
  library_paths, is_kept, discover_dependencies-listed,
}
use rbln_container_toolkit.Discover.Nodes.{by_path, device_root, discover_devices}
use rbln_container_toolkit.Discover.Nodes.Listing.{device_paths, is_listed, discover_devices-listed}
use rbln_container_toolkit.Discover.BuildId.{
  little_endian, big_endian, parse_build_id_note, panicked, out_of_fuel,
}
use rbln_container_toolkit.Discover.BuildId.Safety.{parse_build_id_note-total}
use rbln_container_toolkit.Discover.BuildId.Encoding.{Note, Fits}
use rbln_container_toolkit.Discover.BuildId.RoundTrip.{
  encode_all, first_build_id, parse_build_id_note-encode,
}
use rbln_container_toolkit.Discover.Fingerprint.{
  Files, found, missing, library_fingerprint, probe_rbln_libraries,
}
use rbln_container_toolkit.Discover.Fingerprint.Snapshot.{
  answer, resolutions, all_matches, probe_rbln_libraries-IsSnapshot,
}

-- A header that asks for more bytes than there are.
abbrev hostile : List ℕ
hostile = 255 ∷ 255 ∷ 255 ∷ 255 ∷ 4 ∷ 0 ∷ 0 ∷ 0 ∷ 3 ∷ 0 ∷ 0 ∷ 0 ∷ 71 ∷ []

parse_build_id_note-total_example :
    (parse_build_id_note little_endian hostile ≢ panicked)
    × (parse_build_id_note little_endian hostile ≢ out_of_fuel)
parse_build_id_note-total_example = parse_build_id_note-total little_endian hostile

-- An ABI note, and a build-id note.
abbrev abi_note : Note
abi_note = record { kind = 1; owner = 71 ∷ 78 ∷ 85 ∷ 0 ∷ []; desc = 0 ∷ 0 ∷ 0 ∷ 0 ∷ [] }

abbrev id_note : Note
id_note = record { kind = 3; owner = 71 ∷ 78 ∷ 85 ∷ 0 ∷ []; desc = 222 ∷ 173 ∷ 190 ∷ [] }

abi_note-Fits : Fits abi_note
abi_note-Fits = record {
  kind_fits = omega arith;
  owner_fits = omega arith;
  desc_fits = omega arith;
}

id_note-Fits : Fits id_note
id_note-Fits = record { kind_fits = omega arith; owner_fits = omega arith; desc_fits = omega arith }

parse_build_id_note-encode_example :
    parse_build_id_note big_endian (encode_all big_endian (abi_note ∷ id_note ∷ []) (0 ∷ []))
    ≡ first_build_id (abi_note ∷ id_note ∷ [])
parse_build_id_note-encode_example =
    parse_build_id_note-encode big_endian (abi_note ∷ id_note ∷ []) (0 ∷ [])
      (abi_note-Fits, (id_note-Fits, tt)) (omega arith)

-- Two links to one library, and a dangling one.
abbrev some_files : Files
some_files = record {
  glob = λ pattern.
      "/usr/lib64/librbln-ccl.so" ∷ "/usr/lib64/librbln-ccl.so.3" ∷ "/usr/lib64/librbln-ccl.so.2"
      ∷ [];
  eval_symlinks = λ m.
      if m == "/usr/lib64/librbln-ccl.so.2"
      then missing
      else found "/usr/lib64/librbln-ccl.so.3.0.0";
  note = λ path. none;
  stat = λ path. found (record { size = 1024; mtime = pos 7 });
}

probe_rbln_libraries-IsSnapshot_example :
    IsSnapshot (probe_rbln_libraries some_files ("/usr/lib64" ∷ [])).fingerprints
    × ((p : String)
        → lookup p (probe_rbln_libraries some_files ("/usr/lib64" ∷ [])).fingerprints ≡ (
            if contains (resolutions some_files (all_matches some_files ("/usr/lib64" ∷ []))) p
            then answer (library_fingerprint some_files p)
            else none))
probe_rbln_libraries-IsSnapshot_example =
    probe_rbln_libraries-IsSnapshot some_files ("/usr/lib64" ∷ [])

-- A host with two patterns for one device, and a library that needs one of glibc and one of its own twice.
abbrev some_host : HostFiles
some_host = record {
  glob = λ pattern.
      if pattern == "/host/dev/rbln*"
      then some ("/host/dev/rbln1" ∷ "/host/dev/rbln0" ∷ [])
      else some ("/host/dev/rbln0" ∷ "/host/dev/rsd" ∷ []);
  lstat =
      λ path. if path == "/host/dev/rsd" then some Mode.directory else some (Mode.special false);
  stat = λ path. none;
  eval_symlinks = λ path. none;
  read_dir = λ path. none;
  dependencies =
      λ path. some ("/lib64/libc.so.6" ∷ "/usr/lib64/libz.so" ∷ "/usr/lib64/libz.so" ∷ []);
  matches_name = λ pattern name. pattern == "libc.so*" && name == "libc.so.6";
}

abbrev below_host : Config
below_host = record default_config { host_root = "/host" }

abbrev ml_library : Library
ml_library = record {
  name = "librbln-ml.so";
  path = "/usr/lib64/librbln-ml.so";
  container_path = "/usr/lib64/librbln-ml.so";
  real_path = "";
  kind = LibraryType.rbln;
}

discover_dependencies-listed_example :
    ((path : String)
      → contains (library_paths (discover_dependencies some_host below_host (ml_library ∷ []))) path
        ≡ (if contains (paths_of (ml_library ∷ [])) path
            then false
            else is_kept
                (lookup path (dependency_candidates some_host below_host (ml_library ∷ [])))))
    × Distinct (library_paths (discover_dependencies some_host below_host (ml_library ∷ [])))
    × All
        (λ library. is_glibc some_host below_host library.name ≡ false)
        (discover_dependencies some_host below_host (ml_library ∷ []))
discover_dependencies-listed_example =
    discover_dependencies-listed some_host below_host (ml_library ∷ [])

discover_devices-listed_example :
    (devices : List Device) × (discover_devices some_host below_host ≡ some devices)
    × IsOrdered by_path devices
    × Distinct (device_paths devices)
    × All (λ d. d.container_path ≡ d.path) devices
    × ((path : String)
        → contains (device_paths devices) path
          ≡ is_listed some_host below_host path below_host.devices.patterns)
unfolding path_join device_root
discover_devices-listed_example = discover_devices-listed some_host below_host refl

two_devices :
    discover_devices some_host below_host
    ≡ some (
        record { path = "/dev/rbln0"; container_path = "/dev/rbln0" }
        ∷ record { path = "/dev/rbln1"; container_path = "/dev/rbln1" }
        ∷ [])
unfolding discover_devices
two_devices = refl
