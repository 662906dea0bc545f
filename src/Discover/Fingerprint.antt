-- ===== src/Discover/Fingerprint.antt =====
-- internal/discover/umdfingerprint.go: the fingerprints of the driver's libraries.
-- The file system is a `Files`: what `filepath.Glob`, `filepath.EvalSymlinks`, the ELF reader and
-- `os.Stat` answer. The two patterns are well formed, so `Glob` gives no error.
pub mod Snapshot
use rbln_container_toolkit.Prelude.{
  ℕ, suc, ◌/◌, ◌%◌, String, ◌<>◌, decimal, Bool, true, false, Option, none, some, List, [], ◌∷◌,
  ◌++◌, contains, ltb, ◌==◌, nat_eq, string_eq, if◌then◌else◌,
}
use rbln_container_toolkit.Prelude.Int.{ℤ, pos, negsuc}
use rbln_container_toolkit.Prelude.Texts.{path_join}
use rbln_container_toolkit.Prelude.Dict.{Dict, insert}
use rbln_container_toolkit.Discover.BuildId.{
  ByteOrder, Parsed, build_id, panicked, no_build_id, out_of_fuel, parse_build_id_note,
}

-- What a call that may fail answers; an error that is `fs.ErrNotExist` is `missing`.
pub data Answer (A : Type 0) : Type 0 where
  found : A → Answer A
  missing : Answer A
  failed : String → Answer A

pub record FileInfo : Type 0 where
  pub size : ℕ
  pub mtime : ℤ

-- `note` is the data of the section `.note.gnu.build-id` and the file's byte order, or `none` where
-- the file is not ELF, or the section is missing, compressed, oversized or unreadable.
pub record Files : Type 0 where
  pub glob : String → List String
  pub eval_symlinks : String → Answer String
  pub note : String → Option (ByteOrder × List ℕ)
  pub stat : String → Answer FileInfo

-- `rblnLibraryGlobs`
abbrev pub rbln_library_globs : List String
rbln_library_globs = "librbln-ccl.so*" ∷ "librbln-thunk.so*" ∷ []

unfoldable pub hex_digit : ℕ → String
hex_digit n =
    if ltb n 10
    then decimal n
    else if n == 10
    then "a"
    else if n == 11
    then "b"
    else if n == 12
    then "c"
    else if n == 13
    then "d"
    else if n == 14
    then "e"
    else "f"

-- `hex.EncodeToString`
unfoldable pub hex_encode : List ℕ → String
hex_encode [] = ""
hex_encode (b ∷ bytes) = hex_digit (b / 16) <> (hex_digit (b % 16) <> hex_encode bytes)

-- `%d` of an `int64`
abbrev pub decimal_ℤ : ℤ → String
decimal_ℤ (pos n) = decimal n
decimal_ℤ (negsuc n) = "-" <> decimal (suc n)

-- The build id in hex, of what the parser returned.
unfoldable pub hex_of : Parsed → Option String
hex_of (build_id desc) = some (hex_encode desc)
hex_of _ = none

-- `readELFBuildID`
unfoldable pub read_elf_build_id : Files → String → Option String
read_elf_build_id files path = elim (files.note path) [
  | none ↦ none
  | some (bo, bytes) ↦ hex_of (parse_build_id_note bo bytes)
]

unfoldable pub size_and_mtime : Answer FileInfo → Answer String
size_and_mtime (found fi) =
    found ("size:" <> (decimal fi.size <> (",mtime:" <> decimal_ℤ fi.mtime)))
size_and_mtime missing = missing
size_and_mtime (failed e) = failed e

-- `libraryFingerprint`
unfoldable pub library_fingerprint : Files → String → Answer String
library_fingerprint files path = elim (read_elf_build_id files path) [
  | none ↦ size_and_mtime (files.stat path)
  | some id ↦ if id == "" then size_and_mtime (files.stat path) else found ("build-id:" <> id)
]

-- The maps of `ProbeRBLNLibraries`.
pub record Probe : Type 0 where
  pub fingerprints : Dict String
  pub errs : Dict String
  pub seen : List String

-- The end of the loop's body, for a file that was not seen before.
unfoldable pub add_fingerprint : String → Answer String → Probe → Probe
add_fingerprint path (found fp) s = record s { fingerprints = insert path fp s.fingerprints }
add_fingerprint path missing s = s
add_fingerprint path (failed e) s = record s { errs = insert path e s.errs }

-- The body of the loop over the matches.
unfoldable pub visit : Files → String → Answer String → Probe → Probe
visit files m missing s = s
visit files m (failed e) s = record s { errs = insert m e s.errs }
visit files m (found path) s =
    if contains s.seen path
    then s
    else add_fingerprint path (library_fingerprint files path) (record s { seen = path ∷ s.seen })

unfoldable pub visit_all : Files → List String → Probe → Probe
visit_all files [] s = s
visit_all files (m ∷ ms) s = visit_all files ms (visit files m (files.eval_symlinks m) s)

-- The matches of the patterns in one directory.
unfoldable pub matches_in : Files → String → List String → List String
unfolding path_join
matches_in files dir [] = []
matches_in files dir (pat ∷ pats) =
    files.glob (path_join (dir ∷ pat ∷ [])) ++ matches_in files dir pats

unfoldable pub scan : Files → List String → Probe → Probe
scan files [] s = s
scan files (dir ∷ dirs) s =
    scan files dirs (visit_all files (matches_in files dir rbln_library_globs) s)

abbrev pub nothing_probed : Probe
nothing_probed = record { fingerprints = []; errs = []; seen = [] }

-- `ProbeRBLNLibraries`
unfoldable pub probe_rbln_libraries : Files → List String → Probe
probe_rbln_libraries files dirs = scan files dirs nothing_probed
