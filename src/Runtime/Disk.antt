-- ===== src/Runtime/Disk.antt =====
-- The files that internal/runtime reads and writes, and the answers of the system calls that it
-- makes. `files` holds the content of each file by its path, `folders` the directories; the other
-- fields are the errors that a call on a path meets. A call that fails changes nothing, but for a write:
-- `left_part` is what it leaves in a file that it has opened and cut, `none` where it was not opened.
pub mod Calls
use rbln_container_toolkit.Prelude.{
  String, ◌<>◌, ◌≡◌, refl, Bool, true, false, Option, none, some, List, [], ◌∷◌, ◌==◌, string_eq,
  if◌then◌else◌, contains, arith, eq_iff,
}
use rbln_container_toolkit.Prelude.Texts.{dir, base}
use rbln_container_toolkit.Prelude.Dict.{Dict, lookup, insert, erase, lookup-insert, lookup-erase}

pub record Disk : Type 0 where
  pub files : Dict String
  pub folders : List String
  pub stat_error : String → Option String
  pub read_error : String → Option String
  pub write_error : String → Option String
  pub left_part : String → Option String
  pub remove_error : String → Option String
  pub mkdir_error : String → Option String
  pub read_dir_error : String → Option String

-- No call meets an error.
abbrev pub healthy : Dict String → List String → Disk
healthy files folders = record {
  files = files;
  folders = folders;
  stat_error = λ p. none;
  read_error = λ p. none;
  write_error = λ p. none;
  left_part = λ p. none;
  remove_error = λ p. none;
  mkdir_error = λ p. none;
  read_dir_error = λ p. none;
}

-- What `os.Stat` finds; `missing` is what `os.IsNotExist` recognises.
pub data Found : Type 0 where
  missing : Found
  file : Found
  folder : Found
  denied : String → Found

unfoldable pub stat : Disk → String → Found
unfolding lookup
stat d p = elim (d.stat_error p) [
  | some e ↦ denied e
  | none ↦ elim (lookup p d.files) [
    | some c ↦ file
    | none ↦ if contains d.folders p then folder else missing
  ]
]

-- What `os.ReadFile` returns.
pub data Read : Type 0 where
  absent : Read
  failed : String → Read
  content : String → Read

unfoldable pub read : Disk → String → Read
unfolding lookup
read d p = elim (d.read_error p) [
  | some e ↦ failed e
  | none ↦ elim (lookup p d.files) [
    | some c ↦ content c
    | none ↦ if contains d.folders p then failed "is a directory" else absent
  ]
]

-- The disk after a call or a function, and its error.
pub record Ended : Type 0 where
  pub disk : Disk
  pub error : Option String

abbrev pub ended : Disk → Option String → Ended
ended d e = record { disk = d; error = e }

-- The disk that a failed write leaves.
abbrev pub cut_short : Disk → String → Option String → Disk
cut_short d p none = d
cut_short d p (some part) = record d { files = insert p part d.files }

-- `os.WriteFile`
unfoldable pub write : Disk → String → String → Ended
unfolding insert
write d p c = elim (d.write_error p) [
  | some e ↦ ended (cut_short d p (d.left_part p)) (some e)
  | none ↦ ended (record d { files = insert p c d.files }) none
]

-- `os.Remove`, where a path that is not there gives no error, as its callers read it.
unfoldable pub remove : Disk → String → Ended
unfolding erase
remove d p = elim (d.remove_error p) [
  | some e ↦ ended d (some e)
  | none ↦ ended (record d { files = erase p d.files }) none
]

-- `os.MkdirAll`; nothing reads the directories above the last.
unfoldable pub mkdir_all : Disk → String → Ended
mkdir_all d p = elim (d.mkdir_error p) [
  | some e ↦ ended d (some e)
  | none ↦ ended (if contains d.folders p then d else record d { folders = p ∷ d.folders }) none
]

-- The paths of the files in a directory.
unfoldable pub files_in : String → Dict String → List String
unfolding dir
files_in p [] = []
files_in p ((k, c) ∷ files) = let rest = files_in p files in if dir k == p then k ∷ rest else rest

-- Runs the next part of a function unless the last has failed; an error is reported behind a text.
abbrev pub then_on : Ended → String → (Disk → Ended) → Ended
then_on done what next = elim (done.error) [
  | some e ↦ ended done.disk (some (what <> e))
  | none ↦ next done.disk
]
