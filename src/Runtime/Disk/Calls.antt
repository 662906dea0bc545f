-- ===== src/Runtime/Disk/Calls.antt =====
-- What an answer of a system call says of the disk, and what a call that succeeds leaves.
use rbln_container_toolkit.Prelude.{
  String, ◌<>◌, ◌≡◌, ◌↔◌, refl, inl, inr, true, false, none, some, contains, Option-cases,
  Bool-cases, string_eq, arith,
}
use rbln_container_toolkit.Prelude.Dict.{lookup, insert, erase}
use rbln_container_toolkit.Runtime.Disk.{
  Disk, missing, file, stat, absent, content, read, Ended, write, remove, mkdir_all, then_on,
}

-- A part of a function that succeeded was reached, and all went on from it.
pub then_on-done :
    (done : Ended) (what : String) (next : Disk → Ended)
    → (then_on done what next).error ≡ none
    → (done.error ≡ none) × (then_on done what next ≡ next done.disk)
then_on-done done what next h = elim (Option-cases done.error) [
  | inl fine ↦ (fine, rw fine refl)
  | inr (e, bad) ↦ (let wrong : some (what <> e) ≡ none = rw bad at h in ground arith)
]

pub read-content_iff :
    (d : Disk) (p c : String)
    → (read d p ≡ content c) ↔ ((d.read_error p ≡ none) × (lookup p d.files ≡ some c))
unfolding read
read-content_iff d p c = ground arith

pub read-absent :
    (d : Disk) (p : String)
    → read d p ≡ absent
    → (d.read_error p ≡ none) × (lookup p d.files ≡ none) × (contains d.folders p ≡ false)
unfolding read
read-absent d p h = ground arith

pub stat-file :
    (d : Disk) (p : String) {c : String}
    → d.stat_error p ≡ none
    → lookup p d.files ≡ some c
    → stat d p ≡ file
unfolding stat
stat-file d p h k = rw (stat, h, k) refl

pub stat-missing : (d : Disk) (p : String) → stat d p ≡ missing → lookup p d.files ≡ none
unfolding stat
stat-missing d p h = ground arith

pub write-done :
    (d : Disk) (p c : String)
    → (write d p c).error ≡ none
    → (d.write_error p ≡ none) × ((write d p c).disk ≡ record d { files = insert p c d.files })
unfolding write
write-done d p c h = elim (Option-cases (d.write_error p)) [
  | inl fine ↦ (fine, rw (write, fine) refl)
  | inr (e, bad) ↦ (let wrong : some e ≡ none = rw (write, bad) at h in ground arith)
]

pub mkdir_all-done :
    (d : Disk) (p : String)
    → (mkdir_all d p).error ≡ none
    → (mkdir_all d p).disk ≡ record d { folders = (mkdir_all d p).disk.folders }
unfolding mkdir_all
mkdir_all-done d p h = elim (Option-cases (d.mkdir_error p)) [
  | inl fine ↦ elim (Bool-cases (contains d.folders p)) [
    | inl old ↦ rw (mkdir_all, fine, old) refl
    | inr new ↦ rw (mkdir_all, fine, new) refl
  ]
  | inr (e, bad) ↦ rw (mkdir_all, bad) refl
]

pub remove-done :
    (d : Disk) (p : String)
    → (remove d p).error ≡ none
    → (remove d p).disk ≡ record d { files = erase p d.files }
unfolding remove
remove-done d p h = elim (Option-cases (d.remove_error p)) [
  | inl fine ↦ rw (remove, fine) refl
  | inr (e, bad) ↦ (let wrong : some e ≡ none = rw (remove, bad) at h in ground arith)
]

-- A directory that is there is not made again.
pub mkdir_all-old :
    (d : Disk) (p : String) → contains d.folders p ≡ true → (mkdir_all d p).disk.folders ≡ d.folders
unfolding mkdir_all
mkdir_all-old d p old = ground arith
