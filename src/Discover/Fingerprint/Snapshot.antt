-- ===== src/Discover/Fingerprint/Snapshot.antt =====
-- What the probe finds, and that it is a snapshot as the watcher needs it.
use mathlib.Core.Option.{some-injective}
use text.Mathlib.TextLemmas.{length-append}
use Prim.Native.String.{count}
use rbln_container_toolkit.Prelude.{
  ◌<◌, String, ◌<>◌, decimal, ◌≡◌, ◌≢◌, refl, ◌∙◌, ap, inl, inr, false, ◌||◌, Option, none, some,
  List, [], ◌∷◌, ◌++◌, contains, contains-append, Bool-cases, ◌==◌, string_eq, eq_iff, arith,
  if◌then◌else◌,
}
use rbln_container_toolkit.Prelude.Dict.{Dict, lookup, insert, lookup-insert, insert-NodupKeys}
use rbln_container_toolkit.Daemon.Watcher.Diff.{IsSnapshot, NoEmpty}
use rbln_container_toolkit.Discover.Fingerprint.{
  Answer, found, missing, failed, Files, Probe, FileInfo, library_fingerprint, size_and_mtime,
  read_elf_build_id, add_fingerprint, visit, visit_all, matches_in, scan, nothing_probed,
  probe_rbln_libraries, rbln_library_globs, decimal_ℤ,
}

-- A text behind one that is not empty is not empty.
prefix_given : (p t : String) → 0 < count p → (p <> t) ≢ ""
prefix_given p t h e =
    let none_left : count (p <> t) ≡ 0 = ap count e in
    ground (arith, length-append p t, none_left, h)

build_id_given : (id : String) → ("build-id:" <> id) ≢ ""
build_id_given id = prefix_given "build-id:" id (omega arith)

abbrev pub answer : Answer String → Option String
answer (found t) = some t
answer missing = none
answer (failed e) = none

size_given : (a : Answer FileInfo) → answer (size_and_mtime a) ≢ some ""
unfolding size_and_mtime
size_given (found fi) e =
    prefix_given "size:" (decimal fi.size <> (",mtime:" <> decimal_ℤ fi.mtime)) (omega arith)
      (some-injective _ "" e)
size_given missing e = ground arith
size_given (failed x) e = ground arith

-- No library has the empty fingerprint.
fingerprint_given :
    (files : Files) (path : String) → answer (library_fingerprint files path) ≢ some ""
unfolding library_fingerprint
fingerprint_given files path e = go (read_elf_build_id files path) e
  where
    go :
        (id : Option String)
        → answer (elim id [
          | none ↦ size_and_mtime (files.stat path)
          | some id ↦
              if id == "" then size_and_mtime (files.stat path) else found ("build-id:" <> id)
        ])
          ≡ some ""
        → ⊥
    go none h = size_given (files.stat path) h
    go (some id) h = elim (Bool-cases (id == "")) [
      | inl empty ↦ size_given (files.stat path) (rw empty at h)
      | inr given ↦ build_id_given id (some-injective _ "" (rw given at h))
    ]

NoEmpty-insert : (k v : String) (m : Dict String) → v ≢ "" → NoEmpty m → NoEmpty (insert k v m)
unfolding insert
NoEmpty-insert k v [] given all = (given, tt)
NoEmpty-insert k v ((j, w) ∷ m) given all = ground (arith, NoEmpty-insert k v m given all.1)

-- The probe's state after some files: a snapshot that holds each file seen that has a fingerprint.
pub record Covers (files : Files) (s : Probe) : Type 0 where
  pub snapshot : IsSnapshot s.fingerprints
  pub holds :
      (p : String)
      → lookup p s.fingerprints
        ≡ (if contains s.seen p then answer (library_fingerprint files p) else none)

add-Covers :
    (files : Files) (path : String) (a : Answer String) (s : Probe)
    → library_fingerprint files path ≡ a
    → contains s.seen path ≡ false
    → Covers files s
    → Covers files (add_fingerprint path a (record s { seen = path ∷ s.seen }))
unfolding add_fingerprint
add-Covers files path (found fp) s e fresh c = record {
  snapshot = (
    insert-NodupKeys path fp s.fingerprints c.snapshot.0,
    NoEmpty-insert path fp s.fingerprints
        (λ x. fingerprint_given files path (ap answer e ∙ ap some x)) c.snapshot.1,
  );
  holds = λ p.
      ground (arith, lookup-insert path p fp s.fingerprints, eq_iff path p, c.holds p, ap answer e);
}
add-Covers files path missing s e fresh c = record {
  snapshot = c.snapshot;
  holds = λ p. ground (arith, eq_iff path p, c.holds p, ap answer e);
}
add-Covers files path (failed x) s e fresh c = record {
  snapshot = c.snapshot;
  holds = λ p. ground (arith, eq_iff path p, c.holds p, ap answer e);
}

-- The file that a match resolves to, put in front of those seen.
abbrev resolved : Answer String → List String → List String
resolved (found path) ps = path ∷ ps
resolved missing ps = ps
resolved (failed e) ps = ps

visit-Covers :
    (files : Files) (m : String) (a : Answer String) (s : Probe)
    → Covers files s
    → Covers files (visit files m a s)
unfolding visit
visit-Covers files m missing s c = c
visit-Covers files m (failed e) s c = record { snapshot = c.snapshot; holds = c.holds }
visit-Covers files m (found path) s c = elim (Bool-cases (contains s.seen path)) [
  | inl again ↦ rw again c
  | inr fresh ↦ rw fresh (add-Covers files path (library_fingerprint files path) s refl fresh c)
]

-- The files that matches resolve to.
pub resolutions : Files → List String → List String
resolutions files [] = []
resolutions files (m ∷ ms) = resolved (files.eval_symlinks m) (resolutions files ms)

-- The matches in all directories.
pub all_matches : Files → List String → List String
all_matches files [] = []
all_matches files (dir ∷ dirs) = matches_in files dir rbln_library_globs ++ all_matches files dirs

-- What is seen after some matches: what was seen before, and what they resolve to.
visit-seen :
    (files : Files) (m p : String) (a : Answer String) (ps : List String) (s : Probe)
    → (contains (visit files m a s).seen p || contains ps p)
      ≡ (contains s.seen p || contains (resolved a ps) p)
unfolding visit add_fingerprint
visit-seen files m p missing ps s = refl
visit-seen files m p (failed e) ps s = refl
visit-seen files m p (found path) ps s = elim (Bool-cases (contains s.seen path)) [
  | inl again ↦ rw again (ground (arith, eq_iff path p, again))
  | inr fresh ↦ rw fresh (add-seen (library_fingerprint files path))
]
  where
    add-seen :
        (a : Answer String)
        → (contains (add_fingerprint path a (record s { seen = path ∷ s.seen })).seen p
            || contains ps p)
          ≡ (contains s.seen p || (path == p || contains ps p))
    add-seen (found fp) = ground arith
    add-seen missing = ground arith
    add-seen (failed e) = ground arith

visit_all-seen :
    (files : Files) (ms : List String) (p : String) (s : Probe)
    → contains (visit_all files ms s).seen p
      ≡ (contains s.seen p || contains (resolutions files ms) p)
unfolding visit_all resolutions
visit_all-seen files [] p s = ground arith
visit_all-seen files (m ∷ ms) p s =
    visit_all-seen files ms p (visit files m (files.eval_symlinks m) s)
    ∙ visit-seen files m p (files.eval_symlinks m) (resolutions files ms) s

visit_all-Covers :
    (files : Files) (ms : List String) (s : Probe)
    → Covers files s
    → Covers files (visit_all files ms s)
unfolding visit_all
visit_all-Covers files [] s c = c
visit_all-Covers files (m ∷ ms) s c =
    visit_all-Covers files ms (visit files m (files.eval_symlinks m) s)
      (visit-Covers files m (files.eval_symlinks m) s c)

scan-Covers :
    (files : Files) (dirs : List String) (s : Probe)
    → Covers files s
    → Covers files (scan files dirs s)
unfolding scan
scan-Covers files [] s c = c
scan-Covers files (dir ∷ dirs) s c =
    scan-Covers files dirs (visit_all files (matches_in files dir rbln_library_globs) s)
      (visit_all-Covers files (matches_in files dir rbln_library_globs) s c)

resolutions-append :
    (files : Files) (xs ys : List String)
    → resolutions files (xs ++ ys) ≡ resolutions files xs ++ resolutions files ys
unfolding resolutions
resolutions-append files [] ys = refl
resolutions-append files (x ∷ xs) ys =
    rw (resolutions-append files xs ys) (resolved-append (files.eval_symlinks x))
  where
    resolved-append :
        (a : Answer String)
        → resolved a (resolutions files xs ++ resolutions files ys)
          ≡ resolved a (resolutions files xs) ++ resolutions files ys
    resolved-append (found t) = refl
    resolved-append missing = refl
    resolved-append (failed e) = refl

scan-seen :
    (files : Files) (dirs : List String) (p : String) (s : Probe)
    → contains (scan files dirs s).seen p
      ≡ (contains s.seen p || contains (resolutions files (all_matches files dirs)) p)
unfolding scan all_matches
scan-seen files [] p s = unfold resolutions in ground arith
scan-seen files (dir ∷ dirs) p s =
    let ms = matches_in files dir rbln_library_globs in
    let later = resolutions files (all_matches files dirs) in
    rw resolutions-append (
      ground (
        arith,
        scan-seen files dirs p (visit_all files ms s),
        visit_all-seen files ms p s,
        contains-append (resolutions files ms) later p,
      ))

nothing-Covers : (files : Files) → Covers files nothing_probed
nothing-Covers files = record { snapshot = (tt, tt); holds = λ p. unfold lookup in refl }

-- The fingerprints are a snapshot as the watcher needs it, no fingerprint is empty and no path
-- stands twice, and they hold for each file that a match resolves to its fingerprint, if it has
-- one, and nothing else: links to one file give one entry, and errors keep no other file out.
pub probe_rbln_libraries-IsSnapshot :
    (files : Files) (dirs : List String)
    → let s = probe_rbln_libraries files dirs in
      IsSnapshot s.fingerprints
      × ((p : String)
          → lookup p s.fingerprints ≡ (
              if contains (resolutions files (all_matches files dirs)) p
              then answer (library_fingerprint files p)
              else none))
unfolding probe_rbln_libraries
probe_rbln_libraries-IsSnapshot files dirs =
    let c = scan-Covers files dirs nothing_probed (nothing-Covers files) in
    (c.snapshot, λ p. ground (arith, c.holds p, scan-seen files dirs p nothing_probed))
