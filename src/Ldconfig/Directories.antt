-- ===== src/Ldconfig/Directories.antt =====
-- The lines of the file for ld.so.conf.d.
use rbln_container_toolkit.Prelude.{
  String, ◌≡◌, inl, inr, not, ◌&&◌, List, [], ◌∷◌, contains, Distinct, Bool-cases, string_eq,
  eq_iff, arith,
}
use rbln_container_toolkit.Ldconfig.{write_directories}

lines_of :
    (seen dirs : List String) (d : String)
    → contains (write_directories seen dirs) d ≡ (not (contains seen d) && contains dirs d)
unfolding write_directories
lines_of seen [] d = ground arith
lines_of seen (dir ∷ dirs) d = elim (Bool-cases (contains seen dir)) [
  | inl again ↦ rw (write_directories, again) (ground (arith, lines_of seen dirs d, eq_iff dir d))
  | inr fresh ↦
      rw (write_directories, fresh) (ground (arith, lines_of (dir ∷ seen) dirs d, eq_iff dir d))
]

lines-Distinct : (seen dirs : List String) → Distinct (write_directories seen dirs)
unfolding write_directories
lines-Distinct seen [] = tt
lines-Distinct seen (dir ∷ dirs) = elim (Bool-cases (contains seen dir)) [
  | inl again ↦ rw (write_directories, again) (lines-Distinct seen dirs)
  | inr fresh ↦
      rw (write_directories, fresh)
        (
          ground (arith, lines_of (dir ∷ seen) dirs dir, eq_iff dir dir),
          lines-Distinct (dir ∷ seen) dirs,
        )
]

-- The file has a line for each directory, however often it is given, and no line twice.
pub write_directories-Distinct :
    (dirs : List String)
    → Distinct (write_directories [] dirs)
      × ((d : String) → contains (write_directories [] dirs) d ≡ contains dirs d)
write_directories-Distinct dirs = (lines-Distinct [] dirs, λ d. lines_of [] dirs d)
