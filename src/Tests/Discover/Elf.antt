-- ===== src/Tests/Discover/Elf.antt =====
-- The theorem about internal/discover/elf.go at a concrete host.
use rbln_container_toolkit.Prelude.{
  String, ◌≡◌, ◌≢◌, refl, ◌↔◌, inl, inr, true, false, ◌&&◌, ◌||◌, not, Option, none, some, List, [],
  ◌∷◌, map, contains, Distinct, All, ◌⊎◌, Bool, Bool-cases, subst, eq_iff, ◌==◌, string_eq,
  if◌then◌else◌, arith,
}
use rbln_container_toolkit.Discover.HostFiles.{HostFiles, Mode}
use rbln_container_toolkit.Discover.Elf.{done, resolve_library, full_path, resolve_all}
use rbln_container_toolkit.Discover.Elf.Scan.{on_host, resolves, lead_to}
use rbln_container_toolkit.Discover.Elf.Ends.{needs, needs_in}
use rbln_container_toolkit.Discover.Elf.Reached.{Reach, resolve_all-reached}

-- Both libraries are below /run/rbln, and the first is a link.
abbrev elf_host : HostFiles
elf_host = record {
  glob = λ pattern. none;
  lstat = λ path.
      if path == "/run/rbln/usr/lib/libml.so"
      then some Mode.symlink
      else if path == "/run/rbln/usr/lib/libthunk.so"
      then some (Mode.special false)
      else none;
  stat = λ path. none;
  eval_symlinks = λ path.
      if path == "/run/rbln/usr/lib/libml.so" then some "/run/rbln/usr/lib/libml.so.3" else none;
  read_dir = λ path. none;
  dependencies = λ path. none;
  matches_name = λ pattern name. false;
}

abbrev directories : List String
directories = "/lib64" ∷ "/usr/lib" ∷ []

-- The two libraries need one another.
abbrev of_thunk : String → Option (List String)
of_thunk file = if file == "/run/rbln/usr/lib/libthunk.so" then some ("libml.so" ∷ []) else none

abbrev of_the_others : String → Option (List String)
of_the_others file =
    if file == "/run/rbln/usr/lib/libml.so.3" then some ("libthunk.so" ∷ []) else of_thunk file

abbrev needed_names : String → Option (List String)
needed_names file =
    if file == "/run/rbln/usr/lib/librbln.so"
    then some ("libml.so" ∷ "libgone.so" ∷ [])
    else of_the_others file

abbrev elf_files : List String
elf_files = "/run/rbln/usr/lib/libml.so.3" ∷ "/run/rbln/usr/lib/libthunk.so" ∷ []

abbrev found_as : String → String
found_as = resolves elf_host "/run/rbln" directories

abbrev lies_at : String → String
lies_at = on_host elf_host "/run/rbln" directories

led_by :
    (resolved at path : String) (rest : Bool)
    → (resolved ≡ "") ⊎ (contains elf_files at ≡ true)
    → (rest ≡ true → contains elf_files path ≡ true)
    → ((not (resolved == "") && at == path) || rest) ≡ true
    → contains elf_files path ≡ true
led_by resolved at path rest (inl gone) others h =
    others (subst (λ r. ((not (r == "") && at == path) || rest) ≡ true) gone h)
led_by resolved at path rest (inr there) others h = elim (Bool-cases (at == path)) [
  | inl same ↦ subst (λ t. contains elf_files t ≡ true) ((eq_iff at path).0 same) there
  | inr other ↦ others (ground (arith, other, h))
]

-- A name is found at one of the files, if at all.
abbrev IsKnown : String → Type 0
IsKnown name = (found_as name ≡ "") ⊎ (contains elf_files (lies_at (found_as name)) ≡ true)

led :
    (names : List String) (path : String)
    → All IsKnown names
    → lead_to elf_host "/run/rbln" directories names path ≡ true
    → contains elf_files path ≡ true
led [] path known h = absurd (ground (arith, h))
led (name ∷ names) path (known, others) h =
    led_by (found_as name) (lies_at (found_as name)) path
      (lead_to elf_host "/run/rbln" directories names path) known (led names path others) h

libraries-IsKnown : IsKnown "libml.so" × IsKnown "libthunk.so" × IsKnown "libgone.so"
unfolding resolve_library full_path
libraries-IsKnown = (inr refl, inr refl, inl refl)

within :
    (file path : String)
    → needs elf_host "/run/rbln" directories needed_names file path ≡ true
    → contains elf_files path ≡ true
within file path h =
    (elim (file == "/run/rbln/usr/lib/librbln.so")
        as (λ b.
          needs_in elf_host "/run/rbln" directories
              (if b then some ("libml.so" ∷ "libgone.so" ∷ []) else of_the_others file) path
            ≡ true
          → contains elf_files path ≡ true) [
            | true ↦ λ h.
                led ("libml.so" ∷ "libgone.so" ∷ []) path
                  (libraries-IsKnown.0, (libraries-IsKnown.2, tt)) h
            | false ↦
                elim (file == "/run/rbln/usr/lib/libml.so.3")
                  as (λ b.
                    needs_in elf_host "/run/rbln" directories
                        (if b then some ("libthunk.so" ∷ []) else of_thunk file) path
                      ≡ true
                    → contains elf_files path ≡ true) [
                      | true ↦ λ h. led ("libthunk.so" ∷ []) path (libraries-IsKnown.1, tt) h
                      | false ↦
                          elim (file == "/run/rbln/usr/lib/libthunk.so")
                            as (λ b.
                              needs_in elf_host "/run/rbln" directories
                                  (if b then some ("libml.so" ∷ []) else none) path
                                ≡ true
                              → contains elf_files path ≡ true) [
                                | true ↦ λ h. led ("libml.so" ∷ []) path (libraries-IsKnown.0, tt) h
                                | false ↦ λ h. ground (arith, h)
                              ]
                    ]
          ])
      h

found_two :
    resolve_all elf_host "/run/rbln" directories needed_names 3 "/run/rbln/usr/lib/librbln.so"
    ≡ done ("/usr/lib/libml.so.3" ∷ "/usr/lib/libthunk.so" ∷ [])
unfolding resolve_all
found_two = refl

resolve_all-reached_example :
    (found : List String) × (resolve_all elf_host "/run/rbln" directories needed_names 3
        "/run/rbln/usr/lib/librbln.so"
      ≡ done found)
    × Distinct (map (on_host elf_host "/run/rbln" directories) found)
    × ((path : String)
        → (contains (map (on_host elf_host "/run/rbln" directories) found) path ≡ true) ↔ (
            Reach elf_host "/run/rbln" directories needed_names "/run/rbln/usr/lib/librbln.so" path
            × (path ≢ "/run/rbln/usr/lib/librbln.so")))
resolve_all-reached_example =
    resolve_all-reached elf_host "/run/rbln" directories needed_names "/run/rbln/usr/lib/librbln.so"
      elf_files 3 within (omega arith)
