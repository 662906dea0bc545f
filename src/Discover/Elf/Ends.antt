-- ===== src/Discover/Elf/Ends.antt =====
-- The queue of `Run` in internal/discover/elf.go runs empty, and what a turn keeps holds then.
use rbln_container_toolkit.Prelude.{
  ℕ, zero, suc, ◌+◌, ◌≤◌, String, ◌≡◌, refl, ap, inl, inr, Bool, true, false, Option, none, some,
  List, [], ◌∷◌, contains, length, length-append, Option-cases, List-cases, if◌then◌else◌,
  string_eq, arith, eq_iff,
}
use rbln_container_toolkit.Discover.HostFiles.{HostFiles}
use rbln_container_toolkit.Discover.Elf.{
  Walk, done, start, offer, offer_all, expand, loop, resolve_all,
}
use rbln_container_toolkit.Discover.Elf.Scan.{resolves, on_host, lead_to, offered, scanned}

-- How many of the files are not visited.
abbrev unseen : List String → List String → ℕ
unseen [] visited = 0
unseen (file ∷ files) visited =
    let rest = unseen files visited in if contains visited file then rest else suc rest

unseen-le :
    (files visited : List String) (path : String)
    → unseen files (path ∷ visited) ≤ unseen files visited
unseen-le [] visited path = omega arith
unseen-le (file ∷ files) visited path = ground (arith, unseen-le files visited path)

unseen-lt :
    (files visited : List String) (path : String)
    → contains visited path ≡ false
    → contains files path ≡ true
    → suc (unseen files (path ∷ visited)) ≤ unseen files visited
unseen-lt [] visited path new there = ground (arith, there)
unseen-lt (file ∷ files) visited path new there = ground (
  arith,
  unseen-le files visited path,
  unseen-lt files visited path new,
  eq_iff file path,
  eq_iff path file,
  new,
  there,
)

unseen-le_length : (files visited : List String) → unseen files visited ≤ length files
unseen-le_length [] visited = omega arith
unseen-le_length (file ∷ files) visited = ground (arith, unseen-le_length files visited)

module _ (host : HostFiles) (driver_root : String) (search_paths : List String) where
  -- An ELF file needs a name that is found at the path.
  abbrev pub needs_in : Option (List String) → String → Bool
  needs_in none path = false
  needs_in (some names) path = lead_to host driver_root search_paths names path

  abbrev work : List String → Walk → ℕ
  work files walk = unseen files walk.visited + length walk.pending

  work-scanned :
      (files : List String) (walk : Walk) (names : List String)
      → ((path : String)
          → lead_to host driver_root search_paths names path ≡ true
          → contains files path ≡ true)
      → work files (scanned host driver_root search_paths walk names) ≤ work files walk
  unfolding offer_all offer
  work-scanned files walk [] within = omega arith
  work-scanned files walk (name ∷ names) within =
      let path =
        on_host host driver_root search_paths (resolves host driver_root search_paths name) in
      ground (
        arith,
        work-scanned files (offered host driver_root search_paths walk name) names
            (λ p h. within p (ground (arith, h))),
        unseen-lt files walk.visited path,
        within path,
        length-append walk.pending (path ∷ []),
        eq_iff path path,
      )

  module _ (needed : String → Option (List String)) where
    abbrev pub needs : String → String → Bool
    needs file path = needs_in (needed file) path

    abbrev pub turn : Walk → String → List String → Walk
    turn = expand host driver_root search_paths needed

    work-turn :
        (files : List String) (walk : Walk) (current : String) (rest : List String)
        → ((path : String) → needs current path ≡ true → contains files path ≡ true)
        → work files (turn walk current rest) ≤ unseen files walk.visited + length rest
    unfolding expand
    work-turn files walk current rest within = elim (Option-cases (needed current)) [
      | inl failed ↦ rw (failed, expand) (omega arith)
      | inr (names, e) ↦
          rw (e, expand)
            (work-scanned files (record walk { pending = rest }) names (λ p h. within p (rw e h)))
    ]

    loop_ends :
        (files : List String) (fuel : ℕ) (walk : Walk)
        → ((file path : String) → needs file path ≡ true → contains files path ≡ true)
        → work files walk ≤ fuel
        → (found : List String) × (loop host driver_root search_paths needed fuel walk ≡ done found)
    unfolding loop
    loop_ends files zero walk within le = (walk.found, ground arith)
    loop_ends files (suc fuel) walk within le = elim (List-cases walk.pending) [
      | inl empty ↦ (walk.found, rw (empty, loop) refl)
      | inr (current, rest, e) ↦
          let less = work-turn files walk current rest (within current) in
          let (found, ends) =
            loop_ends files fuel (turn walk current rest) within
              (omega (arith, ap length e, less)) in
          (found, ground (arith, e, ends))
    ]

    -- What a turn keeps holds where the queue is empty.
    pub loop_rule {ℓ} :
        (P : Walk → Type ℓ)
        → ((walk : Walk) (current : String) (rest : List String)
            → walk.pending ≡ current ∷ rest
            → P walk
            → P (turn walk current rest))
        → (fuel : ℕ) (walk : Walk) (found : List String) → P walk
        → loop host driver_root search_paths needed fuel walk ≡ done found
        → (last : Walk) × P last × (last.pending ≡ []) × (last.found ≡ found)
    unfolding loop
    loop_rule P keep zero walk found p h = (walk, p, ground arith, ground arith)
    loop_rule P keep (suc fuel) walk found p h = elim (List-cases walk.pending) [
      | inl empty ↦ (walk, p, empty, ground arith)
      | inr (current, rest, e) ↦
          loop_rule P keep fuel (turn walk current rest) found (keep walk current rest e p)
            (rw (e, loop) at h)
    ]

    -- With as many turns as there are files that a name can be found at, and one, the walk ends.
    pub resolve_all-ends :
        (files : List String) (fuel : ℕ) (library : String)
        → ((file path : String) → needs file path ≡ true → contains files path ≡ true)
        → suc (length files) ≤ fuel
        → (found : List String) × (resolve_all host driver_root search_paths needed fuel library
            ≡ done found)
    unfolding resolve_all
    resolve_all-ends files fuel library within le =
        loop_ends files fuel (start library) within
          (omega (arith, unseen-le_length files (library ∷ []), le))
