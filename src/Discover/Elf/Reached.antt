-- ===== src/Discover/Elf/Reached.antt =====
-- `Run` of internal/discover/elf.go lists the files that the needed names lead to, each once.
use rbln_container_toolkit.Prelude.{
  ℕ, suc, ◌≤◌, String, ◌≡◌, refl, sym, ap, subst, ◌∙◌, ◌⊎◌, inl, inr, ◌↔◌, ◌≢◌, true, false, ◌||◌,
  Option, none, some, List, [], ◌∷◌, map, contains, length, Distinct, Bool-cases, ◌==◌, string_eq,
  arith, eq_iff,
}
use rbln_container_toolkit.Discover.HostFiles.{HostFiles}
use rbln_container_toolkit.Discover.Elf.{Walk, done, start, offer_all, expand, resolve_all}
use rbln_container_toolkit.Discover.Elf.Scan.{
  on_host, lead_to, found_paths, is_seen, scanned, scanned-IsFresh, is_seen-scanned,
  pending-scanned, found-scanned,
}
use rbln_container_toolkit.Discover.Elf.Ends.{needs, needs_in, turn, loop_rule, resolve_all-ends}

module _ (host : HostFiles) (driver_root : String) (search_paths : List String)
    (needed : String → Option (List String)) (library : String) where
  -- The needed names lead from the library to the path.
  pub data Reach : String → Type 0 where
    here : Reach library
    step :
        {file path : String}
        → Reach file
        → needs host driver_root search_paths needed file path ≡ true
        → Reach path

  abbrev found_in : Walk → List String
  found_in = found_paths host driver_root search_paths

  -- What is visited is the library and what is found; it is reached, and what it needs is visited once
  -- it has left the queue.
  record Inv (walk : Walk) : Type 0 where
    same :
        (path : String)
        → is_seen host driver_root search_paths walk path
          ≡ (library == path || contains (found_in walk) path)
    once : Distinct (found_in walk)
    other : contains (found_in walk) library ≡ false
    sound : (path : String) → is_seen host driver_root search_paths walk path ≡ true → Reach path
    queued :
        (path : String)
        → contains walk.pending path ≡ true
        → is_seen host driver_root search_paths walk path ≡ true
    closed :
        (file path : String)
        → is_seen host driver_root search_paths walk file ≡ true
        → needs host driver_root search_paths needed file path ≡ true
        → (contains walk.pending file ≡ true)
          ⊎ (is_seen host driver_root search_paths walk path ≡ true)

  Inv-start : Inv (start library)
  Inv-start = record {
    same = λ path. ground arith;
    once = tt;
    other = refl;
    sound = λ path h. subst Reach ((eq_iff library path).0 (ground (arith, h))) here;
    queued = λ path h. h;
    closed = λ file path h edge. inl h;
  }

  -- The current file needs the names, and they are offered.
  Inv-scanned :
      (walk : Walk) (current : String) (rest names : List String)
      → walk.pending ≡ current ∷ rest
      → ((path : String)
          → needs host driver_root search_paths needed current path
            ≡ lead_to host driver_root search_paths names path)
      → Inv walk
      → Inv (scanned host driver_root search_paths (record walk { pending = rest }) names)
  Inv-scanned walk current rest names e leads inv =
      let popped = record walk { pending = rest } in
      let visited = is_seen-scanned host driver_root search_paths popped names in
      let queue = pending-scanned host driver_root search_paths popped names in
      let results = found-scanned host driver_root search_paths popped names in
      let waiting : (path : String)
          → contains walk.pending path ≡ (current == path || contains rest path) =
        λ path. ap (λ t. contains t path) e in
      record {
        same = λ path. ground (arith, visited path, results path, inv.same path);
        once =
            (scanned-IsFresh host driver_root search_paths popped names
              (λ path h. ground (arith, inv.same path, h), inv.once)).1;
        other = ground (
          arith,
          visited library,
          results library,
          inv.same library,
          inv.other,
          eq_iff library library,
        );
        sound = λ path h. elim (Bool-cases (contains walk.visited path)) [
          | inl before ↦ inv.sound path before
          | inr new ↦
              step
                (inv.sound current
                  (inv.queued current (ground (arith, waiting current, eq_iff current current))))
                (ground (arith, leads path, visited path, h, new))
        ];
        queued =
            λ path h. ground (arith, queue path, visited path, waiting path, inv.queued path, h);
        closed = λ file path h edge. elim (Bool-cases (contains walk.visited file)) [
          | inl before ↦ elim (inv.closed file path before edge) [
            | inl queued ↦ elim (Bool-cases (current == file)) [
              | inl same ↦
                  let needed_now : needs host driver_root search_paths needed current path ≡ true =
                    ap (λ t. needs host driver_root search_paths needed t path)
                      ((eq_iff current file).0 same)
                    ∙ edge in
                  inr (ground (arith, visited path, leads path, needed_now))
              | inr other ↦ inl (ground (arith, queue file, waiting file, queued, other))
            ]
            | inr seen ↦ inr (ground (arith, visited path, seen))
          ]
          | inr new ↦ inl (ground (arith, queue file, h, new))
        ];
      }

  Inv-turn :
      (walk : Walk) (current : String) (rest : List String)
      → walk.pending ≡ current ∷ rest
      → Inv walk
      → Inv (turn host driver_root search_paths needed walk current rest)
  unfolding expand offer_all
  Inv-turn walk current rest e inv =
      (elim (needed current)
          as (λ o.
            needed current ≡ o
            → Inv (elim o [
              | none ↦ record walk { pending = rest }
              | some names ↦
                  offer_all host driver_root search_paths (record walk { pending = rest }) names
            ])) [
              | none ↦ λ n.
                  Inv-scanned walk current rest [] e
                    (λ path. ap (λ o. needs_in host driver_root search_paths o path) n) inv
              | some names ↦ λ n.
                  Inv-scanned walk current rest names e
                    (λ path. ap (λ o. needs_in host driver_root search_paths o path) n) inv
            ])
        refl

  -- With an empty queue what is reached is visited.
  complete :
      (last : Walk)
      → Inv last
      → last.pending ≡ []
      → {path : String} → Reach path
      → is_seen host driver_root search_paths last path ≡ true
  complete last inv empty here = ground (arith, inv.same library, eq_iff library library)
  complete last inv empty (step {file} {path} reached edge) =
      elim (inv.closed file path (complete last inv empty reached) edge) [
        | inl waiting ↦ absurd (
            let bad : contains [] file ≡ true = subst (λ t. contains t file ≡ true) empty waiting in
            ground (arith, bad))
        | inr seen ↦ seen
      ]

  -- When every name that a file needs is found at one of `files`, if at all, the walk ends within as many
  -- turns as there are files, and one. It lists the files that the needed names lead to from the library,
  -- through other files too, each once and without the library itself.
  pub resolve_all-reached :
      (files : List String) (fuel : ℕ)
      → ((file path : String)
          → needs host driver_root search_paths needed file path ≡ true
          → contains files path ≡ true)
      → suc (length files) ≤ fuel
      → (found : List String) × (resolve_all host driver_root search_paths needed fuel library
          ≡ done found)
        × Distinct (map (on_host host driver_root search_paths) found)
        × ((path : String)
            → (contains (map (on_host host driver_root search_paths) found) path ≡ true)
              ↔ (Reach path × (path ≢ library)))
  unfolding resolve_all
  resolve_all-reached files fuel within le =
      let (found, ends) =
        resolve_all-ends host driver_root search_paths needed files fuel library within le in
      let (last, inv, empty, same) =
        loop_rule host driver_root search_paths needed Inv Inv-turn fuel (start library) found
          Inv-start ends in
      (
        found,
        ends,
        subst (λ t. Distinct (map (on_host host driver_root search_paths) t)) same inv.once,
        λ path.
            subst
              (λ t.
                (contains (map (on_host host driver_root search_paths) t) path ≡ true)
                ↔ (Reach path × (path ≢ library)))
              same
              (
                λ h. (
                  inv.sound path (ground (arith, inv.same path, h)),
                  λ e. ground (arith, inv.other, ap (λ t. contains (found_in last) t) e, h),
                ),
                λ (reached, other).
                    let apart : library ≢ path = λ e. other (sym e) in
                    ground (
                      arith,
                      inv.same path,
                      complete last inv empty reached,
                      eq_iff library path,
                      apart,
                    ),
              ),
      )
