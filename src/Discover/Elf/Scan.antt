-- ===== src/Discover/Elf/Scan.antt =====
-- What the loop over the needed names in internal/discover/elf.go adds to the walk.
use rbln_container_toolkit.Prelude.{
  String, ◌≡◌, refl, sym, ap, Bool, true, false, not, ◌&&◌, ◌||◌, List, [], ◌∷◌, ◌++◌, map, subst,
  contains, Distinct-snoc, contains-append, Distinct, if◌then◌else◌, ◌==◌, string_eq, arith, eq_iff,
}
use rbln_container_toolkit.Discover.HostFiles.{HostFiles}
use rbln_container_toolkit.Discover.Elf.{Walk, resolve_library, full_path, offer, offer_all}

-- The walk and the paths that are new in it.
module _ (host : HostFiles) (driver_root : String) (search_paths : List String) where
  abbrev pub resolves : String → String
  resolves = resolve_library host driver_root search_paths

  abbrev pub on_host : String → String
  on_host = full_path host driver_root search_paths

  -- One of the names is found, at the path.
  abbrev pub lead_to : List String → String → Bool
  lead_to [] path = false
  lead_to (name ∷ names) path =
      (not (resolves name == "") && on_host (resolves name) == path) || lead_to names path

  abbrev pub found_paths : Walk → List String
  found_paths walk = map on_host walk.found

  abbrev pub is_seen : Walk → String → Bool
  is_seen walk = contains walk.visited

  abbrev pub offered : Walk → String → Walk
  offered = offer host driver_root search_paths

  abbrev pub scanned : Walk → List String → Walk
  scanned = offer_all host driver_root search_paths

  map-snoc :
      (xs : List String) (a : String)
      → map on_host (xs ++ a ∷ []) ≡ map on_host xs ++ on_host a ∷ []
  map-snoc [] a = refl
  map-snoc (x ∷ xs) a = ap (λ t. on_host x ∷ t) (map-snoc xs a)

  pub is_seen-scanned :
      (walk : Walk) (names : List String) (path : String)
      → is_seen (scanned walk names) path ≡ (is_seen walk path || lead_to names path)
  unfolding offer_all offer
  is_seen-scanned walk [] path = ground arith
  is_seen-scanned walk (name ∷ names) path =
      ground (
        arith,
        is_seen-scanned (offered walk name) names path,
        eq_iff (on_host (resolves name)) path,
      )

  -- The queue and the results grow by the paths that are new.
  pub pending-scanned :
      (walk : Walk) (names : List String) (path : String)
      → contains (scanned walk names).pending path ≡ (
          contains walk.pending path
          || (is_seen (scanned walk names) path && not (is_seen walk path)))
  unfolding offer_all offer
  pending-scanned walk [] path = ground arith
  pending-scanned walk (name ∷ names) path = ground (
    arith,
    pending-scanned (offered walk name) names path,
    is_seen-scanned (offered walk name) names path,
    contains-append walk.pending (on_host (resolves name) ∷ []) path,
    eq_iff (on_host (resolves name)) path,
  )

  pub found-scanned :
      (walk : Walk) (names : List String) (path : String)
      → contains (found_paths (scanned walk names)) path ≡ (
          contains (found_paths walk) path
          || (is_seen (scanned walk names) path && not (is_seen walk path)))
  unfolding offer_all offer
  found-scanned walk [] path = ground arith
  found-scanned walk (name ∷ names) path = ground (
    arith,
    found-scanned (offered walk name) names path,
    is_seen-scanned (offered walk name) names path,
    ap (λ t. contains t path) (map-snoc walk.found (resolves name)),
    contains-append (map on_host walk.found) (on_host (resolves name) ∷ []) path,
    eq_iff (on_host (resolves name)) path,
  )

  -- The found paths are visited, and each stands once.
  abbrev pub IsFresh : Walk → Type 0
  IsFresh walk =
      ((path : String) → contains (found_paths walk) path ≡ true → is_seen walk path ≡ true)
      × Distinct (found_paths walk)

  added-IsFresh :
      (walk : Walk) (resolved : String)
      → contains walk.visited (on_host resolved) ≡ false
      → IsFresh walk
      → IsFresh (record {
        visited = on_host resolved ∷ walk.visited;
        pending = walk.pending ++ on_host resolved ∷ [];
        found = walk.found ++ resolved ∷ [];
      })
  added-IsFresh walk resolved new (seen, once) =
      let path = on_host resolved in
      let other : contains (found_paths walk) path ≡ false = ground (arith, seen path, new) in
      (
        λ p h. ground (
          arith,
          h,
          seen p,
          ap (λ t. contains t p) (map-snoc walk.found resolved),
          contains-append (found_paths walk) (path ∷ []) p,
        ),
        subst Distinct (sym (map-snoc walk.found resolved))
            (Distinct-snoc (found_paths walk) path once other),
      )

  offered-IsFresh : (walk : Walk) (name : String) → IsFresh walk → IsFresh (offered walk name)
  unfolding offer
  offered-IsFresh walk name fresh =
      let resolved = resolves name in
      (elim (resolved == "" || contains walk.visited (on_host resolved))
          as (λ b.
            (resolved == "" || contains walk.visited (on_host resolved)) ≡ b
            → IsFresh (
                if b then walk else record {
                  visited = on_host resolved ∷ walk.visited;
                  pending = walk.pending ++ on_host resolved ∷ [];
                  found = walk.found ++ resolved ∷ [];
                })) [
                  | true ↦ λ h. fresh
                  | false ↦ λ h. added-IsFresh walk resolved (ground (arith, h)) fresh
                ])
        refl

  pub scanned-IsFresh :
      (walk : Walk) (names : List String) → IsFresh walk → IsFresh (scanned walk names)
  unfolding offer_all
  scanned-IsFresh walk [] fresh = fresh
  scanned-IsFresh walk (name ∷ names) fresh =
      scanned-IsFresh (offered walk name) names (offered-IsFresh walk name fresh)
