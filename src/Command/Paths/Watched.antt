-- ===== src/Command/Paths/Watched.antt =====
-- The directories that the daemon watches are those that the generator searches: cmd/rbln-ctk-daemon/root.go
-- with internal/discover/library.go.
use rbln_container_toolkit.Prelude.{
  String, ◌<>◌, ◌≡◌, refl, sym, ap, ◌∙◌, ◌⊎◌, inl, inr, true, false, not, ◌&&◌, ◌||◌, List, [], ◌∷◌,
  map, All, Bool-cases, if◌then◌else◌, ◌==◌, string_eq, arith, eq_iff,
}
use rbln_container_toolkit.Prelude.Texts.{trim_prefix, cut_prefix, clean, path_join}
use rbln_container_toolkit.Prelude.Cleaned.{
  slash_cons, path_join_slash, path_join_root, path_join_given, slash_given,
}
use rbln_container_toolkit.Config.{Config}
use rbln_container_toolkit.Discover.Roots.{search_root_of}
use rbln_container_toolkit.Command.Paths.{
  join_search_prefix, reroot_under, refresh_lib_dirs, refresh_config,
}

-- A directory of the configuration: an absolute path that is clean.
abbrev pub IsCleanDir : String → Type 0
IsCleanDir d = (rest : String) × (d ≡ "/" <> rest) × (clean d ≡ d)

-- The directory below the root that `DiscoverRBLN` searches.
abbrev pub searched_in : String → String → String
searched_in root d = path_join (root ∷ d ∷ [])

trim_slash : (rest : String) → trim_prefix ("/" <> rest) "/" ≡ rest
unfolding trim_prefix cut_prefix
trim_slash rest = ap (λ t. trim_prefix t "/") (slash_cons rest)

reroot_under-searched :
    (prefix d : String)
    → (prefix == "") ≡ false
    → IsCleanDir d
    → reroot_under prefix d ≡ searched_in prefix d
unfolding reroot_under
reroot_under-searched prefix d given (rest, e, same) =
    ap (λ t. path_join (prefix ∷ trim_prefix t "/" ∷ [])) e
    ∙ ap (λ t. path_join (prefix ∷ t ∷ [])) (trim_slash rest)
    ∙ sym (path_join_slash prefix rest given)
    ∙ ap (λ t. path_join (prefix ∷ t ∷ [])) (sym e)

map_searched :
    (f g : String → String) (dirs : List String)
    → ((d : String) → IsCleanDir d → f d ≡ g d)
    → All IsCleanDir dirs
    → map f dirs ≡ map g dirs
map_searched f g [] same all = refl
map_searched f g (d ∷ dirs) same all = cc (same d all.0, map_searched f g dirs same all.1)

map_kept :
    (f : String → String) (dirs : List String)
    → ((d : String) → IsCleanDir d → f d ≡ d)
    → All IsCleanDir dirs
    → dirs ≡ map f dirs
map_kept f [] same all = refl
map_kept f (d ∷ dirs) same all = cc (same d all.0, map_kept f dirs same all.1)

searched_in_root : (d : String) → IsCleanDir d → searched_in "/" d ≡ d
searched_in_root d (rest, e, same) =
    ap (searched_in "/") e ∙ (path_join_root rest ∙ (ap clean (sym e) ∙ same))

-- The watched directories, for a prefix that is the searched root or stands for "/".
dirs_searched :
    (prefix root : String) (dirs : List String)
    → (prefix ≡ root × ((root == "") ≡ false)) ⊎ (prefix ≡ "") × (root ≡ "/")
    → All IsCleanDir dirs
    → (if prefix == "" || prefix == "/" then dirs else map (reroot_under prefix) dirs)
      ≡ map (searched_in root) dirs
dirs_searched prefix root dirs (inr (e, top)) all =
    rw (e, top) (map_kept (searched_in "/") dirs searched_in_root all)
dirs_searched prefix root dirs (inl (e, given)) all = elim (Bool-cases (root == "/")) [
  | inl top ↦
      let same = (eq_iff root "/").0 top in
      rw (e, same) (map_kept (searched_in "/") dirs searched_in_root all)
  | inr other ↦
      rw (e, given, other) (map_searched _ _ dirs (λ d. reroot_under-searched root d given) all)
]

-- The prefix, for a driver root that is absolute.
abbrev prefix_of : String → String → String
prefix_of host_root rest =
    if rest == ""
    then host_root
    else if host_root == "" || host_root == "/"
    then "/" <> rest
    else path_join (host_root ∷ rest ∷ [])

join_search_prefix-of :
    (host_root rest : String)
    → join_search_prefix host_root ("/" <> rest) ≡ prefix_of host_root rest
unfolding join_search_prefix
join_search_prefix-of host_root rest = ap (prefix_of host_root) (trim_slash rest)

-- The root that is searched with the configuration of the daemon.
abbrev root_for : String → String → String → String → String
root_for host_root rest prefix unmounted =
    let root = if not (host_root == "/") && not (host_root == "") then prefix else unmounted in
    if root == "" then "/" <> rest else root

abbrev root_of : String → String → String
root_of host_root rest = root_for host_root rest (prefix_of host_root rest) ""

-- Without a mounted host the driver root is searched.
only_driver :
    (top rest : String)
    → (top ≡ "") ⊎ (top ≡ "/")
    → ((if rest == "" then top else "/" <> rest) ≡ "/" <> rest × (("/" <> rest == "") ≡ false))
      ⊎ ((if rest == "" then top else "/" <> rest) ≡ "") × ("/" <> rest ≡ "/")
only_driver top rest is_top = elim (Bool-cases (rest == "")) [
  | inl no_driver ↦
      let same = (eq_iff rest "").0 no_driver in
      rw same (elim is_top [ inl e ↦ inr (e, refl) | inr e ↦ inl (e, refl) ])
  | inr driver ↦ rw driver (inl (refl, slash_given rest))
]

prefix_of-given :
    (host_root rest : String)
    → (host_root == "") ≡ false
    → (host_root == "/") ≡ false
    → (prefix_of host_root rest == "") ≡ false
prefix_of-given host_root rest given other = elim (Bool-cases (rest == "")) [
  | inl no_driver ↦ rw no_driver given
  | inr driver ↦ rw (driver, given, other) (path_join_given host_root rest given)
]

prefix_of-cases :
    (host_root rest : String)
    → (prefix_of host_root rest ≡ root_of host_root rest × ((root_of host_root rest == "") ≡ false))
      ⊎ (prefix_of host_root rest ≡ "") × (root_of host_root rest ≡ "/")
prefix_of-cases host_root rest = elim (Bool-cases (host_root == "")) [
  | inl none_given ↦
      let same = (eq_iff host_root "").0 none_given in rw same (only_driver "" rest (inl refl))
  | inr given ↦ elim (Bool-cases (host_root == "/")) [
    | inl top ↦ let same = (eq_iff host_root "/").0 top in rw same (only_driver "/" rest (inr refl))
    | inr other ↦
        let mounted = prefix_of-given host_root rest given other in
        let is_mounted : (not (host_root == "/") && not (host_root == "")) ≡ true =
          ground (arith, given, other) in
        let same : root_of host_root rest ≡ prefix_of host_root rest =
          ap
            (λ b.
              let root = if b then prefix_of host_root rest else "" in
              if root == "" then "/" <> rest else root)
            is_mounted
          ∙ ap (λ b. if b then "/" <> rest else prefix_of host_root rest) mounted in
        inl (sym same, ap (λ t. t == "") same ∙ mounted)
  ]
]

search_root_of-refresh :
    (runtime host_root rest library_path : String) (cfg : Config)
    → cfg.search_root ≡ ""
    → search_root_of (refresh_config runtime host_root ("/" <> rest) library_path cfg)
      ≡ root_of host_root rest
unfolding search_root_of refresh_config
search_root_of-refresh runtime host_root rest library_path cfg unset =
    ap (λ s. root_for host_root rest (join_search_prefix host_root ("/" <> rest)) s) unset
    ∙ ap (λ p. root_for host_root rest p "") (join_search_prefix-of host_root rest)

-- With the configuration that the daemon generates specs with, made of one that has no search root, and an
-- absolute driver root, the watcher looks at the directories that the discovery of libraries searches,
-- whichever host is mounted: those of the configuration, where they are clean absolute paths, below the
-- searched root.
pub refresh_lib_dirs-searched :
    (runtime host_root rest library_path : String) (cfg : Config)
    → cfg.search_root ≡ ""
    → All IsCleanDir cfg.search_paths.libraries
    → refresh_lib_dirs cfg.search_paths.libraries host_root ("/" <> rest)
      ≡ map
          (searched_in
            (search_root_of (refresh_config runtime host_root ("/" <> rest) library_path cfg)))
          cfg.search_paths.libraries
unfolding refresh_lib_dirs
refresh_lib_dirs-searched runtime host_root rest library_path cfg unset all =
    let dirs = cfg.search_paths.libraries in
    ap (λ p. if p == "" || p == "/" then dirs else map (reroot_under p) dirs)
      (join_search_prefix-of host_root rest)
    ∙ dirs_searched (prefix_of host_root rest) (root_of host_root rest) dirs
        (prefix_of-cases host_root rest) all
    ∙ ap (λ r. map (searched_in r) dirs)
        (sym (search_root_of-refresh runtime host_root rest library_path cfg unset))
