-- ===== src/Discover/Nodes/Listing.antt =====
-- What the device discovery of internal/discover/device.go lists.
use mathlib.Core.Option
use rbln_container_toolkit.Prelude.{
  String, ◌≡◌, refl, sym, ap, ◌∙◌, inl, inr, Bool, true, false, ◌&&◌, ◌||◌, Option, none, some,
  List, [], ◌∷◌, ◌++◌, map, contains, Distinct, Bool-cases, Option-cases, if◌then◌else◌, ◌==◌,
  string_eq, arith, All, All-append,
}
use rbln_container_toolkit.Prelude.Texts.{path_join}
use rbln_container_toolkit.Prelude.TextOrder.{text_ltb_asym, text_ltb_trans}
use rbln_container_toolkit.Prelude.Sorting.{
  IsOrdered, sort-IsOrdered, contains-sort, sort-Distinct, sort-All,
}
use rbln_container_toolkit.Prelude.Dict.{Dict, lookup, NodupKeys}
use rbln_container_toolkit.Config.{Config}
use rbln_container_toolkit.Discover.{Device}
use rbln_container_toolkit.Discover.FirstWins.{
  keep_first, values, lookup-keep_first, keep_first-NodupKeys, keep_first-All,
}
use rbln_container_toolkit.Discover.HostFiles.{HostFiles, or_nothing, flat, flat-All, is_node}
use rbln_container_toolkit.Discover.Roots.{to_device_path}
use rbln_container_toolkit.Discover.Nodes.{
  by_path, sorted_devices, device_root, device_node, device_candidates, discover_devices,
}

abbrev pub device_paths : List Device → List String
device_paths = map (λ device. device.path)

abbrev is_some : Option Device → Bool
is_some none = false
is_some (some device) = true

abbrev IsAt : String × Device → Type 0
IsAt (path, device) = (device.path ≡ path) × (device.container_path ≡ device.path)

contains-values :
    (m : Dict Device) (path : String)
    → All IsAt m
    → contains (device_paths (values m)) path ≡ is_some (lookup path m)
unfolding lookup
contains-values [] path all = refl
contains-values ((k, device) ∷ m) path all = rw all.0.0 (elim (Bool-cases (k == path)) [
  | inl same ↦ rw same refl
  | inr other ↦ rw other (contains-values m path all.1)
])

values-Distinct : (m : Dict Device) → All IsAt m → NodupKeys m → Distinct (device_paths (values m))
values-Distinct [] all once = tt
values-Distinct ((k, device) ∷ m) all once = (
  contains-values m device.path all.1 ∙ ap is_some (ap (λ j. lookup j m) all.0.0 ∙ once.0),
  values-Distinct m all.1 once.1,
)

values-All : (m : Dict Device) → All IsAt m → All (λ d. d.container_path ≡ d.path) (values m)
values-All [] all = tt
values-All ((k, device) ∷ m) all = (all.0.1, values-All m all.1)

is_some-lookup_append :
    (path : String) (m n : Dict Device)
    → is_some (lookup path (m ++ n)) ≡ (is_some (lookup path m) || is_some (lookup path n))
unfolding lookup
is_some-lookup_append path [] n = refl
is_some-lookup_append path ((k, device) ∷ m) n = ground (arith, is_some-lookup_append path m n)

-- One device for each path, in ascending order.
sorted_devices-lem :
    (found : Dict Device)
    → All IsAt found
    → IsOrdered by_path (sorted_devices found)
      × Distinct (device_paths (sorted_devices found))
      × All (λ d. d.container_path ≡ d.path) (sorted_devices found)
      × ((path : String)
          → contains (device_paths (sorted_devices found)) path ≡ is_some (lookup path found))
unfolding sorted_devices
sorted_devices-lem found all =
    let kept = keep_first [] found in
    let at : All IsAt kept = keep_first-All IsAt [] found all in
    (
      sort-IsOrdered by_path (λ x y. text_ltb_asym x.path y.path)
          (λ x y z. text_ltb_trans x.path y.path z.path) (values kept),
      sort-Distinct by_path (λ d. d.path) (values kept)
          (values-Distinct kept at (keep_first-NodupKeys [] found)),
      sort-All by_path (λ d. d.container_path ≡ d.path) (values kept) (values-All kept at),
      λ path.
          contains-sort by_path (λ d. d.path) (values kept) path
          ∙ contains-values kept path at
          ∙ ap is_some (lookup-keep_first [] found path),
    )

module _ (host : HostFiles) (cfg : Config) where
  abbrev matches_of : String → Option (List String)
  matches_of pattern = host.glob (path_join (device_root host cfg ∷ pattern ∷ []))

  -- No pattern is in error.
  abbrev pub are_read : List String → Bool
  are_read [] = true
  are_read (pattern ∷ patterns) =
      (elim (matches_of pattern) [ none ↦ false | some matches ↦ true ]) && are_read patterns

  -- One of the matches is a node with the path on the host.
  abbrev pub has_node : String → List String → Bool
  has_node path [] = false
  has_node path (found ∷ more) =
      (is_node (host.lstat found) && to_device_path found (device_root host cfg) == path)
      || has_node path more

  abbrev pub is_listed : String → List String → Bool
  is_listed path [] = false
  is_listed path (pattern ∷ patterns) =
      has_node path (or_nothing (matches_of pattern)) || is_listed path patterns

  device_node-IsAt : (found : String) → All IsAt (device_node host cfg found)
  unfolding device_node
  device_node-IsAt found =
      elim (is_node (host.lstat found))
        as (λ b. All IsAt (
          let path = to_device_path found (device_root host cfg) in
          let device : Device = record { path = path; container_path = path } in
          if b then (path, device) ∷ [] else [])) [ true ↦ ((refl, refl), tt) | false ↦ tt ]

  is_some-lookup_node :
      (path found : String)
      → is_some (lookup path (device_node host cfg found))
        ≡ (is_node (host.lstat found) && to_device_path found (device_root host cfg) == path)
  unfolding device_node lookup
  is_some-lookup_node path found = ground arith

  is_some-lookup_nodes :
      (path : String) (matches : List String)
      → is_some (lookup path (flat (device_node host cfg) matches)) ≡ has_node path matches
  unfolding lookup
  is_some-lookup_nodes path [] = refl
  is_some-lookup_nodes path (found ∷ more) =
      is_some-lookup_append path (device_node host cfg found) (flat (device_node host cfg) more)
      ∙ rw (is_some-lookup_node path found, is_some-lookup_nodes path more) refl

  device_candidates-lem :
      (patterns : List String)
      → are_read patterns ≡ true
      → (found : Dict Device) × (device_candidates host cfg patterns ≡ some found)
        × All IsAt found
        × ((path : String) → is_some (lookup path found) ≡ is_listed path patterns)
  unfolding device_candidates lookup
  device_candidates-lem [] read = ([], refl, tt, λ path. refl)
  device_candidates-lem (pattern ∷ patterns) read = elim (Option-cases (matches_of pattern)) [
    | inl failed ↦
        absurd (let bad : true ≡ false = sym read ∙ rw failed refl in ground (arith, bad))
    | inr (matches, e) ↦
        let rest = device_candidates-lem patterns (ground (arith, read, e)) in
        let nodes = flat (device_node host cfg) matches in
        (
          nodes ++ rest.0,
          rw (device_candidates, e, rest.1) refl,
          All-append IsAt nodes rest.0
              (flat-All IsAt (device_node host cfg) matches device_node-IsAt) rest.2,
          λ path.
              is_some-lookup_append path nodes rest.0
              ∙ rw (e, is_some-lookup_nodes path matches, rest.3 path) refl,
        )
  ]

  -- When no pattern is in error, the devices are found and are, one for each path on the host and in
  -- ascending order, the nodes that a pattern matches; a device keeps its path in the container.
  pub discover_devices-listed :
      are_read cfg.devices.patterns ≡ true
      → (devices : List Device) × (discover_devices host cfg ≡ some devices)
        × IsOrdered by_path devices
        × Distinct (device_paths devices)
        × All (λ d. d.container_path ≡ d.path) devices
        × ((path : String)
            → contains (device_paths devices) path ≡ is_listed path cfg.devices.patterns)
  unfolding discover_devices
  discover_devices-listed read =
      let candidates = device_candidates-lem cfg.devices.patterns read in
      let result = sorted_devices-lem candidates.0 candidates.2 in
      (
        sorted_devices candidates.0,
        ap (Option.map sorted_devices) candidates.1,
        result.0,
        result.1,
        result.2,
        λ path. result.3 path ∙ candidates.3 path,
      )
