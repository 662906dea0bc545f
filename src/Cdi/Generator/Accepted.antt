-- ===== src/Cdi/Generator/Accepted.antt =====
-- Which of the generated specs a CDI parser accepts: one with no empty entry.
use mathlib.Core.Option.{some-injective}
use rbln_container_toolkit.Prelude.{
  ◌<>◌, ◌≡◌, ◌≢◌, ◌↔◌, inl, inr, refl, sym, ◌∙◌, ap, subst, true, false, ◌&&◌, Option, none, some,
  List, [], ◌∷◌, ◌++◌, map, is_empty, All, All-append, Bool-cases, arith, if◌then◌else◌,
}
use rbln_container_toolkit.Config.{Config}
use rbln_container_toolkit.Discover.{DiscoveryResult, Device}
use rbln_container_toolkit.Topology.{RsdResolver}
use rbln_container_toolkit.Cdi.Spec.{
  ContainerEdits, Entry, Spec, no_edits, node_edits, is_container_edits_empty,
}
use rbln_container_toolkit.Cdi.Device.{classify_devices, classify_rblnfs_devices}
use rbln_container_toolkit.Cdi.Entries.{
  create_device_node, npu_entry, rsd_entry, rblnfs_entry, index_rsd_devices, build_device_entries,
  build_rblnfs_device_entries,
}
use rbln_container_toolkit.Cdi.Edits.{Host, build_common_edits}
use rbln_container_toolkit.Cdi.Fold.{fold_devices, fold_common_edits_into_empty_devices}
use rbln_container_toolkit.Cdi.Fold.Effective.{
  effective, IsFullEntry, combine-no_edits, fold_keeps_effective,
}
use rbln_container_toolkit.Cdi.Generator.{
  cdi_version, unfolded_spec, generate, generate_rds, rds_spec,
}

-- No entry has empty edits: what CDI parsers require of a spec.
abbrev pub IsAccepted : Spec → Type 0
IsAccepted spec = All IsFullEntry spec.devices

All-map :
    {A : Type 0} (f : A → Entry) (xs : List A)
    → ((a : A) → IsFullEntry (f a))
    → All IsFullEntry (map f xs)
All-map f [] h = tt
All-map f (x ∷ xs) h = (h x, All-map f xs h)

All-right : (xs ys : List Entry) → All IsFullEntry (xs ++ ys) → All IsFullEntry ys
All-right [] ys h = h
All-right (x ∷ xs) ys h = All-right xs ys h.1

npu_entry-full :
    (resolver : RsdResolver) (rsds : List Device) (d : Device)
    → IsFullEntry (npu_entry resolver (index_rsd_devices rsds) d)
unfolding npu_entry is_container_edits_empty
npu_entry-full resolver rsds d = refl

rsd_entry-full : (d : Device) → IsFullEntry (rsd_entry d)
unfolding rsd_entry is_container_edits_empty
rsd_entry-full d = refl

rblnfs_entry-full : (d : Device) → IsFullEntry (rblnfs_entry d)
unfolding rblnfs_entry is_container_edits_empty
rblnfs_entry-full d = refl

-- The two umbrella entries are full when there is a device of either kind.
umbrella_empty :
    (npus rsds : List Device)
    → is_container_edits_empty
        (node_edits (map create_device_node npus ++ map create_device_node rsds))
      ≡ (is_empty npus && is_empty rsds)
unfolding is_container_edits_empty
umbrella_empty [] [] = refl
umbrella_empty [] (x ∷ xs) = refl
umbrella_empty (x ∷ xs) rsds = refl

-- The entries of the devices are full: whether all are depends on the umbrella entries.
entries_accepted :
    (resolver : RsdResolver) (npus rsds : List Device)
    → All IsFullEntry (build_device_entries resolver npus rsds)
      ↔ ((is_empty npus && is_empty rsds) ≡ false)
unfolding build_device_entries
entries_accepted resolver npus rsds =
    let umbrella = umbrella_empty npus rsds in
    let groups = map rsd_entry rsds in
    (
      λ h.
          sym umbrella
          ∙ (All-right groups _
              (All-right (map (npu_entry resolver (index_rsd_devices rsds)) npus) _ h)).0,
      λ found.
          All-append IsFullEntry _ _
            (All-map (npu_entry resolver (index_rsd_devices rsds)) npus
              (npu_entry-full resolver rsds))
            (All-append IsFullEntry groups _ (All-map rsd_entry rsds rsd_entry-full)
              (umbrella ∙ found, (umbrella ∙ found, tt))),
    )

generate-enabled :
    (cfg : Config) (resolver : RsdResolver) (host : Host) (result : Option DiscoveryResult)
    → cfg.devices.disabled ≡ false
    → generate cfg resolver host result ≡ unfolded_spec cfg resolver host result
unfolding generate
generate-enabled cfg resolver host result on = rw on refl

-- With device nodes enabled a spec is accepted if and only if it has an NPU or an RSD device.
pub generate-IsAccepted_iff :
    (cfg : Config) (resolver : RsdResolver) (host : Host) (result : Option DiscoveryResult)
    → cfg.devices.disabled ≡ false
    → let (npus, rsds) = classify_devices cfg result in
      IsAccepted (generate cfg resolver host result) ↔ ((is_empty npus && is_empty rsds) ≡ false)
generate-IsAccepted_iff cfg resolver host result on =
    let (npus, rsds) = classify_devices cfg result in
    subst (λ spec. IsAccepted spec ↔ ((is_empty npus && is_empty rsds) ≡ false))
      (sym (generate-enabled cfg resolver host result on))
      (unfold unfolded_spec in entries_accepted resolver npus rsds)

no_devices :
    (cfg : Config) (result : Option DiscoveryResult)
    → cfg.devices.disabled ≡ true
    → classify_devices cfg result ≡ ([], [])
unfolding classify_devices
no_devices cfg none off = refl
no_devices cfg (some r) off = rw off refl

-- The NPU spec with device nodes disabled, before the folding.
abbrev bare_spec : Config → ContainerEdits → Spec
bare_spec cfg common = record {
  version = cdi_version;
  kind = cfg.cdi.vendor <> ("/" <> cfg.cdi.class);
  devices =
      record { name = "all"; edits = no_edits }
      ∷ record { name = "runtime"; edits = no_edits }
      ∷ [];
  edits = common;
}

unfolded_spec-bare :
    (cfg : Config) (resolver : RsdResolver) (host : Host) (result : Option DiscoveryResult)
    → cfg.devices.disabled ≡ true
    → unfolded_spec cfg resolver host result ≡ bare_spec cfg (build_common_edits cfg host result)
unfolding unfolded_spec
unfolded_spec-bare cfg resolver host result off =
    subst
      (λ devs.
        record {
          version = cdi_version;
          kind = cfg.cdi.vendor <> ("/" <> cfg.cdi.class);
          devices = build_device_entries resolver devs.0 devs.1;
          edits = build_common_edits cfg host result;
        }
        ≡ bare_spec cfg (build_common_edits cfg host result))
      (sym (no_devices cfg result off)) (unfold build_device_entries in refl)

generate-bare :
    (cfg : Config) (resolver : RsdResolver) (host : Host) (result : Option DiscoveryResult)
    → cfg.devices.disabled ≡ true
    → generate cfg resolver host result
      ≡ fold_common_edits_into_empty_devices (bare_spec cfg (build_common_edits cfg host result))
unfolding generate
generate-bare cfg resolver host result off =
    let spec = unfolded_spec cfg resolver host result in
    ap (λ b. if b then fold_common_edits_into_empty_devices spec else spec) off
    ∙ ap fold_common_edits_into_empty_devices (unfolded_spec-bare cfg resolver host result off)

bare_empty : is_container_edits_empty no_edits ≡ true
unfolding is_container_edits_empty
bare_empty = refl

true-no_false : true ≢ false
true-no_false h = ground arith

bare-IsAccepted :
    (cfg : Config) (common : ContainerEdits)
    → IsAccepted (fold_common_edits_into_empty_devices (bare_spec cfg common))
      ↔ (is_container_edits_empty common ≡ false)
unfolding fold_common_edits_into_empty_devices fold_devices
bare-IsAccepted cfg common = elim (Bool-cases (is_container_edits_empty common)) [
  | inl empty ↦ rw empty (λ h. h.0, λ h. absurd (true-no_false h))
  | inr full ↦ rw full (λ h. refl, λ h. (full, (full, tt)))
]

-- With device nodes disabled a spec has the entries `all` and `runtime` and no other, either gives a
-- container the common edits, and the spec is accepted if and only if those are not empty.
pub generate_disabled :
    (cfg : Config) (resolver : RsdResolver) (host : Host) (result : Option DiscoveryResult)
    → cfg.devices.disabled ≡ true
    → let spec = generate cfg resolver host result in
      let common = build_common_edits cfg host result in
      (effective spec ≡ ("all", common) ∷ ("runtime", common) ∷ [])
      × (IsAccepted spec ↔ (is_container_edits_empty common ≡ false))
generate_disabled cfg resolver host result off =
    let common = build_common_edits cfg host result in
    rw (generate-bare cfg resolver host result off) (
      fold_keeps_effective (bare_spec cfg common) (inl (bare_empty, (bare_empty, tt)))
          ∙ rw combine-no_edits refl,
      bare-IsAccepted cfg common,
    )

rds_accepted :
    (d : Device) (devs : List Device) → All IsFullEntry (build_rblnfs_device_entries (d ∷ devs))
unfolding build_rblnfs_device_entries is_container_edits_empty
rds_accepted d devs =
    All-append IsFullEntry (map rblnfs_entry (d ∷ devs)) _
      (All-map rblnfs_entry (d ∷ devs) rblnfs_entry-full) (refl, tt)

rds_spec-IsAccepted :
    (cfg : Config) (devs : List Device)
    → ((rds_spec cfg devs ≡ none) ↔ (devs ≡ []))
      × ((spec : Spec) → rds_spec cfg devs ≡ some spec → IsAccepted spec)
unfolding rds_spec
rds_spec-IsAccepted cfg [] = ((λ h. refl, λ h. refl), λ spec h. ground arith)
rds_spec-IsAccepted cfg (d ∷ devs) = (
  (λ h. ground arith, λ h. ground arith),
  λ spec h. subst IsAccepted (some-injective _ spec h) (rds_accepted d devs),
)

-- There is an RDS spec if and only if an RDS device was found, and every RDS spec is accepted.
pub generate_rds-IsAccepted :
    (cfg : Config) (result : Option DiscoveryResult)
    → ((generate_rds cfg result ≡ none) ↔ (classify_rblnfs_devices result ≡ []))
      × ((spec : Spec) → generate_rds cfg result ≡ some spec → IsAccepted spec)
unfolding generate_rds
generate_rds-IsAccepted cfg result = rds_spec-IsAccepted cfg (classify_rblnfs_devices result)
