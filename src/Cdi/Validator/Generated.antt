-- ===== src/Cdi/Validator/Generated.antt =====
-- What the validator accepts, and that the generated specs are accepted.
use rbln_container_toolkit.Prelude.{
  ℕ, ◌+◌, String, ◌<>◌, ◌≡◌, ◌≢◌, ◌↔◌, refl, sym, ap, ◌∙◌, inl, inr, true, false, Option, none,
  some, List, [], ◌∷◌, All, Bool-cases, if◌then◌else◌, ◌==◌, string_eq, arith, eq_iff, beq-false,
  subst,
}
use rbln_container_toolkit.Prelude.Texts.{contains_text, has_prefix, cut_prefix}
use rbln_container_toolkit.Prelude.Prefixes.{contains_text-append}
use rbln_container_toolkit.Cdi.Spec.{Entry, Spec}
use rbln_container_toolkit.Cdi.Validator.{validate_spec, check_names}
use rbln_container_toolkit.Cdi.Validator.Names.{
  IsNamed, literal-ne, build_device_entries-IsNamed, build_rblnfs_device_entries-IsNamed,
  fold-IsNamed, fold-header,
}
use rbln_container_toolkit.Config.{Config}
use rbln_container_toolkit.Discover.{Device, DiscoveryResult}
use rbln_container_toolkit.Topology.{RsdResolver}
use rbln_container_toolkit.Cdi.Device.{rbln, rsd, rblnfs, classify_devices, classify_rblnfs_devices}
use rbln_container_toolkit.Cdi.Device.Selection.{HasClass, classify-IsSelection, sort-IsSelection}
use rbln_container_toolkit.Cdi.Fold.{fold_common_edits_into_empty_devices}
use rbln_container_toolkit.Cdi.Edits.{Host}
use rbln_container_toolkit.Cdi.Generator.{unfolded_spec, generate, rds_spec, generate_rds}
use mathlib.Core.Option.{some-injective}
use text.Mathlib.TextLemmas.{cons-append}

check_names_iff :
    (i : ℕ) (devices : List Entry) → (check_names i devices ≡ none) ↔ All IsNamed devices
unfolding check_names
check_names_iff i [] = (λ h. tt, λ h. refl)
check_names_iff i (d ∷ devices) =
    let (there, back) = check_names_iff (i + 1) devices in
    (
      λ h. (λ is. ground (arith, eq_iff d.name ""), there (ground arith)),
      λ all.
          let named : (d.name == "") ≡ false = beq-false d.name "" all.0 in
          rw (check_names, named) (back all.1),
    )

-- `Validate` returns no error exactly for a spec that is there, has a version, a kind with a slash,
-- and a name for each device.
pub validate_spec_iff :
    (spec : Spec)
    → (validate_spec (some spec) ≡ none)
      ↔ ((spec.version ≢ "") × (contains_text spec.kind "/" ≡ true) × All IsNamed spec.devices)
unfolding validate_spec
validate_spec_iff spec =
    let (there, back) = check_names_iff 0 spec.devices in
    (
      λ h. (λ is. ground (arith, eq_iff spec.version ""), ground arith, there (ground arith)),
      λ all.
          let versioned : (spec.version == "") ≡ false = beq-false spec.version "" all.0 in
          rw (validate_spec, versioned, all.1) (back all.2),
    )

slash_in_kind : (vendor class : String) → contains_text (vendor <> ("/" <> class)) "/" ≡ true
unfolding contains_text has_prefix cut_prefix
slash_in_kind vendor class =
    contains_text-append vendor ("/" <> class) "/"
      (subst (λ t. contains_text t "/" ≡ true) (sym (cons-append "/" "" class)) refl)

classified :
    (cfg : Config) (result : Option DiscoveryResult)
    → All (HasClass rbln) (classify_devices cfg result).0
      × All (HasClass rsd) (classify_devices cfg result).1
unfolding classify_devices
classified cfg none = (tt, tt)
classified cfg (some r) = elim (Bool-cases cfg.devices.disabled) [
  | inl off ↦ rw (classify_devices, off) (tt, tt)
  | inr on ↦
      let (npus, groups, nodes) = classify-IsSelection cfg r on in
      (npus.of_its_class, groups.of_its_class)
]

unfolded-valid :
    (cfg : Config) (resolver : RsdResolver) (host : Host) (result : Option DiscoveryResult)
    → ((unfolded_spec cfg resolver host result).version ≢ "")
      × (contains_text (unfolded_spec cfg resolver host result).kind "/" ≡ true)
      × All IsNamed (unfolded_spec cfg resolver host result).devices
unfolding unfolded_spec
unfolded-valid cfg resolver host result = (
  literal-ne "0.5.0" refl,
  slash_in_kind cfg.cdi.vendor cfg.cdi.class,
  build_device_entries-IsNamed resolver (classify_devices cfg result).0
      (classify_devices cfg result).1 (classified cfg result).0 (classified cfg result).1,
)

-- Every spec that `Generate` makes is accepted by `Validate`, whatever was configured and found.
pub validate_spec-generate :
    (cfg : Config) (resolver : RsdResolver) (host : Host) (result : Option DiscoveryResult)
    → validate_spec (some (generate cfg resolver host result)) ≡ none
unfolding generate
validate_spec-generate cfg resolver host result =
    let spec = unfolded_spec cfg resolver host result in
    let (versioned, slash, named) = unfolded-valid cfg resolver host result in
    let folded = fold_common_edits_into_empty_devices spec in
    let (version, kind) = fold-header spec in
    elim cfg.devices.disabled as (λ b. validate_spec (some (if b then folded else spec)) ≡ none) [
      | false ↦ (validate_spec_iff spec).1 (versioned, slash, named)
      | true ↦ (validate_spec_iff folded).1 (
        λ same. versioned (sym version ∙ same),
        ap (λ k. contains_text k "/") kind ∙ slash,
        fold-IsNamed spec named,
      )
    ]

rblnfs_classified :
    (result : Option DiscoveryResult) → All (HasClass rblnfs) (classify_rblnfs_devices result)
unfolding classify_rblnfs_devices
rblnfs_classified none = tt
rblnfs_classified (some r) = let is = sort-IsSelection rblnfs r.devices in is.of_its_class

-- So is every RDS spec.
pub validate_spec-generate_rds :
    (cfg : Config) (result : Option DiscoveryResult) (spec : Spec)
    → generate_rds cfg result ≡ some spec
    → validate_spec (some spec) ≡ none
unfolding generate_rds rds_spec
validate_spec-generate_rds cfg result spec made =
    rds cfg (classify_rblnfs_devices result) spec (rblnfs_classified result) made
  where
    rds :
        (cfg : Config) (devs : List Device) (spec : Spec)
        → All (HasClass rblnfs) devs
        → rds_spec cfg devs ≡ some spec
        → validate_spec (some spec) ≡ none
    rds cfg [] spec classes made = ground arith
    rds cfg (d ∷ devs) spec classes made =
        subst (λ s. validate_spec (some s) ≡ none) (some-injective _ spec made)
          ((validate_spec_iff _).1 (
            literal-ne "0.5.0" refl,
            slash_in_kind cfg.cdi.vendor cfg.rds.class,
            build_rblnfs_device_entries-IsNamed (d ∷ devs) classes,
          ))
