-- ===== src/Cdi/Validator/Names.antt =====
-- The names of the generated device entries.
use Prim.Native.String.{count}
use rbln_container_toolkit.Prelude.{
  String, ◌<>◌, ◌≡◌, ◌≢◌, refl, sym, ap, ◌∙◌, inl, inr, some, List, [], ◌∷◌, map, All, All-append,
  Option-cases, Bool-cases, arith, subst, false, ◌==◌, string_eq, eq_iff,
}
use rbln_container_toolkit.Prelude.Texts.{cut_prefix, base}
use rbln_container_toolkit.Prelude.Prefixes.{cut_prefix-rest}
use rbln_container_toolkit.Discover.{Device}
use rbln_container_toolkit.Topology.{RsdResolver}
use rbln_container_toolkit.Cdi.Spec.{ContainerEdits, Entry, Spec, is_container_edits_empty}
use rbln_container_toolkit.Cdi.Device.{
  DeviceClass, unknown, rbln, rsd, rblnfs, index_of_name, class_of_name, device_index,
  parse_device_class,
}
use rbln_container_toolkit.Cdi.Device.Selection.{HasClass}
use rbln_container_toolkit.Cdi.Entries.{
  npu_entry, rsd_entry, rblnfs_entry, build_device_entries, build_rblnfs_device_entries,
  index_rsd_devices,
}
use rbln_container_toolkit.Cdi.Fold.{fold_devices, fold_common_edits_into_empty_devices}
use text.Mathlib.TextLemmas.{append-nil, length-append, length-cons}

abbrev pub IsNamed : Entry → Type 0
IsNamed d = d.name ≢ ""

-- A name without an index is of no class.
class_of_name-index : (name : String) → index_of_name name ≡ "" → class_of_name name ≡ unknown
unfolding index_of_name class_of_name
class_of_name-index name h = elim (Option-cases (cut_prefix name "rblnfs")) [
  | inr (rest, first) ↦ bare "rblnfs" rest first (rw (index_of_name, first) at h) refl
  | inl not_first ↦ elim (Option-cases (cut_prefix name "rbln")) [
    | inr (rest, second) ↦ bare "rbln" rest second (rw (index_of_name, not_first, second) at h) refl
    | inl not_second ↦ elim (Option-cases (cut_prefix name "rsd")) [
      | inr (rest, third) ↦
          bare "rsd" rest third (rw (index_of_name, not_first, not_second, third) at h) refl
      | inl not_third ↦
          let is : name ≡ "" = rw (index_of_name, not_first, not_second, not_third) at h in
          subst (λ n. class_of_name n ≡ unknown) (sym is) refl
    ]
  ]
]
  where
    bare :
        (p rest : String)
        → cut_prefix name p ≡ some rest
        → rest ≡ ""
        → class_of_name p ≡ unknown
        → class_of_name name ≡ unknown
    bare p rest cut nothing none_of_it =
        subst (λ n. class_of_name n ≡ unknown)
          (sym (cut_prefix-rest name p rest cut ∙ (ap (λ r. p <> r) nothing ∙ append-nil p)))
          none_of_it

-- A device of a class has an index.
device_index-ne :
    (c : DeviceClass) (dev : Device) → c ≢ unknown → HasClass c dev → device_index dev ≢ ""
unfolding device_index parse_device_class
device_index-ne c dev known is nothing =
    known (sym is ∙ class_of_name-index (base dev.container_path) nothing)

prefixed-ne : (p s : String) → p ≢ "" → p <> s ≢ ""
prefixed-ne String.[] s some_text same = some_text refl
prefixed-ne (String.◌∷◌ c p) s some_text same =
    let empty : count (String.◌∷◌ c p <> s) ≡ 0 = ap count same in
    absurd (omega (arith, empty, length-append (String.◌∷◌ c p) s, length-cons c p))

pub literal-ne : (p : String) → (p == "") ≡ false → p ≢ ""
literal-ne p h same = ground (arith, eq_iff p "")

-- The names of entries that are made of devices of a class.
map-IsNamed :
    (c : DeviceClass) (make : Device → Entry)
    → ((dev : Device) → HasClass c dev → IsNamed (make dev))
    → (devs : List Device) → All (HasClass c) devs
    → All IsNamed (map make devs)
map-IsNamed c make named [] classes = tt
map-IsNamed c make named (dev ∷ devs) classes =
    (named dev classes.0, map-IsNamed c make named devs classes.1)

pub build_device_entries-IsNamed :
    (resolver : RsdResolver) (rbln_devs rsd_devs : List Device)
    → All (HasClass rbln) rbln_devs
    → All (HasClass rsd) rsd_devs
    → All IsNamed (build_device_entries resolver rbln_devs rsd_devs)
unfolding build_device_entries npu_entry rsd_entry
build_device_entries-IsNamed resolver rbln_devs rsd_devs npus groups =
    All-append IsNamed (map (npu_entry resolver (index_rsd_devices rsd_devs)) rbln_devs) _
      (map-IsNamed rbln (npu_entry resolver (index_rsd_devices rsd_devs))
        (λ dev is. device_index-ne rbln dev (λ same. ground arith) is) rbln_devs npus)
      (All-append IsNamed (map rsd_entry rsd_devs) _
        (map-IsNamed rsd rsd_entry
          (λ dev is. prefixed-ne "rsd" (device_index dev) (literal-ne "rsd" refl)) rsd_devs groups)
        (literal-ne "all" refl, (literal-ne "runtime" refl, tt)))

pub build_rblnfs_device_entries-IsNamed :
    (devs : List Device)
    → All (HasClass rblnfs) devs
    → All IsNamed (build_rblnfs_device_entries devs)
unfolding build_rblnfs_device_entries rblnfs_entry
build_rblnfs_device_entries-IsNamed devs classes =
    All-append IsNamed (map rblnfs_entry devs) _
      (map-IsNamed rblnfs rblnfs_entry
        (λ dev is. prefixed-ne "rblnfs" (device_index dev) (literal-ne "rblnfs" refl)) devs classes)
      (literal-ne "all" refl, tt)

-- Folding keeps the names.
fold_devices-IsNamed :
    (common : ContainerEdits) (devices : List Entry)
    → All IsNamed devices
    → All IsNamed (fold_devices common devices).0
unfolding fold_devices
fold_devices-IsNamed common [] named = tt
fold_devices-IsNamed common (d ∷ devices) named =
    let rest = fold_devices-IsNamed common devices named.1 in
    elim (Bool-cases (is_container_edits_empty d.edits)) [
      | inl bare ↦ rw bare (named.0, rest)
      | inr full ↦ rw full (named.0, rest)
    ]

pub fold-IsNamed :
    (spec : Spec)
    → All IsNamed spec.devices
    → All IsNamed (fold_common_edits_into_empty_devices spec).devices
unfolding fold_common_edits_into_empty_devices
fold-IsNamed spec named =
    let folded = fold_devices-IsNamed spec.edits spec.devices named in
    elim (Bool-cases (is_container_edits_empty spec.edits)) [
      | inl bare ↦ rw (fold_common_edits_into_empty_devices, bare) named
      | inr full ↦ elim (Bool-cases (fold_devices spec.edits spec.devices).1) [
        | inl some_folded ↦ rw (fold_common_edits_into_empty_devices, full, some_folded) folded
        | inr none_folded ↦ rw (fold_common_edits_into_empty_devices, full, none_folded) folded
      ]
    ]

-- Folding keeps the version and the kind.
pub fold-header :
    (spec : Spec)
    → ((fold_common_edits_into_empty_devices spec).version ≡ spec.version)
      × ((fold_common_edits_into_empty_devices spec).kind ≡ spec.kind)
unfolding fold_common_edits_into_empty_devices
fold-header spec = ground arith
