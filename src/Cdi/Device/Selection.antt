-- ===== src/Cdi/Device/Selection.antt =====
-- Which devices go into which spec, and in which order.
use rbln_container_toolkit.Prelude.{
  ◌+◌, ◌≡◌, refl, String, Bool, not, ◌&&◌, ◌||◌, none, ◌∙◌, inl, inr, true, false, some, List, [],
  ◌∷◌, length, All, Bool-cases, arith,
}
use rbln_container_toolkit.Prelude.Sorting.{
  IsSortedBy, count, count-sort_by, sort_by-All, sort_by-IsSortedBy,
}
use rbln_container_toolkit.Prelude.Texts.{base, cut_prefix}
use rbln_container_toolkit.Prelude.Decimal.{atoi}
use rbln_container_toolkit.Config.{Config}
use rbln_container_toolkit.Discover.{Device, DiscoveryResult}
use rbln_container_toolkit.Cdi.Device.{
  class_of_name, DeviceClass, unknown, rbln, rsd, rblnfs, parse_device_class, is_class, of_class,
  index_key, sort_devices_by_index, classify_devices, classify_rblnfs_devices,
}

abbrev pub HasClass : DeviceClass → Device → Type 0
HasClass c dev = parse_device_class dev ≡ c

class_of_test : (c d : DeviceClass) → is_class c d ≡ true → c ≡ d
class_of_test rbln d h = ground arith
class_of_test _ d h = ground arith

of_class-All : (c : DeviceClass) (devs : List Device) → All (HasClass c) (of_class c devs)
unfolding of_class
of_class-All c [] = tt
of_class-All c (dev ∷ devs) = elim (Bool-cases (is_class (parse_device_class dev) c)) [
  | inl same ↦ rw same (class_of_test (parse_device_class dev) c same, of_class-All c devs)
  | inr differs ↦ rw differs (of_class-All c devs)
]

-- A name is the prefix with a number behind it.
abbrev pub numbered : String → String → Bool
numbered prefix name = elim (cut_prefix name prefix) [
  | none ↦ false
  | some rest ↦ elim (atoi rest) [ none ↦ false | some n ↦ true ]
]

-- The names of the devices of a class.
abbrev pub named : DeviceClass → String → Bool
named rblnfs name = numbered "rblnfs" name
named rbln name = numbered "rbln" name && not (numbered "rblnfs" name)
named rsd name = numbered "rsd" name && not (numbered "rblnfs" name || numbered "rbln" name)
named unknown name = not (numbered "rblnfs" name || (numbered "rbln" name || numbered "rsd" name))

is_class-named : (c : DeviceClass) (name : String) → is_class (class_of_name name) c ≡ named c name
unfolding class_of_name
is_class-named rblnfs name = ground arith
is_class-named rbln name = ground arith
is_class-named rsd name = ground arith
is_class-named unknown name = ground arith

count-of_class :
    (c : DeviceClass) (q : Device → Bool) (found : List Device)
    → count q (of_class c found) ≡ count (λ d. named c (base d.container_path) && q d) found
unfolding of_class parse_device_class
count-of_class c q [] = refl
count-of_class c q (dev ∷ devs) =
    ground (arith, count-of_class c q devs, is_class-named c (base dev.container_path))

-- What a selection of a class holds: of the devices found those whose name in the container is one of
-- the class, each as often as it was found, and no others, in ascending order of their numbers.
pub record IsSelection (c : DeviceClass) (found devs : List Device) : Type 0 where
  pub of_its_class : All (HasClass c) devs
  pub ascending : IsSortedBy index_key devs
  pub all_of_them :
      (q : Device → Bool) → count q devs ≡ count (λ d. named c (base d.container_path) && q d) found

pub sort-IsSelection :
    (c : DeviceClass) (found : List Device)
    → IsSelection c found (sort_devices_by_index (of_class c found))
unfolding sort_devices_by_index
sort-IsSelection c found = record {
  of_its_class = sort_by-All index_key (HasClass c) (of_class c found) (of_class-All c found);
  ascending = sort_by-IsSortedBy index_key (of_class c found);
  all_of_them = λ q. count-sort_by index_key q (of_class c found) ∙ count-of_class c q found;
}

-- With device nodes enabled the NPU spec gets exactly the devices found that are named `rbln` with a
-- number, and those named `rsd` with a number, and the RDS spec exactly those named `rblnfs` with a
-- number, each as often as it was found and in ascending order of their numbers.
pub classify-IsSelection :
    (cfg : Config) (r : DiscoveryResult)
    → cfg.devices.disabled ≡ false
    → IsSelection rbln r.devices (classify_devices cfg (some r)).0
      × IsSelection rsd r.devices (classify_devices cfg (some r)).1
      × IsSelection rblnfs r.devices (classify_rblnfs_devices (some r))
unfolding classify_devices classify_rblnfs_devices
classify-IsSelection cfg r on = rw on (
  sort-IsSelection rbln r.devices,
  sort-IsSelection rsd r.devices,
  sort-IsSelection rblnfs r.devices,
)

-- Each device has one class, so the four selections share the devices out.
pub of_class_partition :
    (devs : List Device)
    → length (of_class rbln devs)
        + length (of_class rsd devs)
        + length (of_class rblnfs devs)
        + length (of_class unknown devs)
      ≡ length devs
unfolding of_class
of_class_partition [] = refl
of_class_partition (dev ∷ devs) = ground (arith, of_class_partition devs)
