-- ===== src/Cdi/Entries/Groups.antt =====
-- Which RSD group device an NPU's entry carries.
use mathlib.Core.List.{Mem, mem-cons_self, mem-cons_of_mem}
use rbln_container_toolkit.Prelude.{
  ℕ, ◌≡◌, ◌≢◌, refl, ◌⊎◌, inl, inr, Option, none, some, List, [], ◌∷◌, All, Option-cases, subst,
  arith, nat_eq,
}
use rbln_container_toolkit.Prelude.Decimal.{parse_uint}
use rbln_container_toolkit.Discover.{Device}
use rbln_container_toolkit.Topology.{RsdResolver}
use rbln_container_toolkit.Cdi.Device.{device_index}
use rbln_container_toolkit.Cdi.Entries.{
  create_device_node, create_rsd_alias_node, keep_later, index_rsd_devices, resolve_rsd_for,
  npu_entry,
}

-- The number of a device, as the generator parses it: 32 bits, with no sign.
abbrev pub number_of : Device → Option ℕ
number_of dev = parse_uint (device_index dev) 32

keep_later-found :
    (later : Option Device) (number : Option ℕ) (i : ℕ) (e d : Device)
    → keep_later later number i e ≡ some d
    → (later ≡ some d) ⊎ ((number ≡ some i) × (e ≡ d))
keep_later-found (some l) number i e d h = inl h
keep_later-found none none i e d h = ground arith
keep_later-found none (some j) i e d h = ground (arith, nat_eq.same_iff j i)

keep_later-missing :
    (later : Option Device) (number : Option ℕ) (i : ℕ) (e : Device)
    → keep_later later number i e ≡ none
    → (later ≡ none) × (number ≢ some i)
keep_later-missing (some l) number i e h = ground arith
keep_later-missing none none i e h = (refl, λ h. ground arith)
keep_later-missing none (some j) i e h = ground (arith, nat_eq.same_iff j i)

-- A device found under a number is one of the devices, and has that number.
index_found :
    (devs : List Device) (i : ℕ) (d : Device)
    → index_rsd_devices devs i ≡ some d
    → Mem d devs × (number_of d ≡ some i)
unfolding index_rsd_devices
index_found [] i d h = ground arith
index_found (e ∷ devs) i d h =
    elim (keep_later-found (index_rsd_devices devs i) (number_of e) i e d h) [
      | inl hl ↦ let found = index_found devs i d hl in (mem-cons_of_mem e found.0, found.1)
      | inr (hn, same) ↦
          subst (λ x. Mem x (e ∷ devs) × (number_of x ≡ some i)) same (mem-cons_self, hn)
    ]

index_missing :
    (devs : List Device) (i : ℕ)
    → index_rsd_devices devs i ≡ none
    → All (λ d. number_of d ≢ some i) devs
unfolding index_rsd_devices
index_missing [] i h = tt
index_missing (e ∷ devs) i h =
    let step = keep_later-missing (index_rsd_devices devs i) (number_of e) i e h in
    (step.1, index_missing devs i step.0)

resolve_rsd_for-known :
    (resolver : RsdResolver) (by_index : ℕ → Option Device) (npu : Device) (n g : ℕ)
    → number_of npu ≡ some n
    → resolver n ≡ some g
    → resolve_rsd_for resolver npu by_index ≡ by_index g
unfolding resolve_rsd_for
resolve_rsd_for-known resolver by_index npu n g hn hg = rw (resolve_rsd_for, hn, hg) refl

-- The entry of an NPU whose number and group the driver knows carries the NPU's own node and, if a
-- device of that group was found, the node of such a device, which the container sees as
-- `/dev/rsd0` whatever its number on the host; if none was found, it carries the NPU's node alone.
pub npu_entry-group :
    (resolver : RsdResolver) (rsds : List Device) (npu : Device) (n g : ℕ)
    → number_of npu ≡ some n
    → resolver n ≡ some g
    → let nodes = (npu_entry resolver (index_rsd_devices rsds) npu).edits.device_nodes in
      ((r : Device) × Mem r rsds
        × (number_of r ≡ some g)
        × (nodes
            ≡ create_device_node npu
              ∷ record { path = "/dev/rsd0"; host_path = r.path; permissions = "rw" }
              ∷ []))
      ⊎ (All (λ r. number_of r ≢ some g) rsds × (nodes ≡ create_device_node npu ∷ []))
unfolding npu_entry create_rsd_alias_node
npu_entry-group resolver rsds npu n g hn hg =
    let known = resolve_rsd_for-known resolver (index_rsd_devices rsds) npu n g hn hg in
    elim (Option-cases (index_rsd_devices rsds g)) [
      | inl missing ↦ inr (index_missing rsds g missing, rw (known, missing) refl)
      | inr (r, found) ↦
          let is = index_found rsds g r found in inl (r, is.0, is.1, rw (known, found) refl)
    ]
