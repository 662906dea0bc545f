-- ===== src/Cdi/Fold/Effective.antt =====
-- What a container gets that selects a device entry, before and after the folding.
use mathlib.Core.List.{append-nil}
use rbln_container_toolkit.Prelude.{
  String, ◌≡◌, ◌⊎◌, inl, inr, refl, sym, ap, subst, Bool, true, false, ◌||◌, List, [], ◌∷◌, ◌++◌,
  map, is_empty, All, Bool-cases, arith,
}
use rbln_container_toolkit.Cdi.Spec.{
  ContainerEdits, Entry, Spec, no_edits, is_container_edits_empty,
}
use rbln_container_toolkit.Cdi.Fold.{fold_devices, fold_common_edits_into_empty_devices}

-- The edits of both: those of the spec, then those of the entry.
abbrev pub combine : ContainerEdits → ContainerEdits → ContainerEdits
combine a b = record {
  env = a.env ++ b.env;
  device_nodes = a.device_nodes ++ b.device_nodes;
  hooks = a.hooks ++ b.hooks;
  mounts = a.mounts ++ b.mounts;
  intel_rdt = a.intel_rdt || b.intel_rdt;
  additional_gids = a.additional_gids ++ b.additional_gids;
}

abbrev pub selections : ContainerEdits → List Entry → List (String × ContainerEdits)
selections common = map (λ d. (d.name, combine common d.edits))

-- By name of the entry, what a container that selects it gets.
abbrev pub effective : Spec → List (String × ContainerEdits)
effective spec = selections spec.edits spec.devices

abbrev pub IsEmptyEntry : Entry → Type 0
IsEmptyEntry d = is_container_edits_empty d.edits ≡ true

abbrev pub IsFullEntry : Entry → Type 0
IsFullEntry d = is_container_edits_empty d.edits ≡ false

empty_list : {A : Type 0} (xs : List A) → is_empty xs ≡ true → xs ≡ []
empty_list [] h = refl
empty_list (x ∷ xs) h = ground arith

-- Edits that are empty are those of no field.
empty_is_no_edits : (e : ContainerEdits) → is_container_edits_empty e ≡ true → e ≡ no_edits
unfolding is_container_edits_empty
empty_is_no_edits e h = λ i. record {
  env = empty_list e.env (ground arith) i;
  device_nodes = empty_list e.device_nodes (ground arith) i;
  hooks = empty_list e.hooks (ground arith) i;
  mounts = empty_list e.mounts (ground arith) i;
  intel_rdt = not_set i;
  additional_gids = empty_list e.additional_gids (ground arith) i;
}
  where
    not_set : e.intel_rdt ≡ false
    not_set = ground arith

or-false : (b : Bool) → (b || false) ≡ b
or-false true = refl
or-false false = refl

pub combine-no_edits : (e : ContainerEdits) → combine e no_edits ≡ e
combine-no_edits e = λ i. record {
  env = append-nil e.env i;
  device_nodes = append-nil e.device_nodes i;
  hooks = append-nil e.hooks i;
  mounts = append-nil e.mounts i;
  intel_rdt = or-false e.intel_rdt i;
  additional_gids = append-nil e.additional_gids i;
}

fold_devices-empty :
    (c : ContainerEdits) (ds : List Entry)
    → All IsEmptyEntry ds
    → selections no_edits (fold_devices c ds).0 ≡ selections c ds
unfolding fold_devices
fold_devices-empty c [] h = refl
fold_devices-empty c (d ∷ ds) h =
    let same : d.edits ≡ no_edits = empty_is_no_edits d.edits h.0 in
    let alike : combine no_edits c ≡ combine c d.edits =
      sym (subst (λ e. combine c e ≡ c) (sym same) (combine-no_edits c)) in
    rw h.0 (λ i. (d.name, alike i) ∷ fold_devices-empty c ds h.1 i)

fold_devices-unfilled :
    (c : ContainerEdits) (ds : List Entry)
    → (fold_devices c ds).1 ≡ false
    → (fold_devices c ds).0 ≡ ds
unfolding fold_devices
fold_devices-unfilled c [] h = refl
fold_devices-unfilled c (d ∷ ds) h = elim (Bool-cases (is_container_edits_empty d.edits)) [
  | inl empty ↦ (let filled : true ≡ false = rw empty at h in ground arith)
  | inr full ↦ rw full (ap (λ rest. d ∷ rest) (fold_devices-unfilled c ds (rw full at h)))
]

fold_devices-full :
    (c : ContainerEdits) (ds : List Entry) → All IsFullEntry ds → fold_devices c ds ≡ (ds, false)
unfolding fold_devices
fold_devices-full c [] h = refl
fold_devices-full c (d ∷ ds) h = rw (h.0, fold_devices-full c ds h.1) refl

-- Where the entries are all empty or none is, the folding changes what no selection gets.
pub fold_keeps_effective :
    (spec : Spec)
    → All IsEmptyEntry spec.devices ⊎ All IsFullEntry spec.devices
    → effective (fold_common_edits_into_empty_devices spec) ≡ effective spec
unfolding fold_common_edits_into_empty_devices
fold_keeps_effective spec (inl h) = elim (Bool-cases (is_container_edits_empty spec.edits)) [
  | inl empty ↦ rw empty refl
  | inr full ↦ elim (Bool-cases (fold_devices spec.edits spec.devices).1) [
    | inl filled ↦ rw (full, filled) (fold_devices-empty spec.edits spec.devices h)
    | inr unfilled ↦
        rw (full, unfilled)
          (ap (selections spec.edits) (fold_devices-unfilled spec.edits spec.devices unfilled))
  ]
]
fold_keeps_effective spec (inr h) = rw (fold_devices-full spec.edits spec.devices h) (ground arith)
