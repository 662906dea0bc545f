-- ===== src/Cdi/Fold.antt =====
-- internal/cdi/generator.go: folding the common edits into device entries that are empty.
pub mod Effective
use rbln_container_toolkit.Prelude.{Bool, true, false, ◌||◌, List, [], ◌∷◌, if◌then◌else◌}
use rbln_container_toolkit.Cdi.Spec.{
  ContainerEdits, Entry, Spec, no_edits, is_container_edits_empty,
}

-- The loop over the devices: the devices, and whether one was filled.
unfoldable pub fold_devices : ContainerEdits → List Entry → List Entry × Bool
unfolding is_container_edits_empty
fold_devices common [] = ([], false)
fold_devices common (d ∷ devices) =
    let (rest, folded) = fold_devices common devices in
    if is_container_edits_empty d.edits
    then (record d { edits = common } ∷ rest, true)
    else (d ∷ rest, folded)

-- `foldCommonEditsIntoEmptyDevices`
unfoldable pub fold_common_edits_into_empty_devices : Spec → Spec
unfolding fold_devices
fold_common_edits_into_empty_devices spec =
    let (devices, folded) = fold_devices spec.edits spec.devices in
    if is_container_edits_empty spec.edits
    then spec
    else if folded
    then record spec { devices = devices; edits = no_edits }
    else record spec { devices = devices }
