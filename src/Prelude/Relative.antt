-- ===== src/Prelude/Relative.antt =====
-- Go's `filepath.Rel` on Unix.
use Prim.Native.String.{String}
use mathlib.Core.Path.{◌≡◌, refl}
use mathlib.Core.Bool.{Bool, true, false}
use mathlib.Core.Option.{Option, none, some}
use mathlib.Core.List.{List, [], ◌∷◌, ◌++◌, map}
use rbln_container_toolkit.Prelude.Tests.{◌==◌, string_eq, if◌then◌else◌}
use rbln_container_toolkit.Prelude.Texts.{clean, is_abs, split, slash, join}

abbrev without_empty : List String → List String
without_empty [] = []
without_empty (p ∷ ps) = if p == "" then without_empty ps else p ∷ without_empty ps

-- The components of the target below the common part, and one `..` for each other one of the base; a
-- base that goes on with `..` has no answer.
unfoldable pub rel_parts : List String → List String → Option (List String)
rel_parts [] target = some target
rel_parts (b ∷ base) [] = if b == ".." then none else some (map (λ p. "..") (b ∷ base))
rel_parts (b ∷ base) (t ∷ target) =
    let rest = rel_parts base target in
    if t == b
    then rest
    else if b == ".."
    then none
    else some (map (λ p. "..") (b ∷ base) ++ t ∷ target)

abbrev same_kind : Bool → Bool → Bool
same_kind true b = b
same_kind false true = false
same_kind false false = true

unfoldable pub rel : String → String → Option String
unfolding clean is_abs split join rel_parts
rel base_path target_path =
    let target = clean target_path in
    let base = if clean base_path == "." then "" else clean base_path in
    let parts = rel_parts (without_empty (split slash base)) (without_empty (split slash target)) in
    if target == clean base_path
    then some "."
    else if same_kind (is_abs base) (is_abs target)
    then (elim parts [ none ↦ none | some ps ↦ some (join "/" ps) ])
    else none

rel_examples :
    (rel "/host" "/host/usr/lib" ≡ some "usr/lib")
    × (rel "/host/run" "/usr/lib" ≡ some "../../usr/lib")
    × (rel "/" "/usr" ≡ some "usr")
    × (rel "" "/usr" ≡ none)
    × (rel "/usr/" "/usr" ≡ some ".")
unfolding rel
rel_examples = (refl, refl, refl, refl, refl)
