-- ===== src/Prelude/Names.antt =====
-- Sorting of names (`sort.Strings`), and a Boolean as Go prints it (`%v`).
use Prim.Native.String.{String, compare}
use Prim.Native.Nat.{Ordering}
use mathlib.Core.Path.{◌≡◌, refl}
use mathlib.Core.Bool.{Bool, true, false}
use mathlib.Core.List.{List, [], ◌∷◌}
use rbln_container_toolkit.Prelude.Tests.{if◌then◌else◌}

abbrev pub is_before : String → String → Bool
is_before s t = elim (compare s t) [ Ordering.lt ↦ true | _ ↦ false ]

unfoldable pub insert_name : String → List String → List String
insert_name s [] = s ∷ []
insert_name s (t ∷ ts) =
    let rest = insert_name s ts in if is_before t s then t ∷ rest else s ∷ (t ∷ ts)

unfoldable pub sort_names : List String → List String
unfolding insert_name
sort_names [] = []
sort_names (s ∷ ts) = insert_name s (sort_names ts)

abbrev pub go_bool : Bool → String
go_bool true = "true"
go_bool false = "false"

sort_names_example :
    sort_names ("/usr/lib64" ∷ "/lib" ∷ "/usr/lib" ∷ []) ≡ "/lib" ∷ "/usr/lib" ∷ "/usr/lib64" ∷ []
unfolding sort_names
sort_names_example = refl
