-- ===== src/Prelude/Texts.antt =====
-- Go's `strings` and `path/filepath` functions that the program calls, over native texts.
use Prim.Native.Nat.{ℕ}
use Prim.Native.Char.{Char, code}
use Prim.Native.String.{String, ◌++◌ as ◌<>◌}
use mathlib.Core.Path.{◌≡◌, refl}
use mathlib.Core.Bool.{Bool, true, false, ◌||◌}
use mathlib.Core.Option.{Option, none, some}
use mathlib.Core.List.{List, [], ◌∷◌, ◌++◌, reverse}
use rbln_container_toolkit.Prelude.Tests.{nat_beq, ◌==◌, string_eq, if◌then◌else◌}

-- `strings.CutPrefix`
unfoldable pub cut_prefix : String → String → Option String
cut_prefix s String.[] = some s
cut_prefix String.[] (String.◌∷◌ d p) = none
cut_prefix (String.◌∷◌ c s) (String.◌∷◌ d p) =
    if nat_beq (code c) (code d) then cut_prefix s p else none

-- `strings.HasPrefix`
unfoldable pub has_prefix : String → String → Bool
unfolding cut_prefix
has_prefix s p = elim (cut_prefix s p) [ none ↦ false | some rest ↦ true ]

-- `strings.TrimPrefix`
unfoldable pub trim_prefix : String → String → String
unfolding cut_prefix
trim_prefix s p = elim (cut_prefix s p) [ none ↦ s | some rest ↦ rest ]

-- `strings.Contains`
unfoldable pub contains_text : String → String → Bool
unfolding has_prefix
contains_text String.[] p = has_prefix "" p
contains_text (String.◌∷◌ c s) p = has_prefix (String.◌∷◌ c s) p || contains_text s p

-- Puts a character in front of the first part.
abbrev pub cons_first : Char → List String → List String
cons_first c [] = String.◌∷◌ c String.[] ∷ []
cons_first c (p ∷ ps) = String.◌∷◌ c p ∷ ps

-- `strings.Split(s, sep)` for a separator of one character.
unfoldable pub split : ℕ → String → List String
split sep String.[] = "" ∷ []
split sep (String.◌∷◌ c s) =
    let rest = split sep s in if nat_beq (code c) sep then "" ∷ rest else cons_first c rest

-- `strings.HasSuffix`
unfoldable pub has_suffix : String → String → Bool
has_suffix String.[] p = p == ""
has_suffix (String.◌∷◌ c s) p = String.◌∷◌ c s == p || has_suffix s p

-- `strings.Join`
unfoldable pub join : String → List String → String
join sep [] = ""
join sep (p ∷ []) = p
join sep (p ∷ (q ∷ ps)) = p <> (sep <> join sep (q ∷ ps))

abbrev pub slash : ℕ
slash = b'/'

-- `filepath.IsAbs` on Unix
unfoldable pub is_abs : String → Bool
unfolding has_prefix
is_abs p = has_prefix p "/"

-- `..` removes the last component; in a relative path it stays where there is none to remove.
abbrev parent_of : Bool → List String → List String
parent_of true [] = []
parent_of false [] = ".." ∷ []
parent_of rooted (q ∷ qs) = if q == ".." then ".." ∷ (q ∷ qs) else qs

-- The loop of `filepath.Clean` over the components, with the output kept as a stack.
unfoldable pub clean_parts : Bool → List String → List String → List String
clean_parts rooted stack [] = reverse stack
clean_parts rooted stack (p ∷ ps) =
    clean_parts rooted
      (if p == "" || p == "."
        then stack
        else if p == ".."
        then parent_of rooted stack
        else p ∷ stack)
      ps

-- `filepath.Clean` on Unix
unfoldable pub clean : String → String
unfolding is_abs clean_parts split join
clean p =
    let body = join "/" (clean_parts (is_abs p) [] (split slash p)) in
    if is_abs p then "/" <> body else if body == "" then "." else body

-- `filepath.Join`: leading empty elements are dropped, and the rest is joined and cleaned.
unfoldable pub path_join : List String → String
unfolding clean
path_join [] = ""
path_join (e ∷ es) = let rest = path_join es in if e == "" then rest else clean (join "/" (e ∷ es))

-- The last component of a split path that is not empty.
abbrev last_part : List String → Option String
last_part [] = none
last_part (p ∷ ps) = elim (last_part ps) [
  | some q ↦ some q
  | none ↦ if p == "" then none else some p
]

-- `filepath.Base` on Unix
unfoldable pub base : String → String
unfolding split
base String.[] = "."
base (String.◌∷◌ c s) = elim (last_part (split slash (String.◌∷◌ c s))) [ none ↦ "/" | some p ↦ p ]

-- All components but the last.
abbrev but_last : List String → List String
but_last [] = []
but_last (p ∷ []) = []
but_last (p ∷ (q ∷ ps)) = p ∷ but_last (q ∷ ps)

-- `filepath.Dir` on Unix: the text up to the last slash, that slash included, cleaned.
unfoldable pub dir : String → String
unfolding clean
dir p = clean (join "/" (but_last (split slash p) ++ ("" ∷ [])))

clean_examples :
    (clean "/a/./b//../c/" ≡ "/a/c")
    × (clean "../../x" ≡ "../../x")
    × (clean "" ≡ ".")
    × (clean "/.." ≡ "/")
unfolding clean
clean_examples = (refl, refl, refl, refl)

path_join_examples :
    (path_join ("/host" ∷ "/dev" ∷ []) ≡ "/host/dev") × (path_join ("" ∷ "" ∷ []) ≡ "")
unfolding path_join
path_join_examples = (refl, refl)

base-dir_examples :
    (base "/dev/rbln0" ≡ "rbln0")
    × (base "/a/" ≡ "a")
    × (base "//" ≡ "/")
    × (dir "/a/b" ≡ "/a")
    × (dir "b" ≡ ".")
    × (dir "/b" ≡ "/")
unfolding base dir
base-dir_examples = (refl, refl, refl, refl, refl, refl)
