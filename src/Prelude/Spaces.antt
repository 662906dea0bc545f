-- ===== src/Prelude/Spaces.antt =====
-- White space as Go's `unicode.IsSpace` knows it, and `strings.TrimSpace`.
use Prim.Native.Nat.{ℕ}
use Prim.Native.Char.{code}
use Prim.Native.String.{String}
use mathlib.Core.Path.{◌≡◌, refl}
use mathlib.Core.Bool.{Bool, ◌&&◌, ◌||◌}
use rbln_container_toolkit.Prelude.Tests.{leb, nat_beq, ◌==◌, string_eq, if◌then◌else◌}

unfoldable pub is_space : ℕ → Bool
is_space c =
    (leb 9 c && leb c 13)
    || nat_beq c 0x20
    || nat_beq c 0x85
    || nat_beq c 0xa0
    || nat_beq c 0x1680
    || (leb 0x2000 c && leb c 0x200a)
    || nat_beq c 0x2028
    || nat_beq c 0x2029
    || nat_beq c 0x202f
    || nat_beq c 0x205f
    || nat_beq c 0x3000

-- Without the characters at either end that pass a test.
module _ (is_cut : ℕ → Bool) where
  unfoldable trim_left : String → String
  trim_left String.[] = ""
  trim_left (String.◌∷◌ c s) =
      let rest = trim_left s in if is_cut (code c) then rest else String.◌∷◌ c s

  unfoldable trim_right : String → String
  trim_right String.[] = ""
  trim_right (String.◌∷◌ c s) =
      let rest = trim_right s in if is_cut (code c) && rest == "" then "" else String.◌∷◌ c rest

  unfoldable pub trim_by : String → String
  unfolding trim_left trim_right
  trim_by s = trim_right (trim_left s)

-- `strings.TrimSpace`
unfoldable pub trim_space : String → String
unfolding trim_by is_space
trim_space = trim_by is_space

trim_space_examples : (trim_space " \t a b \n" ≡ "a b") × (trim_space " \n " ≡ "")
unfolding trim_space
trim_space_examples = (refl, refl)
