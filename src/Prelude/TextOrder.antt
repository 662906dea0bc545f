-- ===== src/Prelude/TextOrder.antt =====
-- The order of Go's strings: `<` by the codes of the characters. (The bytes of UTF-8 give the same order.)
use Prim.Native.Char.{code}
use Prim.Native.String.{String}
use mathlib.Core.Path.{◌≡◌, refl, sym}
use mathlib.Core.Bool.{Bool, true, false}
use native.Mathlib.Omega.{arith}
use rbln_container_toolkit.Prelude.Tests.{ltb, if◌then◌else◌}

unfoldable pub text_ltb : String → String → Bool
text_ltb String.[] String.[] = false
text_ltb String.[] (String.◌∷◌ d t) = true
text_ltb (String.◌∷◌ c s) String.[] = false
text_ltb (String.◌∷◌ c s) (String.◌∷◌ d t) =
    let rest = text_ltb s t in
    if ltb (code c) (code d) then true else if ltb (code d) (code c) then false else rest

pub text_ltb_asym : (s t : String) → text_ltb t s ≡ true → text_ltb s t ≡ false
unfolding text_ltb
text_ltb_asym String.[] String.[] h = refl
text_ltb_asym String.[] (String.◌∷◌ d t) h = sym h
text_ltb_asym (String.◌∷◌ c s) String.[] h = refl
text_ltb_asym (String.◌∷◌ c s) (String.◌∷◌ d t) h = ground (arith, text_ltb_asym s t)

pub text_ltb_trans :
    (s t u : String) → text_ltb t s ≡ false → text_ltb u t ≡ false → text_ltb u s ≡ false
unfolding text_ltb
text_ltb_trans String.[] t String.[] h k = refl
text_ltb_trans String.[] String.[] (String.◌∷◌ e u) h k = k
text_ltb_trans String.[] (String.◌∷◌ d t) (String.◌∷◌ e u) h k = refl
text_ltb_trans (String.◌∷◌ c s) String.[] u h k = ground (arith, h)
text_ltb_trans (String.◌∷◌ c s) (String.◌∷◌ d t) String.[] h k = ground (arith, k)
text_ltb_trans (String.◌∷◌ c s) (String.◌∷◌ d t) (String.◌∷◌ e u) h k =
    ground (arith, text_ltb_trans s t u, h, k)
