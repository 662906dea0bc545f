-- ===== src/Discover/BuildId/Encoding.antt =====
-- Notes as a linker writes them: the fields, their padding, and how they are read one by one.
use mathlib.Core.List.{append_assoc}
use rbln_container_toolkit.Prelude.{
  ℕ, zero, suc, ◌+◌, ◌-◌, ◌/◌, ◌%◌, ◌^◌, ◌≤◌, ◌<◌, ◌≡◌, refl, sym, ◌∙◌, ap, subst, true, false,
  List, ◌∷◌, ◌++◌, length, take, drop, replicate, length-append, take_left, drop_left, ltb, arith,
}
use rbln_container_toolkit.Discover.BuildId.{ByteOrder, little_endian, big_endian, uint32, align4}

-- An ELF note: its type, its owner's name with the closing zero, and its descriptor.
pub record Note : Type 0 where
  pub kind : ℕ
  pub owner : List ℕ
  pub desc : List ℕ

-- Four bytes in front of others.
pub put_uint32 : ByteOrder → ℕ → List ℕ → List ℕ
put_uint32 little_endian n rest =
    n % 256 ∷ n / 256 % 256 ∷ n / 65536 % 256 ∷ n / 16777216 % 256 ∷ rest
put_uint32 big_endian n rest = n / 16777216 % 256 ∷ n / 65536 % 256 ∷ n / 256 % 256 ∷ n % 256 ∷ rest

-- The zeros that fill a field of this length up to a multiple of four.
abbrev pub padding : ℕ → ℕ
padding n = (4 - n % 4) % 4

-- A field padded with zeros, in front of others.
pub put_padded : List ℕ → List ℕ → List ℕ
put_padded xs rest = xs ++ (replicate (padding (length xs)) 0 ++ rest)

-- A note as the ELF format lays it out, in front of others.
unfoldable pub encode : ByteOrder → Note → List ℕ → List ℕ
encode bo note rest = put_uint32 bo (length note.owner) (
    put_uint32 bo (length note.desc)
      (put_uint32 bo note.kind (put_padded note.owner (put_padded note.desc rest))))

-- The sizes and the type fit their fields.
pub record Fits (note : Note) : Type 0 where
  pub kind_fits : note.kind < 2 ^ 32
  pub owner_fits : length note.owner < 2 ^ 32
  pub desc_fits : length note.desc < 2 ^ 32

pub uint32-put :
    (bo : ByteOrder) (n : ℕ) (rest : List ℕ) → n < 2 ^ 32 → uint32 bo (put_uint32 bo n rest) ≡ n
unfolding uint32 put_uint32
uint32-put little_endian n rest h = omega (arith, h)
uint32-put big_endian n rest h = omega (arith, h)

-- The three numbers in front, and what is behind them.
module _ (bo : ByteOrder) (a b c : ℕ) (rest : List ℕ) where
  pub drop-put1 : drop 4 (put_uint32 bo a rest) ≡ rest
  unfolding put_uint32
  drop-put1 = elim bo as (λ o. drop 4 (put_uint32 o a rest) ≡ rest) [
    | little_endian ↦ refl
    | big_endian ↦ refl
  ]

  pub drop-put2 : drop 8 (put_uint32 bo a (put_uint32 bo b rest)) ≡ rest
  unfolding put_uint32
  drop-put2 = elim bo as (λ o. drop 8 (put_uint32 o a (put_uint32 o b rest)) ≡ rest) [
    | little_endian ↦ refl
    | big_endian ↦ refl
  ]

  pub drop-put3 : drop 12 (put_uint32 bo a (put_uint32 bo b (put_uint32 bo c rest))) ≡ rest
  unfolding put_uint32
  drop-put3 =
      elim bo as (λ o. drop 12 (put_uint32 o a (put_uint32 o b (put_uint32 o c rest))) ≡ rest) [
        | little_endian ↦ refl
        | big_endian ↦ refl
      ]

  pub length-put3 :
      length (put_uint32 bo a (put_uint32 bo b (put_uint32 bo c rest))) ≡ 12 + length rest
  unfolding put_uint32
  length-put3 =
      elim bo
        as (λ o.
          length (put_uint32 o a (put_uint32 o b (put_uint32 o c rest))) ≡ 12 + length rest) [
            | little_endian ↦ omega arith
            | big_endian ↦ omega arith
          ]

zeros : ℕ → List ℕ
zeros n = replicate n 0

length-zeros : (n : ℕ) → length (zeros n) ≡ n
unfolding zeros
length-zeros zero = refl
length-zeros (suc n) = ap suc (length-zeros n)

pub ltb-true : (a b : ℕ) → a < b → ltb a b ≡ true
ltb-true a b h = ground arith

pub ltb-false : (a b : ℕ) → b ≤ a → ltb a b ≡ false
ltb-false a b h = ground arith

pub align4-padding : (n : ℕ) → n < 2 ^ 32 → align4 n ≡ n + padding n
unfolding align4
align4-padding n h = omega (arith, h)

pub take-padded : (xs rest : List ℕ) → take (length xs) (put_padded xs rest) ≡ xs
unfolding put_padded
take-padded xs rest = take_left xs (replicate (padding (length xs)) 0 ++ rest)

module _ (xs rest : List ℕ) (h : length xs < 2 ^ 32) where
  pub length-padded : length (put_padded xs rest) ≡ align4 (length xs) + length rest
  unfolding put_padded zeros
  length-padded =
      let k = padding (length xs) in
      omega (
        arith,
        length-append xs (zeros k ++ rest),
        length-append (zeros k) rest,
        length-zeros k,
        align4-padding (length xs) h,
      )

  pub drop-padded : drop (align4 (length xs)) (put_padded xs rest) ≡ rest
  unfolding put_padded zeros
  drop-padded =
      let k = padding (length xs) in
      let size : length (xs ++ zeros k) ≡ align4 (length xs) =
        omega (arith, length-append xs (zeros k), length-zeros k, align4-padding (length xs) h) in
      subst (λ n. drop n (put_padded xs rest) ≡ rest) size
        (ap (drop (length (xs ++ zeros k))) (sym (append_assoc xs (zeros k) rest))
          ∙ drop_left (xs ++ zeros k) rest)
