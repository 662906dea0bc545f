-- ===== src/Discover/BuildId.antt =====
-- internal/discover/umdfingerprint.go: the parser of the notes in `.note.gnu.build-id`.
-- A byte is a number; a slice expression past the end of a slice panics, which is a result here.
pub mod Safety
pub mod Encoding
pub mod RoundTrip
use rbln_container_toolkit.Prelude.{
  ℕ, zero, suc, ◌+◌, ◌-◌, ◌*◌, ◌/◌, ◌%◌, ◌^◌, String, ◌<>◌, Bool, true, false, ◌&&◌, Option, none,
  some, List, [], ◌∷◌, ◌++◌, length, take, drop, is_empty, ltb, leb, ◌==◌, nat_eq, if◌then◌else◌,
}

-- `binary.ByteOrder`
pub data ByteOrder : Type 0 where
  little_endian big_endian : ByteOrder

-- `bo.Uint32` of the first four bytes, in 32 bits.
unfoldable pub uint32 : ByteOrder → List ℕ → ℕ
uint32 little_endian (a ∷ b ∷ c ∷ d ∷ _) = (a + 256 * b + 65536 * c + 16777216 * d) % 2 ^ 32
uint32 big_endian (a ∷ b ∷ c ∷ d ∷ _) = (16777216 * a + 65536 * b + 256 * c + d) % 2 ^ 32
uint32 _ _ = 0

-- `(n + 3) &^ 3` on a `uint64`
unfoldable pub align4 : ℕ → ℕ
align4 n = let m = (n + 3) % 2 ^ 64 in m - m % 4

-- `xs[:n]`; it panics past the end.
unfoldable pub slice_to : List ℕ → ℕ → Option (List ℕ)
slice_to xs n = if leb n (length xs) then some (take n xs) else none

-- `xs[n:]`
unfoldable pub slice_from : List ℕ → ℕ → Option (List ℕ)
slice_from xs n = if leb n (length xs) then some (drop n xs) else none

-- `strings.TrimRight(string(name), "\x00")`
unfoldable pub trim_zeros : List ℕ → List ℕ
trim_zeros [] = []
trim_zeros (b ∷ bytes) =
    let rest = trim_zeros bytes in if is_empty rest && b == 0 then [] else b ∷ rest

unfoldable pub same_bytes : List ℕ → List ℕ → Bool
same_bytes [] [] = true
same_bytes (a ∷ xs) (b ∷ ys) = let rest = same_bytes xs ys in a == b && rest
same_bytes _ _ = false

-- "GNU"
abbrev pub gnu : List ℕ
gnu = 71 ∷ 78 ∷ 85 ∷ []

abbrev pub nt_gnu_build_id : ℕ
nt_gnu_build_id = 3

-- What one turn of the loop comes to.
pub data Turn : Type 0 where
  panics : Turn
  breaks : Turn
  returns : List ℕ → Turn
  continues : List ℕ → Turn

-- The note's type, owner and size are those of a build id.
unfoldable pub is_build_id : ℕ → List ℕ → ℕ → Bool
is_build_id typ name descsz =
    typ == nt_gnu_build_id && (same_bytes (trim_zeros name) gnu && ltb 0 descsz)

-- The end of a turn, from the descriptor on.
unfoldable pub after_name : ℕ → ℕ → List ℕ → List ℕ → Turn
after_name typ descsz name rest =
    if ltb (length rest) (align4 descsz) then breaks else elim (slice_to rest descsz) [
      | none ↦ panics
      | some desc ↦
          if is_build_id typ name descsz
          then returns desc
          else elim (slice_from rest (align4 descsz)) [
            | none ↦ panics
            | some bytes ↦ continues bytes
          ]
    ]

-- One turn on data of at least twelve bytes.
unfoldable pub read_note : ByteOrder → List ℕ → Turn
read_note bo bytes =
    let namesz = uint32 bo bytes in
    let descsz = uint32 bo (drop 4 bytes) in
    let typ = uint32 bo (drop 8 bytes) in
    let rest = drop 12 bytes in
    if ltb (length rest) (align4 namesz) then breaks else elim (slice_to rest namesz) [
      | none ↦ panics
      | some name ↦ elim (slice_from rest (align4 namesz)) [
        | none ↦ panics
        | some rest' ↦ after_name typ descsz name rest'
      ]
    ]

pub data Parsed : Type 0 where
  panicked no_build_id out_of_fuel : Parsed
  build_id : List ℕ → Parsed

-- The loop of `parseBuildIDNote`: the descriptor's bytes, which the code returns in hex.
unfoldable pub parse_notes : ℕ → ByteOrder → List ℕ → Parsed
parse_notes zero bo bytes = out_of_fuel
parse_notes (suc fuel) bo bytes =
    if ltb (length bytes) 12 then no_build_id else elim (read_note bo bytes) [
      | panics ↦ panicked
      | breaks ↦ no_build_id
      | returns desc ↦ build_id desc
      | continues rest ↦ parse_notes fuel bo rest
    ]

-- `parseBuildIDNote`; each turn that goes on takes at least twelve bytes.
unfoldable pub parse_build_id_note : ByteOrder → List ℕ → Parsed
parse_build_id_note bo bytes = parse_notes (suc (length bytes)) bo bytes
