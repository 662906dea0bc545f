-- ===== src/Discover/BuildId/Safety.antt =====
-- `parseBuildIDNote` on any bytes: it does not panic, and its loop ends.
use rbln_container_toolkit.Prelude.{
  ℕ, zero, suc, ◌+◌, ◌-◌, ◌^◌, ◌≤◌, ◌<◌, ◌≡◌, ◌≢◌, inl, inr, some, List, ◌∷◌, length, take, drop,
  length-drop, ltb, Bool-cases, nat_eq, arith,
}
use rbln_container_toolkit.Discover.BuildId.{
  ByteOrder, little_endian, big_endian, uint32, align4, slice_to, slice_from, Turn, panics, breaks,
  returns, continues, after_name, read_note, Parsed, panicked, no_build_id, out_of_fuel, build_id,
  parse_notes, parse_build_id_note, is_build_id,
}

uint32_below : (bo : ByteOrder) (bytes : List ℕ) → uint32 bo bytes < 2 ^ 32
unfolding uint32
uint32_below little_endian (a ∷ b ∷ c ∷ d ∷ rest) = omega arith
uint32_below big_endian (a ∷ b ∷ c ∷ d ∷ rest) = omega arith
uint32_below _ _ = omega arith

-- Rounding up a 32-bit size does not wrap around.
pub le_align4 : (n : ℕ) → n < 2 ^ 32 → n ≤ align4 n
unfolding align4
le_align4 n h = omega (arith, h)

-- What a turn must not be: a panic, or one that goes on with data that is not shorter.
abbrev IsSafe : List ℕ → Turn → Type 0
IsSafe bytes panics = ⊥
IsSafe bytes breaks = Unit
IsSafe bytes (returns desc) = Unit
IsSafe bytes (continues rest) = length rest + 12 ≤ length bytes

pub slice_from-drop : (xs : List ℕ) (n : ℕ) → n ≤ length xs → slice_from xs n ≡ some (drop n xs)
unfolding slice_from
slice_from-drop xs n h = ground (arith, h)

pub slice_to-take : (xs : List ℕ) (n : ℕ) → n ≤ length xs → slice_to xs n ≡ some (take n xs)
unfolding slice_to
slice_to-take xs n h = ground (arith, h)

after_name-IsSafe :
    (bytes rest name : List ℕ) (typ descsz : ℕ)
    → descsz < 2 ^ 32
    → length rest + 12 ≤ length bytes
    → IsSafe bytes (after_name typ descsz name rest)
unfolding after_name
after_name-IsSafe bytes rest name typ descsz small short =
    elim (Bool-cases (ltb (length rest) (align4 descsz))) [
      | inl less ↦ rw less tt
      | inr enough ↦
          let fits : align4 descsz ≤ length rest = ground arith in
          let within : descsz ≤ length rest = omega (arith, le_align4 descsz small) in
          rw (enough, slice_to-take rest descsz within, slice_from-drop rest (align4 descsz) fits)
            (elim (Bool-cases (is_build_id typ (name) descsz)) [
              | inl found ↦ rw found tt
              | inr other ↦ rw other (omega (arith, length-drop (align4 descsz) rest))
            ])
    ]

read_note-IsSafe :
    (bo : ByteOrder) (bytes : List ℕ) → 12 ≤ length bytes → IsSafe bytes (read_note bo bytes)
unfolding read_note
read_note-IsSafe bo bytes long =
    let namesz = uint32 bo bytes in
    let rest = drop 12 bytes in
    let small : namesz < 2 ^ 32 = uint32_below bo bytes in
    let size : length rest ≡ length bytes - 12 = length-drop 12 bytes in
    elim (Bool-cases (ltb (length rest) (align4 namesz))) [
      | inl less ↦ rw less tt
      | inr enough ↦
          let fits : align4 namesz ≤ length rest = ground arith in
          let within : namesz ≤ length rest = omega (arith, le_align4 namesz small) in
          rw (enough, slice_to-take rest namesz within, slice_from-drop rest (align4 namesz) fits)
            (after_name-IsSafe bytes (drop (align4 namesz) rest) (take namesz rest)
              (uint32 bo (drop 8 bytes)) (uint32 bo (drop 4 bytes)) (uint32_below bo (drop 4 bytes))
              (omega (arith, size, length-drop (align4 namesz) rest)))
    ]

abbrev IsResult : Parsed → Type 0
IsResult p = (p ≢ panicked) × (p ≢ out_of_fuel)

after_turn :
    (again : List ℕ → Parsed) (bytes : List ℕ) (turn : Turn)
    → IsSafe bytes turn
    → ((rest : List ℕ) → length rest + 12 ≤ length bytes → IsResult (again rest))
    → IsResult (elim turn [
      | panics ↦ panicked
      | breaks ↦ no_build_id
      | returns desc ↦ build_id desc
      | continues rest ↦ again rest
    ])
after_turn again bytes panics safe ih = absurd safe
after_turn again bytes breaks safe ih = (λ e. ground arith, λ e. ground arith)
after_turn again bytes (returns desc) safe ih = (λ e. ground arith, λ e. ground arith)
after_turn again bytes (continues rest) safe ih = ih rest safe

parse_notes-IsResult :
    (fuel : ℕ) (bo : ByteOrder) (bytes : List ℕ)
    → length bytes < fuel
    → IsResult (parse_notes fuel bo bytes)
unfolding parse_notes
parse_notes-IsResult zero bo bytes h = absurd (ground arith)
parse_notes-IsResult (suc fuel) bo bytes h = elim (Bool-cases (ltb (length bytes) 12)) [
  | inl few ↦ rw few (λ e. ground arith, λ e. ground arith)
  | inr many ↦ rw many (
      after_turn (parse_notes fuel bo) bytes (read_note bo bytes)
        (read_note-IsSafe bo bytes (ground arith))
        (λ rest less. parse_notes-IsResult fuel bo rest (omega arith)))
]

-- On any bytes, in either byte order, the parser slices only within its data, and its loop ends
-- before the fuel does: it returns a build id or says that there is none.
pub parse_build_id_note-total :
    (bo : ByteOrder) (bytes : List ℕ)
    → (parse_build_id_note bo bytes ≢ panicked) × (parse_build_id_note bo bytes ≢ out_of_fuel)
unfolding parse_build_id_note
parse_build_id_note-total bo bytes =
    parse_notes-IsResult (suc (length bytes)) bo bytes (omega arith)
