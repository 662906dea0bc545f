-- ===== src/Discover/BuildId/RoundTrip.antt =====
-- Notes written by a linker and read back by `parseBuildIDNote`.
use rbln_container_toolkit.Prelude.{
  ℕ, zero, suc, ◌+◌, ◌^◌, ◌≤◌, ◌<◌, ◌≡◌, refl, ◌∙◌, ap, inl, inr, List, [], ◌∷◌, length, take, drop,
  All, Bool-cases, arith, if◌then◌else◌,
}
use rbln_container_toolkit.Discover.BuildId.{
  ByteOrder, uint32, align4, returns, continues, is_build_id, after_name, read_note, Parsed,
  no_build_id, build_id, parse_notes, parse_build_id_note,
}
use rbln_container_toolkit.Discover.BuildId.Safety.{le_align4, slice_to-take, slice_from-drop}
use rbln_container_toolkit.Discover.BuildId.Encoding.{
  Note, Fits, put_uint32, put_padded, encode, uint32-put, drop-put1, drop-put2, drop-put3,
  length-put3, ltb-true, ltb-false, take-padded, length-padded, drop-padded,
}

module _ (xs rest : List ℕ) (h : length xs < 2 ^ 32) where
  after_name-padded :
      (kind : ℕ) (name : List ℕ)
      → after_name kind (length xs) name (put_padded xs rest)
        ≡ (if is_build_id kind name (length xs) then returns xs else continues rest)
  unfolding after_name
  after_name-padded kind name =
      let le = le_align4 (length xs) h in
      rw
        (
          ltb-false (length (put_padded xs rest)) (align4 (length xs))
              (omega (arith, length-padded xs rest h)),
          slice_to-take (put_padded xs rest) (length xs)
              (omega (arith, length-padded xs rest h, le)),
          slice_from-drop (put_padded xs rest) (align4 (length xs))
              (omega (arith, length-padded xs rest h)),
          take-padded xs rest,
          drop-padded xs rest h,
        )
        refl

module _ (bo : ByteOrder) (note : Note) (rest : List ℕ) (f : Fits note) where
  body : List ℕ
  body = put_padded note.owner (put_padded note.desc rest)

  kinds : List ℕ
  kinds = put_uint32 bo note.kind body

  descs : List ℕ
  descs = put_uint32 bo (length note.desc) kinds

  read_namesz : uint32 bo (encode bo note rest) ≡ length note.owner
  unfolding encode body kinds descs
  read_namesz = uint32-put bo (length note.owner) descs f.owner_fits

  read_descsz : uint32 bo (drop 4 (encode bo note rest)) ≡ length note.desc
  unfolding encode body kinds descs
  read_descsz =
      ap (uint32 bo) (drop-put1 bo (length note.owner) 0 0 descs)
      ∙ uint32-put bo (length note.desc) kinds f.desc_fits

  read_typ : uint32 bo (drop 8 (encode bo note rest)) ≡ note.kind
  unfolding encode body kinds descs
  read_typ =
      ap (uint32 bo) (drop-put2 bo (length note.owner) (length note.desc) 0 kinds)
      ∙ uint32-put bo note.kind body f.kind_fits

  read_body : drop 12 (encode bo note rest) ≡ body
  unfolding encode body
  read_body = drop-put3 bo (length note.owner) (length note.desc) note.kind body

  length-body : length body ≡ align4 (length note.owner) + length (put_padded note.desc rest)
  unfolding body
  length-body = length-padded note.owner (put_padded note.desc rest) f.owner_fits

  take-body : take (length note.owner) body ≡ note.owner
  unfolding body
  take-body = take-padded note.owner (put_padded note.desc rest)

  drop-body : drop (align4 (length note.owner)) body ≡ put_padded note.desc rest
  unfolding body
  drop-body = drop-padded note.owner (put_padded note.desc rest) f.owner_fits

  -- What one turn does with an encoded note.
  read_note-encode : read_note bo (encode bo note rest) ≡ (
      if is_build_id note.kind note.owner (length note.desc)
      then returns note.desc
      else continues rest)
  unfolding read_note
  read_note-encode =
      let n = length note.owner in
      rw
        (
          read_body,
          read_namesz,
          ltb-false (length body) (align4 n) (omega (arith, length-body)),
          slice_to-take body n (omega (arith, length-body, le_align4 n f.owner_fits)),
          read_body,
          read_namesz,
          slice_from-drop body (align4 n) (omega (arith, length-body)),
          read_descsz,
          read_typ,
          take-body,
          drop-body,
        )
        (after_name-padded note.desc rest f.desc_fits note.kind note.owner)

  length-encode : 12 + length rest ≤ length (encode bo note rest)
  unfolding encode body
  length-encode = omega (
    arith,
    length-put3 bo (length note.owner) (length note.desc) note.kind body,
    length-body,
    length-padded note.desc rest f.desc_fits,
  )

-- The notes of a section, one after the other.
pub encode_all : ByteOrder → List Note → List ℕ → List ℕ
encode_all bo [] rest = rest
encode_all bo (note ∷ notes) rest = encode bo note (encode_all bo notes rest)

-- The first build id among the notes; a note is one by its type, its owner and its size.
pub first_build_id : List Note → Parsed
first_build_id [] = no_build_id
first_build_id (note ∷ notes) =
    if is_build_id note.kind note.owner (length note.desc)
    then build_id note.desc
    else first_build_id notes

parse_notes-encode :
    (fuel : ℕ) (bo : ByteOrder) (notes : List Note) (rest : List ℕ)
    → All Fits notes
    → length rest < 12
    → length (encode_all bo notes rest) < fuel
    → parse_notes fuel bo (encode_all bo notes rest) ≡ first_build_id notes
unfolding parse_notes encode_all first_build_id
parse_notes-encode zero bo notes rest fits short h = absurd (ground arith)
parse_notes-encode (suc fuel) bo [] rest fits short h = rw (ltb-true (length rest) 12 short) refl
parse_notes-encode (suc fuel) bo (note ∷ notes) rest (f, fits) short h =
    let tail = encode_all bo notes rest in
    let size = length-encode bo note tail f in
    rw
      (
        ltb-false (length (encode bo note tail)) 12 (omega (arith, size)),
        read_note-encode bo note tail f,
      )
      (elim (Bool-cases (is_build_id note.kind note.owner (length note.desc))) [
        | inl found ↦ rw found refl
        | inr other ↦
            rw other (parse_notes-encode fuel bo notes rest fits short (omega (arith, size)))
      ])

-- Whatever notes a section holds, encoded as the ELF format says, in either byte order, with at
-- most eleven stray bytes behind: the parser finds the descriptor of the first build-id note, and
-- finds none if no note is one.
pub parse_build_id_note-encode :
    (bo : ByteOrder) (notes : List Note) (rest : List ℕ)
    → All Fits notes
    → length rest < 12
    → parse_build_id_note bo (encode_all bo notes rest) ≡ first_build_id notes
unfolding parse_build_id_note
parse_build_id_note-encode bo notes rest fits short =
    parse_notes-encode (suc (length (encode_all bo notes rest))) bo notes rest fits short
      (omega arith)
