-- ===== src/Cdi/Writer/Atomic.antt =====
-- What a reader of the target sees while a spec is written, and when it was.
use rbln_container_toolkit.Prelude.{
  String, ◌<>◌, ◌≡◌, ◌⊎◌, refl, inl, inr, Option, none, some, [], ◌∷◌, All, Option-cases,
  Bool-cases, All-map, ◌==◌, string_eq, arith, eq_iff,
}
use rbln_container_toolkit.Prelude.Dict.{Dict, lookup, erase, lookup-erase}
use rbln_container_toolkit.Cdi.Writer.{
  Calls, Call, chmod, sync, close, rename, sync_dir, Wrote, clean_up, attempt, publish, fill_temp,
  write_text,
}
use rbln_container_toolkit.Cdi.Writer.Watched.{states, RenamesWhole, IsOld, IsNew, watched}

-- The files but the temporary one are as they were.
abbrev pub IsBefore : String → Dict String → Dict String → Type 0
IsBefore temp files s = (q : String) → lookup q (erase temp s) ≡ lookup q (erase temp files)

-- The target has the whole text, and the files but these two are as they were.
abbrev pub IsAfter : String → String → String → Dict String → Dict String → Type 0
IsAfter temp path text files s =
    (lookup path s ≡ some text)
    × ((q : String)
        → lookup q (erase path (erase temp s)) ≡ lookup q (erase path (erase temp files)))

module _ (temp path text : String) (files s : Dict String) where
  is_before : IsOld temp path text files s → IsBefore temp files s
  is_before old q = elim (Bool-cases (q == temp)) [
    | inl same ↦
        ground
          (arith, lookup-erase temp q s, lookup-erase temp q files, eq_iff q temp, eq_iff temp q)
    | inr other ↦ ground (
      arith,
      old q other,
      lookup-erase temp q s,
      lookup-erase temp q files,
      eq_iff q temp,
      eq_iff temp q,
    )
  ]

  is_after : IsNew temp path text files s → IsAfter temp path text files s
  is_after is_new = (
    is_new.0,
    λ q. elim (Bool-cases (q == temp)) [
      | inl same ↦ ground (
        arith,
        lookup-erase path q (erase temp s),
        lookup-erase path q (erase temp files),
        lookup-erase temp q s,
        lookup-erase temp q files,
        eq_iff q temp,
        eq_iff temp q,
      )
      | inr other ↦ elim (Bool-cases (q == path)) [
        | inl same ↦ ground (
          arith,
          lookup-erase path q (erase temp s),
          lookup-erase path q (erase temp files),
          eq_iff q path,
          eq_iff path q,
        )
        | inr aside ↦ ground (
          arith,
          is_new.1 q other aside,
          lookup-erase path q (erase temp s),
          lookup-erase path q (erase temp files),
          lookup-erase temp q s,
          lookup-erase temp q files,
        )
      ]
    ],
  )

-- The calls keep to the order.
module _ (host : Calls) (path text : String) where
  clean_up-RenamesWhole :
      (held : Option String) (e : String) → RenamesWhole text held (clean_up host e).calls
  unfolding clean_up
  clean_up-RenamesWhole held e = elim (Option-cases host.remove_error) [
    | inl fine ↦ rw (clean_up, fine) tt
    | inr (r, bad) ↦ rw (clean_up, bad) tt
  ]

  attempt-RenamesWhole :
      (held : Option String) (bad : Option String) (what : String) (c : Call) (rest : Wrote)
      → RenamesWhole text held (c ∷ rest.calls)
      → RenamesWhole text held (attempt host bad what c rest).calls
  unfolding attempt
  attempt-RenamesWhole held none what c rest whole = whole
  attempt-RenamesWhole held (some e) what c rest whole =
      clean_up-RenamesWhole held (what <> (": " <> e))

  publish-RenamesWhole : RenamesWhole text (some text) (publish host path).calls
  unfolding publish
  publish-RenamesWhole =
      let flush : Wrote = record { calls = sync_dir ∷ []; error = none } in
      let move =
        attempt host host.rename_error ("rename " <> (host.temp_path <> (" to " <> path))) rename
          flush in
      let shut = attempt host host.close_error ("close temp file " <> host.temp_path) close move in
      let synced = attempt host host.sync_error ("sync temp file " <> host.temp_path) sync shut in
      attempt-RenamesWhole (some text) host.chmod_error ("chmod temp file " <> host.temp_path) chmod
        synced
        (attempt-RenamesWhole (some text) host.sync_error ("sync temp file " <> host.temp_path) sync
          shut
          (attempt-RenamesWhole (some text) host.close_error ("close temp file " <> host.temp_path)
            close move
            (attempt-RenamesWhole (some text) host.rename_error
              ("rename " <> (host.temp_path <> (" to " <> path))) rename flush (refl, (refl, tt)))))

  write_text-RenamesWhole :
      (held : Option String) → RenamesWhole text held (write_text host path text).calls
  unfolding write_text fill_temp
  write_text-RenamesWhole held = elim (Option-cases host.mkdir_error) [
    | inr (e, bad) ↦ rw (write_text, bad) tt
    | inl made ↦ elim (Option-cases host.create_error) [
      | inr (e, bad) ↦ rw (write_text, made, bad) tt
      | inl created ↦ elim (Option-cases host.write_error) [
        | inl filled ↦ rw (write_text, made, created, fill_temp, filled) publish-RenamesWhole
        | inr (e, bad) ↦
            rw (write_text, made, created, fill_temp, bad)
              (clean_up-RenamesWhole (some host.written_part)
                ("write temp file " <> (host.temp_path <> (": " <> e))))
      ]
    ]
  ]

  -- Whatever calls fail, after each call every file but the temporary one is as it was before, or the
  -- target holds the whole new text and every other file but those two is as it was: no reader ever
  -- sees a part of a spec.
  pub write_text-atomic :
      (files : Dict String)
      → All
          (λ s. IsBefore host.temp_path files s ⊎ IsAfter host.temp_path path text files s)
          (states host.temp_path path (write_text host path text).calls files)
  write_text-atomic files =
      let temp = host.temp_path in
      All-map (λ s. IsOld temp path text files s ⊎ IsNew temp path text files s)
        (λ s. IsBefore temp files s ⊎ IsAfter temp path text files s)
        (λ s seen. elim seen [
          | inl old ↦ inl (is_before temp path text files s old)
          | inr is_new ↦ inr (is_after temp path text files s is_new)
        ])
        (states temp path (write_text host path text).calls files)
        (watched temp path text files (lookup temp files) (write_text host path text).calls files
          (write_text-RenamesWhole (lookup temp files)) refl (λ q other. refl))
