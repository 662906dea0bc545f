-- ===== src/Cdi/Writer/Outcome.antt =====
-- The files after a write of a spec that succeeded, and after one that failed.
use rbln_container_toolkit.Prelude.{
  String, ◌<>◌, ◌≡◌, refl, sym, ap, ◌∙◌, inl, inr, Bool, true, false, Option, none, some, List, [],
  ◌∷◌, Option-cases, Bool-cases, if◌then◌else◌, ◌==◌, string_eq, arith, eq_iff, subst,
}
use rbln_container_toolkit.Prelude.Dict.{Dict, lookup, insert, erase, lookup-insert, lookup-erase}
use rbln_container_toolkit.Cdi.Writer.{
  Calls, Call, create, fill, chmod, sync, close, rename, unlink, sync_dir, Wrote, clean_up, attempt,
  publish, fill_temp, write_text, after_calls,
}
use rbln_container_toolkit.Cdi.Writer.Watched.{
  IsOld, insert_temp, erase_temp, found_temp, lost_temp, after_rename,
}
use text.Mathlib.TextPositions.{eq_refl}

-- The temporary file is not renamed, and where it is there it is removed in the end.
abbrev Discards : Bool → List Call → Type 0
Discards there [] = there ≡ false
Discards there (create ∷ cs) = Discards true cs
Discards there (fill t ∷ cs) = Discards true cs
Discards there (unlink ∷ cs) = Discards false cs
Discards there (chmod ∷ cs) = Discards there cs
Discards there (sync ∷ cs) = Discards there cs
Discards there (close ∷ cs) = Discards there cs
Discards there (sync_dir ∷ cs) = Discards there cs
Discards there (rename ∷ cs) = ⊥

module _ (temp path text : String) (files : Dict String) (fresh : lookup temp files ≡ none) where
  -- Where the temporary file is gone, every file is as it was.
  abbrev IsLeft : Bool → Dict String → Type 0
  IsLeft there s = there ≡ false → lookup temp s ≡ none

  discarded :
      (there : Bool) (cs : List Call) (s : Dict String)
      → Discards there cs
      → IsOld temp path text files s
      → IsLeft there s
      → (q : String) → lookup q (after_calls temp path cs s) ≡ lookup q files
  unfolding after_calls
  discarded there [] s gone old left q = elim (Bool-cases (q == temp)) [
    | inl same ↦
        subst (λ p. lookup p s ≡ lookup p files) (sym ((eq_iff q temp).0 same))
          (left gone ∙ sym fresh)
    | inr other ↦ old q other
  ]
  discarded there (create ∷ cs) s gone old left q =
      discarded true cs (insert temp "" s) gone (insert_temp temp path text files s "" old)
        (λ no_temp. ground arith) q
  discarded there (fill t ∷ cs) s gone old left q =
      discarded true cs (insert temp t s) gone (insert_temp temp path text files s t old)
        (λ no_temp. ground arith) q
  discarded there (unlink ∷ cs) s gone old left q =
      discarded false cs (erase temp s) gone (erase_temp temp path text files s old)
        (λ no_temp. lost_temp temp path text files s) q
  discarded there (chmod ∷ cs) s gone old left q = discarded there cs s gone old left q
  discarded there (sync ∷ cs) s gone old left q = discarded there cs s gone old left q
  discarded there (close ∷ cs) s gone old left q = discarded there cs s gone old left q
  discarded there (sync_dir ∷ cs) s gone old left q = discarded there cs s gone old left q
  discarded there (rename ∷ cs) s gone old left q = absurd gone

-- A part of the write that fails leaves no temporary file.
abbrev Cleans : Bool → Wrote → Type 0
Cleans there w = (e : String) → w.error ≡ some e → Discards there w.calls

module _ (host : Calls) (path text : String) (removes : host.remove_error ≡ none) where
  clean_up-Discards : (there : Bool) (e : String) → Discards there (clean_up host e).calls
  unfolding clean_up
  clean_up-Discards there e = rw (clean_up, removes) refl

  attempt-Cleans :
      (bad : Option String) (what : String) (c : Call) (rest : Wrote)
      → (Discards true rest.calls → Discards true (c ∷ rest.calls))
      → Cleans true rest
      → Cleans true (attempt host bad what c rest)
  unfolding attempt
  attempt-Cleans none what c rest step cleans e h = step (cleans e h)
  attempt-Cleans (some b) what c rest step cleans e h = clean_up-Discards true (what <> (": " <> b))

  rename-Cleans : Cleans true (
      attempt host host.rename_error
        ("rename " <> (host.temp_path <> (" to " <> path)))
        rename
        record { calls = sync_dir ∷ []; error = none })
  unfolding attempt
  rename-Cleans e h = elim (Option-cases host.rename_error) [
    | inl fine ↦ (let wrong : none ≡ some e = rw (attempt, fine) at h in ground arith)
    | inr (b, bad) ↦
        rw (attempt, bad)
          (clean_up-Discards true
            (("rename " <> (host.temp_path <> (" to " <> path))) <> (": " <> b)))
  ]

  publish-Cleans : Cleans true (publish host path)
  unfolding publish
  publish-Cleans =
      let move =
        attempt host host.rename_error ("rename " <> (host.temp_path <> (" to " <> path))) rename
          record { calls = sync_dir ∷ []; error = none } in
      let shut = attempt host host.close_error ("close temp file " <> host.temp_path) close move in
      let synced = attempt host host.sync_error ("sync temp file " <> host.temp_path) sync shut in
      attempt-Cleans host.chmod_error ("chmod temp file " <> host.temp_path) chmod synced (λ d. d)
        (attempt-Cleans host.sync_error ("sync temp file " <> host.temp_path) sync shut (λ d. d)
          (attempt-Cleans host.close_error ("close temp file " <> host.temp_path) close move
            (λ d. d) rename-Cleans))

  write_text-Cleans : Cleans false (write_text host path text)
  unfolding write_text fill_temp
  write_text-Cleans e = elim (Option-cases host.mkdir_error) [
    | inr (b, bad) ↦ rw (write_text, bad) (λ h. refl)
    | inl made ↦ elim (Option-cases host.create_error) [
      | inr (b, bad) ↦ rw (write_text, made, bad) (λ h. refl)
      | inl created ↦ elim (Option-cases host.write_error) [
        | inl filled ↦ rw (write_text, made, created, fill_temp, filled) (publish-Cleans e)
        | inr (b, bad) ↦
            rw (write_text, made, created, fill_temp, bad)
              (λ h. clean_up-Discards true ("write temp file " <> (host.temp_path <> (": " <> b))))
      ]
    ]
  ]

  -- A write that fails, at whichever call, leaves every file as it was, where the name of the temporary
  -- file was free and its removal works.
  pub write_text-failed :
      (files : Dict String) (e q : String)
      → lookup host.temp_path files ≡ none
      → (write_text host path text).error ≡ some e
      → lookup q (after_calls host.temp_path path (write_text host path text).calls files)
        ≡ lookup q files
  write_text-failed files e q fresh failed =
      discarded host.temp_path path text files fresh false (write_text host path text).calls files
        (write_text-Cleans e failed) (λ p other. refl) (λ same. fresh) q

module _ (host : Calls) (path text : String) where
  attempt-done :
      (bad : Option String) (what : String) (c : Call) (rest : Wrote)
      → (attempt host bad what c rest).error ≡ none
      → (rest.error ≡ none) × ((attempt host bad what c rest).calls ≡ c ∷ rest.calls)
  unfolding attempt clean_up
  attempt-done none what c rest h = (h, refl)
  attempt-done (some b) what c rest h = ground arith

  publish-done :
      (publish host path).error ≡ none
      → (publish host path).calls ≡ chmod ∷ sync ∷ close ∷ rename ∷ sync_dir ∷ []
  unfolding publish
  publish-done h =
      let flush : Wrote = record { calls = sync_dir ∷ []; error = none } in
      let move =
        attempt host host.rename_error ("rename " <> (host.temp_path <> (" to " <> path))) rename
          flush in
      let shut = attempt host host.close_error ("close temp file " <> host.temp_path) close move in
      let synced = attempt host host.sync_error ("sync temp file " <> host.temp_path) sync shut in
      let (h1, c1) =
        attempt-done host.chmod_error ("chmod temp file " <> host.temp_path) chmod synced h in
      let (h2, c2) =
        attempt-done host.sync_error ("sync temp file " <> host.temp_path) sync shut h1 in
      let (h3, c3) =
        attempt-done host.close_error ("close temp file " <> host.temp_path) close move h2 in
      let (h4, c4) =
        attempt-done host.rename_error ("rename " <> (host.temp_path <> (" to " <> path))) rename
          flush h3 in
      c1
      ∙ (ap (λ cs. chmod ∷ cs) c2
          ∙ (ap (λ cs. chmod ∷ sync ∷ cs) c3 ∙ ap (λ cs. chmod ∷ sync ∷ close ∷ cs) c4))

  -- The calls of a write that succeeds: the text is flushed before the file gets its name.
  pub write_text-calls :
      (write_text host path text).error ≡ none
      → (write_text host path text).calls
        ≡ create ∷ fill text ∷ chmod ∷ sync ∷ close ∷ rename ∷ sync_dir ∷ []
  unfolding write_text fill_temp clean_up
  write_text-calls = elim (Option-cases host.mkdir_error) [
    | inr (b, bad) ↦ rw (write_text, bad) (λ h. ground arith)
    | inl made ↦ elim (Option-cases host.create_error) [
      | inr (b, bad) ↦ rw (write_text, made, bad) (λ h. ground arith)
      | inl created ↦ elim (Option-cases host.write_error) [
        | inl filled ↦
            rw (write_text, made, created, fill_temp, filled)
              (λ h. ap (λ cs. create ∷ fill text ∷ cs) (publish-done h))
        | inr (b, bad) ↦ rw (write_text, made, created, fill_temp, bad) (λ h. ground arith)
      ]
    ]
  ]

  -- After a write that succeeds the target holds the text, the temporary file is gone, and every other
  -- file is as it was; the text was flushed to the disk before the file got its name.
  pub write_text-done :
      (files : Dict String) (q : String)
      → (host.temp_path == path) ≡ false
      → (q == host.temp_path) ≡ false
      → (q == path) ≡ false
      → (write_text host path text).error ≡ none
      → (lookup path (after_calls host.temp_path path (write_text host path text).calls files)
          ≡ some text)
        × (lookup host.temp_path
              (after_calls host.temp_path path (write_text host path text).calls files)
            ≡ none)
        × (lookup q (after_calls host.temp_path path (write_text host path text).calls files)
            ≡ lookup q files)
        × ((write_text host path text).calls
            ≡ create ∷ fill text ∷ chmod ∷ sync ∷ close ∷ rename ∷ sync_dir ∷ [])
  unfolding after_calls
  write_text-done files q apart other aside h =
      let calls = write_text-calls h in
      let temp : String = host.temp_path in
      let s : Dict String = insert temp text (insert temp "" files) in
      let final : after_calls temp path (write_text host path text).calls files
          ≡ insert path text (erase temp s) =
        ap (λ cs. after_calls temp path cs files) calls
        ∙ after_rename temp path text files s
            (found_temp temp path text files (insert temp "" files) text) in
      let look : (p : String)
          → lookup p (after_calls temp path (write_text host path text).calls files)
            ≡ (if path == p then some text else if temp == p then none else lookup p s) =
        λ p.
          ap (lookup p) final
          ∙ (lookup-insert path p text (erase temp s)
              ∙ ap (λ o. if path == p then some text else o) (lookup-erase temp p s)) in
      let old : lookup q s ≡ lookup q files =
        insert_temp temp path text files (insert temp "" files) text
          (insert_temp temp path text files files "" (λ p away. refl)) q other in
      (
        look path ∙ rw (eq_refl path) refl,
        look temp ∙ ground (arith, eq_refl temp, eq_iff path temp, eq_iff temp path),
        look q ∙ ground (arith, old, eq_iff path q, eq_iff q path, eq_iff temp q, eq_iff q temp),
        calls,
      )
