-- ===== src/Cdi/Writer/Watched.antt =====
-- The files while the calls of a write are made, whatever calls they are.
use rbln_container_toolkit.Prelude.{
  String, ◌≡◌, ◌⊎◌, refl, sym, ◌∙◌, inl, inr, false, Option, none, some, List, [], ◌∷◌, All, subst,
  ◌==◌, string_eq, arith, eq_iff,
}
use rbln_container_toolkit.Prelude.Dict.{Dict, lookup, insert, erase, lookup-insert, lookup-erase}
use rbln_container_toolkit.Cdi.Writer.{
  Call, create, fill, chmod, sync, close, rename, unlink, sync_dir, after_call,
}
use text.Mathlib.TextPositions.{eq_refl}

-- The files after each of the calls.
abbrev pub states : String → String → List Call → Dict String → List (Dict String)
states temp path [] files = []
states temp path (c ∷ cs) files =
    after_call temp path c files ∷ states temp path cs (after_call temp path c files)

-- The temporary file is renamed only with the whole text, and nothing comes behind but a flush.
abbrev pub IsSync : Call → Type 0
IsSync c = c ≡ sync_dir

abbrev pub RenamesWhole : String → Option String → List Call → Type 0
RenamesWhole text held [] = Unit
RenamesWhole text held (create ∷ cs) = RenamesWhole text (some "") cs
RenamesWhole text held (fill t ∷ cs) = RenamesWhole text (some t) cs
RenamesWhole text held (unlink ∷ cs) = RenamesWhole text none cs
RenamesWhole text held (chmod ∷ cs) = RenamesWhole text held cs
RenamesWhole text held (sync ∷ cs) = RenamesWhole text held cs
RenamesWhole text held (close ∷ cs) = RenamesWhole text held cs
RenamesWhole text held (sync_dir ∷ cs) = RenamesWhole text held cs
RenamesWhole text held (rename ∷ cs) = (held ≡ some text) × All IsSync cs

module _ (temp path text : String) (files : Dict String) where
  -- The files but the temporary one are as they were.
  abbrev pub IsOld : Dict String → Type 0
  IsOld s = (q : String) → (q == temp) ≡ false → lookup q s ≡ lookup q files

  -- The target has the whole text, and the other files are as they were.
  abbrev pub IsNew : Dict String → Type 0
  IsNew s =
      (lookup path s ≡ some text)
      × ((q : String) → (q == temp) ≡ false → (q == path) ≡ false → lookup q s ≡ lookup q files)

  pub insert_temp : (s : Dict String) (t : String) → IsOld s → IsOld (insert temp t s)
  insert_temp s t old q other =
      ground (arith, lookup-insert temp q t s, old q other, eq_iff temp q, eq_iff q temp)

  pub erase_temp : (s : Dict String) → IsOld s → IsOld (erase temp s)
  erase_temp s old q other =
      ground (arith, lookup-erase temp q s, old q other, eq_iff temp q, eq_iff q temp)

  renamed : (s : Dict String) → IsOld s → IsNew (insert path text (erase temp s))
  renamed s old = (
    lookup-insert path path text (erase temp s) ∙ rw (eq_refl path) refl,
    λ q other aside. ground (
      arith,
      lookup-insert path q text (erase temp s),
      eq_iff path q,
      eq_iff q path,
      erase_temp s old q other,
    ),
  )

  pub found_temp : (s : Dict String) (t : String) → lookup temp (insert temp t s) ≡ some t
  found_temp s t = lookup-insert temp temp t s ∙ rw (eq_refl temp) refl

  pub lost_temp : (s : Dict String) → lookup temp (erase temp s) ≡ none
  lost_temp s = lookup-erase temp temp s ∙ rw (eq_refl temp) refl

  pub after_rename :
      (s : Dict String)
      → lookup temp s ≡ some text
      → after_call temp path rename s ≡ insert path text (erase temp s)
  unfolding after_call
  after_rename s at = rw (after_call, at) refl

  flushed :
      (cs : List Call) (s : Dict String)
      → All IsSync cs
      → IsNew s
      → All (λ t. IsOld t ⊎ IsNew t) (states temp path cs s)
  unfolding after_call
  flushed [] s syncs is_new = tt
  flushed (sync_dir ∷ cs) s syncs is_new = (inr is_new, flushed cs s syncs.1 is_new)
  flushed (create ∷ cs) s syncs is_new = ground arith
  flushed (fill t ∷ cs) s syncs is_new = ground arith
  flushed (chmod ∷ cs) s syncs is_new = ground arith
  flushed (sync ∷ cs) s syncs is_new = ground arith
  flushed (close ∷ cs) s syncs is_new = ground arith
  flushed (rename ∷ cs) s syncs is_new = ground arith
  flushed (unlink ∷ cs) s syncs is_new = ground arith

  pub watched :
      (held : Option String) (cs : List Call) (s : Dict String)
      → RenamesWhole text held cs
      → lookup temp s ≡ held
      → IsOld s
      → All (λ t. IsOld t ⊎ IsNew t) (states temp path cs s)
  unfolding after_call
  watched held [] s whole at old = tt
  watched held (create ∷ cs) s whole at old = (
    inl (insert_temp s "" old),
    watched (some "") cs (insert temp "" s) whole (found_temp s "") (insert_temp s "" old),
  )
  watched held (fill t ∷ cs) s whole at old = (
    inl (insert_temp s t old),
    watched (some t) cs (insert temp t s) whole (found_temp s t) (insert_temp s t old),
  )
  watched held (unlink ∷ cs) s whole at old = (
    inl (erase_temp s old),
    watched none cs (erase temp s) whole (lost_temp s) (erase_temp s old),
  )
  watched held (chmod ∷ cs) s whole at old = (inl old, watched held cs s whole at old)
  watched held (sync ∷ cs) s whole at old = (inl old, watched held cs s whole at old)
  watched held (close ∷ cs) s whole at old = (inl old, watched held cs s whole at old)
  watched held (sync_dir ∷ cs) s whole at old = (inl old, watched held cs s whole at old)
  watched held (rename ∷ cs) s whole at old =
      subst (λ t. (IsOld t ⊎ IsNew t) × All (λ u. IsOld u ⊎ IsNew u) (states temp path cs t))
        (sym (after_rename s (at ∙ whole.0)))
        (inr (renamed s old), flushed cs (insert path text (erase temp s)) whole.1 (renamed s old))
