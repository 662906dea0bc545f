-- ===== src/Discover/FirstWins.antt =====
-- The loop of the discoverers with a map of what was seen: of the candidates with one key the first is
-- kept.
use rbln_container_toolkit.Prelude.{
  String, ◌≡◌, inl, inr, false, none, List, [], ◌∷◌, contains, Bool-cases, if◌then◌else◌, string_eq,
  arith, eq_iff, All, All-map,
}
use rbln_container_toolkit.Prelude.Dict.{Dict, lookup, NodupKeys}

module _ {ℓ} {A : Type ℓ} where
  unfoldable pub keep_first : List String → Dict A → Dict A
  keep_first seen [] = []
  keep_first seen ((k, a) ∷ found) =
      let rest = keep_first (if contains seen k then seen else k ∷ seen) found in
      if contains seen k then rest else (k, a) ∷ rest

  -- What is kept, without the keys.
  abbrev pub values : Dict A → List A
  values [] = []
  values ((k, a) ∷ found) = a ∷ values found

  -- A key that was seen is not kept again; of another the first candidate is.
  pub lookup-keep_first :
      (seen : List String) (found : Dict A) (k : String)
      → lookup k (keep_first seen found) ≡ (if contains seen k then none else lookup k found)
  unfolding keep_first lookup
  lookup-keep_first seen [] k = ground arith
  lookup-keep_first seen ((j, a) ∷ found) k = elim (Bool-cases (contains seen j)) [
    | inl old ↦ rw old (ground (arith, lookup-keep_first seen found k, eq_iff j k, old))
    | inr new ↦
        rw new (ground (arith, lookup-keep_first (j ∷ seen) found k, eq_iff j k, eq_iff k j))
  ]

  -- No key is kept twice.
  pub keep_first-NodupKeys :
      (seen : List String) (found : Dict A) → NodupKeys (keep_first seen found)
  unfolding keep_first
  keep_first-NodupKeys seen [] = tt
  keep_first-NodupKeys seen ((j, a) ∷ found) = elim (Bool-cases (contains seen j)) [
    | inl old ↦ rw old (keep_first-NodupKeys seen found)
    | inr new ↦ rw new (
      ground (arith, lookup-keep_first (j ∷ seen) found j, eq_iff j j),
      keep_first-NodupKeys (j ∷ seen) found,
    )
  ]

  -- What holds of every candidate holds of what is kept.
  pub keep_first-All :
      (P : String × A → Type 0) (seen : List String) (found : Dict A)
      → All P found
      → All P (keep_first seen found)
  unfolding keep_first
  keep_first-All P seen [] all = tt
  keep_first-All P seen ((j, a) ∷ found) all = elim (Bool-cases (contains seen j)) [
    | inl old ↦ rw old (keep_first-All P seen found all.1)
    | inr new ↦ rw new (all.0, keep_first-All P (j ∷ seen) found all.1)
  ]

  -- What is kept was not seen before.
  pub keep_first-unseen :
      (seen : List String) (found : Dict A)
      → All (λ e. contains seen e.0 ≡ false) (keep_first seen found)
  unfolding keep_first
  keep_first-unseen seen [] = tt
  keep_first-unseen seen ((j, a) ∷ found) = elim (Bool-cases (contains seen j)) [
    | inl old ↦ rw old (keep_first-unseen seen found)
    | inr new ↦ rw new (
      new,
      All-map (λ e. contains (j ∷ seen) e.0 ≡ false) (λ e. contains seen e.0 ≡ false)
          (λ e h. ground (arith, h)) (keep_first (j ∷ seen) found)
          (keep_first-unseen (j ∷ seen) found),
    )
  ]
