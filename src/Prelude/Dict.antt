-- ===== src/Prelude/Dict.antt =====
-- Go's `map[string]V` as an association list with one entry for each key.
use Prim.Native.String.{String}
use mathlib.Core.Path.{◌≡◌, refl, ◌∙◌, ap, subst}
use mathlib.Core.Option.{Option, none, some}
use mathlib.Core.List.{List, [], ◌∷◌, ◌++◌}
use native.Mathlib.Omega.{arith}
use text.Mathlib.TextEquality.{eq_iff}
use rbln_container_toolkit.Prelude.Tests.{◌==◌, string_eq, if◌then◌else◌, Bool-cases}
use rbln_container_toolkit.Prelude.Lists.{length}
use Prim.Native.Nat.{suc}
use text.Mathlib.TextPositions.{eq_refl}
use mathlib.Core.Logic.{inl, inr}

abbrev pub Dict {ℓ} : Type ℓ → Type ℓ
Dict V = List (String × V)

module _ {ℓ} {V : Type ℓ} where
  unfoldable pub lookup : String → Dict V → Option V
  lookup k [] = none
  lookup k ((j, v) ∷ m) = if j == k then some v else lookup k m

  -- `m[k] = v`
  unfoldable pub insert : String → V → Dict V → Dict V
  insert key new [] = (key, new) ∷ []
  insert key new ((k, old) ∷ rest) =
      if k == key then (key, new) ∷ rest else (k, old) ∷ insert key new rest

  -- `delete(m, k)`
  unfoldable pub erase : String → Dict V → Dict V
  erase k [] = []
  erase k ((j, v) ∷ m) = let rest = erase k m in if j == k then rest else (j, v) ∷ rest

  -- The keys differ.
  abbrev pub NodupKeys : Dict V → Type ℓ
  NodupKeys [] = Unit
  NodupKeys ((k, v) ∷ m) = (lookup k m ≡ none) × NodupKeys m

  pub lookup-insert :
      (key asked : String) (new : V) (entries : Dict V)
      → lookup asked (insert key new entries)
        ≡ (if key == asked then some new else lookup asked entries)
  unfolding lookup insert
  lookup-insert key asked new [] = refl
  lookup-insert key asked new ((k, old) ∷ rest) =
      ground
        (arith, lookup-insert key asked new rest, eq_iff k asked, eq_iff k key, eq_iff key asked)

  pub lookup-erase :
      (k j : String) (m : Dict V) → lookup j (erase k m) ≡ (if k == j then none else lookup j m)
  unfolding lookup erase
  lookup-erase k j [] = ground arith
  lookup-erase k j ((i, v) ∷ m) =
      ground (arith, lookup-erase k j m, eq_iff i k, eq_iff i j, eq_iff k j)

  lookup-erase_self : (k : String) (m : Dict V) → lookup k (erase k m) ≡ none
  lookup-erase_self k m = lookup-erase k k m ∙ simp eq_refl

  pub erase_missing : (k : String) (m : Dict V) → lookup k m ≡ none → erase k m ≡ m
  unfolding lookup erase
  erase_missing k [] h = refl
  erase_missing k ((j, v) ∷ m) h = ground (arith, eq_iff j k, erase_missing k m)

  -- A new key that is removed again leaves the map as it was.
  pub erase-insert :
      (k : String) (v : V) (m : Dict V) → lookup k m ≡ none → erase k (insert k v m) ≡ m
  unfolding lookup insert erase
  erase-insert k v [] h = rw (erase, eq_refl k) refl
  erase-insert k v ((j, w) ∷ m) h = elim (Bool-cases (j == k)) [
    | inl same ↦ (let bad : some w ≡ none = rw same at h in ground arith)
    | inr differs ↦
        rw (insert, differs, erase, differs)
          (ap (λ rest. (j, w) ∷ rest) (erase-insert k v m (rw differs at h)))
  ]

  -- Removing a key that is there removes one entry.
  pub length-erase :
      (k : String) (m : Dict V) {v : V}
      → NodupKeys m
      → lookup k m ≡ some v
      → suc (length (erase k m)) ≡ length m
  unfolding lookup erase
  length-erase k [] n h = cc
  length-erase k ((j, w) ∷ m) n h = elim (Bool-cases (j == k)) [
    | inl same ↦ rw same (
        ap (λ d. suc (length d))
          (erase_missing k m (subst (λ i. lookup i m ≡ none) ((eq_iff j k).0 same) n.0)))
    | inr differs ↦ rw differs (ap suc (length-erase k m n.1 (rw differs at h)))
  ]

  pub erase-NodupKeys : (k : String) (m : Dict V) → NodupKeys m → NodupKeys (erase k m)
  unfolding erase
  erase-NodupKeys k [] n = n
  erase-NodupKeys k ((j, v) ∷ m) n =
      ground (arith, erase-NodupKeys k m n.1, lookup-erase k j m, n.0)

  pub insert-NodupKeys : (k : String) (v : V) (m : Dict V) → NodupKeys m → NodupKeys (insert k v m)
  unfolding insert
  insert-NodupKeys k v [] n = (unfold lookup in refl, tt)
  insert-NodupKeys k v ((j, w) ∷ m) n = elim (Bool-cases (j == k)) [
    | inl same ↦ rw same (subst (λ i. lookup i m ≡ none) ((eq_iff j k).0 same) n.0, n.1)
    | inr differs ↦
        rw differs (
          ground (arith, lookup-insert k j v m, eq_iff j k, eq_iff k j),
          insert-NodupKeys k v m n.1,
        )
  ]

  abbrev pub or_else : Option V → Option V → Option V
  or_else none o = o
  or_else (some v) o = some v

  -- Of two entries for one key the first is found.
  pub lookup-append :
      (k : String) (a b : Dict V) → lookup k (a ++ b) ≡ or_else (lookup k a) (lookup k b)
  unfolding lookup
  lookup-append k [] b = refl
  lookup-append k ((j, v) ∷ a) b = ground (arith, lookup-append k a b)

  pub NodupKeys-snoc :
      (a : Dict V) (k : String) (v : V)
      → NodupKeys a
      → lookup k a ≡ none
      → NodupKeys (a ++ (k, v) ∷ [])
  unfolding lookup
  NodupKeys-snoc [] k v n h = (refl, tt)
  NodupKeys-snoc ((j, w) ∷ a) k v n h = (
    ground (arith, lookup-append j a ((k, v) ∷ []), n.0, eq_iff k j, eq_iff j k),
    NodupKeys-snoc a k v n.1 (ground (arith, eq_iff j k)),
  )
