-- ===== src/Prelude/Sorting.antt =====
-- Stable sorts: `sort.Slice` with a test of the source, and `sort.SliceStable` by an integer key.
use Prim.Native.Nat.{ℕ, suc}
use mathlib.Core.Path.{◌≡◌, refl, ◌∙◌}
use mathlib.Core.Logic.{inl, inr}
use mathlib.Core.Bool.{Bool, true, false, ◌||◌}
use mathlib.Core.List.{List, [], ◌∷◌, map, Perm}
use mathlib.Core.List.Perm
use native.Mathlib.Omega.{arith}
use rbln_container_toolkit.Prelude.Tests.{HasEq, ◌==◌, beq_comm, if◌then◌else◌, Bool-cases}
use rbln_container_toolkit.Prelude.Lists.{All, All-map, contains, Distinct}
use rbln_container_toolkit.Prelude.Int.{ℤ, ltb_ℤ, ◌≤ℤ◌}

-- How many elements pass the test.
abbrev pub count {ℓ} : {A : Type ℓ} → (A → Bool) → List A → ℕ
count q [] = 0
count q (x ∷ xs) = if q x then suc (count q xs) else count q xs

module _ {ℓ} {A : Type ℓ} (below : A → A → Bool) where
  -- `x` goes in front of the elements that are not below it.
  unfoldable insert_in : A → List A → List A
  insert_in x [] = x ∷ []
  insert_in x (y ∷ ys) = let rest = insert_in x ys in if below y x then y ∷ rest else x ∷ (y ∷ ys)

  unfoldable pub sort : List A → List A
  unfolding insert_in
  sort [] = []
  sort (x ∷ xs) = insert_in x (sort xs)

  -- No element is below one that stands before it.
  abbrev pub IsOrdered : List A → Type 0
  IsOrdered [] = Unit
  IsOrdered (x ∷ xs) = All (λ y. below y x ≡ false) xs × IsOrdered xs

  insert_in-perm : (x : A) (ys : List A) → Perm (x ∷ ys) (insert_in x ys)
  unfolding insert_in
  insert_in-perm x [] = Perm.refl _
  insert_in-perm x (y ∷ ys) = elim (Bool-cases (below y x)) [
    | inl later ↦ rw later (Perm.trans (Perm.swap y x ys) (Perm.cons y (insert_in-perm x ys)))
    | inr first ↦ rw first (Perm.refl _)
  ]

  pub sort-perm : (xs : List A) → Perm xs (sort xs)
  unfolding sort
  sort-perm [] = Perm.refl _
  sort-perm (x ∷ xs) = Perm.trans (Perm.cons x (sort-perm xs)) (insert_in-perm x (sort xs))

  count-insert_in :
      (q : A → Bool) (x : A) (ys : List A) → count q (insert_in x ys) ≡ count q (x ∷ ys)
  unfolding insert_in
  count-insert_in q x [] = refl
  count-insert_in q x (y ∷ ys) = ground (arith, count-insert_in q x ys)

  pub count-sort : (q : A → Bool) (xs : List A) → count q (sort xs) ≡ count q xs
  unfolding sort
  count-sort q [] = refl
  count-sort q (x ∷ xs) = ground (arith, count-insert_in q x (sort xs), count-sort q xs)

  insert_in-All {κ} :
      (P : A → Type κ) (x : A) (ys : List A) → P x → All P ys → All P (insert_in x ys)
  unfolding insert_in
  insert_in-All P x [] hx hys = (hx, tt)
  insert_in-All P x (y ∷ ys) hx hys = elim (Bool-cases (below y x)) [
    | inl later ↦ rw later (hys.0, insert_in-All P x ys hx hys.1)
    | inr first ↦ rw first (hx, hys)
  ]

  pub sort-All {κ} : (P : A → Type κ) (xs : List A) → All P xs → All P (sort xs)
  unfolding sort
  sort-All P [] h = h
  sort-All P (x ∷ xs) h = insert_in-All P x (sort xs) h.0 (sort-All P xs h.1)

  -- What a list has under `f` is what its sort has.
  module _ {κ} {B : Type κ} ⦃e : HasEq B⦄ (f : A → B) where
    contains-insert_in :
        (x : A) (ys : List A) (b : B)
        → contains (map f (insert_in x ys)) b ≡ (f x == b || contains (map f ys) b)
    unfolding insert_in
    contains-insert_in x [] b = refl
    contains-insert_in x (y ∷ ys) b = ground (arith, contains-insert_in x ys b)

    pub contains-sort : (xs : List A) (b : B) → contains (map f (sort xs)) b ≡ contains (map f xs) b
    unfolding sort
    contains-sort [] b = refl
    contains-sort (x ∷ xs) b = ground (arith, contains-insert_in x (sort xs) b, contains-sort xs b)

    insert_in-Distinct :
        (x : A) (ys : List A)
        → contains (map f ys) (f x) ≡ false
        → Distinct (map f ys)
        → Distinct (map f (insert_in x ys))
    unfolding insert_in
    insert_in-Distinct x [] new once = (refl, tt)
    insert_in-Distinct x (y ∷ ys) new once = elim (Bool-cases (below y x)) [
      | inl later ↦ rw later (
        ground (arith, contains-insert_in x ys (f y), new, once.0, beq_comm (f x) (f y)),
        insert_in-Distinct x ys (ground (arith, new)) once.1,
      )
      | inr first ↦ rw first (new, once)
    ]

    pub sort-Distinct : (xs : List A) → Distinct (map f xs) → Distinct (map f (sort xs))
    unfolding sort
    sort-Distinct [] once = tt
    sort-Distinct (x ∷ xs) once =
        insert_in-Distinct x (sort xs) (contains-sort xs (f x) ∙ once.0) (sort-Distinct xs once.1)

  -- A test for a strict weak order.
  module _ (asym : (x y : A) → below y x ≡ true → below x y ≡ false)
      (trans : (x y z : A) → below y x ≡ false → below z y ≡ false → below z x ≡ false) where
    insert_in-IsOrdered : (x : A) (ys : List A) → IsOrdered ys → IsOrdered (insert_in x ys)
    unfolding insert_in
    insert_in-IsOrdered x [] s = (tt, tt)
    insert_in-IsOrdered x (y ∷ ys) s = elim (Bool-cases (below y x)) [
      | inl later ↦ rw later (
        insert_in-All (λ z. below z y ≡ false) x ys (asym x y later) s.0,
        insert_in-IsOrdered x ys s.1,
      )
      | inr first ↦ rw first (
        (
          first,
          All-map (λ z. below z y ≡ false) (λ z. below z x ≡ false) (λ z. trans x y z first) ys s.0,
        ),
        s,
      )
    ]

    pub sort-IsOrdered : (xs : List A) → IsOrdered (sort xs)
    unfolding sort
    sort-IsOrdered [] = tt
    sort-IsOrdered (x ∷ xs) = insert_in-IsOrdered x (sort xs) (sort-IsOrdered xs)

module _ {ℓ} {A : Type ℓ} (key : A → ℤ) where
  abbrev has_less : A → A → Bool
  has_less y x = ltb_ℤ (key y) (key x)

  unfoldable pub sort_by : List A → List A
  unfolding sort
  sort_by = sort has_less

  -- In ascending order of keys.
  abbrev pub IsSortedBy : List A → Type 0
  IsSortedBy [] = Unit
  IsSortedBy (x ∷ xs) = All (λ y. key x ≤ℤ key y) xs × IsSortedBy xs

  pub sort_by-perm : (xs : List A) → Perm xs (sort_by xs)
  unfolding sort_by
  sort_by-perm = sort-perm has_less

  pub count-sort_by : (q : A → Bool) (xs : List A) → count q (sort_by xs) ≡ count q xs
  unfolding sort_by
  count-sort_by = count-sort has_less

  pub sort_by-All : (P : A → Type 0) (xs : List A) → All P xs → All P (sort_by xs)
  unfolding sort_by
  sort_by-All = sort-All has_less

  IsOrdered-IsSortedBy : (xs : List A) → IsOrdered has_less xs → IsSortedBy xs
  IsOrdered-IsSortedBy [] s = tt
  IsOrdered-IsSortedBy (x ∷ xs) s = (
    All-map (λ y. has_less y x ≡ false) (λ y. key x ≤ℤ key y) (λ y le. ground (arith, le)) xs s.0,
    IsOrdered-IsSortedBy xs s.1,
  )

  pub sort_by-IsSortedBy : (xs : List A) → IsSortedBy (sort_by xs)
  unfolding sort_by
  sort_by-IsSortedBy xs = IsOrdered-IsSortedBy (sort has_less xs) (
      sort-IsOrdered has_less (λ x y lt. ground (arith, lt))
        (λ x y z le more. ground (arith, le, more)) xs)
