-- ===== src/Common/Sort.antt =====
-- `Array.prototype.sort`, which is stable: the result is the one stable rearrangement, whatever
-- algorithm finds it, and here it is found by insertion. `before a b` says that the comparator is
-- negative at (a, b).
use mathlib.Core.Bool.{Bool, true, false}
use mathlib.Core.List.{List, [], ◌∷◌, ◌++◌, Perm, perm_middle, append-nil}
use mathlib.Core.List.Perm
use mathlib.Core.Path.{◌≡◌}
use mathlib.Core.Logic.{inl, inr}
use nslibrary.Common.Tests.{if◌then◌else◌, Bool-cases}
use nslibrary.Common.Lists.{All}

module _ {A : Type 0} (before : A → A → Bool) where
  -- After the elements that the new one does not come before.
  abbrev pub insert : A → List A → List A
  insert x [] = x ∷ []
  insert x (y ∷ ys) = let rest = insert x ys in if before x y then x ∷ y ∷ ys else y ∷ rest

  -- From the last element to the first would turn ties round, so the list is walked from its front.
  abbrev pub sort_onto : List A → List A → List A
  sort_onto done [] = done
  sort_onto done (x ∷ xs) = sort_onto (insert x done) xs

  abbrev pub sort : List A → List A
  sort xs = sort_onto [] xs

  -- No element comes before one that stands to its left.
  abbrev pub IsSorted : List A → Type 0
  IsSorted [] = Unit {0}
  IsSorted (x ∷ xs) = All (λ y. before y x ≡ false) xs × IsSorted xs

module _ {A : Type 0} (before : A → A → Bool) where
  insert-Perm : (x : A) (ys : List A) → Perm (insert before x ys) (x ∷ ys)
  insert-Perm x [] = Perm.refl (x ∷ [])
  insert-Perm x (y ∷ ys) = elim (Bool-cases (before x y)) [
    | inl first ↦ rw first (Perm.refl (x ∷ y ∷ ys))
    | inr later ↦ rw later (Perm.trans (Perm.cons y (insert-Perm x ys)) (Perm.swap x y ys))
  ]

  pub insert-All :
      (P : A → Type 0) (x : A) (ys : List A) → P x → All P ys → All P (insert before x ys)
  insert-All P x [] h hs = (h, tt)
  insert-All P x (y ∷ ys) h hs = elim (Bool-cases (before x y)) [
    | inl first ↦ rw first (h, hs)
    | inr later ↦ rw later (hs.0, insert-All P x ys h hs.1)
  ]

  sort_onto-All :
      (P : A → Type 0) (done xs : List A) → All P done → All P xs → All P (sort_onto before done xs)
  sort_onto-All P done [] h hs = h
  sort_onto-All P done (x ∷ xs) h hs =
      sort_onto-All P (insert before x done) xs (insert-All P x done hs.0 h) hs.1

  -- What all elements satisfy, those of the sorted list do.
  pub sort-All : (P : A → Type 0) (xs : List A) → All P xs → All P (sort before xs)
  sort-All P xs hs = sort_onto-All P [] xs tt hs

  module _ (asym : (a b : A) → before a b ≡ true → before b a ≡ false)
      (trans : (a b c : A) → before a b ≡ true → before c b ≡ false → before c a ≡ false) where
    below :
        (x y : A) (ys : List A)
        → before x y ≡ true
        → All (λ z. before z y ≡ false) ys
        → All (λ z. before z x ≡ false) ys
    below x y [] h hs = tt
    below x y (z ∷ ys) h hs = (trans x y z h hs.0, below x y ys h hs.1)

    insert-IsSorted :
        (x : A) (ys : List A) → IsSorted before ys → IsSorted before (insert before x ys)
    insert-IsSorted x [] s = (tt, tt)
    insert-IsSorted x (y ∷ ys) s = elim (Bool-cases (before x y)) [
      | inl first ↦ rw first ((asym x y first, below x y ys first s.0), s)
      | inr later ↦
          rw later (insert-All (λ z. before z y ≡ false) x ys later s.0, insert-IsSorted x ys s.1)
    ]

    sort_onto-IsSorted :
        (done xs : List A) → IsSorted before done → IsSorted before (sort_onto before done xs)
    sort_onto-IsSorted done [] s = s
    sort_onto-IsSorted done (x ∷ xs) s =
        sort_onto-IsSorted (insert before x done) xs (insert-IsSorted x done s)

    pub sort-IsSorted : (xs : List A) → IsSorted before (sort before xs)
    sort-IsSorted xs = sort_onto-IsSorted [] xs tt

  sort_onto-Perm : (done xs : List A) → Perm (sort_onto before done xs) (xs ++ done)
  sort_onto-Perm done [] = Perm.refl done
  sort_onto-Perm done (x ∷ xs) =
      Perm.trans (sort_onto-Perm (insert before x done) xs)
        (Perm.trans (Perm.append (Perm.refl xs) (insert-Perm x done)) (perm_middle xs done))

  pub sort-Perm : (xs : List A) → Perm (sort before xs) xs
  sort-Perm xs = rw append-nil at (sort_onto-Perm [] xs)
