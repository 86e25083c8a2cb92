-- ===== src/Library/Prefer/Best.antt =====
-- The file that packages/server/src/library/prefer.ts picks is the best of all.
use nslibrary.Common.{
  ℕ, ◌≤◌, ◌<◌, ◌≡◌, refl, Bool, true, false, ◌&&◌, ◌||◌, some, List, [], ◌∷◌, arith, ltb, ◌==◌, All,
  Bool-cases, inl, inr, ◌⊎◌, subst, sym, ltb→lt,
}
use nslibrary.Shared.Types.{ContainerFormat}
use nslibrary.Library.Prefer.{
  preferred_format_rank, is_better, better_of, pick_from, pick_preferred,
}

abbrev pub Below : ℕ → ℕ → ℕ → ℕ → Type 0
Below r i q j = (r < q) ⊎ ((r ≡ q) × (i ≤ j))

taken : (r i q j : ℕ) → (ltb r q || ((r == q) && ltb i j)) ≡ true → Below r i q j
taken r i q j h = elim (Bool-cases (ltb r q)) [
  | inl lower ↦ inl (ltb→lt r q lower)
  | inr not_lower ↦ inr (ground (arith, h, not_lower))
]

kept : (r i q j : ℕ) → (ltb r q || ((r == q) && ltb i j)) ≡ false → Below q j r i
kept r i q j h = elim (Bool-cases (ltb q r)) [
  | inl higher ↦ inl (ltb→lt q r higher)
  | inr not_higher ↦ inr (ground (arith, h, not_higher))
]

module _ {T : Type 0} (format_of : T → ContainerFormat) (id_of : T → ℕ)
    (prefer_compressed : Bool) where
  -- No worse than: of a better format, or of the same and with no higher id.
  abbrev pub NoWorse : T → T → Type 0
  NoWorse a b =
      Below (preferred_format_rank (format_of a) prefer_compressed) (id_of a)
        (preferred_format_rank (format_of b) prefer_compressed) (id_of b)

  -- One of the items.
  abbrev pub IsOneOf : T → List T → Type 0
  IsOneOf a [] = ⊥
  IsOneOf a (x ∷ xs) = (a ≡ x) ⊎ IsOneOf a xs

  NoWorse-trans : (a b c : T) → NoWorse a b → NoWorse b c → NoWorse a c
  NoWorse-trans a b c (inl h) (inl k) = inl (omega arith)
  NoWorse-trans a b c (inl h) (inr k) = inl (omega arith)
  NoWorse-trans a b c (inr h) (inl k) = inl (omega arith)
  NoWorse-trans a b c (inr h) (inr k) = inr (omega arith)

  NoWorse-refl : (a : T) → NoWorse a a
  NoWorse-refl a = inr (refl, omega arith)

  is_better-NoWorse :
      (item best : T)
      → is_better format_of id_of prefer_compressed item best ≡ true
      → NoWorse item best
  unfolding is_better
  is_better-NoWorse item best h = taken _ (id_of item) _ (id_of best) h

  not_better-NoWorse :
      (item best : T)
      → is_better format_of id_of prefer_compressed item best ≡ false
      → NoWorse best item
  unfolding is_better
  not_better-NoWorse item best h = kept _ (id_of item) _ (id_of best) h

  better_of-true :
      (best item : T)
      → is_better format_of id_of prefer_compressed item best ≡ true
      → better_of format_of id_of prefer_compressed best item ≡ item
  unfolding better_of
  better_of-true best item h = rw h refl

  better_of-false :
      (best item : T)
      → is_better format_of id_of prefer_compressed item best ≡ false
      → better_of format_of id_of prefer_compressed best item ≡ best
  unfolding better_of
  better_of-false best item h = rw h refl

  better_of-kept :
      (P : T → Type 0) (best item : T)
      → P best
      → P item
      → P (better_of format_of id_of prefer_compressed best item)
  unfolding better_of
  better_of-kept P best item p q =
      elim (Bool-cases (is_better format_of id_of prefer_compressed item best)) [
        | inl better ↦ rw better q
        | inr worse ↦ rw worse p
      ]

  -- The best of a list so far, and an item of it.
  abbrev IsBest : T → T → List T → Type 0
  IsBest a first items = ((a ≡ first) ⊎ IsOneOf a items) × NoWorse a first × All (NoWorse a) items

  pick_from-IsBest :
      (best : T) (items : List T)
      → IsBest (pick_from format_of id_of prefer_compressed best items) best items
  unfolding pick_from
  pick_from-IsBest best [] = (inl refl, NoWorse-refl best, tt)
  pick_from-IsBest best (item ∷ items) =
      elim (Bool-cases (is_better format_of id_of prefer_compressed item best)) [
        | inl better ↦
            let (one, first, all) = pick_from-IsBest item items in
            subst
              (λ (b : T).
                IsBest (pick_from format_of id_of prefer_compressed b items) best (item ∷ items))
              (sym (better_of-true best item better))
              (
                inr one,
                NoWorse-trans _ item best first (is_better-NoWorse item best better),
                (first, all),
              )
        | inr worse ↦
            let (one, first, all) = pick_from-IsBest best items in
            subst
              (λ (b : T).
                IsBest (pick_from format_of id_of prefer_compressed b items) best (item ∷ items))
              (sym (better_of-false best item worse))
              (
                skip one,
                first,
                (NoWorse-trans _ best item first (not_better-NoWorse item best worse), all),
              )
      ]
    where
      skip :
          {a : T} → ((a ≡ best) ⊎ IsOneOf a items) → ((a ≡ best) ⊎ ((a ≡ item) ⊎ IsOneOf a items))
      skip (inl h) = inl h
      skip (inr h) = inr (inr h)

  -- The item that is picked is one of the items, and no item is better: none has a format that is
  -- preferred to its format, and none of the same rank has a lower id.
  pub pick_preferred-best :
      (items : List T) {picked : T}
      → pick_preferred format_of id_of prefer_compressed items ≡ some picked
      → IsOneOf picked items × All (NoWorse picked) items
  unfolding pick_preferred
  pick_preferred-best [] h = cc
  pick_preferred-best (first ∷ items) h =
      let (one, best, all) = pick_from-IsBest first (first ∷ items) in
      subst (λ (a : T). IsOneOf a (first ∷ items) × All (NoWorse a) (first ∷ items)) (some-inj h)
        (merge one, all)
    where
      some-inj : {a b : T} → some a ≡ some b → a ≡ b
      some-inj e = cc

      merge : {a : T} → ((a ≡ first) ⊎ IsOneOf a (first ∷ items)) → IsOneOf a (first ∷ items)
      merge (inl e) = inl e
      merge (inr e) = e

  -- What is picked has every property that all the items have.
  pub pick_from-kept :
      (P : T → Type 0) (best : T) (items : List T)
      → P best
      → All P items
      → P (pick_from format_of id_of prefer_compressed best items)
  unfolding pick_from
  pick_from-kept P best [] p h = p
  pick_from-kept P best (item ∷ items) p h =
      pick_from-kept P (better_of format_of id_of prefer_compressed best item) items
        (better_of-kept P best item p h.0) h.1
