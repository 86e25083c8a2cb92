-- ===== src/Saves/Retention.antt =====
-- Which backups `#prune` of packages/server/src/saves/service.ts deletes.
use nslibrary.Common.{
  ℕ, zero, suc, ◌≤◌, ◌≡◌, refl, sym, ap, subst, ◌∙◌, Bool, true, false, not, ◌&&◌, ◌||◌, ◌==◌, List,
  [], ◌∷◌, ◌++◌, filter, All, any, take, drop, length, length-take, take-append-drop, filter-same,
  arith, Bool-cases, inl, inr, ◌⊎◌,
}
use mathlib.Core.List.{Perm}
use nslibrary.Common.Sort.{sort, IsSorted, sort-IsSorted, sort-Perm}
use nslibrary.Saves.{
  SaveBackupRow, SaveKey, SaveOrigin, Saves, newer, row_with, delete_row, remove, is_unpinned,
  excess, prune_origin,
}

-- A row whose ID is that of one of these.
abbrev pub is_among : List SaveBackupRow → SaveBackupRow → Bool
is_among gone row = any (λ other. row.id == other.id) gone

-- The unpinned backups of a save, of one origin, are kept or gone. At most `keep` are kept, and if
-- any is gone it is `keep` of them; no backup that is gone is newer than one that is kept.
pub record IsPruned (key : SaveKey) (origin : SaveOrigin) (before after : Saves) : Type 0 where
  pub kept : List SaveBackupRow
  pub gone : List SaveBackupRow
  pub all : Perm (kept ++ gone) (filter (is_unpinned key origin) before.rows)
  pub at_most : length kept ≤ before.keep
  pub no_more : (gone ≡ []) ⊎ (length kept ≡ before.keep)
  pub oldest : All (λ g. All (λ k. newer g k ≡ false) kept) gone
  pub rows : after.rows ≡ filter (λ row. not (is_among gone row)) before.rows

newer_asym : (a b : SaveBackupRow) → newer a b ≡ true → newer b a ≡ false
unfolding newer
newer_asym a b h = ground (arith, h)

newer_trans : (a b c : SaveBackupRow) → newer a b ≡ true → newer c b ≡ false → newer c a ≡ false
unfolding newer
newer_trans a b c h k = ground (arith, h, k)

-- In a sorted list, nothing behind a place comes before what stands up to there.
split-sorted :
    (n : ℕ) (rows : List SaveBackupRow)
    → IsSorted newer rows
    → All (λ g. All (λ k. newer g k ≡ false) (take n rows)) (drop n rows)
split-sorted zero rows s = none rows
  where
    none : (rows : List SaveBackupRow) → All (λ g. All (λ k. newer g k ≡ false) []) rows
    none [] = tt
    none (r ∷ rows) = (tt, none rows)
split-sorted (suc n) [] s = tt
split-sorted (suc n) (r ∷ rows) s = add (drop n rows) (behind n rows s.0) (split-sorted n rows s.1)
  where
    behind :
        (n : ℕ) (rows : List SaveBackupRow)
        → All (λ g. newer g r ≡ false) rows
        → All (λ g. newer g r ≡ false) (drop n rows)
    behind zero rows h = h
    behind (suc n) [] h = tt
    behind (suc n) (x ∷ rows) h = behind n rows h.1

    add :
        (gs : List SaveBackupRow)
        → All (λ g. newer g r ≡ false) gs
        → All (λ g. All (λ k. newer g k ≡ false) (take n rows)) gs
        → All (λ g. All (λ k. newer g k ≡ false) (r ∷ take n rows)) gs
    add [] h k = tt
    add (g ∷ gs) h k = ((h.0, k.0), add gs h.1 k.1)

filter-filter :
    (p q : SaveBackupRow → Bool) (rows : List SaveBackupRow)
    → filter p (filter q rows) ≡ filter (λ row. q row && p row) rows
filter-filter p q [] = refl
filter-filter p q (r ∷ rows) = elim (Bool-cases (q r)) [
  | inl kept ↦ rw (kept, filter-filter p q rows) refl
  | inr gone ↦ rw (gone, filter-filter p q rows) refl
]

filter-all : (rows : List SaveBackupRow) → filter (λ row. true) rows ≡ rows
filter-all [] = refl
filter-all (r ∷ rows) = ap (◌∷◌ r) (filter-all rows)

-- What `#remove` leaves.
remove-rows :
    (gone : List SaveBackupRow) (s : Saves)
    → (remove gone s).rows ≡ filter (λ row. not (is_among gone row)) s.rows
unfolding remove delete_row row_with
remove-rows [] s = sym (filter-all s.rows)
remove-rows (g ∷ gone) s =
    remove-rows gone _
    ∙ filter-filter (λ row. not (is_among gone row)) (λ row. not (row.id == g.id)) s.rows
    ∙ filter-same (λ row. not (row.id == g.id) && not (is_among gone row))
        (λ row. not (is_among (g ∷ gone) row)) s.rows
        (λ row. de_morgan (row.id == g.id) (is_among gone row))
  where
    de_morgan : (a b : Bool) → (not a && not b) ≡ not (a || b)
    de_morgan true b = refl
    de_morgan false b = refl

-- The backups of one origin that are deleted are the oldest beyond the setting.
pub prune_origin-IsPruned :
    (key : SaveKey) (origin : SaveOrigin) (s : Saves)
    → (pruned : IsPruned key origin s (prune_origin key origin s).1) × ((prune_origin key origin
          s).0
        ≡ length pruned.gone)
unfolding prune_origin excess
prune_origin-IsPruned key origin s =
    let found = filter (is_unpinned key origin) s.rows in
    (
      record {
        kept = take s.keep (sort newer found);
        gone = drop s.keep (sort newer found);
        all =
            subst (λ xs. Perm xs found) (sym (take-append-drop s.keep (sort newer found)))
              (sort-Perm newer found);
        at_most = omega (arith, length-take s.keep (sort newer found));
        no_more = enough s.keep (sort newer found);
        oldest =
            split-sorted s.keep (sort newer found)
              (sort-IsSorted newer newer_asym newer_trans found);
        rows = remove-rows (drop s.keep (sort newer found)) s;
      },
      refl,
    )
  where
    enough : (n : ℕ) (rows : List SaveBackupRow) → (drop n rows ≡ []) ⊎ (length (take n rows) ≡ n)
    enough zero rows = inr refl
    enough (suc n) [] = inl refl
    enough (suc n) (r ∷ rows) = elim (enough n rows) [
      | inl nothing ↦ inl nothing
      | inr full ↦ inr (ap suc full)
    ]
