-- ===== src/Device/Catalog/Versions.antt =====
-- The base game and the updates that packages/server/src/device/catalog.ts lists, by their versions.
use nslibrary.Common.{
  ℕ, ◌<◌, ◌≡◌, refl, ◌∙◌, Bool, false, ◌||◌, List, [], ◌∷◌, map, arith, ◌==◌, All, Bool-cases, inl,
  inr, filter,
}
use nslibrary.Common.Sort.{sort_onto, insert}
use nslibrary.Shared.Types.{patch}
use nslibrary.Library.Prefer.Best.{pick_from-kept}
use nslibrary.Device.Catalog.{
  CatalogRow, group_onto, group_by, same_version, format_of, file_of, pick_row, version_of, is_type,
  newer, by_version, updates_of,
}
use nslibrary.Device.Catalog.Groups.{
  Versioned, has_key, has_version, IsPure, IsDistinct, Throughout, group_onto-Grouped,
  has_key-group_onto, group_onto-Throughout,
}

-- Keys that fall.
abbrev IsFalling : List Versioned → Type 0
IsFalling [] = Unit {0}
IsFalling (g ∷ groups) = All (λ h. h.key < g.key) groups × IsFalling groups

insert-All :
    (P : Versioned → Type 0) (g : Versioned) (groups : List Versioned)
    → P g
    → All P groups
    → All P (insert newer g groups)
insert-All P g [] p h = (p, tt)
insert-All P g (x ∷ groups) p h = elim (Bool-cases (newer g x)) [
  | inl first ↦ rw first (p, h)
  | inr later ↦ rw later (h.0, insert-All P g groups p h.1)
]

below :
    (g x : Versioned) (groups : List Versioned)
    → x.key < g.key
    → All (λ h. h.key < x.key) groups
    → All (λ h. h.key < g.key) groups
below g x [] lt h = tt
below g x (y ∷ groups) lt h = (omega (arith, h.0), below g x groups lt h.1)

insert-IsFalling :
    (g : Versioned) (groups : List Versioned)
    → has_key g.key groups ≡ false
    → IsFalling groups
    → IsFalling (insert newer g groups)
insert-IsFalling g [] no_key h = (tt, tt)
insert-IsFalling g (x ∷ groups) no_key h = elim (Bool-cases (newer g x)) [
  | inl first ↦
      let lt : x.key < g.key = ground (arith, first) in rw first ((lt, below g x groups lt h.0), h)
  | inr later ↦
      let lt : g.key < x.key = ground (arith, later, no_key) in
      let rest : has_key g.key groups ≡ false = ground (arith, no_key) in
      rw later (insert-All (λ y. y.key < x.key) g groups lt h.0, insert-IsFalling g groups rest h.1)
]

has_key-insert :
    (v : ℕ) (g : Versioned) (groups : List Versioned)
    → has_key v (insert newer g groups) ≡ ((g.key == v) || has_key v groups)
has_key-insert v g [] = refl
has_key-insert v g (x ∷ groups) = elim (Bool-cases (newer g x)) [
  | inl first ↦ rw first refl
  | inr later ↦ rw later (ground (arith, has_key-insert v g groups))
]

has_key-sort_onto :
    (v : ℕ) (done groups : List Versioned)
    → has_key v (sort_onto newer done groups) ≡ (has_key v done || has_key v groups)
has_key-sort_onto v done [] = ground arith
has_key-sort_onto v done (g ∷ groups) =
    has_key-sort_onto v (insert newer g done) groups ∙ ground (arith, has_key-insert v g done)

-- No key of the one list is in the other.
abbrev AreApart : List Versioned → List Versioned → Type 0
AreApart groups done = All (λ g. has_key g.key done ≡ false) groups

apart-insert :
    (g : Versioned) (groups done : List Versioned)
    → has_key g.key groups ≡ false
    → AreApart groups done
    → AreApart groups (insert newer g done)
apart-insert g [] done h k = tt
apart-insert g (x ∷ groups) done h k = (
  has_key-insert x.key g done ∙ ground (arith, h, k.0),
  apart-insert g groups done (ground (arith, h)) k.1,
)

sort_onto-IsFalling :
    (done groups : List Versioned)
    → IsDistinct groups
    → AreApart groups done
    → IsFalling done
    → IsFalling (sort_onto newer done groups)
sort_onto-IsFalling done [] d a h = h
sort_onto-IsFalling done (g ∷ groups) d a h =
    sort_onto-IsFalling (insert newer g done) groups d.1 (apart-insert g groups done d.0 a.1)
      (insert-IsFalling g done a.0 h)

sort_onto-All :
    (P : Versioned → Type 0) (done groups : List Versioned)
    → All P done
    → All P groups
    → All P (sort_onto newer done groups)
sort_onto-All P done [] h k = h
sort_onto-All P done (g ∷ groups) h k =
    sort_onto-All P (insert newer g done) groups (insert-All P g done k.0 h) k.1

apart-nil : (groups : List Versioned) → AreApart groups []
apart-nil [] = tt
apart-nil (g ∷ groups) = (refl, apart-nil groups)

-- The groups of the rows by version: falling, pure, with the keys that are the rows' versions.
by_version-IsFalling : (rows : List CatalogRow) → IsFalling (by_version rows)
unfolding by_version group_by
by_version-IsFalling rows =
    let grouped = group_onto-Grouped [] rows (record { distinct = tt; pure_ = tt }) in
    sort_onto-IsFalling [] (group_onto same_version version_of [] rows) grouped.distinct
      (apart-nil (group_onto same_version version_of [] rows)) tt

by_version-IsPure : (rows : List CatalogRow) → All IsPure (by_version rows)
unfolding by_version group_by
by_version-IsPure rows =
    sort_onto-All IsPure [] (group_onto same_version version_of [] rows) tt
      (group_onto-Grouped [] rows (record { distinct = tt; pure_ = tt })).pure_

by_version-Throughout :
    (P : CatalogRow → Type 0) (rows : List CatalogRow)
    → All P rows
    → All (Throughout P) (by_version rows)
unfolding by_version group_by
by_version-Throughout P rows h =
    sort_onto-All (Throughout P) [] (group_onto same_version version_of [] rows) tt
      (group_onto-Throughout P [] rows tt h)

has_key-by_version :
    (v : ℕ) (rows : List CatalogRow) → has_key v (by_version rows) ≡ has_version v rows
unfolding by_version group_by
has_key-by_version v rows =
    has_key-sort_onto v [] (group_onto same_version version_of [] rows)
    ∙ has_key-group_onto v [] rows

-- The row that is picked of a pure group has its version.
pick_row-version :
    (prefer_compressed : Bool) (g : Versioned)
    → IsPure g
    → version_of (pick_row prefer_compressed g) ≡ g.key
unfolding pick_row
pick_row-version prefer_compressed g pure_ =
    pick_from-kept format_of file_of prefer_compressed (λ row. version_of row ≡ g.key) g.first
      (g.first ∷ g.rest) pure_.0 pure_

-- Versions that fall.
abbrev pub FallingVersions : List CatalogRow → Type 0
FallingVersions [] = Unit {0}
FallingVersions (row ∷ rows) = All (λ r. version_of r < version_of row) rows × FallingVersions rows

picked-below :
    (prefer_compressed : Bool) (v : ℕ) (groups : List Versioned)
    → All IsPure groups
    → All (λ h. h.key < v) groups
    → All (λ r. version_of r < v) (map (pick_row prefer_compressed) groups)
picked-below prefer_compressed v [] p h = tt
picked-below prefer_compressed v (g ∷ groups) p h = (
  omega (arith, pick_row-version prefer_compressed g p.0, h.0),
  picked-below prefer_compressed v groups p.1 h.1,
)

picked-FallingVersions :
    (prefer_compressed : Bool) (groups : List Versioned)
    → All IsPure groups
    → IsFalling groups
    → FallingVersions (map (pick_row prefer_compressed) groups)
picked-FallingVersions prefer_compressed [] p h = tt
picked-FallingVersions prefer_compressed (g ∷ groups) p h = (
  rw (pick_row-version prefer_compressed g p.0)
      (picked-below prefer_compressed g.key groups p.1 h.0),
  picked-FallingVersions prefer_compressed groups p.1 h.1,
)

has_version-picked :
    (prefer_compressed : Bool) (v : ℕ) (groups : List Versioned)
    → All IsPure groups
    → has_version v (map (pick_row prefer_compressed) groups) ≡ has_key v groups
has_version-picked prefer_compressed v [] p = refl
has_version-picked prefer_compressed v (g ∷ groups) p =
    rw (pick_row-version prefer_compressed g p.0, has_version-picked prefer_compressed v groups p.1)
      refl

picked-kept :
    (prefer_compressed : Bool) (P : CatalogRow → Type 0) (groups : List Versioned)
    → All (Throughout P) groups
    → All P (map (pick_row prefer_compressed) groups)
unfolding pick_row
picked-kept prefer_compressed P [] h = tt
picked-kept prefer_compressed P (g ∷ groups) h = (
  pick_from-kept format_of file_of prefer_compressed P g.first (g.first ∷ g.rest) h.0.0 h.0,
  picked-kept prefer_compressed P groups h.1,
)

-- The updates of a game have falling versions, so that the newest is first and none stands twice;
-- their versions are exactly those of the rows of type patch; and each of them has every property
-- that all of these rows have, so it is one of them.
pub updates_of-versions :
    (prefer_compressed : Bool) (rows : List CatalogRow) (P : CatalogRow → Type 0)
    → All P (filter (is_type patch) rows)
    → FallingVersions (updates_of prefer_compressed rows)
      × ((v : ℕ)
          → has_version v (updates_of prefer_compressed rows)
            ≡ has_version v (filter (is_type patch) rows))
      × All P (updates_of prefer_compressed rows)
unfolding updates_of
updates_of-versions prefer_compressed rows P h =
    let patches = filter (is_type patch) rows in
    let pure_ = by_version-IsPure patches in
    (
      picked-FallingVersions prefer_compressed (by_version patches) pure_
          (by_version-IsFalling patches),
      λ v.
          has_version-picked prefer_compressed v (by_version patches) pure_
          ∙ has_key-by_version v patches,
      picked-kept prefer_compressed P (by_version patches) (by_version-Throughout P patches h),
    )
