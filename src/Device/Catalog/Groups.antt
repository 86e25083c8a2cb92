-- ===== src/Device/Catalog/Groups.antt =====
-- Rows by version, for packages/server/src/device/catalog.ts.
use nslibrary.Common.{
  ℕ, ◌≡◌, refl, ◌∙◌, Bool, false, ◌||◌, List, [], ◌∷◌, arith, ◌==◌, All, All-append, Bool-cases,
  inl, inr,
}
use nslibrary.Device.Catalog.{CatalogRow, Group, push_item, group_onto, same_version, version_of}

abbrev pub Versioned : Type 0
Versioned = Group ℕ CatalogRow

abbrev pub has_key : ℕ → List Versioned → Bool
has_key v [] = false
has_key v (g ∷ groups) = (g.key == v) || has_key v groups

abbrev pub has_version : ℕ → List CatalogRow → Bool
has_version v [] = false
has_version v (row ∷ rows) = (version_of row == v) || has_version v rows

-- A row has its key's group, and no row of another version is in it.
abbrev pub IsPure : Versioned → Type 0
IsPure g = All (λ row. version_of row ≡ g.key) (g.first ∷ g.rest)

-- No key stands twice.
abbrev pub IsDistinct : List Versioned → Type 0
IsDistinct [] = Unit {0}
IsDistinct (g ∷ groups) = (has_key g.key groups ≡ false) × IsDistinct groups

has_key-push_item :
    (v k : ℕ) (item : CatalogRow) (groups : List Versioned)
    → has_key v (push_item same_version k item groups) ≡ (has_key v groups || (k == v))
unfolding push_item
has_key-push_item v k item [] = ground arith
has_key-push_item v k item (g ∷ groups) = ground (arith, has_key-push_item v k item groups)

push_item-IsDistinct :
    (k : ℕ) (item : CatalogRow) (groups : List Versioned)
    → IsDistinct groups
    → IsDistinct (push_item same_version k item groups)
unfolding push_item
push_item-IsDistinct k item [] h = (refl, tt)
push_item-IsDistinct k item (g ∷ groups) h = elim (Bool-cases (g.key == k)) [
  | inl same ↦ rw same h
  | inr other ↦ rw other (
    has_key-push_item g.key k item groups ∙ ground (arith, h.0, other),
    push_item-IsDistinct k item groups h.1,
  )
]

push_item-IsPure :
    (k : ℕ) (item : CatalogRow) (groups : List Versioned)
    → version_of item ≡ k
    → All IsPure groups
    → All IsPure (push_item same_version k item groups)
unfolding push_item
push_item-IsPure k item [] e h = ((e, tt), tt)
push_item-IsPure k item (g ∷ groups) e h = elim (Bool-cases (g.key == k)) [
  | inl same ↦ rw same (
    (
      h.0.0,
      All-append (λ row. version_of row ≡ g.key) g.rest (item ∷ []) h.0.1
          (e ∙ ground (arith, same), tt),
    ),
    h.1,
  )
  | inr other ↦ rw other (h.0, push_item-IsPure k item groups e h.1)
]

-- A property of all rows holds in all groups.
abbrev pub Throughout : (CatalogRow → Type 0) → Versioned → Type 0
Throughout P g = All P (g.first ∷ g.rest)

push_item-Throughout :
    (P : CatalogRow → Type 0) (k : ℕ) (item : CatalogRow) (groups : List Versioned)
    → P item
    → All (Throughout P) groups
    → All (Throughout P) (push_item same_version k item groups)
unfolding push_item
push_item-Throughout P k item [] p h = ((p, tt), tt)
push_item-Throughout P k item (g ∷ groups) p h = elim (Bool-cases (g.key == k)) [
  | inl same ↦ rw same ((h.0.0, All-append P g.rest (item ∷ []) h.0.1 (p, tt)), h.1)
  | inr other ↦ rw other (h.0, push_item-Throughout P k item groups p h.1)
]

-- What is known of the groups of a list of rows.
pub record Grouped (groups : List Versioned) : Type 0 where
  pub distinct : IsDistinct groups
  pub pure_ : All IsPure groups

pub group_onto-Grouped :
    (groups : List Versioned) (rows : List CatalogRow)
    → Grouped groups
    → Grouped (group_onto same_version version_of groups rows)
unfolding group_onto
group_onto-Grouped groups [] h = h
group_onto-Grouped groups (row ∷ rows) h =
    group_onto-Grouped (push_item same_version (version_of row) row groups) rows (record {
      distinct = push_item-IsDistinct (version_of row) row groups h.distinct;
      pure_ = push_item-IsPure (version_of row) row groups refl h.pure_;
    })

pub has_key-group_onto :
    (v : ℕ) (groups : List Versioned) (rows : List CatalogRow)
    → has_key v (group_onto same_version version_of groups rows)
      ≡ (has_key v groups || has_version v rows)
unfolding group_onto
has_key-group_onto v groups [] = ground arith
has_key-group_onto v groups (row ∷ rows) = ground (
  arith,
  has_key-group_onto v (push_item same_version (version_of row) row groups) rows,
  has_key-push_item v (version_of row) row groups,
)

pub group_onto-Throughout :
    (P : CatalogRow → Type 0) (groups : List Versioned) (rows : List CatalogRow)
    → All (Throughout P) groups
    → All P rows
    → All (Throughout P) (group_onto same_version version_of groups rows)
unfolding group_onto
group_onto-Throughout P groups [] h k = h
group_onto-Throughout P groups (row ∷ rows) h k =
    group_onto-Throughout P (push_item same_version (version_of row) row groups) rows
      (push_item-Throughout P (version_of row) row groups k.0 h) k.1
