-- ===== src/Device/Catalog/Read.antt =====
-- The client that reads the catalogue which packages/server/src/device/catalog.ts builds. Title IDs
-- are upper-case hexadecimal digits, on which `localeCompare` is the order of the codes: that is the
-- hypothesis on the parameter that stands for it.
use nslibrary.Common.{
  ℕ, suc, ◌<◌, ◌≡◌, ◌≢◌, refl, Bool, true, false, none, some, List, [], ◌∷◌, map, arith, length,
  All, Bool-cases, inl, inr,
}
use nslibrary.Common.Text.{same_text}
use nslibrary.Common.Sort.{sort_onto, insert, insert-All}
use nslibrary.Shared.TitleId.{is_title_id}
use nslibrary.Device.Catalog.{
  CatalogRow, CatalogApp, Group, push_item, group_onto, group_by, to_app, build_catalog_apps,
  text_gt,
}
use nslibrary.Device.Catalog.Pages.{read_all, IsAscending, read_all-all}

abbrev pub IsTitleId : List ℕ → Type 0
IsTitleId text = is_title_id text ≡ true

IsTitleId-nonempty : (text : List ℕ) → IsTitleId text → text ≢ []
unfolding is_title_id
IsTitleId-nonempty [] h = cc
IsTitleId-nonempty (c ∷ text) h = λ e. cc

text_gt_trans : (a b c : List ℕ) → text_gt a b ≡ true → text_gt b c ≡ true → text_gt a c ≡ true
unfolding text_gt
text_gt_trans [] b c h k = cc
text_gt_trans (x ∷ a) b [] h k = refl
text_gt_trans (x ∷ a) [] (z ∷ c) h k = cc
text_gt_trans (x ∷ a) (y ∷ b) (z ∷ c) h k = ground (arith, text_gt_trans a b c)

-- Two different texts are in order one way or the other.
text_gt_total : (a b : List ℕ) → same_text a b ≡ false → text_gt a b ≡ false → text_gt b a ≡ true
unfolding text_gt same_text
text_gt_total [] [] h k = cc
text_gt_total [] (y ∷ b) h k = refl
text_gt_total (x ∷ a) [] h k = cc
text_gt_total (x ∷ a) (y ∷ b) h k = ground (arith, text_gt_total a b)

-- The groups have title IDs for keys, and no two have the same.
abbrev AreApart : {T : Type 0} → List (Group (List ℕ) T) → Type 0
AreApart [] = Unit {0}
AreApart (g ∷ groups) = All (λ h. same_text g.key h.key ≡ false) groups × AreApart groups

module _ {T : Type 0} where
  push_item-All :
      (P : List ℕ → Type 0) (k : List ℕ) (item : T) (groups : List (Group (List ℕ) T))
      → P k
      → All (λ g. P g.key) groups
      → All (λ g. P g.key) (push_item same_text k item groups)
  unfolding push_item
  push_item-All P k item [] p h = (p, tt)
  push_item-All P k item (g ∷ groups) p h = elim (Bool-cases (same_text g.key k)) [
    | inl hit ↦ rw hit h
    | inr other ↦ rw other (h.0, push_item-All P k item groups p h.1)
  ]

  push_item-AreApart :
      (k : List ℕ) (item : T) (groups : List (Group (List ℕ) T))
      → AreApart groups
      → AreApart (push_item same_text k item groups)
  unfolding push_item
  push_item-AreApart k item [] h = (tt, tt)
  push_item-AreApart k item (g ∷ groups) h = elim (Bool-cases (same_text g.key k)) [
    | inl hit ↦ rw hit h
    | inr other ↦ rw other (
      push_item-All (λ j. same_text g.key j ≡ false) k item groups other h.0,
      push_item-AreApart k item groups h.1,
    )
  ]

  group_onto-apart :
      (key : T → List ℕ) (groups : List (Group (List ℕ) T)) (items : List T)
      → All (λ g. IsTitleId g.key) groups
      → AreApart groups
      → All (λ item. IsTitleId (key item)) items
      → All (λ g. IsTitleId g.key) (group_onto same_text key groups items)
        × AreApart (group_onto same_text key groups items)
  unfolding group_onto
  group_onto-apart key groups [] ids h is_ = (ids, h)
  group_onto-apart key groups (item ∷ items) ids h is_ =
      group_onto-apart key (push_item same_text (key item) item groups) items
        (push_item-All IsTitleId (key item) item groups is_.0 ids)
        (push_item-AreApart (key item) item groups h) is_.1

abbrev AreDifferent : List CatalogApp → Type 0
AreDifferent [] = Unit {0}
AreDifferent (x ∷ xs) = All (λ y. same_text x.i y.i ≡ false) xs × AreDifferent xs

above_all :
    (x y : List ℕ) (ys : List CatalogApp)
    → text_gt y x ≡ true
    → All (λ z. text_gt z.i y ≡ true) ys
    → All (λ z. text_gt z.i x ≡ true) ys
above_all x y [] h k = tt
above_all x y (z ∷ ys) h k = (text_gt_trans z.i y x k.0 h, above_all x y ys h k.1)

module _ (locale_before : List ℕ → List ℕ → Bool)
    (agrees : (a b : List ℕ) → IsTitleId a → IsTitleId b → locale_before a b ≡ text_gt b a) where
  abbrev before : CatalogApp → CatalogApp → Bool
  before a b = locale_before a.i b.i

  insert-IsAscending :
      (x : CatalogApp) (ys : List CatalogApp)
      → IsTitleId x.i
      → All (λ y. IsTitleId y.i) ys
      → All (λ y. same_text y.i x.i ≡ false) ys
      → IsAscending ys
      → IsAscending (insert before x ys)
  insert-IsAscending x [] id ids other h = (IsTitleId-nonempty x.i id, tt, tt)
  insert-IsAscending x (y ∷ ys) id ids other h = elim (Bool-cases (before x y)) [
    | inl first ↦
        let above : text_gt y.i x.i ≡ true = rw (agrees x.i y.i id ids.0) at first in
        rw first (IsTitleId-nonempty x.i id, (above, above_all x.i y.i ys above h.1), h)
    | inr later ↦
        let below : text_gt y.i x.i ≡ false = rw (agrees x.i y.i id ids.0) at later in
        rw later (
          h.0,
          insert-All before (λ z. text_gt z.i y.i ≡ true) x ys (text_gt_total y.i x.i other.0 below)
              h.1,
          insert-IsAscending x ys id ids.1 other.1 h.2,
        )
  ]

  -- What is sorted so far, and what is still to be sorted, have different IDs.
  sort_onto-IsAscending :
      (done xs : List CatalogApp)
      → All (λ y. IsTitleId y.i) done
      → All (λ y. IsTitleId y.i) xs
      → All (λ x. All (λ y. same_text y.i x.i ≡ false) done) xs
      → AreDifferent xs
      → IsAscending done
      → IsAscending (sort_onto before done xs)
  sort_onto-IsAscending done [] ids more apart different h = h
  sort_onto-IsAscending done (x ∷ xs) ids more apart different h =
      sort_onto-IsAscending (insert before x done) xs
        (insert-All before (λ y. IsTitleId y.i) x done more.0 ids) more.1
        (with_first xs different.0 apart.1) different.1
        (insert-IsAscending x done more.0 ids apart.0 h)
    where
      with_first :
          (later : List CatalogApp)
          → All (λ y. same_text x.i y.i ≡ false) later
          → All (λ z. All (λ y. same_text y.i z.i ≡ false) done) later
          → All (λ z. All (λ y. same_text y.i z.i ≡ false) (insert before x done)) later
      with_first [] first all_done = tt
      with_first (z ∷ later) first all_done = (
        insert-All before (λ y. same_text y.i z.i ≡ false) x done first.0 all_done.0,
        with_first later first.1 all_done.1,
      )

  nothing_done :
      (xs : List CatalogApp) → All (λ x. All (λ (y : CatalogApp). same_text y.i x.i ≡ false) []) xs
  nothing_done [] = tt
  nothing_done (x ∷ xs) = (tt, nothing_done xs)

  app_of : Bool → Group (List ℕ) CatalogRow → CatalogApp
  app_of prefer_compressed g = to_app locale_before g.key (g.first ∷ g.rest) prefer_compressed

  apps-All :
      (prefer_compressed : Bool) (P : List ℕ → Type 0) (groups : List (Group (List ℕ) CatalogRow))
      → All (λ g. P g.key) groups
      → All (λ y. P y.i) (map (app_of prefer_compressed) groups)
  unfolding app_of to_app
  apps-All prefer_compressed P [] h = tt
  apps-All prefer_compressed P (g ∷ groups) h = (h.0, apps-All prefer_compressed P groups h.1)

  apps-AreDifferent :
      (prefer_compressed : Bool) (groups : List (Group (List ℕ) CatalogRow))
      → AreApart groups
      → AreDifferent (map (app_of prefer_compressed) groups)
  unfolding app_of to_app
  apps-AreDifferent prefer_compressed [] h = tt
  apps-AreDifferent prefer_compressed (g ∷ groups) h = (
    apps-All prefer_compressed (λ j. same_text g.key j ≡ false) groups h.0,
    apps-AreDifferent prefer_compressed groups h.1,
  )

  build_catalog_apps-IsAscending :
      (rows : List CatalogRow) (prefer_compressed : Bool)
      → All (λ row. IsTitleId row.application_id) rows
      → IsAscending (build_catalog_apps locale_before rows prefer_compressed)
  unfolding build_catalog_apps group_by app_of
  build_catalog_apps-IsAscending rows prefer_compressed h =
      let key = λ (row : CatalogRow). row.application_id in
      let groups = group_by same_text key rows in
      let (ids, apart) = group_onto-apart key [] rows tt tt h in
      sort_onto-IsAscending [] (map (app_of prefer_compressed) groups) tt
        (apps-All prefer_compressed IsTitleId groups ids)
        (nothing_done (map (app_of prefer_compressed) groups))
        (apps-AreDifferent prefer_compressed groups apart) tt

-- Where the library's rows have title IDs for applications, and the order of texts agrees on title
-- IDs with that of their codes, a client that asks from the start and follows `next` reads the whole
-- catalogue that is built from the rows, whatever the page size is, in at most one request more than
-- there are apps; and each app stands once in it, behind those whose IDs have smaller codes.
pub read_all-build_catalog_apps :
    (locale_before : List ℕ → List ℕ → Bool)
    → ((a b : List ℕ) → IsTitleId a → IsTitleId b → locale_before a b ≡ text_gt b a)
    → (rows : List CatalogRow) (prefer_compressed : Bool) (rev limit : ℕ)
    → All (λ row. IsTitleId row.application_id) rows
    → 0 < limit
    → let apps = build_catalog_apps locale_before rows prefer_compressed in
      IsAscending apps × (read_all (suc (length apps)) apps rev limit none ≡ some apps)
read_all-build_catalog_apps locale_before agrees rows prefer_compressed rev limit h positive =
    let ascending = build_catalog_apps-IsAscending locale_before agrees rows prefer_compressed h in
    (
      ascending,
      read_all-all (build_catalog_apps locale_before rows prefer_compressed) rev limit ascending
          positive,
    )
