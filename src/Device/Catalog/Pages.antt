-- ===== src/Device/Catalog/Pages.antt =====
-- Reading the catalogue of packages/server/src/device/catalog.ts page after page.
use nslibrary.Common.{
  ℕ, zero, suc, ◌+◌, ◌-◌, ◌≤◌, ◌<◌, ◌≡◌, ◌≢◌, refl, sym, ap, ap₂, ◌∙◌, subst, true, false, Option,
  none, some, List, [], ◌∷◌, ◌++◌, arith, ltb, length, take, drop, last?, All, Bool-cases, inl, inr,
  append_assoc, take_all, take-append-drop, length-append, length-take, length-drop, drop-append_ge,
  ltb→lt, not_ltb→le,
}
use nslibrary.Device.Catalog.{
  CatalogApp, CatalogQuery, text_gt, start_behind, start_of, next_of, paginate_catalog, map_option,
}

-- A client that asks for the first page and then for each next one; `none` where it has made too many
-- requests.
abbrev query_of : ℕ → Option (List ℕ) → CatalogQuery
query_of limit cursor = record { since = none; cursor = cursor; limit = some limit }

-- The apps of a page, and those of the pages behind it.
abbrev go_on :
    List CatalogApp
    → (List ℕ → Option (List CatalogApp))
    → Option (List ℕ)
    → Option (List CatalogApp)
go_on apps again none = some apps
go_on apps again (some next) = map_option (λ rest. apps ++ rest) (again next)

unfoldable pub read_all : ℕ → List CatalogApp → ℕ → ℕ → Option (List ℕ) → Option (List CatalogApp)
read_all zero apps rev limit cursor = none
read_all (suc requests) apps rev limit cursor =
    let page = paginate_catalog apps rev (query_of limit cursor) in
    go_on page.apps (λ next. read_all requests apps rev limit (some next)) page.next

-- IDs that are not empty, each greater than all before it.
abbrev pub IsAscending : List CatalogApp → Type 0
IsAscending [] = Unit {0}
IsAscending (x ∷ xs) = (x.i ≢ []) × All (λ y. text_gt y.i x.i ≡ true) xs × IsAscending xs

text_gt_irrefl : (a : List ℕ) → text_gt a a ≡ false
unfolding text_gt
text_gt_irrefl [] = refl
text_gt_irrefl (x ∷ a) = ground (arith, text_gt_irrefl a)

text_gt_asym : (a b : List ℕ) → text_gt a b ≡ true → text_gt b a ≡ false
unfolding text_gt
text_gt_asym [] b h = cc
text_gt_asym (x ∷ a) [] h = refl
text_gt_asym (x ∷ a) (y ∷ b) h = ground (arith, text_gt_asym a b)

-- The start that a cursor gives parts the apps up to it from those behind it.
start_behind-append :
    (cursor : List ℕ) (pre rest : List CatalogApp)
    → All (λ y. text_gt y.i cursor ≡ false) pre
    → All (λ y. text_gt y.i cursor ≡ true) rest
    → start_behind cursor (pre ++ rest) ≡ length pre
unfolding start_behind
start_behind-append cursor [] [] h k = refl
start_behind-append cursor [] (y ∷ rest) h k = rw k.0 refl
start_behind-append cursor (y ∷ pre) rest h k =
    rw h.0 (ap suc (start_behind-append cursor pre rest h.1 k))

some-inj : {a b : CatalogApp} → some a ≡ some b → a ≡ b
some-inj e = cc

last-All :
    (P : CatalogApp → Type 0) (xs : List CatalogApp) {x : CatalogApp}
    → last? xs ≡ some x
    → All P xs
    → P x
last-All P [] e h = cc
last-All P (x ∷ []) e h = subst P (some-inj e) h.0
last-All P (x ∷ y ∷ xs) e h = last-All P (y ∷ xs) e h.1

All-append_left : (P : CatalogApp → Type 0) (xs ys : List CatalogApp) → All P (xs ++ ys) → All P xs
All-append_left P [] ys h = tt
All-append_left P (x ∷ xs) ys h = (h.0, All-append_left P xs ys h.1)

parted :
    (pre rest : List CatalogApp) {x : CatalogApp}
    → last? pre ≡ some x
    → IsAscending (pre ++ rest)
    → (x.i ≢ []) × All (λ y. text_gt y.i x.i ≡ false) pre × All (λ y. text_gt y.i x.i ≡ true) rest
parted [] rest e h = cc
parted (y ∷ []) rest {x} e h =
    subst
      (λ (a : CatalogApp).
        (a.i ≢ [])
        × All (λ z. text_gt z.i a.i ≡ false) (y ∷ [])
        × All (λ z. text_gt z.i a.i ≡ true) rest)
      (some-inj e) (h.0, (text_gt_irrefl y.i, tt), h.1)
parted (y ∷ z ∷ pre) rest {x} e h =
    let (nonempty, before, after) = parted (z ∷ pre) rest e h.2 in
    let above =
      last-All (λ a. text_gt a.i y.i ≡ true) (z ∷ pre) e (All-append_left _ (z ∷ pre) rest h.1) in
    (nonempty, (text_gt_asym x.i y.i above, before), after)

start_of-last :
    (pre rest : List CatalogApp) {x : CatalogApp}
    → last? pre ≡ some x
    → IsAscending (pre ++ rest)
    → start_of (some x.i) (pre ++ rest) ≡ length pre
unfolding start_of
start_of-last pre rest {x} e h =
    let (nonempty, before, after) = parted pre rest e h in by_cursor x.i nonempty before after
  where
    by_cursor :
        (cursor : List ℕ)
        → cursor ≢ []
        → All (λ y. text_gt y.i cursor ≡ false) pre
        → All (λ y. text_gt y.i cursor ≡ true) rest
        → start_of (some cursor) (pre ++ rest) ≡ length pre
    by_cursor [] n before after = absurd (n refl)
    by_cursor (c ∷ cursor) n before after = start_behind-append (c ∷ cursor) pre rest before after

-- What one request gives at a cursor behind the first part.
page_behind :
    (pre rest : List CatalogApp) (rev limit : ℕ) (cursor : Option (List ℕ))
    → start_of cursor (pre ++ rest) ≡ length pre
    → let page = paginate_catalog (pre ++ rest) rev (query_of limit cursor) in
      (page.apps ≡ take limit rest)
      × (page.next ≡ next_of (ltb limit (length rest)) (last? (take limit rest)))
unfolding paginate_catalog
page_behind pre rest rev limit cursor start =
    let behind : drop (length pre) (pre ++ rest) ≡ rest =
      drop-append_ge (length pre) pre rest (omega arith)
      ∙ ap (λ (k : ℕ). drop k rest) (let z : length pre - length pre ≡ 0 = omega arith in z) in
    let more : ltb (length pre + limit) (length (pre ++ rest)) ≡ ltb limit (length rest) =
      ground (arith, length-append pre rest) in
    (rw (start, behind) refl, rw (start, behind, more) refl)

last_there : (xs : List CatalogApp) → 0 < length xs → (x : CatalogApp) × (last? xs ≡ some x)
last_there [] h = absurd (omega arith)
last_there (x ∷ []) h = (x, refl)
last_there (x ∷ y ∷ xs) h = last_there (y ∷ xs) (omega arith)

-- The first part with a page more, and the rest without it.
regrouped :
    (pre rest : List CatalogApp) (limit : ℕ)
    → (pre ++ take limit rest) ++ drop limit rest ≡ pre ++ rest
regrouped pre rest limit =
    append_assoc pre (take limit rest) (drop limit rest)
    ∙ ap (◌++◌ pre) (take-append-drop limit rest)

last?-append :
    (pre xs : List CatalogApp) {x : CatalogApp} → last? xs ≡ some x → last? (pre ++ xs) ≡ some x
last?-append [] xs e = e
last?-append (y ∷ []) [] e = cc
last?-append (y ∷ []) (x ∷ xs) e = e
last?-append (y ∷ z ∷ pre) xs e = last?-append (z ∷ pre) xs e

-- One request at a cursor behind the first part, and what the next one has to give.
read_step :
    (f rev limit : ℕ) (pre rest : List CatalogApp) (cursor : Option (List ℕ))
    → start_of cursor (pre ++ rest) ≡ length pre
    → 0 < limit
    → (limit < length rest
        → (x : CatalogApp) → last? (take limit rest) ≡ some x
        → read_all f (pre ++ rest) rev limit (some x.i) ≡ some (drop limit rest))
    → read_all (suc f) (pre ++ rest) rev limit cursor ≡ some rest
unfolding read_all next_of
read_step f rev limit pre rest cursor start positive again =
    let (apps, next) = page_behind pre rest rev limit cursor start in
    let step = λ (p : List CatalogApp) (n : Option (List ℕ)).
      go_on p (λ c. read_all f (pre ++ rest) rev limit (some c)) n in
    let here : read_all (suc f) (pre ++ rest) rev limit cursor
        ≡ step (take limit rest) (next_of (ltb limit (length rest)) (last? (take limit rest))) =
      ap₂ step apps next in
    elim (Bool-cases (ltb limit (length rest))) [
      | inr end ↦ here ∙ rw end (ap some (take_all limit rest (not_ltb→le limit (length rest) end)))
      | inl more ↦
          let lt = ltb→lt limit (length rest) more in
          let (x, e) = last_there (take limit rest) (omega (arith, length-take limit rest)) in
          here
          ∙ rw (more, e)
              (ap (map_option (λ r. take limit rest ++ r)) (again lt x e)
                ∙ ap some (take-append-drop limit rest))
    ]

-- From a cursor behind the first part, the client reads the rest.
read_rest :
    (f rev limit : ℕ) (pre rest : List CatalogApp) (cursor : Option (List ℕ))
    → IsAscending (pre ++ rest)
    → start_of cursor (pre ++ rest) ≡ length pre
    → 0 < limit
    → length rest ≤ f
    → read_all (suc f) (pre ++ rest) rev limit cursor ≡ some rest
read_rest zero rev limit pre rest cursor h start positive enough =
    read_step zero rev limit pre rest cursor start positive λ more x e. absurd (omega arith)
read_rest (suc f) rev limit pre rest cursor h start positive enough =
    read_step (suc f) rev limit pre rest cursor start positive λ more x e.
      let same = regrouped pre rest limit in
      let ascending = subst IsAscending (sym same) h in
      let behind = last?-append pre (take limit rest) e in
      let ih =
        read_rest f rev limit (pre ++ take limit rest) (drop limit rest) (some x.i) ascending
          (start_of-last (pre ++ take limit rest) (drop limit rest) behind ascending) positive
          (omega (arith, length-drop limit rest)) in
      ap (λ apps. read_all (suc f) apps rev limit (some x.i)) (sym same) ∙ ih

-- A catalogue whose IDs are not empty and rise by their codes is read as a whole.
pub read_all-all :
    (apps : List CatalogApp) (rev limit : ℕ)
    → IsAscending apps
    → 0 < limit
    → read_all (suc (length apps)) apps rev limit none ≡ some apps
unfolding start_of
read_all-all apps rev limit h positive =
    read_rest (length apps) rev limit [] apps none h refl positive (omega arith)
