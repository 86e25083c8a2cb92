-- ===== src/Device/Catalog.antt =====
-- packages/server/src/device/catalog.ts: what a console is told of the library, a page at a time. The
-- rows come from a query over the tables, `loadRows`, and are an argument here. A text is the list of
-- its UTF-16 code units. `localeCompare` is the runtime's: `locale_before` says that it is negative.
pub mod Groups
pub mod Versions
pub mod Pages
pub mod Read
mod Runs
use nslibrary.Common.{
  ℕ, zero, suc, ◌+◌, ◌-◌, ◌*◌, ◌/◌, min, Bool, true, false, ◌&&◌, ◌||◌, not, Option, none, some,
  List, [], ◌∷◌, ◌++◌, map, ltb, leb, ◌==◌, if◌then◌else◌, or_else, length, take, drop, filter,
  last?,
}
use nslibrary.Common.Text.{same_text}
use nslibrary.Common.Sort.{sort}
use nslibrary.Shared.Types.{ContainerFormat, ContentMetaType, application, patch, addon}
use nslibrary.Library.Prefer.{pick_from}

pub record CatalogRow : Type 0 where
  pub meta_id : ℕ
  pub title_id : List ℕ
  pub version : Option ℕ
  pub type : ContentMetaType
  pub application_id : List ℕ
  pub display_name : List ℕ
  pub required_system_version : Option ℕ
  pub file_id : ℕ
  pub format : ContainerFormat
  pub size : ℕ
  pub first_seen_at : ℕ
  pub app_name : Option (List ℕ)
  pub app_publisher : Option (List ℕ)
  pub app_icon_key : Option (List ℕ)

-- An entry of the Map that `groupBy` makes: a key and its items, of which there is at least one.
pub record Group (K T : Type 0) : Type 0 where
  pub key : K
  pub first : T
  pub rest : List T

module _ {K T : Type 0} (same : K → K → Bool) where
  -- `group.push(item)`, or a new group at the end.
  unfoldable pub push_item : K → T → List (Group K T) → List (Group K T)
  push_item k item [] = record { key = k; first = item; rest = [] } ∷ []
  push_item k item (g ∷ groups) =
      let later = push_item k item groups in
      if same g.key k
      then record { key = g.key; first = g.first; rest = g.rest ++ (item ∷ []) } ∷ groups
      else g ∷ later

  unfoldable pub group_onto : (T → K) → List (Group K T) → List T → List (Group K T)
  unfolding push_item
  group_onto key groups [] = groups
  group_onto key groups (item ∷ items) = group_onto key (push_item (key item) item groups) items

  unfoldable pub group_by : (T → K) → List T → List (Group K T)
  unfolding group_onto
  group_by key items = group_onto key [] items

abbrev pub same_version : ℕ → ℕ → Bool
same_version a b = a == b

abbrev pub format_of : CatalogRow → ContainerFormat
format_of row = row.format

abbrev pub file_of : CatalogRow → ℕ
file_of row = row.file_id

unfoldable pub pick_row : {K : Type 0} → Bool → Group K CatalogRow → CatalogRow
unfolding pick_from
pick_row prefer_compressed g =
    pick_from format_of file_of prefer_compressed g.first (g.first ∷ g.rest)

unfoldable pub version_of : CatalogRow → ℕ
version_of row = or_else row.version 0

unfoldable pub is_type : ContentMetaType → CatalogRow → Bool
is_type application row = elim row.type [ application ↦ true | _ ↦ false ]
is_type patch row = elim row.type [ patch ↦ true | _ ↦ false ]
is_type addon row = elim row.type [ addon ↦ true | _ ↦ false ]

-- The rows of one type, by version, newest version first.
abbrev pub newer : Group ℕ CatalogRow → Group ℕ CatalogRow → Bool
newer a b = ltb b.key a.key

unfoldable pub by_version : List CatalogRow → List (Group ℕ CatalogRow)
unfolding group_by version_of
by_version rows = sort newer (group_by same_version version_of rows)

unfoldable pub base_of : Bool → List (Group ℕ CatalogRow) → Option CatalogRow
unfolding pick_row
base_of prefer_compressed [] = none
base_of prefer_compressed (g ∷ groups) = some (pick_row prefer_compressed g)

-- The newest row of a DLC's group.
unfoldable pub newest_row : {K : Type 0} → Bool → Group K CatalogRow → CatalogRow
unfolding by_version base_of
newest_row prefer_compressed g =
    or_else (base_of prefer_compressed (by_version (g.first ∷ g.rest))) g.first

-- The test and the choice of the reduction over the selected rows.
unfoldable pub greater : Option ℕ → Option ℕ → Option ℕ
greater m none = m
greater none (some v) = some v
greater (some m) (some v) = if ltb m v then some v else some m

unfoldable pub greatest : Option ℕ → List CatalogRow → Option ℕ
unfolding greater
greatest m [] = m
greatest m (row ∷ rows) = greatest (greater m row.required_system_version) rows

unfoldable pub earliest : ℕ → List CatalogRow → ℕ
earliest m [] = m
earliest m (row ∷ rows) = earliest (min m row.first_seen_at) rows

-- A hexadecimal digit, in either case, as a number.
unfoldable pub hex_digit : ℕ → Option ℕ
hex_digit c =
    if leb 48 c && leb c 57
    then some (c - 48)
    else if leb 65 c && leb c 70
    then some (c - 55)
    else if leb 97 c && leb c 102
    then some (c - 87)
    else none

-- `Number.parseInt(text, 16) >>> 0` on a text of hexadecimal digits up to some other character, of
-- which there are at most eight; 0 where there is none. An icon key is a hash in hexadecimal.
unfoldable pub parse_hex : ℕ → List ℕ → ℕ
unfolding hex_digit
parse_hex n [] = n
parse_hex n (c ∷ text) = elim (hex_digit c) [ none ↦ n | some d ↦ parse_hex (n * 16 + d) text ]

unfoldable pub icon_revision : Option (List ℕ) → Option ℕ
unfolding parse_hex
icon_revision none = none
icon_revision (some []) = none
icon_revision (some (c ∷ key)) = some (parse_hex 0 (take 8 (c ∷ key)))

-- `first?.field`
abbrev pub of_first : {A : Type 0} → (CatalogRow → Option A) → List CatalogRow → Option A
of_first field [] = none
of_first field (row ∷ rows) = field row

abbrev pub or_other : {A : Type 0} → Option A → Option A → Option A
or_other none other = other
or_other (some a) other = some a

-- `first?.appPublisher ? { p: … } : {}`
unfoldable pub publisher_of : Option (List ℕ) → Option (List ℕ)
publisher_of (some (c ∷ text)) = some (c ∷ text)
publisher_of _ = none

-- [version, metaId, size, format]
pub record ContentRef : Type 0 where
  pub version : ℕ
  pub meta_id : ℕ
  pub size : ℕ
  pub format : ContainerFormat

-- [titleId, version, displayName, metaId, size]
pub record Addon : Type 0 where
  pub title_id : List ℕ
  pub version : ℕ
  pub name : List ℕ
  pub meta_id : ℕ
  pub size : ℕ

pub record CatalogApp : Type 0 where
  pub i : List ℕ
  pub n : List ℕ
  pub p : Option (List ℕ)
  pub ic : Option ℕ
  pub rsv : Option ℕ
  pub b : Option ContentRef
  pub u : List ContentRef
  pub d : List Addon
  pub a : ℕ

unfoldable pub ref_of : CatalogRow → ContentRef
unfolding version_of
ref_of row = record {
  version = version_of row;
  meta_id = row.meta_id;
  size = row.size;
  format = row.format;
}

unfoldable pub addon_of : CatalogRow → Addon
unfolding version_of
addon_of row = record {
  title_id = row.title_id;
  version = version_of row;
  name = row.display_name;
  meta_id = row.meta_id;
  size = row.size;
}

abbrev pub cons_some : {A : Type 0} → Option A → List A → List A
cons_some none xs = xs
cons_some (some x) xs = x ∷ xs

abbrev pub map_option : {A B : Type 0} → (A → B) → Option A → Option B
map_option f none = none
map_option f (some a) = some (f a)

-- `updates` of `toApp`
unfoldable pub updates_of : Bool → List CatalogRow → List CatalogRow
unfolding by_version pick_row is_type
updates_of prefer_compressed rows =
    map (pick_row prefer_compressed) (by_version (filter (is_type patch) rows))

module _ (locale_before : List ℕ → List ℕ → Bool) where
  -- `dlc` of `toApp`
  unfoldable pub dlc_of : Bool → List CatalogRow → List CatalogRow
  unfolding group_by newest_row is_type same_text
  dlc_of prefer_compressed rows = map (newest_row prefer_compressed) (
      sort (λ a b. locale_before a.key b.key)
        (group_by same_text (λ row. row.title_id) (filter (is_type addon) rows)))

  unfoldable pub to_app : List ℕ → List CatalogRow → Bool → CatalogApp
  unfolding updates_of dlc_of base_of by_version is_type greatest earliest icon_revision
      publisher_of ref_of addon_of
  to_app application_id rows prefer_compressed =
      let base = base_of prefer_compressed (by_version (filter (is_type application) rows)) in
      let updates = updates_of prefer_compressed rows in
      let dlc = dlc_of prefer_compressed rows in
      let added_at = earliest (or_else (of_first (λ row. some row.first_seen_at) rows) 0) rows in
      record {
        i = application_id;
        n =
            or_else
              (or_other (of_first (λ row. row.app_name) rows) (
                or_other (map_option (λ row. row.display_name) base)
                  (of_first (λ row. some row.display_name) rows)))
              application_id;
        p = publisher_of (of_first (λ row. row.app_publisher) rows);
        ic = icon_revision (of_first (λ row. row.app_icon_key) rows);
        rsv = greatest none (cons_some base (updates ++ dlc));
        b = map_option ref_of base;
        u = map ref_of updates;
        d = map addon_of dlc;
        a = added_at / 1000;
      }

  -- `buildCatalogApps` on the rows of the query.
  unfoldable pub build_catalog_apps : List CatalogRow → Bool → List CatalogApp
  unfolding group_by same_text to_app
  build_catalog_apps rows prefer_compressed =
      sort (λ a b. locale_before a.i b.i)
        (map (λ g. to_app g.key (g.first ∷ g.rest) prefer_compressed)
          (group_by same_text (λ row. row.application_id) rows))

abbrev pub default_limit : ℕ
default_limit = 200

pub record CatalogQuery : Type 0 where
  pub since : Option ℕ
  pub cursor : Option (List ℕ)
  pub limit : Option ℕ

pub record CatalogResponse : Type 0 where
  pub rev : ℕ
  pub full : Bool
  pub apps : List CatalogApp
  pub del : List (List ℕ)
  pub next : Option (List ℕ)

-- `a > b` between texts: by code units, from the first on.
unfoldable pub text_gt : List ℕ → List ℕ → Bool
text_gt [] b = false
text_gt (x ∷ a) [] = true
text_gt (x ∷ a) (y ∷ b) = ltb y x || ((x == y) && text_gt a b)

-- `apps.findIndex((app) => app.i > cursor)`, or the length where there is none.
unfoldable pub start_behind : List ℕ → List CatalogApp → ℕ
unfolding text_gt
start_behind cursor [] = 0
start_behind cursor (app ∷ apps) =
    let rest = start_behind cursor apps in if text_gt app.i cursor then 0 else suc rest

-- `start`: an empty cursor counts as none.
unfoldable pub start_of : Option (List ℕ) → List CatalogApp → ℕ
unfolding start_behind
start_of none apps = 0
start_of (some []) apps = 0
start_of (some (c ∷ cursor)) apps = start_behind (c ∷ cursor) apps

-- `more && last ? last.i : null`
unfoldable pub next_of : Bool → Option CatalogApp → Option (List ℕ)
next_of false last = none
next_of true none = none
next_of true (some app) = some app.i

-- `query.since !== undefined && query.since >= rev`
unfoldable pub is_current : Option ℕ → ℕ → Bool
is_current none rev = false
is_current (some since) rev = leb rev since

unfoldable pub paginate_catalog : List CatalogApp → ℕ → CatalogQuery → CatalogResponse
unfolding is_current start_of next_of
paginate_catalog apps rev query =
    let limit = or_else query.limit default_limit in
    let start = start_of query.cursor apps in
    let page = take limit (drop start apps) in
    if is_current query.since rev
    then record { rev = rev; full = false; apps = []; del = []; next = none }
    else record {
      rev = rev;
      full = true;
      apps = page;
      del = [];
      next = next_of (ltb (start + limit) (length apps)) (last? page);
    }
