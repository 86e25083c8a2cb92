-- ===== src/Device/Catalog/Runs.antt =====
-- Rows of one game and a short catalogue, and the theorems of packages/server/src/device/catalog.ts
-- there.
use nslibrary.Common.{
  Bool, map, ℕ, suc, ◌≡◌, refl, true, none, some, List, [], ◌∷◌, arith, All, filter, length,
}
use nslibrary.Common.Text.{codes, same_text}
use nslibrary.Shared.Types.{ContentMetaType, application, patch, nsp, nsz}
use nslibrary.Library.Prefer.{
  pick_from, better_of, is_better, preferred_format_rank, compressed, uncompressed,
}
use nslibrary.Device.Catalog.{
  CatalogRow, CatalogApp, build_catalog_apps, to_app, updates_of, by_version, group_by, group_onto,
  push_item, version_of, pick_row, is_type, text_gt, paginate_catalog, is_current,
}
use nslibrary.Device.Catalog.Versions.{FallingVersions, updates_of-versions}
use nslibrary.Device.Catalog.Groups.{has_version}
use nslibrary.Device.Catalog.Pages.{read_all, IsAscending}
use nslibrary.Device.Catalog.Read.{IsTitleId, read_all-build_catalog_apps}
use nslibrary.Shared.TitleId.{is_title_id, is_upper_hex}

abbrev row : ℕ → ContentMetaType → ℕ → CatalogRow
row id type version = record {
  meta_id = id;
  title_id = codes "0100ABCD00000800";
  version = some version;
  type = type;
  application_id = codes "0100ABCD00000000";
  display_name = codes "Game";
  required_system_version = some id;
  file_id = id;
  format = nsp;
  size = 100;
  first_seen_at = 5000;
  app_name = none;
  app_publisher = none;
  app_icon_key = some (codes "1fcafe");
}

-- The same update in a second file, which is compressed.
abbrev in_nsz : CatalogRow → CatalogRow
in_nsz r = record r { format = nsz; file_id = 9; meta_id = 9 }

abbrev rows : List CatalogRow
rows =
    row 1 application 0 ∷ row 2 patch 65536 ∷ row 3 patch 131072 ∷ in_nsz (row 4 patch 65536) ∷ []

newest_first : updates_of true rows ≡ row 3 patch 131072 ∷ in_nsz (row 4 patch 65536) ∷ []
unfolding updates_of by_version group_by group_onto push_item version_of pick_row is_type pick_from
    better_of is_better preferred_format_rank compressed uncompressed
newest_first = refl

updates_of-versions_example :
    FallingVersions (updates_of true rows)
    × ((v : ℕ) → has_version v (updates_of true rows) ≡ has_version v (filter (is_type patch) rows))
    × All (λ r. r.size ≡ 100) (updates_of true rows)
unfolding is_type
updates_of-versions_example = updates_of-versions true rows (λ r. r.size ≡ 100) (omega arith)

abbrev app : List ℕ → CatalogApp
app id = record {
  i = id;
  n = codes "Game";
  p = none;
  ic = none;
  rsv = none;
  b = none;
  u = [];
  d = [];
  a = 5;
}

abbrev apps : List CatalogApp
apps = app (codes "0100A") ∷ app (codes "0100B") ∷ app (codes "0100C") ∷ []

-- Rows of two games, the second game's first.
abbrev two_games : List CatalogRow
two_games =
    record (row 5 application 0) { application_id = codes "0100ABCD00002000" }
    ∷ row 1 application 0
    ∷ []

abbrev by_codes : List ℕ → List ℕ → Bool
by_codes a b = text_gt b a

two_games-IsTitleId : All (λ r. IsTitleId r.application_id) two_games
unfolding is_title_id is_upper_hex
two_games-IsTitleId = (refl, (refl, tt))

in_order :
    map (λ (a : CatalogApp). a.i) (build_catalog_apps by_codes two_games true)
    ≡ codes "0100ABCD00000000" ∷ codes "0100ABCD00002000" ∷ []
unfolding build_catalog_apps group_by group_onto push_item same_text to_app text_gt
in_order = refl

read_all-build_catalog_apps_example :
    IsAscending (build_catalog_apps by_codes two_games true)
    × (read_all
          (suc (length (build_catalog_apps by_codes two_games true)))
          (build_catalog_apps by_codes two_games true)
          7
          1
          none
        ≡ some (build_catalog_apps by_codes two_games true))
read_all-build_catalog_apps_example =
    read_all-build_catalog_apps by_codes (λ a b h k. refl) two_games true 7 1 two_games-IsTitleId
      (omega arith)

-- A console that is up to date gets no apps.
nothing_new :
    (paginate_catalog apps 7 (record { since = some 7; cursor = none; limit = none })).apps ≡ []
unfolding paginate_catalog is_current
nothing_new = refl
