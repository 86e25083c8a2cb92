-- ===== src/Device/CheckSpace/Runs.antt =====
-- A check of packages/server/src/device/service.ts for a console that reported its space.
use nslibrary.Common.{some, List, [], ◌∷◌}
use nslibrary.Shared.Types.{InstallTarget}
use nslibrary.Device.Rows.{DeviceRow}
use nslibrary.Device.Sample.{library, console, title}
use nslibrary.Device.Service.{Service}
use nslibrary.Device.CheckSpace.{SpaceCheck, Item, answer_of}

-- Room for one of the two titles on the card, and for none in the console.
abbrev reporting : DeviceRow
reporting = record console {
  sd_free = some 1000;
  sd_total = some 5000;
  nand_free = some 10;
  nand_total = some 90;
}

abbrev reported_library : Service
reported_library = record library { devices = reporting ∷ [] }

abbrev found : List Item
found =
    record { title = title 3; file_size = 900 } ∷ record { title = title 4; file_size = 900 } ∷ []

abbrev answer : SpaceCheck
answer = answer_of reporting reported_library found InstallTarget.auto
