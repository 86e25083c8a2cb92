-- ===== src/Device/Sample.antt =====
-- A small library with one console, for the runs of the calls of
-- packages/server/src/device/service.ts.
use nslibrary.Common.{ℕ, true, some, none, [], ◌∷◌}
use nslibrary.Shared.Types.{ContentMetaType, ContainerFormat}
use nslibrary.Device.Rows.{DeviceRow, ContentMetaRow}
use nslibrary.Device.Log
use nslibrary.Device.Publisher.{idle}
use nslibrary.Device.Service.{Service}

abbrev pub console : DeviceRow
console = record {
  id = 1;
  uuid = "0d6f6f1c-8f2e-4d5a-9b1c-5a1d3f0e7c21";
  name = "Switch";
  token_hash = "t";
  fw = none;
  ams = none;
  app_version = none;
  last_seen = none;
  transport = none;
  sd_free = none;
  sd_total = none;
  nand_free = none;
  nand_total = none;
  revoked_at = none;
  created_at = 0;
}

abbrev pub title : ℕ → ContentMetaRow
title id = record {
  id = id;
  file_id = 5;
  title_id = "0100000000001000";
  version = some 0;
  type = ContentMetaType.application;
  display_name = "Game";
  install_size = some 900;
}

abbrev pub library : Service
library = record {
  clock = 10000;
  devices = console ∷ [];
  next_device = 2;
  device_titles = [];
  pairing_codes = [];
  next_code = 1;
  jobs = [];
  next_job = 1;
  metas = title 3 ∷ title 4 ∷ [];
  files =
      record { id = 5; root_id = 6; format = ContainerFormat.nsp; size = 900; missing_since = none }
      ∷ [];
  roots = record { id = 6; enabled = true } ∷ [];
  require_usb_pairing = true;
  log = Log.empty;
  publisher = idle;
  last_progress_at = [];
  presence = [];
}
