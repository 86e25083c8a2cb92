-- ===== src/Device/CheckSpace/Whole.antt =====
-- What `checkSpace` of packages/server/src/device/service.ts returns.
use nslibrary.Common.{List}
use nslibrary.Device.Service.{Service}
use nslibrary.Device.CheckSpace.{reported, reported}
