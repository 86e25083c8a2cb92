-- ===== src/Device/Devices/Runs.antt =====
-- A console of packages/server/src/device/service.ts that is revoked in a small library.
use nslibrary.Common.{ℕ, ◌≡◌, refl, arith, some, false, find?, ok, err, device_revoked, ◌&&◌}
use nslibrary.Device.Service.{device_with, require_active_device}
use nslibrary.Device.Sample.{library, console}
use nslibrary.Device.Jobs.Table.{find}
use nslibrary.Device.Jobs.Interrupts.{interrupted_if, is_theirs, in_hand}
use nslibrary.Device.Devices.{revoke_device, is_online}
use nslibrary.Device.Devices.Revoked.{revoke_device-exact}

revoke_device-exact_example :
    let t = (revoke_device 1 library).1 in
    ((revoke_device 1 library).0 ≡ ok tt)
    × (require_active_device 1 t ≡ (err device_revoked, t))
    × (find? (device_with 1) t.devices ≡ some (record console { revoked_at = some library.clock }))
    × (is_online (record console { revoked_at = some library.clock }) t ≡ false)
    × ((j : ℕ)
        → find j t.jobs
          ≡ interrupted_if
              (λ r. is_theirs (some 1) r && in_hand r.status)
              library.clock
              "This Switch was revoked"
              (find j library.jobs))
revoke_device-exact_example = revoke_device-exact 1 library console (omega arith) refl refl
