-- ===== src/Device/Devices/Revoked.antt =====
-- What is left of a console that `revokeDevice` of packages/server/src/device/service.ts took away.
use nslibrary.Common.{
  ℕ, ◌≡◌, refl, ap, ◌∙◌, true, false, ◌&&◌, some, List, [], ◌∷◌, arith, inl, inr, Option-cases,
  find?, is_some, Result, ok, err, Action, and_then, String, device_revoked,
}
use nslibrary.Device.Rows.{DeviceRow, JobRow}
use nslibrary.Device.Service.{
  Service, to_web_job, job_with, update_job, set_job, publish, update_device, device_with,
  require_device_row, require_active_device,
}
use nslibrary.Device.Jobs.Table.{find}
use nslibrary.Device.Jobs.History.{IsNumbered}
use nslibrary.Device.Jobs.Report.{
  interrupt_active_jobs, interrupt_all, interrupt_job, interrupted_row,
}
use nslibrary.Device.Jobs.Interrupts.{
  interrupted_if, is_theirs, in_hand, interrupt_active_jobs-exact,
}
use nslibrary.Device.Devices.{revoke_device, revoke_active, set_device, is_online}

find-update_device :
    (id : ℕ) (f : DeviceRow → DeviceRow) (rows : List DeviceRow) (row : DeviceRow)
    → ((r : DeviceRow) → (f r).id ≡ r.id)
    → find? (device_with id) rows ≡ some row
    → find? (device_with id) (update_device id f rows) ≡ some (f row)
unfolding update_device
find-update_device id f [] row keeps e = cc
find-update_device id f (r ∷ rows) row keeps e =
    ground (arith, keeps r, find-update_device id f rows row keeps)

abbrev revoked_row : ℕ → DeviceRow → DeviceRow
revoked_row now row = record row { revoked_at = some now }

keeps_then :
    {A B : Type 0} (d : List DeviceRow) (r : Result A × Service) (k : A → Action Service B)
    → r.1.devices ≡ d
    → ((a : A) (t : Service) → t.devices ≡ d → (k a t).1.devices ≡ d)
    → (and_then r k).1.devices ≡ d
keeps_then d (ok a, t) k e h = h a t e
keeps_then d (err c, t) k e h = e

set_job-devices :
    (id : ℕ) (f : JobRow → JobRow) (s : Service) → (set_job id f s).1.devices ≡ s.devices
unfolding set_job
set_job-devices id f s = elim (Option-cases (find? (job_with id) (update_job id f s.jobs))) [
  | inl none_there ↦ rw none_there refl
  | inr (row, there) ↦ rw there refl
]

interrupt_job-devices :
    (id : ℕ) (message : String) (s : Service) → (interrupt_job id message s).1.devices ≡ s.devices
unfolding interrupt_job publish
interrupt_job-devices id message s =
    keeps_then s.devices (set_job id (interrupted_row s.clock message) s)
      (λ u. publish (to_web_job u) false) (set_job-devices id (interrupted_row s.clock message) s)
      (λ a t e. e)

interrupt_all-devices :
    (ids : List ℕ) (message : String) (s : Service)
    → (interrupt_all ids message s).1.devices ≡ s.devices
unfolding interrupt_all
interrupt_all-devices [] message s = refl
interrupt_all-devices (id ∷ ids) message s =
    keeps_then s.devices (interrupt_job id message s) (λ _. interrupt_all ids message)
      (interrupt_job-devices id message s) (λ a t e. interrupt_all-devices ids message t ∙ e)

-- Interrupting jobs leaves the consoles alone.
pub interrupt_active_jobs-devices :
    (device : ℕ) (message : String) (s : Service)
    → (interrupt_active_jobs device message s).1.devices ≡ s.devices
unfolding interrupt_active_jobs
interrupt_active_jobs-devices device message s = interrupt_all-devices _ message s

revoke_device-active :
    (id : ℕ) (s : Service) (row : DeviceRow)
    → find? (device_with id) s.devices ≡ some row
    → is_some row.revoked_at ≡ false
    → revoke_device id s
      ≡ interrupt_active_jobs id "This Switch was revoked"
          (record s { devices = update_device id (revoked_row s.clock) s.devices })
unfolding revoke_device require_device_row revoke_active set_device
revoke_device-active id s row e active = rw (e, active) refl

refused :
    (id : ℕ) (t : Service) (row : DeviceRow)
    → find? (device_with id) t.devices ≡ some row
    → is_some row.revoked_at ≡ true
    → require_active_device id t ≡ (err device_revoked, t)
unfolding require_active_device require_device_row
refused id t row e revoked = rw (e, revoked) refl

-- Revoking a console that is not revoked yet, where the ids of the jobs are unique, returns. In the
-- state that it leaves, the console is refused with `DEVICE_REVOKED` where an active one is required,
-- nothing but the time of its revocation has changed in its row, and it is not online, though it may
-- poll; each of its claimed and running jobs has the status interrupted, the message of the
-- revocation as its error, and this moment as the time of its last change and of its end; and every
-- other job is as it was.
pub revoke_device-exact :
    (id : ℕ) (s : Service) (row : DeviceRow)
    → IsNumbered s
    → find? (device_with id) s.devices ≡ some row
    → is_some row.revoked_at ≡ false
    → let t = (revoke_device id s).1 in
      ((revoke_device id s).0 ≡ ok tt)
      × (require_active_device id t ≡ (err device_revoked, t))
      × (find? (device_with id) t.devices ≡ some (record row { revoked_at = some s.clock }))
      × (is_online (record row { revoked_at = some s.clock }) t ≡ false)
      × ((j : ℕ)
          → find j t.jobs
            ≡ interrupted_if
                (λ r. is_theirs (some id) r && in_hand r.status)
                s.clock
                "This Switch was revoked"
                (find j s.jobs))
unfolding is_online
revoke_device-exact id s row n e active =
    let u : Service = record s { devices = update_device id (revoked_row s.clock) s.devices } in
    let message : String = "This Switch was revoked" in
    let (returns, jobs) = interrupt_active_jobs-exact id message u n in
    let there : find? (device_with id) (interrupt_active_jobs id message u).1.devices
        ≡ some (revoked_row s.clock row) =
      ap (find? (device_with id)) (interrupt_active_jobs-devices id message u)
      ∙ find-update_device id (revoked_row s.clock) s.devices row (λ r. refl) e in
    rw (revoke_device-active id s row e active) (
      returns,
      refused id (interrupt_active_jobs id message u).1 (revoked_row s.clock row) there refl,
      there,
      refl,
      jobs,
    )
