-- ===== src/Device/Devices.antt =====
-- The calls of packages/server/src/device/service.ts about the consoles themselves: `touch`, the
-- check of silent jobs in `hello`, `renameDevice`, `revokeDevice`, `isOnline`, and the counts of
-- `toSummary`.
pub mod Revoked
mod Runs
use nslibrary.Common.{
  ℕ, ◌+◌, Bool, true, false, ◌&&◌, not, Option, none, some, List, [], ◌∷◌, ◌++◌, map, filter, ltb,
  ◌==◌, String, length, or_else, if◌then◌else◌, is_some, Result, ok, err, Action, pure, gets,
  modify, ◌>>=◌, ◌>>◌,
}
use nslibrary.Common.Maps
use nslibrary.Shared.Types.{ContentMetaType, Storage, device_updated}
use nslibrary.Device.Rows.{DeviceRow, DeviceTitleRow, JobRow, Transport}
use nslibrary.Device.Service.{Service, update_device, require_device_row, publish_event}
use nslibrary.Device.Jobs.{is_of, is_queued, is_running}
use nslibrary.Device.Jobs.Report.{interrupt_active_jobs, interrupt_stale_jobs}

abbrev pub online_after_ms : ℕ
online_after_ms = 60000

-- `NEW_SESSION_STALE_JOB_MS`
abbrev pub new_session_stale_job_ms : ℕ
new_session_stale_job_ms = 60000

unfoldable pub set_device : ℕ → (DeviceRow → DeviceRow) → Action Service Unit
set_device id f = modify λ s. record s { devices = update_device id f s.devices }

-- Without a transport the column stays.
unfoldable pub touched_row : ℕ → Option Transport → DeviceRow → DeviceRow
touched_row now none row = record row { last_seen = some now }
touched_row now (some t) row = record row { last_seen = some now; transport = some t }

unfoldable pub touch : ℕ → Option Transport → Action Service Unit
unfolding touched_row set_device
touch id transport = do now ← gets (λ s. s.clock); set_device id (touched_row now transport)

-- The part of `hello` that changes state.
unfoldable pub greet_session : Option ℕ → Action Service Unit
greet_session none = pure tt
greet_session (some device) = do
  _ ← interrupt_stale_jobs new_session_stale_job_ms (some device)
  pure tt

unfoldable pub rename_device : ℕ → String → Action Service Unit
unfolding set_device
rename_device id name = do
  _ ← require_device_row id
  set_device id (λ row. record row { name = name })

unfoldable pub revoke_active : ℕ → Action Service Unit
unfolding set_device
revoke_active id = do
  now ← gets (λ s. s.clock)
  set_device id (λ row. record row { revoked_at = some now })
  interrupt_active_jobs id "This Switch was revoked"

-- The page of the console that both calls return is left out.
unfoldable pub revoke_device : ℕ → Action Service Unit
unfolding revoke_active
revoke_device id = do
  row ← require_device_row id
  if is_some row.revoked_at then pure tt else revoke_active id

-- Never for a revoked console; while it polls; or if it was seen less than a minute ago.
unfoldable pub is_online : DeviceRow → Service → Bool
is_online row s =
    if is_some row.revoked_at
    then false
    else if ltb 0 (or_else (Maps.get row.id s.presence) 0)
    then true
    else elim row.last_seen [ none ↦ false | some t ↦ ltb s.clock (t + online_after_ms) ]

-- `queuedJobs` and `runningJobs` of `toSummary`.
unfoldable pub queued_jobs : ℕ → Service → ℕ
queued_jobs device s =
    length (filter (λ (j : JobRow). is_queued j.status) (filter (is_of device) s.jobs))

unfoldable pub running_jobs : ℕ → Service → ℕ
running_jobs device s =
    length (filter (λ (j : JobRow). is_running j.status) (filter (is_of device) s.jobs))
