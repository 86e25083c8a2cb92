-- ===== src/Shared/Types.antt =====
-- The enumerations of packages/shared/src/device-api.ts, and the HTTP status of each error code
-- from packages/shared/src/errors.ts.
use nslibrary.Common.{
  ℕ, String, Option, Bool, true, false, ErrorCode, bad_request, unauthorized, forbidden, not_found,
  conflict, protocol_mismatch, pair_code_invalid, pair_code_expired, pair_rate_limited,
  rate_limited, device_revoked, range_not_satisfiable, file_missing, file_changed, job_not_found,
  job_invalid_state, payload_too_large, save_invalid, internal,
}

pub data ContainerFormat : Type 0 where
  nsp nsz xci xcz nro : ContainerFormat

pub data ContentMetaType : Type 0 where
  application patch addon : ContentMetaType

pub data Storage : Type 0 where
  sd nand : Storage

pub data InstallTarget : Type 0 where
  sd nand auto : InstallTarget

pub data JobStatus : Type 0 where
  queued claimed running done failed cancelled interrupted : JobStatus

pub data InstallPhase : Type 0 where
  preflight ticket meta content commit record_phase : InstallPhase

-- What a console is told of a job: `Job`.
pub record Job : Type 0 where
  pub id : ℕ
  pub content_meta_id : ℕ
  pub file_id : ℕ
  pub title_id : String
  pub version : ℕ
  pub type : ContentMetaType
  pub name : String
  pub size : ℕ
  pub format : ContainerFormat
  pub target : InstallTarget
  pub status : JobStatus

pub data JobSource : Type 0 where
  web switch : JobSource

-- What the web pages are told of a job: `WebJob` of packages/shared/src/web-api.ts.
pub record WebJob : Type 0 where
  pub id : ℕ
  pub device_id : ℕ
  pub content_meta_id : ℕ
  pub file_id : ℕ
  pub title_id : String
  pub version : ℕ
  pub type : ContentMetaType
  pub name : String
  pub size : ℕ
  pub format : ContainerFormat
  pub target : InstallTarget
  pub source : JobSource
  pub status : JobStatus
  pub position : ℕ
  pub phase : Option InstallPhase
  pub item : Option String
  pub bytes_done : ℕ
  pub bps : Option ℕ
  pub error : Option String
  pub created_at : ℕ
  pub updated_at : ℕ
  pub completed_at : Option ℕ

pub data DeviceEvent : Type 0 where
  job_queued : Job → DeviceEvent
  job_cancel : ℕ → DeviceEvent
  catalog : ℕ → DeviceEvent

-- The events of `ServerEvent` that the part for devices publishes; the first field is the device.
pub data ServerEvent : Type 0 where
  device_paired : ℕ → String → ServerEvent
  device_online device_offline device_updated : ℕ → ServerEvent
  job_updated : WebJob → ServerEvent

-- A job that has not ended: `isActiveJobStatus`.
unfoldable pub is_active_job_status : JobStatus → Bool
is_active_job_status queued = true
is_active_job_status claimed = true
is_active_job_status running = true
is_active_job_status _ = false

unfoldable pub error_http_status : ErrorCode → ℕ
error_http_status bad_request = 400
error_http_status unauthorized = 401
error_http_status forbidden = 403
error_http_status not_found = 404
error_http_status conflict = 409
error_http_status protocol_mismatch = 426
error_http_status pair_code_invalid = 401
error_http_status pair_code_expired = 410
error_http_status pair_rate_limited = 429
error_http_status rate_limited = 429
error_http_status device_revoked = 401
error_http_status range_not_satisfiable = 416
error_http_status file_missing = 410
error_http_status file_changed = 412
error_http_status job_not_found = 404
error_http_status job_invalid_state = 409
error_http_status payload_too_large = 413
error_http_status save_invalid = 422
error_http_status internal = 500
