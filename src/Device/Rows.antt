-- ===== src/Device/Rows.antt =====
-- The rows of packages/server/src/db/schema.ts that packages/server/src/device uses. A column that
-- may be NULL is an `Option`. Columns that no modelled call reads are left out: those of
-- `content_metas`, `files` and `library_roots` that the library scanner alone uses.
use nslibrary.Common.{ℕ, Option, String, Bool}
use nslibrary.Shared.Types.{
  ContainerFormat, ContentMetaType, InstallTarget, InstallPhase, JobSource, JobStatus, Storage,
}

pub data Transport : Type 0 where
  http usb : Transport

pub record DeviceRow : Type 0 where
  pub id : ℕ
  pub uuid : String
  pub name : String
  pub token_hash : String
  pub fw : Option String
  pub ams : Option String
  pub app_version : Option String
  pub last_seen : Option ℕ
  pub transport : Option Transport
  pub sd_free : Option ℕ
  pub sd_total : Option ℕ
  pub nand_free : Option ℕ
  pub nand_total : Option ℕ
  pub revoked_at : Option ℕ
  pub created_at : ℕ

pub record JobRow : Type 0 where
  pub id : ℕ
  pub device_id : ℕ
  pub content_meta_id : ℕ
  pub file_id : ℕ
  pub title_id : String
  pub version : ℕ
  pub type : ContentMetaType
  pub name : String
  pub size : ℕ
  pub format : ContainerFormat
  pub target : InstallTarget
  pub source : JobSource
  pub position : ℕ
  pub status : JobStatus
  pub phase : Option InstallPhase
  pub item : Option String
  pub bytes_done : ℕ
  pub bps : Option ℕ
  pub error : Option String
  pub created_at : ℕ
  pub updated_at : ℕ
  pub claimed_at : Option ℕ
  pub completed_at : Option ℕ

pub record ContentMetaRow : Type 0 where
  pub id : ℕ
  pub file_id : ℕ
  pub title_id : String
  pub version : Option ℕ
  pub type : ContentMetaType
  pub display_name : String
  pub install_size : Option ℕ

pub record FileRow : Type 0 where
  pub id : ℕ
  pub root_id : ℕ
  pub format : ContainerFormat
  pub size : ℕ
  pub missing_since : Option ℕ

pub record RootRow : Type 0 where
  pub id : ℕ
  pub enabled : Bool

pub record PairingCodeRow : Type 0 where
  pub id : ℕ
  pub code_hash : String
  pub expires_at : ℕ
  pub attempts : ℕ
  pub created_at : ℕ

pub record DeviceTitleRow : Type 0 where
  pub device_id : ℕ
  pub storage : Storage
  pub title_id : String
  pub version : ℕ
  pub type : ContentMetaType
  pub application_id : String
