-- ===== src/Device/Pairing.antt =====
-- How a console gets a token in packages/server/src/device/service.ts: `createPairingCode`, `pair`,
-- `usbHello`, `resolveToken` and `requireActive`. `hash` is `sha256Hex`, and the random code and
-- token are arguments. Two hashes are equal as texts of hex digits exactly if their bytes are.
pub mod Attempts
mod Runs
use nslibrary.Common.{
  ℕ, suc, ◌+◌, Bool, true, false, not, Option, none, some, List, [], ◌∷◌, ◌++◌, find?, filter,
  last?, ltb, leb, ◌==◌, String, str_eq, if◌then◌else◌, Result, ok, err, Action, pure, throw, gets,
  modify, or_throw, ◌>>=◌, ◌>>◌, is_some, pair_code_invalid, pair_code_expired, pair_rate_limited,
  unauthorized, device_revoked,
}
use nslibrary.Common.Sort.{sort}
use nslibrary.Shared.Types.{device_paired}
use nslibrary.Device.Rows.{DeviceRow, PairingCodeRow, Transport, usb}
use nslibrary.Device.Service.{Service, update_device, publish_event}

abbrev pub pair_ttl_ms : ℕ
pair_ttl_ms = 300000

abbrev pub pair_max_attempts : ℕ
pair_max_attempts = 5

pub record DeviceInfo : Type 0 where
  pub device_uuid : String
  pub name : String
  pub fw : String
  pub ams_version : String
  pub app_version : String

pub record PairRequest : Type 0 where
  pub info : DeviceInfo
  pub code : String

pub record PairResponse : Type 0 where
  pub token : String
  pub device_id : ℕ
  pub server_id : String
  pub server_name : String

-- The newest of the codes: `orderBy(createdAt).all().at(-1)`.
unfoldable pub newest_code : List PairingCodeRow → Option PairingCodeRow
newest_code rows = last? (sort (λ a b. ltb a.created_at b.created_at) rows)

unfoldable pub delete_code : ℕ → Action Service Unit
delete_code id = modify λ s. record s {
  pairing_codes = filter (λ (row : PairingCodeRow). not (row.id == id)) s.pairing_codes;
}

abbrev pub with_attempts : ℕ → ℕ → List PairingCodeRow → List PairingCodeRow
with_attempts id attempts [] = []
with_attempts id attempts (row ∷ rows) =
    (if row.id == id then record row { attempts = attempts } else row)
    ∷ with_attempts id attempts rows

unfoldable pub set_attempts : ℕ → ℕ → Action Service Unit
set_attempts id attempts =
    modify λ s. record s { pairing_codes = with_attempts id attempts s.pairing_codes }

-- `values` of `pair` and `usbHello`, on a row of `devices`.
unfoldable pub paired_row : ℕ → DeviceInfo → String → Option Transport → DeviceRow → DeviceRow
paired_row now info token_hash transport row = record row {
  name = info.name;
  token_hash = token_hash;
  fw = some info.fw;
  ams = some info.ams_version;
  app_version = some info.app_version;
  last_seen = some now;
  transport = transport;
  revoked_at = none;
}

-- A new row, before `values` are written to it.
abbrev pub blank_device : ℕ → String → ℕ → DeviceRow
blank_device id uuid now = record {
  id = id;
  uuid = uuid;
  name = "";
  token_hash = "";
  fw = none;
  ams = none;
  app_version = none;
  last_seen = none;
  transport = none;
  sd_free = none;
  sd_total = none;
  nand_free = none;
  nand_total = none;
  revoked_at = none;
  created_at = now;
}

-- The row of a console that pairs: the one that was found by its UUID, or a new one.
abbrev pub upsert_row : DeviceInfo → String → Option Transport → Option DeviceRow → Action Service ℕ
upsert_row info token_hash transport (some existing) s = (
  ok existing.id,
  record s {
    devices = update_device existing.id (paired_row s.clock info token_hash transport) s.devices;
  },
)
upsert_row info token_hash transport none s = (
  ok s.next_device,
  record s {
    devices =
        s.devices
        ++ paired_row s.clock info token_hash transport
            (blank_device s.next_device info.device_uuid s.clock)
          ∷ [];
    next_device = suc s.next_device;
  },
)

unfoldable pub upsert_device : DeviceInfo → String → Option Transport → Action Service ℕ
upsert_device info token_hash transport s =
    upsert_row info token_hash transport
      (find? (λ (d : DeviceRow). str_eq d.uuid info.device_uuid) s.devices) s

module _ (hash : String → String) (server_id server_name : String) where
  -- `digits` is the random code; the response is the code and when it expires.
  unfoldable pub create_pairing_code : String → Action Service (String × ℕ)
  create_pairing_code digits s = (
    ok (digits, s.clock + pair_ttl_ms),
    record s {
      pairing_codes =
          record {
            id = s.next_code;
            code_hash = hash digits;
            expires_at = s.clock + pair_ttl_ms;
            attempts = 0;
            created_at = s.clock;
          }
          ∷ [];
      next_code = suc s.next_code;
    },
  )

  -- What is left to do when the code was right.
  unfoldable pub finish_pairing :
      DeviceInfo → Option Transport → String → Action Service PairResponse
  unfolding upsert_device
  finish_pairing info transport token = do
    device_id ← upsert_device info (hash token) transport
    publish_event (device_paired device_id info.name)
    pure (record {
      token = token;
      device_id = device_id;
      server_id = server_id;
      server_name = server_name;
    })

  unfoldable pub wrong_code : PairingCodeRow → Action Service PairResponse
  unfolding set_attempts
  wrong_code row = do
    set_attempts row.id (row.attempts + 1)
    (if leb pair_max_attempts (row.attempts + 1)
        then throw pair_rate_limited
        else throw pair_code_invalid)

  -- `pair` with the newest code.
  unfoldable pub try_code :
      PairRequest → Option Transport → String → PairingCodeRow → Action Service PairResponse
  unfolding delete_code wrong_code finish_pairing
  try_code body transport token row s =
      if leb row.expires_at s.clock
      then (delete_code row.id >> throw pair_code_expired) s
      else if leb pair_max_attempts row.attempts
      then throw pair_rate_limited s
      else if not (str_eq row.code_hash (hash body.code))
      then wrong_code row s
      else (delete_code row.id >> finish_pairing body.info transport token) s

  unfoldable pub pair : PairRequest → Option Transport → String → Action Service PairResponse
  unfolding newest_code try_code
  pair body transport token s = elim (newest_code s.pairing_codes) [
    | none ↦ (err pair_code_invalid, s)
    | some row ↦ try_code body transport token row s
  ]

  -- An empty token is falsy in JavaScript.
  unfoldable pub resolve_token : Option String → Service → Option DeviceRow
  resolve_token none s = none
  resolve_token (some token) s =
      if str_eq token ""
      then none
      else find? (λ (d : DeviceRow). str_eq d.token_hash (hash token)) s.devices

  unfoldable pub require_active : Option DeviceRow → Action Service DeviceRow
  require_active none = throw unauthorized
  require_active (some device) =
      if is_some device.revoked_at then throw device_revoked else pure device

  -- What `usbHello` writes for a console that shows its token.
  unfoldable pub greeted_row : ℕ → DeviceInfo → DeviceRow → DeviceRow
  greeted_row now info row = record row {
    name = info.name;
    fw = some info.fw;
    ams = some info.ams_version;
    app_version = some info.app_version;
    last_seen = some now;
    transport = some usb;
  }

  unfoldable pub greet : DeviceInfo → String → Action Service PairResponse
  unfolding require_active resolve_token greeted_row
  greet info token s =
      (do
        device ← require_active (resolve_token (some token) s)
        modify (λ t. record t {
          devices = update_device device.id (greeted_row t.clock info) t.devices;
        })
        pure (record {
          token = token;
          device_id = device.id;
          server_id = server_id;
          server_name = server_name;
        }))
        s

  -- Without a token: a new one, unless the settings ask for a code.
  unfoldable pub trust : DeviceInfo → String → Action Service PairResponse
  unfolding finish_pairing
  trust info new_token s =
      if s.require_usb_pairing
      then throw unauthorized s
      else finish_pairing info (some usb) new_token s

  unfoldable pub usb_hello : DeviceInfo → Option String → String → Action Service PairResponse
  unfolding greet trust
  usb_hello info none new_token = trust info new_token
  usb_hello info (some token) new_token =
      if str_eq token "" then trust info new_token else greet info token
