-- ===== src/Device/Pairing/Runs.antt =====
-- Pairing of packages/server/src/device/service.ts in a small library, with texts as their own
-- hashes, and its theorems there.
use nslibrary.Common.{
  ℕ, ◌≡◌, refl, arith, some, List, [], ◌∷◌, String, ErrorCode, ok, err, pair_code_invalid,
}
use nslibrary.Device.Rows.{http}
use nslibrary.Device.Sample.{library}
use nslibrary.Device.Service.{Service, publish_event}
use nslibrary.Device.Pairing.{
  DeviceInfo, PairResponse, create_pairing_code, pair, newest_code, try_code, delete_code,
  finish_pairing, upsert_device,
}
use nslibrary.Device.Pairing.Attempts.{
  Attempt, attempt, attempts_at, code_row, pair-limit, pair-once,
}

abbrev same : String → String
same text = text

abbrev info : DeviceInfo
info = record {
  device_uuid = "7b0d2f0e-11aa-4f6b-8a5e-3c9f0f5d2a10";
  name = "Lite";
  fw = "20.0.0";
  ams_version = "1.8.0";
  app_version = "1.0.0";
}

abbrev guess : String → ℕ → Attempt
guess digits at = record {
  at = at;
  body = record { info = info; code = digits };
  transport = some http;
  token = "token";
}

abbrev with_code : Service
with_code = (create_pairing_code same "id" "server" "123456" library).1

abbrev wrong_guesses : List Attempt
wrong_guesses =
    guess "000000" 10001
    ∷ guess "000001" 10002
    ∷ guess "000002" 10003
    ∷ guess "000003" 10004
    ∷ guess "000004" 10005
    ∷ []

pair-limit_example :
    let t =
      attempts_at same "id" "server"
        (create_pairing_code same "id" "server" "123456" library).1
        wrong_guesses in
    (e : ErrorCode) × ((attempt same "id" "server" (guess "123456" 10006) t).0 ≡ err e)
    × ((attempt same "id" "server" (guess "123456" 10006) t).1.devices ≡ library.devices)
pair-limit_example =
    pair-limit same "id" "server" "123456" library wrong_guesses (guess "123456" 10006)
      (refl, (refl, (refl, (refl, (refl, tt))))) (omega arith)

abbrev answer : PairResponse
answer = record { token = "token"; device_id = 2; server_id = "id"; server_name = "server" }

pairs : (attempt same "id" "server" (guess "123456" 10001) with_code).0 ≡ ok answer
unfolding attempt create_pairing_code pair newest_code try_code delete_code finish_pairing
    upsert_device publish_event
pairs = refl

has_code : with_code.pairing_codes ≡ code_row same "id" "server" "123456" library ∷ []
unfolding create_pairing_code
has_code = refl

pair-once_example :
    (attempt same "id" "server"
      (guess "123456" 10002)
      (attempt same "id" "server" (guess "123456" 10001) with_code).1).0
    ≡ err pair_code_invalid
pair-once_example =
    pair-once same "id" "server" with_code (code_row same "id" "server" "123456" library)
      (guess "123456" 10001) (guess "123456" 10002) answer has_code pairs
