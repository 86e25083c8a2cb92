-- ===== src/Auth/Sessions/Runs.antt =====
-- Sign-ins of packages/server/src/auth/auth-service.ts, with texts as their own hashes.
use nslibrary.Common.{◌≡◌, ◌≢◌, refl, Bool, true, none, some, [], ◌∷◌, String, str_eq, find?}
use nslibrary.Auth.Sessions.{
  Auth, AdminRow, SessionRow, session_with, resolve_session, change_password, verify_login,
}
use nslibrary.Auth.Sessions.Lifetime.{change_password-SignsOut}

abbrev same : String → String
same text = text

abbrev account : AdminRow
account = record { username = "admin"; password_hash = "old"; created_at = 0 }

abbrev session : String → SessionRow
session id = record { id = id; created_at = 1; expires_at = 2592000001; last_seen_at = 1 }

abbrev signed_in : Auth
signed_in = record {
  clock = 5;
  admin = some account;
  sessions = session "mine" ∷ session "leaked" ∷ [];
}

change_password-SignsOut_example :
    let (returned, b) = change_password same same str_eq "old" "new" "mine" signed_in in
    (returned ≡ true)
    × (verify_login same same str_eq "admin" "new" b ≡ true)
    × ((token : String) (renew : Bool)
        → "mine" ≢ token
        → (resolve_session same same str_eq (some token) renew b).0 ≡ none)
    × (find? (session_with "mine") b.sessions ≡ find? (session_with "mine") signed_in.sessions)
change_password-SignsOut_example =
    change_password-SignsOut same same str_eq "old" "new" "mine" account signed_in refl refl refl
