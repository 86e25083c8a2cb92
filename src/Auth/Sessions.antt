-- ===== src/Auth/Sessions.antt =====
-- `AuthService` of packages/server/src/auth/auth-service.ts. `session_id` is the hash of a token;
-- `hash_password` and `verify_password` stand for passwords.ts, which wraps the platform's scrypt.
-- The user agent of a session is left out: nothing reads it. So is the dummy hash, which only takes
-- time.
pub mod Lifetime
mod Runs
use nslibrary.Common.{
  ℕ, ◌+◌, Bool, true, false, ◌&&◌, ◌||◌, not, Option, none, some, List, [], ◌∷◌, ◌++◌, map, filter,
  find?, ltb, leb, is_some, String, str_eq, if◌then◌else◌,
}

abbrev pub session_ttl_ms : ℕ
session_ttl_ms = 2592000000

abbrev pub session_renew_below_ms : ℕ
session_renew_below_ms = 1296000000

abbrev pub last_seen_write_interval_ms : ℕ
last_seen_write_interval_ms = 60000

pub record AdminRow : Type 0 where
  pub username : String
  pub password_hash : String
  pub created_at : ℕ

pub record SessionRow : Type 0 where
  pub id : String
  pub created_at : ℕ
  pub expires_at : ℕ
  pub last_seen_at : ℕ

pub record ResolvedSession : Type 0 where
  pub username : String
  pub expires_at : ℕ
  pub renewed : Bool

-- The `admin` table has at most one row, with id 1.
pub record Auth : Type 0 where
  pub clock : ℕ
  pub admin : Option AdminRow
  pub sessions : List SessionRow

abbrev pub session_with : String → SessionRow → Bool
session_with id row = str_eq row.id id

unfoldable pub is_setup_required : Auth → Bool
is_setup_required a = not (is_some a.admin)

-- `UPDATE sessions SET expires_at, last_seen_at`
unfoldable pub seen_session : String → ℕ → ℕ → List SessionRow → List SessionRow
seen_session id expires_at now rows =
    map
      (λ (row : SessionRow).
        if session_with id row
        then record row { expires_at = expires_at; last_seen_at = now }
        else row)
      rows

module _ (session_id hash_password : String → String)
    (verify_password : String → String → Bool) where
  -- True if the account was made; with one already there nothing changes.
  unfoldable pub create_admin : String → String → Auth → Bool × Auth
  create_admin username password a = elim a.admin [
    | some account ↦ (false, a)
    | none ↦ (
      true,
      record a {
        admin = some (record {
          username = username;
          password_hash = hash_password password;
          created_at = a.clock;
        });
      },
    )
  ]

  unfoldable pub verify_login : String → String → Auth → Bool
  verify_login username password a = elim a.admin [
    | none ↦ false
    | some account ↦
        verify_password password account.password_hash && str_eq account.username username
  ]

  -- The update of `changePassword` for an account.
  abbrev pub changed : String → String → AdminRow → Auth → Auth
  changed new_password keep_token account a = record a {
    admin = some (record account { password_hash = hash_password new_password });
    sessions = filter (session_with (session_id keep_token)) a.sessions;
  }

  unfoldable pub change_password : String → String → String → Auth → Bool × Auth
  change_password current new_password keep_token a = elim a.admin [
    | none ↦ (false, a)
    | some account ↦
        if verify_password current account.password_hash
        then (true, changed new_password keep_token account a)
        else (false, a)
  ]

  unfoldable pub reset_password : String → Auth → Option String × Auth
  reset_password new_password a = elim a.admin [
    | none ↦ (none, a)
    | some account ↦ (
      some account.username,
      record a {
        admin = some (record account { password_hash = hash_password new_password });
        sessions = [];
      },
    )
  ]

  -- `token` is the random one.
  unfoldable pub create_session : String → Auth → ℕ × Auth
  create_session token a = (
    a.clock + session_ttl_ms,
    record a {
      sessions =
          a.sessions
          ++ record {
            id = session_id token;
            created_at = a.clock;
            expires_at = a.clock + session_ttl_ms;
            last_seen_at = a.clock;
          }
            ∷ [];
    },
  )

  -- A session that has not expired: its end moves if it is near and the caller asks for it, and the
  -- row is written then, or if it was last seen long ago.
  unfoldable pub use_session : Bool → SessionRow → AdminRow → Auth → Option ResolvedSession × Auth
  unfolding seen_session
  use_session renew session account a =
      let renewed = renew && ltb session.expires_at (a.clock + session_renew_below_ms) in
      let expires_at = if renewed then a.clock + session_ttl_ms else session.expires_at in
      let written = record a { sessions = seen_session session.id expires_at a.clock a.sessions } in
      (
        some (record { username = account.username; expires_at = expires_at; renewed = renewed }),
        if renewed || ltb (session.last_seen_at + last_seen_write_interval_ms) a.clock
            then written
            else a,
      )

  abbrev pub resolve_rows :
      Bool → Option SessionRow → Option AdminRow → Auth → Option ResolvedSession × Auth
  resolve_rows renew none account a = (none, a)
  resolve_rows renew (some session) none a = (none, a)
  resolve_rows renew (some session) (some account) a =
      if leb session.expires_at a.clock then (none, a) else use_session renew session account a

  unfoldable pub resolve_session : Option String → Bool → Auth → Option ResolvedSession × Auth
  unfolding use_session
  resolve_session none renew a = (none, a)
  resolve_session (some token) renew a =
      if str_eq token ""
      then (none, a)
      else resolve_rows renew (find? (session_with (session_id token)) a.sessions) a.admin a

  unfoldable pub delete_session : Option String → Auth → Auth
  delete_session none a = a
  delete_session (some token) a = if str_eq token "" then a else record a {
    sessions = filter (λ (row : SessionRow). not (session_with (session_id token) row)) a.sessions;
  }

unfoldable pub purge_expired_sessions : Auth → Auth
purge_expired_sessions a = record a {
  sessions = filter (λ (row : SessionRow). not (ltb row.expires_at a.clock)) a.sessions;
}
