-- ===== src/Auth/Sessions/Lifetime.antt =====
-- How long a session of packages/server/src/auth/auth-service.ts lets its holder in.
use nslibrary.Common.{
  ℕ, ◌+◌, ◌≡◌, ◌≢◌, refl, sym, ◌∙◌, Bool, true, false, not, none, some, List, [], ◌∷◌, ◌++◌, inl,
  inr, Bool-cases, filter, find?, leb, String, str_eq, eq_iff, if◌then◌else◌,
}
use nslibrary.Auth.Sessions.{
  Auth, AdminRow, SessionRow, session_with, create_session, resolve_session, use_session,
  change_password, changed, verify_login, delete_session, session_ttl_ms,
}

find-kept :
    (id keep : String) (rows : List SessionRow)
    → keep ≢ id
    → find? (session_with id) (filter (session_with keep) rows) ≡ none
find-kept id keep [] n = refl
find-kept id keep (row ∷ rows) n = elim (Bool-cases (session_with keep row)) [
  | inl kept ↦
      let here : row.id ≡ keep = (eq_iff row.id keep).0 kept in
      elim (Bool-cases (session_with id row)) [
        | inl hit ↦ absurd (n (sym here ∙ (eq_iff row.id id).0 hit))
        | inr miss ↦ rw (kept, miss) (find-kept id keep rows n)
      ]
  | inr gone ↦ rw gone (find-kept id keep rows n)
]

find-own :
    (keep : String) (rows : List SessionRow)
    → find? (session_with keep) (filter (session_with keep) rows) ≡ find? (session_with keep) rows
find-own keep [] = refl
find-own keep (row ∷ rows) = elim (Bool-cases (session_with keep row)) [
  | inl kept ↦ rw (kept, kept) refl
  | inr gone ↦ rw gone (find-own keep rows)
]

find-gone :
    (id : String) (rows : List SessionRow)
    → find? (session_with id) (filter (λ (row : SessionRow). not (session_with id row)) rows) ≡ none
find-gone id [] = refl
find-gone id (row ∷ rows) = elim (Bool-cases (session_with id row)) [
  | inl own ↦ rw own (find-gone id rows)
  | inr other ↦ rw (other, other) (find-gone id rows)
]

find-new :
    (id : String) (rows : List SessionRow) (row : SessionRow)
    → find? (session_with id) rows ≡ none
    → session_with id row ≡ true
    → find? (session_with id) (rows ++ row ∷ []) ≡ some row
find-new id [] row e h = rw h refl
find-new id (r ∷ rows) row e h = elim (Bool-cases (session_with id r)) [
  | inl hit ↦ let no : some r ≡ none = rw hit at e in cc
  | inr miss ↦ rw miss (find-new id rows row (rw miss at e) h)
]

module _ (session_id hash_password : String → String)
    (verify_password : String → String → Bool) where
  unknown :
      (token : String) (renew : Bool) (a : Auth)
      → find? (session_with (session_id token)) a.sessions ≡ none
      → (resolve_session session_id hash_password verify_password (some token) renew a).0 ≡ none
  unfolding resolve_session
  unknown token renew a e = elim (Bool-cases (str_eq token "")) [
    | inl blank ↦ rw blank refl
    | inr full ↦ rw (full, e) refl
  ]

  -- Changing the password with the right current one, if a password verifies against its own hash:
  -- the call returns true, the new password signs in, no token with another session id than the kept
  -- one resolves any longer, and the kept one has the same session as before.
  pub change_password-SignsOut :
      (current new_password keep_token : String) (account : AdminRow) (a : Auth)
      → a.admin ≡ some account
      → verify_password current account.password_hash ≡ true
      → verify_password new_password (hash_password new_password) ≡ true
      → let (returned, b) =
          change_password session_id hash_password verify_password current new_password keep_token
            a in
        (returned ≡ true)
        × (verify_login session_id hash_password verify_password account.username new_password b
            ≡ true)
        × ((token : String) (renew : Bool)
            → session_id keep_token ≢ session_id token
            → (resolve_session session_id hash_password verify_password (some token) renew b).0
              ≡ none)
        × (find? (session_with (session_id keep_token)) b.sessions
            ≡ find? (session_with (session_id keep_token)) a.sessions)
  unfolding change_password verify_login
  change_password-SignsOut current new_password keep_token account a e right new =
      let self : str_eq account.username account.username ≡ true =
        (eq_iff account.username account.username).1 refl in
      rw (e, right)
        (
          refl,
          rw (new, self) refl,
          λ token renew other.
              unknown token renew
                (changed session_id hash_password verify_password new_password keep_token account a)
                (find-kept (session_id token) (session_id keep_token) a.sessions other),
          find-own (session_id keep_token) a.sessions,
        )

  -- A session that was just made, for a token that is not empty and whose id is new, resolves to the
  -- account until its 30 days are over, and not from then on, if nothing renews or deletes it.
  pub resolve_session-create_session :
      (token : String) (account : AdminRow) (now : ℕ) (a : Auth)
      → a.admin ≡ some account
      → str_eq token "" ≡ false
      → find? (session_with (session_id token)) a.sessions ≡ none
      → let (expires_at, b) = create_session session_id hash_password verify_password token a in
        (resolve_session session_id hash_password verify_password
          (some token)
          false
          (record b { clock = now })).0
        ≡ (if leb expires_at now
            then none
            else some
                (record { username = account.username; expires_at = expires_at; renewed = false }))
  unfolding create_session resolve_session use_session
  resolve_session-create_session token account now a e full absent =
      let session : SessionRow = record {
        id = session_id token;
        created_at = a.clock;
        expires_at = a.clock + session_ttl_ms;
        last_seen_at = a.clock;
      } in
      let self : str_eq (session_id token) (session_id token) ≡ true =
        (eq_iff (session_id token) (session_id token)).1 refl in
      rw (full, find-new (session_id token) a.sessions session absent self, e)
        (elim (Bool-cases (leb (a.clock + session_ttl_ms) now)) [
          | inl over ↦ rw over refl
          | inr still ↦ rw still refl
        ])

  -- A token whose session was deleted does not resolve.
  pub resolve_session-delete_session :
      (token : String) (renew : Bool) (a : Auth)
      → (resolve_session session_id hash_password verify_password
          (some token)
          renew
          (delete_session session_id hash_password verify_password (some token) a)).0
        ≡ none
  unfolding delete_session resolve_session
  resolve_session-delete_session token renew a = elim (Bool-cases (str_eq token "")) [
    | inl blank ↦ rw blank refl
    | inr full ↦ rw (full, find-gone (session_id token) a.sessions) refl
  ]
