-- ===== src/Device/Pairing/Attempts.antt =====
-- How often a pairing code of packages/server/src/device/service.ts can be guessed.
use nslibrary.Common.{
  ℕ, suc, ◌+◌, ◌≤◌, ◌≡◌, refl, min, find?, ap, subst, ◌<◌, true, false, Option, none, some, List,
  [], ◌∷◌, arith, String, str_eq, ◌⊎◌, inl, inr, Bool-cases, All, length, leb, ErrorCode, Action,
  ◌>>=◌, ◌>>◌, Result, ok, err, pair_code_invalid, pair_code_expired, pair_rate_limited, ◌==◌,
}
use nslibrary.Device.Rows.{DeviceRow, PairingCodeRow, Transport}
use nslibrary.Device.Service.{Service, publish_event}
use nslibrary.Device.Pairing.{
  PairRequest, PairResponse, pair, try_code, wrong_code, newest_code, delete_code, set_attempts,
  pair_max_attempts, pair_ttl_ms, create_pairing_code, finish_pairing, upsert_device, upsert_row,
  DeviceInfo,
}

-- A call of `pair` at a time.
pub record Attempt : Type 0 where
  pub at : ℕ
  pub body : PairRequest
  pub transport : Option Transport
  pub token : String

module _ (hash : String → String) (server_id server_name : String) where
  unfoldable pub attempt : Attempt → Service → Result PairResponse × Service
  attempt a s =
      pair hash server_id server_name a.body a.transport a.token (record s { clock = a.at })

  unfoldable pub attempts_at : Service → List Attempt → Service
  attempts_at s [] = s
  attempts_at s (a ∷ as_) = attempts_at (attempt a s).1 as_

  -- The code of the attempt is not the one that the row was made for.
  abbrev pub IsWrong : PairingCodeRow → Attempt → Type 0
  IsWrong row a = str_eq row.code_hash (hash a.body.code) ≡ false

  abbrev tried : PairingCodeRow → ℕ → PairingCodeRow
  tried row k = record row { attempts = min pair_max_attempts k }

  -- The code is gone, or it was tried so often; no console was added or changed.
  abbrev pub Guarded : PairingCodeRow → List DeviceRow → ℕ → Service → Type 0
  Guarded row devices k s =
      ((s.pairing_codes ≡ []) ⊎ (s.pairing_codes ≡ tried row k ∷ [])) × (s.devices ≡ devices)

  used :
      (row : PairingCodeRow) (devices : List DeviceRow) (k : ℕ) (a : Attempt) (s : Service)
      → IsWrong row a
      → s.devices ≡ devices
      → Guarded row devices
          (suc k)
          (try_code hash server_id server_name a.body a.transport a.token
            (tried row k)
            (record s { clock = a.at; pairing_codes = tried row k ∷ [] })).1
  unfolding try_code wrong_code delete_code set_attempts
  used row devices k a s wrong same =
      let self : (row.id == row.id) ≡ true = ground arith in
      elim (Bool-cases (leb row.expires_at a.at)) [
        | inl late ↦ rw (late, self) (inl refl, same)
        | inr early ↦ elim (Bool-cases (leb pair_max_attempts k)) [
          | inl many ↦
              let full : leb 5 (min 5 k) ≡ true = ground arith in
              let reached : 5 ≤ k = ground (arith, many) in
              let stays : min 5 k ≡ min 5 (suc k) = omega arith in
              rw (early, full) (inr (ap (λ n. record row { attempts = n } ∷ []) stays), same)
          | inr few ↦
              let free : leb 5 (min 5 k) ≡ false = ground arith in
              let left : k < 5 = ground (arith, few) in
              let one_more : min 5 k + 1 ≡ min 5 (suc k) = omega arith in
              elim (Bool-cases (leb 5 (min 5 k + 1))) [
                | inl last ↦
                    rw (early, free, wrong, last, self)
                      (inr (ap (λ n. record row { attempts = n } ∷ []) one_more), same)
                | inr more ↦
                    rw (early, free, wrong, more, self)
                      (inr (ap (λ n. record row { attempts = n } ∷ []) one_more), same)
              ]
        ]
      ]

  attempt-Guarded :
      (row : PairingCodeRow) (devices : List DeviceRow) (k : ℕ) (a : Attempt) (s : Service)
      → IsWrong row a
      → Guarded row devices k s
      → Guarded row devices (suc k) (attempt a s).1
  unfolding attempt pair newest_code try_code wrong_code delete_code set_attempts
  attempt-Guarded row devices k a s wrong (inl none_left, same) = rw none_left (inl refl, same)
  attempt-Guarded row devices k a s wrong (inr one, same) =
      rw one (used row devices k a s wrong same)

  -- What comes after the attempts is refused, if they were as many as a code allows.
  spent :
      (row : PairingCodeRow) (devices : List DeviceRow) (k : ℕ) (a : Attempt) (s : Service)
      → pair_max_attempts ≤ k
      → Guarded row devices k s
      → (e : ErrorCode) × ((attempt a s).0 ≡ err e) × ((attempt a s).1.devices ≡ devices)
  unfolding attempt pair newest_code try_code delete_code
  spent row devices k a s n (inl none_left, same) = rw none_left (pair_code_invalid, refl, same)
  spent row devices k a s n (inr one, same) = rw one (elim (Bool-cases (leb row.expires_at a.at)) [
    | inl late ↦ rw late (pair_code_expired, refl, same)
    | inr early ↦
        let full : leb 5 (min 5 k) ≡ true = ground arith in
        rw (early, full) (pair_rate_limited, refl, same)
  ])

  attempts_at-Guarded :
      (row : PairingCodeRow) (devices : List DeviceRow) (k : ℕ) (as_ : List Attempt) (s : Service)
      → All (IsWrong row) as_
      → Guarded row devices k s
      → Guarded row devices (k + length as_) (attempts_at s as_)
  unfolding attempts_at
  attempts_at-Guarded row devices k [] s wrong g =
      subst (λ n. Guarded row devices n s) (omega arith) g
  attempts_at-Guarded row devices k (a ∷ as_) s wrong g =
      subst (λ n. Guarded row devices n (attempts_at (attempt a s).1 as_)) (omega arith)
        (attempts_at-Guarded row devices (suc k) as_ (attempt a s).1 wrong.1
          (attempt-Guarded row devices k a s wrong.0 g))

  -- The row that `createPairingCode` makes for a code.
  abbrev pub code_row : String → Service → PairingCodeRow
  code_row digits s = record {
    id = s.next_code;
    code_hash = hash digits;
    expires_at = s.clock + pair_ttl_ms;
    attempts = 0;
    created_at = s.clock;
  }

  -- A pairing code takes five guesses. After five or more wrong codes since it was made, at any
  -- times, every attempt is refused, one with the right code too, and no console has been added or
  -- changed.
  pub pair-limit :
      (digits : String) (s : Service) (guesses : List Attempt) (a : Attempt)
      → All (IsWrong (code_row digits s)) guesses
      → pair_max_attempts ≤ length guesses
      → let t = attempts_at (create_pairing_code hash server_id server_name digits s).1 guesses in
        (e : ErrorCode) × ((attempt a t).0 ≡ err e) × ((attempt a t).1.devices ≡ s.devices)
  unfolding create_pairing_code
  pair-limit digits s guesses a wrong n =
      let start = (create_pairing_code hash server_id server_name digits s).1 in
      spent (code_row digits s) s.devices (length guesses) a (attempts_at start guesses) n (
        subst (λ k. Guarded (code_row digits s) s.devices k (attempts_at start guesses))
          (omega arith)
          (attempts_at-Guarded (code_row digits s) s.devices 0 guesses start wrong
            (inr refl, refl)))

  upserted-codes :
      (info : DeviceInfo) (token_hash : String) (transport : Option Transport)
      (o : Option DeviceRow) (s : Service) (k : ℕ → Action Service PairResponse)
      → ((id : ℕ) (t : Service) → (k id t).1.pairing_codes ≡ t.pairing_codes)
      → ((upsert_row info token_hash transport o >>= k) s).1.pairing_codes ≡ s.pairing_codes
  upserted-codes info token_hash transport none s k h = h _ _
  upserted-codes info token_hash transport (some d) s k h = h _ _

  finish_pairing-codes :
      (info : DeviceInfo) (transport : Option Transport) (token : String) (s : Service)
      → (finish_pairing hash server_id server_name info transport token s).1.pairing_codes
        ≡ s.pairing_codes
  unfolding finish_pairing upsert_device publish_event
  finish_pairing-codes info transport token s =
      upserted-codes info (hash token) transport
        (find? (λ (d : DeviceRow). str_eq d.uuid info.device_uuid) s.devices) s _ (λ id t. refl)

  deletes :
      {A : Type 0} (row : PairingCodeRow) (now : ℕ) (s : Service) (k : Action Service A)
      → (delete_code row.id >> k) (record s { clock = now; pairing_codes = row ∷ [] })
        ≡ k (record s { clock = now; pairing_codes = [] })
  unfolding delete_code
  deletes row now s k = let self : (row.id == row.id) ≡ true = ground arith in rw self refl

  -- An attempt that succeeds deletes the code that it used.
  used_up :
      (s : Service) (row : PairingCodeRow) (a : Attempt) (response : PairResponse)
      → (try_code hash server_id server_name a.body a.transport a.token row
          (record s { clock = a.at; pairing_codes = row ∷ [] })).0
        ≡ ok response
      → (try_code hash server_id server_name a.body a.transport a.token row
          (record s { clock = a.at; pairing_codes = row ∷ [] })).1.pairing_codes
        ≡ []
  unfolding try_code wrong_code set_attempts
  used_up s row a response = elim (Bool-cases (leb row.expires_at a.at)) [
    | inl late ↦ rw late (λ p. cc)
    | inr early ↦ elim (Bool-cases (leb pair_max_attempts row.attempts)) [
      | inl many ↦ rw (early, many) (λ p. cc)
      | inr few ↦ elim (Bool-cases (str_eq row.code_hash (hash a.body.code))) [
        | inl right ↦
            rw
              (
                early,
                few,
                right,
                deletes row a.at s
                    (finish_pairing hash server_id server_name a.body.info a.transport a.token),
              )
              (λ _.
                finish_pairing-codes a.body.info a.transport a.token
                  (record s { clock = a.at; pairing_codes = [] }))
        | inr wrong ↦ elim (Bool-cases (leb pair_max_attempts (row.attempts + 1))) [
          | inl last ↦ rw (early, few, wrong, last) (λ p. cc)
          | inr more ↦ rw (early, few, wrong, more) (λ p. cc)
        ]
      ]
    ]
  ]

  no_code :
      (t : Service) (a : Attempt) → t.pairing_codes ≡ [] → (attempt a t).0 ≡ err pair_code_invalid
  unfolding attempt pair newest_code
  no_code t a e = rw e refl

  -- A pairing code is used up by the console that pairs with it: if one code is active and an attempt
  -- succeeds, then the next one, at any time and with any code, finds no code.
  pub pair-once :
      (s : Service) (row : PairingCodeRow) (first second : Attempt) (response : PairResponse)
      → s.pairing_codes ≡ row ∷ []
      → (attempt first s).0 ≡ ok response
      → (attempt second (attempt first s).1).0 ≡ err pair_code_invalid
  unfolding attempt pair newest_code
  pair-once s row first second response one paired =
      no_code (attempt first s).1 second (rw one (used_up s row first response (rw one at paired)))
