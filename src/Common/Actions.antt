-- ===== src/Common/Actions.antt =====
-- packages/shared/src/errors.ts, and what a call returns: a value or an error code. The text of a
-- message is left out. An `Action` is a method that reads and changes a state `S`; as in
-- JavaScript, what it wrote before it threw stays written.
use mathlib.Core.Bool.{Bool, true, false}
use mathlib.Core.Option.{Option, none, some}

pub data ErrorCode : Type 0 where
  bad_request unauthorized forbidden not_found conflict protocol_mismatch : ErrorCode
  pair_code_invalid pair_code_expired pair_rate_limited rate_limited device_revoked : ErrorCode
  range_not_satisfiable file_missing file_changed job_not_found job_invalid_state : ErrorCode
  payload_too_large save_invalid internal : ErrorCode

pub data Result {ℓ} (A : Type ℓ) : Type ℓ where
  ok : A → Result A
  err : ErrorCode → Result A

abbrev pub Action : Type 0 → Type 0 → Type 0
Action S A = S → Result A × S

module _ {S A : Type 0} where
  abbrev pub pure : A → Action S A
  pure a s = (ok a, s)

  abbrev pub throw : ErrorCode → Action S A
  throw e s = (err e, s)

  abbrev pub gets : (S → A) → Action S A
  gets f s = (ok (f s), s)

  abbrev pub lift : Result A → Action S A
  lift r s = (r, s)

  abbrev pub or_throw : Option A → ErrorCode → Action S A
  or_throw none e = throw e
  or_throw (some a) e = pure a

module _ {S : Type 0} where
  abbrev pub modify : (S → S) → Action S Unit
  modify f s = (ok tt, f s)

  -- `if (!test) throw new ApiError(code)`
  unfoldable pub require : Bool → ErrorCode → Action S Unit
  require true e = pure tt
  require false e = throw e

module _ {S A B : Type 0} where
  -- What follows a call: it runs on the state that the call left, unless the call threw.
  abbrev pub and_then : Result A × S → (A → Action S B) → Result B × S
  and_then (ok a, s) f = f a s
  and_then (err e, s) f = (err e, s)

infixl 5 ◌>>=◌ ◌>>◌
abbrev pub ◌>>=◌ : {S A B : Type 0} → Action S A → (A → Action S B) → Action S B
(m >>= f) s = and_then (m s) f

abbrev pub ◌>>◌ : {S B : Type 0} → Action S Unit → Action S B → Action S B
m >> k = m >>= λ _. k
