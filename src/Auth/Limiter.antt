-- ===== src/Auth/Limiter.antt =====
-- `LoginRateLimiter` of packages/server/src/auth/auth-service.ts. An address is a number that stands
-- for its text. The times are those of `now()`, and a cutoff before time 0 lets all pass.
pub mod Fresh
mod Runs
use nslibrary.Common.{
  ℕ, ◌+◌, Bool, true, false, Option, none, some, List, [], ◌∷◌, ◌++◌, map, filter, ltb, leb,
  or_else, length, if◌then◌else◌, ◌==◌,
}
use nslibrary.Common.Maps
use nslibrary.Common.Maps.{Map}

abbrev pub prune_at_keys : ℕ
prune_at_keys = 1000

-- `#failures`
abbrev pub Failures : Type 0
Failures = Map (List ℕ)

abbrev pub stored : ℕ → Failures → List ℕ
stored key m = or_else (Maps.get key m) []

module _ (max_failures window_ms : ℕ) where
  -- `t > now - windowMs`
  abbrev pub is_fresh : ℕ → ℕ → Bool
  is_fresh now t = ltb now (t + window_ms)

  abbrev pub keep : ℕ → List ℕ → Failures → Failures
  keep key [] m = Maps.delete key m
  keep key (t ∷ ts) m = Maps.set key (t ∷ ts) m

  -- `#recent`: the list that it returns, and the map that it leaves.
  unfoldable pub recent : ℕ → ℕ → Failures → List ℕ × Failures
  recent now key m = let times = filter (is_fresh now) (stored key m) in (times, keep key times m)

  unfoldable pub is_limited : ℕ → ℕ → Failures → Bool × Failures
  unfolding recent
  is_limited now key m =
      let (times, after) = recent now key m in (leb max_failures (length times), after)

  unfoldable pub recent_all : ℕ → List ℕ → Failures → Failures
  recent_all now [] m = m
  recent_all now (key ∷ keys) m = recent_all now keys (recent now key m).1

  unfoldable pub prune : ℕ → Failures → Failures
  unfolding recent_all
  prune now m = recent_all now (map (λ (e : ℕ × List ℕ). e.0) m) m

  unfoldable pub prune_if_large : ℕ → Failures → Failures
  unfolding prune
  prune_if_large now m = if leb prune_at_keys (length m) then prune now m else m

  -- `[...this.#recent(key), this.#now()]`
  unfoldable pub record_failure : ℕ → ℕ → Failures → Failures
  unfolding prune_if_large recent
  record_failure now key m =
      let (times, after) = recent now key (prune_if_large now m) in
      Maps.set key (times ++ now ∷ []) after

unfoldable pub reset : ℕ → Failures → Failures
reset key m = Maps.delete key m
