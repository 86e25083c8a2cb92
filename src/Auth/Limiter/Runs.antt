-- ===== src/Auth/Limiter/Runs.antt =====
-- Failed sign-ins of two addresses at the limiter of packages/server/src/auth/auth-service.ts.
use nslibrary.Common.{◌+◌, ◌≡◌, arith, List, [], ◌∷◌, leb, ltb, length, filter}
use nslibrary.Auth.Limiter.{is_limited}
use nslibrary.Auth.Limiter.Fresh.{
  Call, checks, fails, resets, prunes, calls, history, is_limited-history,
}

abbrev attempts : List Call
attempts =
    fails 100 1
    ∷ fails 200 2
    ∷ fails 300 1
    ∷ checks 400 1
    ∷ prunes 1150
    ∷ resets 2
    ∷ fails 1200 1
    ∷ []

is_limited-history_example :
    (is_limited 2 1000 1250 1 (calls 2 1000 [] attempts)).0
    ≡ leb 2 (length (filter (λ t. ltb 1250 (t + 1000)) (history 1 [] attempts)))
is_limited-history_example = is_limited-history 2 1000 attempts 1250 1 (
  omega arith,
  (omega arith, (omega arith, (omega arith, (omega arith, (omega arith, omega arith))))),
)
