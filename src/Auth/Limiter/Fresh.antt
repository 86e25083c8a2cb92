-- ===== src/Auth/Limiter/Fresh.antt =====
-- That the limiter of packages/server/src/auth/auth-service.ts, which forgets old failures in many
-- places, counts as one that forgets nothing.
use nslibrary.Common.{
  ℕ, ◌+◌, ◌≤◌, ◌≡◌, refl, sym, ap, ◌∙◌, List, [], ◌∷◌, ◌++◌, arith, inl, inr, Bool-cases, map,
  filter, ltb, leb, length, if◌then◌else◌, ◌==◌, ==_iff,
}
use nslibrary.Common.Maps
use nslibrary.Common.Maps.{get-set, get-delete}
use nslibrary.Auth.Limiter.{
  Failures, stored, is_fresh, keep, recent, is_limited, recent_all, prune, prune_if_large,
  record_failure, reset, prune_at_keys,
}

-- A call at a time.
pub data Call : Type 0 where
  checks fails : ℕ → ℕ → Call
  resets : ℕ → Call
  prunes : ℕ → Call

-- The failures of an address since it was last reset, after those in `ts`, none forgotten.
unfoldable pub history : ℕ → List ℕ → List Call → List ℕ
history key ts [] = ts
history key ts (checks now j ∷ cs) = history key ts cs
history key ts (fails now j ∷ cs) = history key (if j == key then ts ++ now ∷ [] else ts) cs
history key ts (resets j ∷ cs) = history key (if j == key then [] else ts) cs
history key ts (prunes now ∷ cs) = history key ts cs

-- The times of the calls do not go back, from `now` on and up to `end`.
abbrev pub InOrder : ℕ → List Call → ℕ → Type 0
InOrder now [] end_ = now ≤ end_
InOrder now (checks t key ∷ cs) end_ = (now ≤ t) × InOrder t cs end_
InOrder now (fails t key ∷ cs) end_ = (now ≤ t) × InOrder t cs end_
InOrder now (resets key ∷ cs) end_ = InOrder now cs end_
InOrder now (prunes t ∷ cs) end_ = (now ≤ t) × InOrder t cs end_

module _ (max_failures window_ms : ℕ) where
  abbrev fresh : ℕ → List ℕ → List ℕ
  fresh now ts = filter (is_fresh max_failures window_ms now) ts

  -- What is fresh later was fresh before.
  fresh-fresh :
      (now later : ℕ) (ts : List ℕ) → now ≤ later → fresh later (fresh now ts) ≡ fresh later ts
  fresh-fresh now later [] h = refl
  fresh-fresh now later (t ∷ ts) h = ground (arith, fresh-fresh now later ts h)

  -- The two maps count the same from now on.
  abbrev Alike : ℕ → Failures → Failures → Type 0
  Alike now m m' =
      (key later : ℕ) → now ≤ later → fresh later (stored key m') ≡ fresh later (stored key m)

  stored-keep :
      (key j : ℕ) (ts : List ℕ) (m : Failures)
      → stored j (keep max_failures window_ms key ts m) ≡ (if key == j then ts else stored j m)
  stored-keep key j [] m = elim (Bool-cases (key == j)) [
    | inl hit ↦ rw (get-delete key j m, hit) refl
    | inr miss ↦ rw (get-delete key j m, miss) refl
  ]
  stored-keep key j (t ∷ ts) m = elim (Bool-cases (key == j)) [
    | inl hit ↦ rw (get-set key j (t ∷ ts) m, hit) refl
    | inr miss ↦ rw (get-set key j (t ∷ ts) m, miss) refl
  ]

  recent-Alike :
      (now key : ℕ) (m : Failures) → Alike now m (recent max_failures window_ms now key m).1
  unfolding recent
  recent-Alike now key m j later h = elim (Bool-cases (key == j)) [
    | inl hit ↦
        let same : key ≡ j = (==_iff key j).0 hit in
        ap (fresh later) (stored-keep key j (fresh now (stored key m)) m)
        ∙ rw hit (fresh-fresh now later (stored key m) h ∙ ap (λ k. fresh later (stored k m)) same)
    | inr miss ↦ ap (fresh later) (stored-keep key j (fresh now (stored key m)) m) ∙ rw miss refl
  ]

  recent_all-Alike :
      (now : ℕ) (keys : List ℕ) (m : Failures)
      → Alike now m (recent_all max_failures window_ms now keys m)
  unfolding recent_all
  recent_all-Alike now [] m j later h = refl
  recent_all-Alike now (key ∷ keys) m j later h =
      recent_all-Alike now keys (recent max_failures window_ms now key m).1 j later h
      ∙ recent-Alike now key m j later h

  prune_if_large-Alike :
      (now : ℕ) (m : Failures) → Alike now m (prune_if_large max_failures window_ms now m)
  unfolding prune_if_large prune
  prune_if_large-Alike now m j later h = elim (Bool-cases (leb prune_at_keys (length m))) [
    | inl large ↦ rw large (recent_all-Alike now (map (λ (e : ℕ × List ℕ). e.0) m) m j later h)
    | inr small ↦ rw small refl
  ]

  unfoldable pub call : Failures → Call → Failures
  call m (checks now key) = (is_limited max_failures window_ms now key m).1
  call m (fails now key) = record_failure max_failures window_ms now key m
  call m (resets key) = reset key m
  call m (prunes now) = prune max_failures window_ms now m

  unfoldable pub calls : Failures → List Call → Failures
  calls m [] = m
  calls m (c ∷ cs) = calls (call m c) cs

  abbrev Counts : ℕ → ℕ → List ℕ → Failures → Type 0
  Counts now key ts m = (later : ℕ) → now ≤ later → fresh later (stored key m) ≡ fresh later ts

  fresh-append :
      (later : ℕ) (xs ys : List ℕ) → fresh later (xs ++ ys) ≡ fresh later xs ++ fresh later ys
  fresh-append later [] ys = refl
  fresh-append later (x ∷ xs) ys = elim (Bool-cases (is_fresh max_failures window_ms later x)) [
    | inl new ↦ rw new (ap (◌∷◌ x) (fresh-append later xs ys))
    | inr old ↦ rw old (fresh-append later xs ys)
  ]

  Alike-Counts :
      (now t key : ℕ) (ts : List ℕ) (m m' : Failures)
      → now ≤ t
      → Counts now key ts m
      → Alike t m m'
      → Counts t key ts m'
  Alike-Counts now t key ts m m' n c a later h = a key later h ∙ c later (omega (arith, n, h))

  record_failure-Counts :
      (now t j key : ℕ) (ts : List ℕ) (m : Failures)
      → now ≤ t
      → Counts now key ts m
      → Counts t key
          (if j == key then ts ++ t ∷ [] else ts)
          (record_failure max_failures window_ms t j m)
  unfolding record_failure recent
  record_failure-Counts now t j key ts m n c later h =
      let pruned = prune_if_large max_failures window_ms t m in
      let counted : Counts t key ts pruned =
        Alike-Counts now t key ts m pruned n c (prune_if_large-Alike t m) in
      let times = fresh t (stored j pruned) in
      let after = keep max_failures window_ms j times pruned in
      elim (Bool-cases (j == key)) [
        | inl hit ↦
            let same : j ≡ key = (==_iff j key).0 hit in
            rw (get-set j key (times ++ t ∷ []) after, hit)
              (fresh-append later times (t ∷ [])
                ∙ ap (λ l. l ++ fresh later (t ∷ []))
                    (fresh-fresh t later (stored j pruned) h
                      ∙ ap (λ k. fresh later (stored k pruned)) same
                      ∙ counted later h)
                ∙ sym (fresh-append later ts (t ∷ [])))
        | inr miss ↦
            rw (get-set j key (times ++ t ∷ []) after, miss)
              (ap (fresh later) (stored-keep j key times pruned) ∙ rw miss (counted later h))
      ]

  reset-Counts :
      (now j key : ℕ) (ts : List ℕ) (m : Failures)
      → Counts now key ts m
      → Counts now key (if j == key then [] else ts) (reset j m)
  unfolding reset
  reset-Counts now j key ts m c later h = elim (Bool-cases (j == key)) [
    | inl hit ↦ rw (get-delete j key m, hit) refl
    | inr miss ↦ rw (get-delete j key m, miss) (c later h)
  ]

  calls-Counts :
      (cs : List Call) (now last key : ℕ) (ts : List ℕ) (m : Failures)
      → InOrder now cs last
      → Counts now key ts m
      → Counts last key (history key ts cs) (calls m cs)
  unfolding calls call history is_limited prune
  calls-Counts [] now last key ts m n c = λ later h. c later (omega (arith, n, h))
  calls-Counts (checks t j ∷ cs) now last key ts m n c =
      calls-Counts cs t last key ts _ n.1 (Alike-Counts now t key ts m _ n.0 c (recent-Alike t j m))
  calls-Counts (fails t j ∷ cs) now last key ts m n c =
      calls-Counts cs t last key _ _ n.1 (record_failure-Counts now t j key ts m n.0 c)
  calls-Counts (resets j ∷ cs) now last key ts m n c =
      calls-Counts cs now last key _ _ n (reset-Counts now j key ts m c)
  calls-Counts (prunes t ∷ cs) now last key ts m n c =
      calls-Counts cs t last key ts _ n.1 (
        Alike-Counts now t key ts m _ n.0 c
          (recent_all-Alike t (map (λ (e : ℕ × List ℕ). e.0) m) m))

  -- After any calls on a new limiter whose times do not go back, an address is limited exactly if at
  -- least `max_failures` failures since it was last reset lie in the window: forgetting and pruning
  -- never change an answer.
  pub is_limited-history :
      (cs : List Call) (now key : ℕ)
      → InOrder 0 cs now
      → (is_limited max_failures window_ms now key (calls [] cs)).0
        ≡ leb max_failures (length (filter (λ t. ltb now (t + window_ms)) (history key [] cs)))
  unfolding is_limited recent
  is_limited-history cs now key n =
      ap (λ l. leb max_failures (length l))
        (calls-Counts cs 0 now key [] [] n (λ later h. unfold Maps.get in refl) now (omega arith))
