-- ===== src/Device/Polling/Presence.antt =====
-- That the web pages are told of a console exactly when its first poll opens and its last one ends
-- (packages/server/src/device/service.ts).
use nslibrary.Common.{
  ℕ, ◌+◌, ◌-◌, ◌≡◌, refl, ap, ◌∙◌, Bool, true, false, List, [], ◌∷◌, ◌++◌, arith, inl, inr,
  Bool-cases, ◌==◌, ltb, leb, if◌then◌else◌, or_else, ==_iff,
}
use nslibrary.Common.Maps
use nslibrary.Common.Maps.{get-set, get-delete}
use nslibrary.Shared.Types.{
  ServerEvent, job_updated, device_paired, device_online, device_offline, device_updated,
}
use nslibrary.Device.Service.{Service}
use nslibrary.Device.Polling.{add_waiter, remove_waiter, polls_of}

-- A poll that opens or ends.
pub data Change : Type 0 where
  opens ends : ℕ → Change

unfoldable pub change : Service → Change → Service
change s (opens device) = add_waiter device s
change s (ends device) = remove_waiter device s

unfoldable pub changes : Service → List Change → Service
changes s [] = s
changes s (c ∷ cs) = changes (change s c) cs

-- How many polls of a console are open, if one that was never opened cannot end.
unfoldable pub open_polls : ℕ → ℕ → List Change → ℕ
open_polls device n [] = n
open_polls device n (opens d ∷ cs) = open_polls device (if d == device then n + 1 else n) cs
open_polls device n (ends d ∷ cs) = open_polls device (if d == device then n - 1 else n) cs

-- What the last event on the bus about a console being there says; `b` if there is none.
unfoldable pub last_told : ℕ → Bool → List ServerEvent → Bool
last_told device b [] = b
last_told device b (device_online d ∷ es) = last_told device (if d == device then true else b) es
last_told device b (device_offline d ∷ es) = last_told device (if d == device then false else b) es
last_told device b (job_updated j ∷ es) = last_told device b es
last_told device b (device_paired d n ∷ es) = last_told device b es
last_told device b (device_updated d ∷ es) = last_told device b es

last_told-append :
    (device : ℕ) (es : List ServerEvent) (b : Bool) (fs : List ServerEvent)
    → last_told device b (es ++ fs) ≡ last_told device (last_told device b es) fs
unfolding last_told
last_told-append device [] b fs = refl
last_told-append device (device_online d ∷ es) b fs =
    last_told-append device es (if d == device then true else b) fs
last_told-append device (device_offline d ∷ es) b fs =
    last_told-append device es (if d == device then false else b) fs
last_told-append device (job_updated j ∷ es) b fs = last_told-append device es b fs
last_told-append device (device_paired d n ∷ es) b fs = last_told-append device es b fs
last_told-append device (device_updated d ∷ es) b fs = last_told-append device es b fs

told_online :
    (device d : ℕ) (es : List ServerEvent)
    → last_told device false (es ++ device_online d ∷ [])
      ≡ (if d == device then true else last_told device false es)
unfolding last_told
told_online device d es = last_told-append device es false (device_online d ∷ [])

told_offline :
    (device d : ℕ) (es : List ServerEvent)
    → last_told device false (es ++ device_offline d ∷ [])
      ≡ (if d == device then false else last_told device false es)
unfolding last_told
told_offline device d es = last_told-append device es false (device_offline d ∷ [])

-- The count is `n`, and the web pages were told whether it is more than none.
abbrev pub IsTold : ℕ → ℕ → Service → Type 0
IsTold device n s = (polls_of device s ≡ n) × (last_told device false s.publisher.bus ≡ ltb 0 n)

counted :
    (device d v : ℕ) (s : Service)
    → or_else (Maps.get device (Maps.set d v s.presence)) 0
      ≡ (if d == device then v else polls_of device s)
counted device d v s = elim (Bool-cases (d == device)) [
  | inl hit ↦ rw (get-set d device v s.presence, hit) refl
  | inr miss ↦ rw (get-set d device v s.presence, miss) refl
]

uncounted :
    (device d : ℕ) (s : Service)
    → or_else (Maps.get device (Maps.delete d s.presence)) 0
      ≡ (if d == device then 0 else polls_of device s)
uncounted device d s = elim (Bool-cases (d == device)) [
  | inl hit ↦ rw (get-delete d device s.presence, hit) refl
  | inr miss ↦ rw (get-delete d device s.presence, miss) refl
]

opens-IsTold :
    (device d n : ℕ) (s : Service)
    → IsTold device n s
    → IsTold device (if d == device then n + 1 else n) (add_waiter d s)
unfolding add_waiter
opens-IsTold device d n s (count, told) = elim (Bool-cases (d == device)) [
  | inl hit ↦
      let same : d ≡ device = (==_iff d device).0 hit in
      let here : polls_of d s ≡ n = ap (λ x. polls_of x s) same ∙ count in
      rw (counted device d (polls_of d s + 1) s, hit, here)
        (refl, ground (arith, told, told_online device d s.publisher.bus, hit))
  | inr miss ↦
      rw (counted device d (polls_of d s + 1) s, miss)
        (count, ground (arith, told, told_online device d s.publisher.bus, miss))
]

ends-IsTold :
    (device d n : ℕ) (s : Service)
    → IsTold device n s
    → IsTold device (if d == device then n - 1 else n) (remove_waiter d s)
unfolding remove_waiter
ends-IsTold device d n s (count, told) = elim (Bool-cases (d == device)) [
  | inl hit ↦
      let same : d ≡ device = (==_iff d device).0 hit in
      let here : polls_of d s ≡ n = ap (λ x. polls_of x s) same ∙ count in
      elim (Bool-cases (leb n 1)) [
        | inl last ↦
            rw (here, last, uncounted device d s, hit)
              (ground arith, told_offline device d s.publisher.bus ∙ ground (arith, hit))
        | inr more ↦ rw (here, more, counted device d (n - 1) s, hit) (refl, told ∙ ground arith)
      ]
  | inr miss ↦ elim (Bool-cases (leb (polls_of d s) 1)) [
    | inl last ↦
        rw (last, uncounted device d s, miss)
          (count, told_offline device d s.publisher.bus ∙ ground (arith, miss, told))
    | inr more ↦ rw (more, counted device d (polls_of d s - 1) s, miss) (count, told)
  ]
]

-- If the count of a console's polls is right and the web pages were told whether it is more than
-- none, then after any polls, of any consoles, that open and end, the count is the number that are
-- open, and the last event on the bus about the console says that it is online exactly if that is
-- more than none.
pub changes-IsTold :
    (device n : ℕ) (s : Service) (cs : List Change)
    → IsTold device n s
    → IsTold device (open_polls device n cs) (changes s cs)
unfolding changes change open_polls
changes-IsTold device n s [] h = h
changes-IsTold device n s (opens d ∷ cs) h =
    changes-IsTold device (if d == device then n + 1 else n) (add_waiter d s) cs
      (opens-IsTold device d n s h)
changes-IsTold device n s (ends d ∷ cs) h =
    changes-IsTold device (if d == device then n - 1 else n) (remove_waiter d s) cs
      (ends-IsTold device d n s h)
