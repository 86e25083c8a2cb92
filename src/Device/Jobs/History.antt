-- ===== src/Device/Jobs/History.antt =====
-- What may happen to a job of packages/server/src/device/service.ts over any calls: who and what it is
-- for never changes, and once it has ended it stays as it is until it is purged.
use nslibrary.Common.{
  ℕ, ◌≤◌, ◌<◌, ◌≡◌, refl, ◌∙◌, subst, true, false, Option, none, some, arith, inl, inr, Bool-cases,
  if◌then◌else◌, ◌==◌, ==_iff,
}
use nslibrary.Device.Rows.{JobRow}
use nslibrary.Device.Service.{Service, update_job}
use nslibrary.Device.Jobs.{is_finished}
use nslibrary.Device.Jobs.Table.{
  find, KeepsId, map_row, find-update_job, Ascending, update_job-Ascending,
}

-- The same job, for the same console, title and file.
pub record IsSame (a b : JobRow) : Type 0 where
  pub id : b.id ≡ a.id
  pub device_id : b.device_id ≡ a.device_id
  pub content_meta_id : b.content_meta_id ≡ a.content_meta_id
  pub file_id : b.file_id ≡ a.file_id
  pub title_id : b.title_id ≡ a.title_id
  pub version : b.version ≡ a.version
  pub size : b.size ≡ a.size
  pub format : b.format ≡ a.format
  pub target : b.target ≡ a.target
  pub source : b.source ≡ a.source
  pub created_at : b.created_at ≡ a.created_at

pub record Follows (a b : JobRow) : Type 0 where
  pub same : IsSame a b
  pub frozen : is_finished a.status ≡ true → b ≡ a

pub Follows-refl : (a : JobRow) → Follows a a
Follows-refl a = record { same = ground arith; frozen = λ _. refl }

Follows-trans : (a b c : JobRow) → Follows a b → Follows b c → Follows a c
Follows-trans a b c p q = record {
  same = ground (arith, p.same, q.same);
  frozen = λ f. q.frozen (rw (p.frozen f) f) ∙ p.frozen f;
}

-- What a look-up found before and what it finds after: a row may follow another or be purged, and an
-- id that was handed out and is gone does not come back.
abbrev pub Next : Option JobRow → Option JobRow → Type 0
Next none o = o ≡ none
Next (some a) none = Unit {0}
Next (some a) (some b) = Follows a b

pub Next-refl : (o : Option JobRow) → Next o o
Next-refl none = refl
Next-refl (some a) = Follows-refl a

Next-trans : (a b c : Option JobRow) → Next a b → Next b c → Next a c
Next-trans none b c p q = subst (λ o. Next o c) p q
Next-trans (some a) none c p q = rw q tt
Next-trans (some a) (some b) none p q = tt
Next-trans (some a) (some b) (some c) p q = Follows-trans a b c p q

-- The ids of the jobs rise along the table and are below the next one.
abbrev pub IsNumbered : Service → Type 0
IsNumbered s = Ascending 0 s.next_job s.jobs

pub record Later (s t : Service) : Type 0 where
  pub numbers : IsNumbered t
  pub counter : s.next_job ≤ t.next_job
  pub at : (id : ℕ) → id < s.next_job → Next (find id s.jobs) (find id t.jobs)

pub Later-refl : (s : Service) → IsNumbered s → Later s s
Later-refl s n = record {
  numbers = n;
  counter = omega arith;
  at = λ id h. Next-refl (find id s.jobs);
}

pub Later-trans : (s t u : Service) → Later s t → Later t u → Later s u
Later-trans s t u p q = record {
  numbers = q.numbers;
  counter = omega (arith, p.counter, q.counter);
  at = λ id h. Next-trans _ _ _ (p.at id h) (q.at id (omega (arith, p.counter)));
}

-- A service with the same table of jobs.
pub Later-same :
    (s t : Service) → IsNumbered s → t.jobs ≡ s.jobs → t.next_job ≡ s.next_job → Later s t
Later-same s t n e k = record {
  numbers = rw (e, k) n;
  counter = omega arith;
  at = λ id h. rw e (Next-refl (find id s.jobs));
}

-- A write to one job by which its row follows.
pub Later-update :
    (s t : Service) (id : ℕ) (f : JobRow → JobRow) (row : JobRow)
    → IsNumbered s
    → KeepsId f
    → find id s.jobs ≡ some row
    → Follows row (f row)
    → t.jobs ≡ update_job id f s.jobs
    → t.next_job ≡ s.next_job
    → Later s t
Later-update s t id f row n keeps e follows jobs counter = record {
  numbers = rw (jobs, counter) (update_job-Ascending id 0 s.next_job f s.jobs keeps n);
  counter = omega arith;
  at = λ j h. rw (jobs, find-update_job id j f s.jobs keeps) (by_id j);
}
  where
    by_id :
        (j : ℕ)
        → Next (find j s.jobs) (if id == j then map_row f (find j s.jobs) else find j s.jobs)
    by_id j = elim (Bool-cases (id == j)) [
      | inl hit ↦
          let e' : find j s.jobs ≡ some row = rw (← (==_iff id j).0 hit) e in rw (hit, e') follows
      | inr miss ↦ rw miss (Next-refl (find j s.jobs))
    ]

-- A row that has not ended may become any row for the same job.
pub Follows-open : (a b : JobRow) → IsSame a b → is_finished a.status ≡ false → Follows a b
Follows-open a b same open_ = record { same = same; frozen = λ f. cc }
