-- ===== src/Formats/SaveArchive/Plain.antt =====
-- `saveArchivePathProblem` of packages/formats/src/save-archive.ts, against what a path may be.
use nslibrary.Common.{
  ℕ, ◌-◌, ◌≤◌, ◌<◌, ◌≡◌, ◌≢◌, refl, sym, subst, Bool, true, false, ◌||◌, ◌==◌, List, [], ◌∷◌, any,
  All, All-mono, length, ltb, arith, not_ltb→le, ==_self,
}
use nslibrary.Common.Text.{codes, same_text}
use nslibrary.Formats.SaveArchive.{
  save_archive_max_path, components, is_bad_part, starts_with_slash, has_path_problem,
}

-- A part that names something below the folder it is in.
abbrev pub IsPlain : List ℕ → Type 0
IsPlain part = (part ≢ []) × (part ≢ codes ".") × (part ≢ codes "..")

pub record IsSafePath (path : List ℕ) : Type 0 where
  pub not_empty : 0 < length path
  pub short : length path ≤ 254
  pub clean : All (λ c. (c ≢ 0) × (c ≢ 92)) path
  pub plain : All IsPlain (components path)

pub or_false : (a : Bool) {b : Bool} → (a || b) ≡ false → (a ≡ false) × (b ≡ false)
or_false true h = cc
or_false false h = (refl, h)

pub any-eq-false {ℓ} :
    {A : Type ℓ} (p : A → Bool) (xs : List A) → any p xs ≡ false → All (λ x. p x ≡ false) xs
any-eq-false p [] h = tt
any-eq-false p (x ∷ xs) h = let (h1, h2) = or_false (p x) h in (h1, any-eq-false p xs h2)

pub same_text_self : (text : List ℕ) → same_text text text ≡ true
unfolding same_text
same_text_self [] = refl
same_text_self (c ∷ text) = rw (==_self c) (same_text_self text)

pub same_text-ne : {a b : List ℕ} → same_text a b ≡ false → a ≢ b
same_text-ne {a} {b} h e =
    let no : same_text a a ≡ false = subst (λ (x : List ℕ). same_text a x ≡ false) (sym e) h in
    let yes = same_text_self a in cc

code-ne : (k c : ℕ) → (c == k) ≡ false → c ≢ k
code-ne k c h e = ground (arith, h, e)

is_bad_part-IsPlain : (part : List ℕ) → is_bad_part part ≡ false → IsPlain part
unfolding is_bad_part
is_bad_part-IsPlain part h =
    let (a, h1) = or_false (same_text part []) h in
    let (b, c) = or_false (same_text part (codes ".")) h1 in
    (same_text-ne a, same_text-ne b, same_text-ne c)

both {ℓ κ} :
    {A : Type ℓ} (P Q : A → Type κ) (xs : List A) → All P xs → All Q xs → All (λ x. P x × Q x) xs
both P Q [] h k = tt
both P Q (x ∷ xs) h k = ((h.0, k.0), both P Q xs h.1 k.1)

-- A path that has no problem is safe.
pub has_path_problem-IsSafePath : (path : List ℕ) → has_path_problem path ≡ false → IsSafePath path
unfolding has_path_problem
has_path_problem-IsSafePath path h =
    let (a, h1) = or_false (length path == 0) h in
    let (b, h2) = or_false (ltb (save_archive_max_path - 1) (length path)) h1 in
    let (c, h3) = or_false (any (λ c. c == 0) path) h2 in
    let (d, h4) = or_false (any (λ c. c == 92) path) h3 in
    let (_, e) = or_false (starts_with_slash path) h4 in
    record {
      not_empty = ground (arith, a);
      short = not_ltb→le _ _ b;
      clean =
          both (λ c. c ≢ 0) (λ c. c ≢ 92) path
            (All-mono (code-ne 0) path (any-eq-false (λ c. c == 0) path c))
            (All-mono (code-ne 92) path (any-eq-false (λ c. c == 92) path d));
      plain =
          All-mono is_bad_part-IsPlain (components path)
            (any-eq-false is_bad_part (components path) e);
    }
