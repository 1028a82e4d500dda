-- ===== src/Limits/Login/Agreement.antt =====
-- The limiter's table beside the one that is never swept.
use wp_packages.Base.{
  ℕ, ◌+◌, ◌≤◌, ◌<◌, ◌≡◌, refl, Bool, not, ◌&&◌, List, [], ◌∷◌, Text, Map, Option, none, some,
  eq_text, lookup, insert, delete, lookup-insert, lookup-delete, lookup-keep, only_if, ltb, ◌==◌,
  if◌then◌else◌, Bool-cases, inl, inr, ◌⊎◌, arith, ap₂, subst, eq_text_iff,
}
use wp_packages.Limits.Login.{
  Attempt, Limiter, login_attempt_window, login_limiter_sweep_every, is_fresh, sweep, allow_entry,
  allow, fail_entry, record_failure, record_success, new_login_rate_limiter, Call, check, failure,
  success, run,
}
use wp_packages.Limits.Login.Reference.{answer, allowed, fail, forget, answers, Forward}
use wp_packages.Limits.Login.Invariant.{
  IsGood, IsSound, IsSound-later, record_failure-IsSound, allow-IsSound, record_success-IsSound,
  start-IsSound,
}

-- The block of both entries is the same, or over at `t`.
abbrev BlockAgrees : ℕ → Attempt → Attempt → Type 0
BlockAgrees t a b =
    (a.blocked_until ≡ b.blocked_until) ⊎ ((a.blocked_until ≤ t) × (b.blocked_until ≤ t))

-- The limiter's entry beside the specification's. An entry that is gone was out of its window and
-- its block.
abbrev pub Agrees : ℕ → Option Attempt → Option Attempt → Type 0
Agrees t none none = Unit
Agrees t none (some b) = (b.window_start + login_attempt_window < t) × (b.blocked_until ≤ t)
Agrees t (some a) none = ⊥
Agrees t (some a) (some b) =
    (a.failed ≡ b.failed) × (a.window_start ≡ b.window_start) × BlockAgrees t a b

Agrees-later : (t now : ℕ) (o r : Option Attempt) → t ≤ now → Agrees t o r → Agrees now o r
Agrees-later t now none none h g = tt
Agrees-later t now none (some b) h g = omega arith
Agrees-later t now (some a) none h g = g
Agrees-later t now (some a) (some b) h g = ground arith

Agrees-only_if :
    (now : ℕ) (o r : Option Attempt)
    → ((a : Attempt) → o ≡ some a → IsGood now a)
    → Agrees now o r
    → Agrees now (only_if (is_fresh now) o) r
Agrees-only_if now none r h g = g
Agrees-only_if now (some a) none h g = absurd g
Agrees-only_if now (some a) (some b) h g = elim (Bool-cases (is_fresh now a)) [
  | inl e ↦ rw e g
  | inr e ↦ let k = h a refl in rw e (ground arith, ground arith)
]

Agrees-answer : (now : ℕ) (o r : Option Attempt) → Agrees now o r → answer now o ≡ answer now r
unfolding answer
Agrees-answer now none none g = refl
Agrees-answer now none (some b) g = ground arith
Agrees-answer now (some a) none g = absurd g
Agrees-answer now (some a) (some b) g = ground arith

Agrees-touch :
    (now : ℕ) (a : Attempt) (r : Option Attempt)
    → Agrees now (some a) r
    → Agrees now (some (record a { last_seen = now })) r
Agrees-touch now a none g = g
Agrees-touch now a (some b) g = g

Agrees-fail :
    (now : ℕ) (o r : Option Attempt)
    → Agrees now o r
    → Agrees now (some (fail_entry now o)) (some (fail_entry now r))
unfolding fail_entry
Agrees-fail now none none g = (refl, refl, inl refl)
Agrees-fail now none (some b) g = ground arith
Agrees-fail now (some a) none g = absurd g
Agrees-fail now (some a) (some b) g = ground arith

abbrev Related : ℕ → Limiter → Map Attempt → Type 0
Related t l m = (ip : Text) → Agrees t (lookup ip l.attempts) (lookup ip m)

sweep-Related :
    {t now : ℕ} (l : Limiter) (m : Map Attempt)
    → t ≤ now
    → IsSound t l
    → Related t l m
    → Related now (sweep now l) m
unfolding sweep
sweep-Related {t} {now} l m h s r =
    elim (Bool-cases
      (not (l.last_cleanup == 0) && ltb now (l.last_cleanup + login_limiter_sweep_every))) [
        | inl e ↦ rw e (λ ip. Agrees-later t now (lookup ip l.attempts) (lookup ip m) h (r ip))
        | inr e ↦ rw e (λ ip. rw (lookup-keep (is_fresh now) ip l.attempts s.distinct) (
            Agrees-only_if now (lookup ip l.attempts) (lookup ip m) ((IsSound-later h s).good ip)
              (Agrees-later t now (lookup ip l.attempts) (lookup ip m) h (r ip))))
      ]

-- A write of entries that agree, and a write of the limiter alone.
insert-Agrees :
    (now : ℕ) (ip j : Text) (a b : Attempt) (m n : Map Attempt)
    → Agrees now (some a) (some b)
    → Agrees now (lookup j m) (lookup j n)
    → Agrees now (lookup j (insert ip a m)) (lookup j (insert ip b n))
insert-Agrees now ip j a b m n g r = rw (lookup-insert ip j a m, lookup-insert ip j b n) (by_key)
  where
    by_key :
        Agrees now
          (if eq_text ip j then some a else lookup j m)
          (if eq_text ip j then some b else lookup j n)
    by_key = elim (Bool-cases (eq_text ip j)) [ inl e ↦ rw e g | inr e ↦ rw e r ]

touch-Agrees :
    (now : ℕ) (ip j : Text) (a : Attempt) (m n : Map Attempt)
    → Agrees now (some a) (lookup ip n)
    → Agrees now (lookup j m) (lookup j n)
    → Agrees now (lookup j (insert ip a m)) (lookup j n)
touch-Agrees now ip j a m n g r = rw (lookup-insert ip j a m) (by_key)
  where
    by_key : Agrees now (if eq_text ip j then some a else lookup j m) (lookup j n)
    by_key = elim (Bool-cases (eq_text ip j)) [
      | inl e ↦ rw e (subst (λ k. Agrees now (some a) (lookup k n)) ((eq_text_iff ip j).0 e) g)
      | inr e ↦ rw e r
    ]

delete-Agrees :
    (now : ℕ) (ip j : Text) (m n : Map Attempt)
    → Agrees now (lookup j m) (lookup j n)
    → Agrees now (lookup j (delete ip m)) (lookup j (delete ip n))
delete-Agrees now ip j m n r = rw (lookup-delete ip j m, lookup-delete ip j n) (by_key)
  where
    by_key :
        Agrees now
          (if eq_text ip j then none else lookup j m)
          (if eq_text ip j then none else lookup j n)
    by_key = elim (Bool-cases (eq_text ip j)) [ inl e ↦ rw e tt | inr e ↦ rw e r ]

-- An answer at `now`, and the tables after it.
allow_entry-Related :
    (ip : Text) (now : ℕ) (l : Limiter) (m : Map Attempt) (o : Option Attempt)
    → lookup ip l.attempts ≡ o
    → Related now l m
    → ((allow_entry ip now l o).1 ≡ answer now (lookup ip m))
      × Related now (allow_entry ip now l o).0 m
unfolding allow_entry answer
allow_entry-Related ip now l m none e r = (Agrees-answer now none (lookup ip m) (rw e at (r ip)), r)
allow_entry-Related ip now l m (some a) e r =
    let here : Agrees now (some a) (lookup ip m) = rw e at (r ip) in
    (
      Agrees-answer now (some a) (lookup ip m) here,
      λ j.
          touch-Agrees now ip j (record a { last_seen = now }) l.attempts m
            (Agrees-touch now a (lookup ip m) here) (r j),
    )

allow-Related :
    {t now : ℕ} (ip : Text) (l : Limiter) (m : Map Attempt)
    → t ≤ now
    → IsSound t l
    → Related t l m
    → ((allow ip now l).1 ≡ allowed ip now m) × Related now (allow ip now l).0 m
unfolding allow allowed
allow-Related {t} {now} ip l m h s r = elim (Bool-cases (eq_text ip [])) [
  | inl e ↦ rw e (refl, λ j. Agrees-later t now (lookup j l.attempts) (lookup j m) h (r j))
  | inr e ↦ rw e (allow_entry-Related ip now (sweep now l) m _ refl (sweep-Related l m h s r))
]

record_failure-Related :
    {t now : ℕ} (ip : Text) (l : Limiter) (m : Map Attempt)
    → t ≤ now
    → IsSound t l
    → Related t l m
    → Related now (record_failure ip now l) (fail ip now m)
unfolding record_failure fail
record_failure-Related {t} {now} ip l m h s r = elim (Bool-cases (eq_text ip [])) [
  | inl e ↦ rw e (λ j. Agrees-later t now (lookup j l.attempts) (lookup j m) h (r j))
  | inr e ↦
      let r' = sweep-Related l m h s r in
      rw e (λ j.
        insert-Agrees now ip j _ _ (sweep now l).attempts m
          (Agrees-fail now (lookup ip (sweep now l).attempts) (lookup ip m) (r' ip)) (r' j))
]

record_success-Related :
    {t now : ℕ} (ip : Text) (l : Limiter) (m : Map Attempt)
    → t ≤ now
    → Related t l m
    → Related now (record_success ip l) (forget ip m)
unfolding record_success forget
record_success-Related {t} {now} ip l m h r = elim (Bool-cases (eq_text ip [])) [
  | inl e ↦ rw e (λ j. Agrees-later t now (lookup j l.attempts) (lookup j m) h (r j))
  | inr e ↦ rw e (λ j.
      delete-Agrees now ip j l.attempts m
        (Agrees-later t now (lookup j l.attempts) (lookup j m) h (r j)))
]

run_agrees :
    (t : ℕ) (l : Limiter) (m : Map Attempt) (cs : List Call)
    → Forward t cs
    → IsSound t l
    → Related t l m
    → run l cs ≡ answers m cs
unfolding run answers
run_agrees t l m [] f s r = refl
run_agrees t l m (check ip now ∷ cs) f s r =
    let (e, r') = allow-Related ip l m f.0 s r in
    ap₂ (λ (b : Bool) (bs : List Bool). b ∷ bs) e
      (run_agrees now (allow ip now l).0 m cs f.1 (allow-IsSound ip f.0 s) r')
run_agrees t l m (failure ip now ∷ cs) f s r =
    run_agrees now (record_failure ip now l) (fail ip now m) cs f.1
      (record_failure-IsSound ip f.0 s) (record_failure-Related ip l m f.0 s r)
run_agrees t l m (success ip now ∷ cs) f s r =
    run_agrees now (record_success ip l) (forget ip m) cs f.1
      (record_success-IsSound ip (IsSound-later f.0 s)) (record_success-Related ip l m f.0 r)

-- Whatever calls arrive, with times that do not run backwards, the limiter that deletes stale entries
-- gives the same answers as a table that never forgets.
pub run-answers : (cs : List Call) → Forward 0 cs → run new_login_rate_limiter cs ≡ answers [] cs
run-answers cs f = run_agrees 0 new_login_rate_limiter [] cs f start-IsSound (λ ip. start ip)
  where
    start : (ip : Text) → Agrees 0 (lookup {V = Attempt} ip []) (lookup {V = Attempt} ip [])
    start ip = unfold lookup in tt
