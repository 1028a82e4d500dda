-- ===== src/Limits/Login/Invariant.antt =====
-- What holds of every entry of the limiter's table, and that the calls keep it.
use wp_packages.Base.{
  ℕ, ◌+◌, ◌≤◌, ◌<◌, ◌≡◌, refl, Bool, not, ◌&&◌, [], Text, Map, Option, none, some, eq_text, lookup,
  insert, lookup-insert, lookup-delete, lookup-keep, Distinct, insert-Distinct, delete-Distinct,
  keep-Distinct, only_if, ltb, ◌==◌, if◌then◌else◌, Bool-cases, inl, inr, arith,
}
use wp_packages.Limits.Login.{
  Attempt, Limiter, login_block_duration, max_failed_login_attempts, login_limiter_sweep_every,
  is_fresh, sweep, allow_entry, allow, roll_window, count_failure, fail_entry, record_failure,
  record_success, new_login_rate_limiter,
}

-- An entry at time `t`.
pub record IsGood (t : ℕ) (a : Attempt) : Type 0 where
  pub counted : a.failed < max_failed_login_attempts
  pub started : a.window_start ≤ a.last_seen
  pub blocked : a.blocked_until ≤ a.last_seen + login_block_duration
  pub seen : a.last_seen ≤ t

pub record IsSound (t : ℕ) (l : Limiter) : Type 0 where
  pub distinct : Distinct l.attempts
  pub good : (ip : Text) (a : Attempt) → lookup ip l.attempts ≡ some a → IsGood t a

pub IsGood-later : {t now : ℕ} {a : Attempt} → t ≤ now → IsGood t a → IsGood now a
IsGood-later h g = record {
  counted = g.counted;
  started = g.started;
  blocked = g.blocked;
  seen = omega (arith, g.seen);
}

pub IsSound-later : {t now : ℕ} {l : Limiter} → t ≤ now → IsSound t l → IsSound now l
IsSound-later h s = record {
  distinct = s.distinct;
  good = λ ip a e. IsGood-later h (s.good ip a e);
}

only_if-some :
    {V : Type 0} (p : V → Bool) (o : Option V) (v : V) → only_if p o ≡ some v → o ≡ some v
only_if-some p none v h = h
only_if-some p (some w) v h = ground arith

sweep_good : (now : ℕ) (l : Limiter) → IsSound now l → IsSound now (sweep now l)
unfolding sweep
sweep_good now l s =
    elim (Bool-cases
      (not (l.last_cleanup == 0) && ltb now (l.last_cleanup + login_limiter_sweep_every))) [
        | inl e ↦ rw e s
        | inr e ↦ rw e (record {
          distinct = keep-Distinct (is_fresh now) l.attempts s.distinct;
          good = λ ip a k. s.good ip a (
              only_if-some (is_fresh now) (lookup ip l.attempts) a
                (rw (lookup-keep (is_fresh now) ip l.attempts s.distinct) at k));
        })
      ]

-- A sweep keeps the invariant.
pub sweep-IsSound : {t now : ℕ} {l : Limiter} → t ≤ now → IsSound t l → IsSound now (sweep now l)
sweep-IsSound {now} {l} h s = sweep_good now l (IsSound-later h s)

insert_good :
    {now : ℕ} {m : Map Attempt} (ip : Text) (b : Attempt) (cleaned : ℕ)
    → IsSound now (record { attempts = m; last_cleanup = cleaned })
    → IsGood now b
    → IsSound now (record { attempts = insert ip b m; last_cleanup = cleaned })
insert_good {now} {m} ip b cleaned s g = record {
  distinct = insert-Distinct ip b m s.distinct;
  good = λ j a e. found j a (rw (lookup-insert ip j b m) at e);
}
  where
    found :
        (j : Text) (a : Attempt)
        → (if eq_text ip j then some b else lookup j m) ≡ some a
        → IsGood now a
    found j a e = elim (Bool-cases (eq_text ip j)) [
      | inl k ↦ let same : b ≡ a = ground arith in rw same at g
      | inr k ↦ s.good j a (ground arith)
    ]

count-IsGood :
    (now : ℕ) (a : Attempt) → IsGood now a → a.last_seen ≡ now → IsGood now (count_failure now a)
unfolding count_failure
count-IsGood now a g e = ground arith

roll-IsGood : (now : ℕ) (a : Attempt) → IsGood now a → IsGood now (roll_window now a)
unfolding roll_window
roll-IsGood now a g = ground arith

roll_seen : (now : ℕ) (a : Attempt) → (roll_window now a).last_seen ≡ now
unfolding roll_window
roll_seen now a = ground arith

fail-IsGood :
    (now : ℕ) (o : Option Attempt)
    → ((a : Attempt) → o ≡ some a → IsGood now a)
    → IsGood now (fail_entry now o)
unfolding fail_entry
fail-IsGood now none h = omega arith
fail-IsGood now (some a) h =
    count-IsGood now (roll_window now a) (roll-IsGood now a (h a refl)) (roll_seen now a)

-- Counting a failure keeps the invariant.
pub record_failure-IsSound :
    {t now : ℕ} (ip : Text) {l : Limiter}
    → t ≤ now
    → IsSound t l
    → IsSound now (record_failure ip now l)
unfolding record_failure
record_failure-IsSound {now} ip {l} h s = elim (Bool-cases (eq_text ip [])) [
  | inl e ↦ rw e (IsSound-later h s)
  | inr e ↦
      let s' = sweep-IsSound h s in
      rw e (insert_good ip _ _ s' (fail-IsGood now (lookup ip (sweep now l).attempts) (s'.good ip)))
]

allow_good :
    {now : ℕ} (ip : Text) (l : Limiter) (o : Option Attempt)
    → ((a : Attempt) → o ≡ some a → IsGood now a)
    → IsSound now l
    → IsSound now (allow_entry ip now l o).0
unfolding allow_entry
allow_good ip l none h s = s
allow_good {now} ip l (some a) h s =
    let g = h a refl in insert_good ip (record a { last_seen = now }) _ s (ground arith)

pub allow-IsSound :
    {t now : ℕ} (ip : Text) {l : Limiter} → t ≤ now → IsSound t l → IsSound now (allow ip now l).0
unfolding allow
allow-IsSound {now} ip {l} h s = elim (Bool-cases (eq_text ip [])) [
  | inl e ↦ rw e (IsSound-later h s)
  | inr e ↦
      let s' = sweep-IsSound h s in
      rw e (allow_good ip (sweep now l) (lookup ip (sweep now l).attempts) (s'.good ip) s')
]

-- So does forgetting an address.
pub record_success-IsSound :
    {t : ℕ} (ip : Text) {l : Limiter} → IsSound t l → IsSound t (record_success ip l)
unfolding record_success
record_success-IsSound ip {l} s = elim (Bool-cases (eq_text ip [])) [
  | inl e ↦ rw e s
  | inr e ↦ rw e (record {
    distinct = delete-Distinct ip l.attempts s.distinct;
    good = λ j a k. s.good j a (found j a (rw (lookup-delete ip j l.attempts) at k));
  })
]
  where
    found :
        (j : Text) (a : Attempt)
        → (if eq_text ip j then none else lookup j l.attempts) ≡ some a
        → lookup j l.attempts ≡ some a
    found j a k = ground arith

pub start-IsSound : IsSound 0 new_login_rate_limiter
unfolding lookup
start-IsSound = record { distinct = tt; good = λ ip a e. absurd (cc) }
