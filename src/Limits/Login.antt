-- ===== src/Limits/Login.antt =====
-- internal/http/login_rate_limit.go: the limiter of failed logins. A time is a number of nanoseconds
-- since Go's zero time, which is 0, so the zero value of a time field is 0; `now.Sub(t) > d` is
-- `t + d < now`. The mutex makes each call one step.
pub mod Reference
pub mod Invariant
pub mod Agreement
pub mod Lockout
mod Tests
use wp_packages.Base.{
  ℕ, ◌+◌, ◌*◌, ◌^◌, Bool, true, not, ◌&&◌, List, [], ◌∷◌, Text, Map, Option, none, some, eq_text,
  lookup, insert, delete, keep, ltb, leb, ◌==◌, if◌then◌else◌,
}

abbrev pub minute : ℕ
minute = 60 * 10 ^ 9

abbrev pub max_failed_login_attempts : ℕ
max_failed_login_attempts = 8

abbrev pub login_attempt_window : ℕ
login_attempt_window = 15 * minute

abbrev pub login_block_duration : ℕ
login_block_duration = 15 * minute

abbrev pub login_limiter_sweep_every : ℕ
login_limiter_sweep_every = 5 * minute

pub record Attempt : Type 0 where
  pub failed : ℕ
  pub window_start : ℕ
  pub blocked_until : ℕ
  pub last_seen : ℕ

pub record Limiter : Type 0 where
  pub attempts : Map Attempt
  pub last_cleanup : ℕ

abbrev pub new_login_rate_limiter : Limiter
new_login_rate_limiter = record { attempts = []; last_cleanup = 0 }

-- An entry that a sweep at `now` leaves.
abbrev pub is_fresh : ℕ → Attempt → Bool
is_fresh now a = not (ltb (a.last_seen + (login_attempt_window + login_block_duration)) now)

-- sweepLocked
unfoldable pub sweep : ℕ → Limiter → Limiter
sweep now l =
    if not (l.last_cleanup == 0) && ltb now (l.last_cleanup + login_limiter_sweep_every)
    then l
    else record { attempts = keep (is_fresh now) l.attempts; last_cleanup = now }

abbrev pub is_unblocked : ℕ → Attempt → Bool
is_unblocked now a = not (ltb now a.blocked_until)

allow_entry : Text → ℕ → Limiter → Option Attempt → Limiter × Bool
allow_entry ip now l none = (l, true)
allow_entry ip now l (some a) = (
  record l { attempts = insert ip (record a { last_seen = now }) l.attempts },
  is_unblocked now a,
)

unfoldable pub allow : Text → ℕ → Limiter → Limiter × Bool
unfolding allow_entry
allow ip now l =
    if eq_text ip []
    then (l, true)
    else (let l' = sweep now l in allow_entry ip now l' (lookup ip l'.attempts))

-- The window starts anew once it has passed.
unfoldable pub roll_window : ℕ → Attempt → Attempt
roll_window now a =
    if ltb (a.window_start + login_attempt_window) now
    then record { failed = 0; window_start = now; blocked_until = a.blocked_until; last_seen = now }
    else record a { last_seen = now }

unfoldable pub count_failure : ℕ → Attempt → Attempt
count_failure now a =
    if leb max_failed_login_attempts (a.failed + 1)
    then record {
      failed = 0;
      window_start = now;
      blocked_until = now + login_block_duration;
      last_seen = a.last_seen;
    }
    else record a { failed = a.failed + 1 }

unfoldable pub fail_entry : ℕ → Option Attempt → Attempt
unfolding roll_window count_failure
fail_entry now none = record { failed = 1; window_start = now; blocked_until = 0; last_seen = now }
fail_entry now (some a) = count_failure now (roll_window now a)

unfoldable pub record_failure : Text → ℕ → Limiter → Limiter
record_failure ip now l =
    if eq_text ip []
    then l
    else let l' = sweep now l in
      record l' { attempts = insert ip (fail_entry now (lookup ip l'.attempts)) l'.attempts }

unfoldable pub record_success : Text → Limiter → Limiter
record_success ip l = if eq_text ip [] then l else record l { attempts = delete ip l.attempts }

-- The calls of a login handler, each with its time.
pub data Call : Type 0 where
  check : Text → ℕ → Call
  failure : Text → ℕ → Call
  success : Text → ℕ → Call

-- The answers of the checks, in order.
unfoldable pub run : Limiter → List Call → List Bool
run l [] = []
run l (check ip now ∷ cs) = let (l', ok) = allow ip now l in ok ∷ run l' cs
run l (failure ip now ∷ cs) = run (record_failure ip now l) cs
run l (success ip now ∷ cs) = run (record_success ip l) cs
