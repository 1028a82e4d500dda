-- ===== src/Limits/Login/Lockout.antt =====
-- When an address is locked out, and for how long.
use wp_packages.Base.{
  ℕ, ◌+◌, ◌≤◌, ◌<◌, ◌≡◌, refl, true, false, List, [], ◌∷◌, ◌++◌, map, Text, Map, none, some,
  eq_text, lookup, lookup-insert, leb, arith, length, All, ◌≢◌, eq_text_iff, eq_text_refl, ap, ◌∙◌,
  subst, suc,
}
use wp_packages.Limits.Login.{
  Attempt, login_attempt_window, login_block_duration, max_failed_login_attempts, fail_entry,
  new_login_rate_limiter, Call, check, failure, run,
}
use wp_packages.Limits.Login.Reference.{answer, allowed, fail, answers, Forward}
use wp_packages.Limits.Login.Agreement.{run-answers}

-- A run of failures of an address, and the calls behind it.
abbrev pub fails : Text → List ℕ → List Call → List Call
fails ip ts cs = map (failure ip) ts ++ cs

abbrev pub session : Text → ℕ → List ℕ → List Call → List Call
session ip first middle cs = failure ip first ∷ fails ip middle cs

-- The windows behind one that starts at `start`: each starts with a failure behind the window before,
-- and has up to six further failures.
abbrev pub Spaced : ℕ → List (ℕ × List ℕ) → Type 0
Spaced start [] = Unit
Spaced start ((t, ts) ∷ windows) =
    (start + login_attempt_window < t)
    × (length ts < 7)
    × All (λ u. u ≤ t + login_attempt_window) ts
    × Spaced t windows

-- The failures of the windows, and the calls behind them.
abbrev pub sessions : Text → List (ℕ × List ℕ) → List Call → List Call
sessions ip [] cs = cs
sessions ip ((t, ts) ∷ windows) cs = session ip t ts (sessions ip windows cs)

not_nil : (ip : Text) → ip ≢ [] → eq_text ip [] ≡ false
not_nil ip n = ground (arith, eq_text_iff ip [])

module _ (ip : Text) (named : ip ≢ []) where
  lookup-fail :
      (now : ℕ) (m : Map Attempt) → lookup ip (fail ip now m) ≡ some (fail_entry now (lookup ip m))
  unfolding fail
  lookup-fail now m = rw (not_nil ip named, lookup-insert, eq_text_refl ip)

  -- What is known of the address: how often it failed, since when, and until when it is blocked.
  record Counted (m : Map Attempt) (failed start until : ℕ) : Type 0 where
    entry : Attempt
    found : lookup ip m ≡ some entry
    failures : entry.failed ≡ failed
    started : entry.window_start ≡ start
    blocked : entry.blocked_until ≡ until

  first-Counted : (t : ℕ) → Counted (fail ip t []) 1 t 0
  unfolding fail_entry lookup
  first-Counted t = record {
    entry = fail_entry t none;
    found = lookup-fail t [];
    failures = refl;
    started = refl;
    blocked = refl;
  }

  next-Counted :
      (m : Map Attempt) (failed start until t : ℕ)
      → failed + 1 < max_failed_login_attempts
      → t ≤ start + login_attempt_window
      → Counted m failed start until
      → Counted (fail ip t m) (failed + 1) start until
  unfolding fail_entry
  next-Counted m failed start until t h w c = record {
    entry = fail_entry t (some c.entry);
    found = lookup-fail t m ∙ ap (λ o. some (fail_entry t o)) c.found;
    failures = ground (arith, c.failures, c.started);
    started = ground (arith, c.failures, c.started);
    blocked = ground (arith, c.failures, c.started, c.blocked);
  }

  last-Counted :
      (m : Map Attempt) (failed start until t : ℕ)
      → failed + 1 ≡ max_failed_login_attempts
      → t ≤ start + login_attempt_window
      → Counted m failed start until
      → Counted (fail ip t m) 0 t (t + login_block_duration)
  unfolding fail_entry
  last-Counted m failed start until t h w c = record {
    entry = fail_entry t (some c.entry);
    found = lookup-fail t m ∙ ap (λ o. some (fail_entry t o)) c.found;
    failures = ground (arith, c.failures, c.started);
    started = ground (arith, c.failures, c.started);
    blocked = ground (arith, c.failures, c.started);
  }

  middle-Counted :
      (ts : List ℕ) (m : Map Attempt) (failed start until : ℕ) (cs : List Call)
      → failed + length ts < max_failed_login_attempts
      → All (λ t. t ≤ start + login_attempt_window) ts
      → Counted m failed start until
      → (m' : Map Attempt) × Counted m' (failed + length ts) start until
        × (answers m (fails ip ts cs) ≡ answers m' cs)
  unfolding answers
  middle-Counted [] m failed start until cs h w c =
      let e : failed ≡ failed + 0 = omega arith in
      (m, subst (λ n. Counted m n start until) e c, refl)
  middle-Counted (t ∷ ts) m failed start until cs h w c =
      let (m', c', e) =
        middle-Counted ts (fail ip t m) (failed + 1) start until cs (omega arith) w.1
          (next-Counted m failed start until t (omega arith) w.0 c) in
      let same : failed + 1 + length ts ≡ failed + suc (length ts) = omega arith in
      (m', subst (λ n. Counted m' n start until) same c', e)

  check-Counted :
      (m : Map Attempt) (failed start until now : ℕ)
      → Counted m failed start until
      → answers m (check ip now ∷ []) ≡ leb until now ∷ []
  unfolding answers allowed answer
  check-Counted m failed start until now c =
      rw (not_nil ip named, c.found, c.blocked) (ground arith)

  -- A failure behind the window starts a new one.
  roll-Counted :
      (m : Map Attempt) (failed start until t : ℕ)
      → start + login_attempt_window < t
      → Counted m failed start until
      → Counted (fail ip t m) 1 t until
  unfolding fail_entry
  roll-Counted m failed start until t h c = record {
    entry = fail_entry t (some c.entry);
    found = lookup-fail t m ∙ ap (λ o. some (fail_entry t o)) c.found;
    failures = ground (arith, c.started, h);
    started = ground (arith, c.started, h);
    blocked = ground (arith, c.started, h, c.blocked);
  }

  spaced :
      (windows : List (ℕ × List ℕ)) (m : Map Attempt) (failed start now : ℕ)
      → Spaced start windows
      → Counted m failed start 0
      → answers m (sessions ip windows (check ip now ∷ [])) ≡ true ∷ []
  unfolding answers
  spaced [] m failed start now w c = check-Counted m failed start 0 now c ∙ ground arith
  spaced ((t, ts) ∷ windows) m failed start now (after, few, inside, w) c =
      let (m', c', e) =
        middle-Counted ts (fail ip t m) 1 t 0 (sessions ip windows (check ip now ∷ []))
          (omega (arith, few)) inside (roll-Counted m failed start 0 t after c) in
      e ∙ spaced windows m' _ t now w c'

  early :
      (first : ℕ) (ts : List ℕ) (windows : List (ℕ × List ℕ)) (now : ℕ)
      → length ts < 7
      → All (λ t. t ≤ first + login_attempt_window) ts
      → Spaced first windows
      → answers [] (session ip first ts (sessions ip windows (check ip now ∷ []))) ≡ true ∷ []
  unfolding answers
  early first ts windows now h w spaced_windows =
      let (m, c, e) =
        middle-Counted ts (fail ip first []) 1 first 0 (sessions ip windows (check ip now ∷ []))
          (omega arith) w (first-Counted first) in
      e ∙ spaced windows m _ first now spaced_windows c

  late :
      (first : ℕ) (ts : List ℕ) (last now : ℕ)
      → length ts ≡ 6
      → All (λ t. t ≤ first + login_attempt_window) ts
      → last ≤ first + login_attempt_window
      → answers [] (session ip first ts (failure ip last ∷ check ip now ∷ []))
        ≡ leb (last + login_block_duration) now ∷ []
  unfolding answers
  late first ts last now h w k =
      let (m, c, e) =
        middle-Counted ts (fail ip first []) 1 first 0 (failure ip last ∷ check ip now ∷ [])
          (omega arith) w (first-Counted first) in
      e
      ∙ check-Counted (fail ip last m) 0 last (last + login_block_duration) now
          (last-Counted m _ first 0 last (omega arith) k c)

-- Failures leave an address allowed, however many there are, where each window has up to seven: a window
-- starts with the first failure that is later than the window before it.
pub no_early_lockout :
    (ip : Text) (first : ℕ) (ts : List ℕ) (windows : List (ℕ × List ℕ)) (now : ℕ)
    → ip ≢ []
    → length ts < 7
    → All (λ t. t ≤ first + login_attempt_window) ts
    → Spaced first windows
    → Forward 0 (session ip first ts (sessions ip windows (check ip now ∷ [])))
    → run new_login_rate_limiter (session ip first ts (sessions ip windows (check ip now ∷ [])))
      ≡ true ∷ []
no_early_lockout ip first ts windows now n h w s f =
    run-answers _ f ∙ early ip n first ts windows now h w s

-- The eighth failure inside one window locks the address out until the block's duration has passed
-- since that failure, and no longer.
pub lockout :
    (ip : Text) (first : ℕ) (ts : List ℕ) (last now : ℕ)
    → ip ≢ []
    → length ts ≡ 6
    → All (λ t. t ≤ first + login_attempt_window) ts
    → last ≤ first + login_attempt_window
    → Forward 0 (session ip first ts (failure ip last ∷ check ip now ∷ []))
    → run new_login_rate_limiter (session ip first ts (failure ip last ∷ check ip now ∷ []))
      ≡ leb (last + login_block_duration) now ∷ []
lockout ip first ts last now n h w k f = run-answers _ f ∙ late ip n first ts last now h w k
