-- ===== src/Limits/Login/Tests.antt =====
-- Runs of the login limiter, and the theorems at concrete calls.
use wp_packages.Base.{
  ◌≡◌, refl, true, false, List, [], ◌∷◌, Text, codes, eq_text, lookup, insert, delete, keep, arith,
  leb, ◌+◌, ℕ,
}
use wp_packages.Limits.Login.{
  sweep, allow, fail_entry, record_failure, record_success, new_login_rate_limiter, Call, check,
  failure, run, login_block_duration,
}
use wp_packages.Limits.Login.Reference.{answers}
use wp_packages.Limits.Login.Agreement.{run-answers}
use wp_packages.Limits.Login.Lockout.{session, sessions, lockout, no_early_lockout}

limiter_code : Unit {0}
unfolding eq_text lookup insert delete keep sweep allow fail_entry record_failure record_success run
limiter_code = tt

abbrev ip : Text
ip = codes "192.0.2.1"

abbrev other : Text
other = codes "192.0.2.2"

abbrev burst : List Call
burst =
    failure ip 1
    ∷ failure ip 2
    ∷ failure ip 3
    ∷ failure ip 4
    ∷ failure ip 5
    ∷ failure ip 6
    ∷ failure ip 7
    ∷ check ip 7
    ∷ failure ip 8
    ∷ check ip 9
    ∷ check other 9
    ∷ check ip (8 + login_block_duration)
    ∷ []

burst_runs : run new_login_rate_limiter burst ≡ true ∷ false ∷ true ∷ true ∷ []
unfolding limiter_code
burst_runs = refl

run-answers_example : run new_login_rate_limiter burst ≡ answers [] burst
run-answers_example = run-answers burst (omega arith)

lockout_example :
    run new_login_rate_limiter
      (session ip 1 (2 ∷ 3 ∷ 4 ∷ 5 ∷ 6 ∷ 7 ∷ []) (failure ip 8 ∷ check ip 9 ∷ []))
    ≡ leb (8 + login_block_duration) 9 ∷ []
lockout_example =
    lockout ip 1 (2 ∷ 3 ∷ 4 ∷ 5 ∷ 6 ∷ 7 ∷ []) 8 9 (cc) refl (omega arith) (omega arith)
      (omega arith)

-- Five failures, and five more behind the window.
abbrev second_window : List (ℕ × List ℕ)
second_window =
    (1000000000000, 1000000000001 ∷ 1000000000002 ∷ 1000000000003 ∷ 1000000000004 ∷ []) ∷ []

no_early_lockout_example :
    run new_login_rate_limiter
      (session ip 1 (2 ∷ 3 ∷ 4 ∷ 5 ∷ []) (sessions ip second_window (check ip 1000000000005 ∷ [])))
    ≡ true ∷ []
no_early_lockout_example =
    no_early_lockout ip 1 (2 ∷ 3 ∷ 4 ∷ 5 ∷ []) second_window 1000000000005 (cc) (omega arith)
      (omega arith) (omega arith) (omega arith)
