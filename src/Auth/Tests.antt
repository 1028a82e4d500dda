-- ===== src/Auth/Tests.antt =====
-- A login of an administrator, and the session it opens.
use wp_packages.Base.{
  ◌≡◌, ◌≢◌, ◌≤◌, ◌*◌, ◌^◌, ◌+◌, ◌==◌, ◌⊎◌, arith, refl, Bool, true, List, [], ◌∷◌, Text, codes,
  none, some, eq_text, ltb, filter, if◌then◌else◌,
}
use wp_packages.Limits.Login.{new_login_rate_limiter}
use wp_packages.Auth.{
  User, Db, Login, create_session, validate_session, delete_session, handle_login, first,
}
use wp_packages.Auth.Sessions.{Op, create, expire, run, validate_session-run}
use wp_packages.Auth.Admission.{IsTurnedDown, IsLetIn, handle_login-Fate}

abbrev admin : User
admin = record {
  id = 1;
  email = codes "a@b";
  name = codes "A";
  password_hash = codes "h";
  is_admin = true;
  created_at = 1;
  updated_at = 1;
}

abbrev db : Db
db = record { users = admin ∷ []; sessions = [] }

abbrev ops : List Op
ops = expire 50 ∷ create 55 none 1 10 ∷ []

validate_session-run_example :
    let db' = run ops (create_session 10 (some (codes "id")) 1 2 db).0 in
    (validate_session 60 (codes "id") db'
      ≡ (if ltb 60 (10 + 2 * 60) then first (filter (λ (u : User). u.id == 1) db.users) else none))
    × (validate_session 60 (codes "id") (delete_session (codes "id") db') ≡ none)
validate_session-run_example =
    let other : none ≢ some (codes "id") = cc in
    let early : 50 ≤ 60 = omega arith in
    validate_session-run (codes "id") 10 1 2 60 ops db refl (early, (other, tt))

abbrev check_password : Text → Text → Bool
check_password hash password = eq_text password (codes "secret")

abbrev request : Login
request = record {
  ip = codes "1.2.3.4";
  now = 10 * 10 ^ 9 + 250;
  session_now = 11;
  parses = true;
  email = codes "a@b";
  password = codes "secret";
  session_id = some (codes "id");
}

handle_login-Fate_example :
    IsTurnedDown check_password 2 db
      (handle_login check_password 2 request new_login_rate_limiter db)
    ⊎ IsLetIn check_password 2 request new_login_rate_limiter db
        (handle_login check_password 2 request new_login_rate_limiter db)
handle_login-Fate_example = handle_login-Fate check_password 2 request new_login_rate_limiter db
