-- ===== src/Auth.antt =====
-- internal/auth/user.go and session.go, and the login of internal/http/admin_auth.go. The times of users
-- and sessions are numbers of seconds, as their RFC 3339 text keeps no fraction of a second; a lifetime is
-- of whole minutes, so that it may be added before or after the fraction is cut off. A random session id (missing where none is drawn or the insertion fails), the check of a
-- password and whether a form parses are arguments. A missing result stands for an error.
pub mod Sessions
pub mod Admission
mod Tests
use wp_packages.Base.{
  ℕ, suc, ◌+◌, ◌*◌, Bool, true, false, not, ◌&&◌, ◌||◌, List, [], ◌∷◌, Text, Option, none, some,
  eq_text, ltb, ◌==◌, filter, any, length, if◌then◌else◌,
}
use wp_packages.Limits.Login.{Limiter, allow, record_failure, record_success}

pub record User : Type 0 where
  pub id : ℕ
  pub email : Text
  pub name : Text
  pub password_hash : Text
  pub is_admin : Bool
  pub created_at : ℕ
  pub updated_at : ℕ

pub record Session : Type 0 where
  pub id : Text
  pub user_id : ℕ
  pub expires_at : ℕ
  pub created_at : ℕ
  pub updated_at : ℕ

pub record Db : Type 0 where
  pub users : List User
  pub sessions : List Session

abbrev pub has_email : Text → User → Bool
has_email email u = eq_text u.email email

abbrev pub has_id : Text → Session → Bool
has_id id s = eq_text s.id id

-- The first row of a query.
abbrev pub first {ℓ} : {A : Type ℓ} → List A → Option A
first [] = none
first (x ∷ xs) = some x

-- The email is unique; `id` is the key that the database hands out.
unfoldable pub create_user : ℕ → ℕ → Text → Text → Text → Bool → Db → Db × Option User
create_user id now email name password_hash is_admin db =
    let u : User = record {
      id = id;
      email = email;
      name = name;
      password_hash = password_hash;
      is_admin = is_admin;
      created_at = now;
      updated_at = now;
    } in
    if any (has_email email) db.users
    then (db, none)
    else (record db { users = u ∷ db.users }, some u)

unfoldable pub get_user_by_email : Text → Db → Option User
get_user_by_email email db = first (filter (has_email email) db.users)

unfoldable pub update_users : (User → Bool) → (User → User) → List User → List User
update_users p f [] = []
update_users p f (u ∷ us) = (if p u then f u else u) ∷ update_users p f us

-- Whether a user has the email is returned as well.
unfoldable pub promote_to_admin : ℕ → Text → Db → Db × Bool
unfolding update_users
promote_to_admin now email db = (
  record db {
    users =
        update_users (has_email email) (λ u. record u { is_admin = true; updated_at = now })
          db.users;
  },
  any (has_email email) db.users,
)

unfoldable pub update_password : ℕ → Text → Text → Db → Db × Bool
unfolding update_users
update_password now email new_hash db = (
  record db {
    users =
        update_users (has_email email)
          (λ u. record u { password_hash = new_hash; updated_at = now }) db.users;
  },
  any (has_email email) db.users,
)

-- The id is a random text; the insertion fails where it is a key already.
unfoldable pub create_session : ℕ → Option Text → ℕ → ℕ → Db → Db × Option Text
create_session now none user_id lifetime_minutes db = (db, none)
create_session now (some id) user_id lifetime_minutes db =
    if any (has_id id) db.sessions then (db, none) else (
      record db {
        sessions =
            record {
              id = id;
              user_id = user_id;
              expires_at = now + lifetime_minutes * 60;
              created_at = now;
              updated_at = now;
            }
            ∷ db.sessions;
      },
      some id,
    )

abbrev pub user_of : List User → Option Session → Option User
user_of users none = none
user_of users (some s) = first (filter (λ (u : User). u.id == s.user_id) users)

unfoldable pub validate_session : ℕ → Text → Db → Option User
validate_session now id db =
    user_of db.users
      (first (filter (λ (s : Session). has_id id s && ltb now s.expires_at) db.sessions))

unfoldable pub delete_session : Text → Db → Db
delete_session id db = record db {
  sessions = filter (λ (s : Session). not (has_id id s)) db.sessions;
}

unfoldable pub cleanup_expired_sessions : ℕ → Db → Db
cleanup_expired_sessions now db = record db {
  sessions = filter (λ (s : Session). not (ltb s.expires_at now)) db.sessions;
}

-- Where a login leads.
pub data Outcome : Type 0 where
  too_many_attempts : Outcome
  invalid_request : Outcome
  fields_required : Outcome
  invalid_credentials : Outcome
  not_authorized : Outcome
  internal_error : Outcome
  logged_in : Text → Outcome

-- A request. The handler reads the clock at its start, for the limiter, whose times are in nanoseconds;
-- CreateSession reads it again, for the session, whose times are in seconds.
pub record Login : Type 0 where
  pub ip : Text
  pub now : ℕ
  pub session_now : ℕ
  pub parses : Bool
  pub email : Text
  pub password : Text
  pub session_id : Option Text

module _ (check_password : Text → Text → Bool) (lifetime_minutes : ℕ) where
  abbrev pub open_session : Login → Limiter → Db × Option Text → Limiter × Db × Outcome
  open_session r l (db, none) = (l, db, internal_error)
  open_session r l (db, some id) = (record_success r.ip l, db, logged_in id)

  abbrev pub check_user : Login → Limiter → Db → Option User → Limiter × Db × Outcome
  check_user r l db none = (record_failure r.ip r.now l, db, invalid_credentials)
  check_user r l db (some u) =
      if not (check_password u.password_hash r.password)
      then (record_failure r.ip r.now l, db, invalid_credentials)
      else if not u.is_admin
      then (record_failure r.ip r.now l, db, not_authorized)
      else open_session r l (create_session r.session_now r.session_id u.id lifetime_minutes db)

  abbrev pub admitted : Login → Db → Limiter × Bool → Limiter × Db × Outcome
  admitted r db (l, false) = (l, db, too_many_attempts)
  admitted r db (l, true) =
      if not r.parses
      then (l, db, invalid_request)
      else if eq_text r.email [] || eq_text r.password []
      then (record_failure r.ip r.now l, db, fields_required)
      else check_user r l db (get_user_by_email r.email db)

  unfoldable pub handle_login : Login → Limiter → Db → Limiter × Db × Outcome
  unfolding allow record_failure record_success create_session get_user_by_email
  handle_login r l db = admitted r db (allow r.ip r.now l)
