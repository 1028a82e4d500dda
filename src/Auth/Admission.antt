-- ===== src/Auth/Admission.antt =====
-- Who a login lets in.
use wp_packages.Base.{
  ℕ, ◌≡◌, ◌⊎◌, refl, Bool, true, false, not, ◌||◌, [], Text, Option, none, some, eq_text, arith,
  Bool-cases, inl, inr,
}
use wp_packages.Limits.Login.{Limiter, allow, record_success}
use wp_packages.Auth.{
  User, Db, Outcome, logged_in, Login, create_session, get_user_by_email, open_session, check_user,
  admitted, handle_login,
}

module _ (check_password : Text → Text → Bool) (lifetime_minutes : ℕ) where
  -- The state and the outcome of a login that is turned down: the database is as it was.
  abbrev pub IsTurnedDown : Db → Limiter × Db × Outcome → Type 0
  IsTurnedDown db x = (x.1 ≡ db) × ((id : Text) → ¬ (x.2 ≡ logged_in id))

  -- A login that is let in: the limiter allows it, the user of the email is an administrator and has the
  -- password, a session is created for that user alone, from the time at which it is created, and the failures of the address are forgotten.
  abbrev pub IsLetIn : Login → Limiter → Db → Limiter × Db × Outcome → Type 0
  IsLetIn r l db x =
      (u : User) × (id : Text) × (m : Limiter) × (allow r.ip r.now l ≡ (m, true))
      × (get_user_by_email r.email db ≡ some u)
      × (check_password u.password_hash r.password ≡ true)
      × (u.is_admin ≡ true)
      × (create_session r.session_now r.session_id u.id lifetime_minutes db ≡ (x.1, some id))
      × (x.0 ≡ record_success r.ip m)
      × (x.2 ≡ logged_in id)

  abbrev Fate : Login → Limiter → Db → Limiter × Db × Outcome → Type 0
  Fate r l db x = IsTurnedDown db x ⊎ IsLetIn r l db x

  create_session-none :
      (now : ℕ) (id : Option Text) (user lifetime : ℕ) (db d : Db)
      → create_session now id user lifetime db ≡ (d, none)
      → d ≡ db
  unfolding create_session
  create_session-none now none user lifetime db d h = cc
  create_session-none now (some id) user lifetime db d h = ground (arith, h)

  check_user-Fate :
      (r : Login) (l m : Limiter) (db : Db) (o : Option User)
      → allow r.ip r.now l ≡ (m, true)
      → get_user_by_email r.email db ≡ o
      → Fate r l db (check_user check_password lifetime_minutes r m db o)
  check_user-Fate r l m db none a g = inl (refl, λ id. cc)
  check_user-Fate r l m db (some u) a g =
      elim (Bool-cases (check_password u.password_hash r.password)) [
        | inr e ↦ rw e (inl (refl, λ id. cc))
        | inl e ↦ elim (Bool-cases u.is_admin) [
          | inr f ↦ rw (e, f) (inl (refl, λ id. cc))
          | inl f ↦
              rw (e, f)
                (opened (create_session r.session_now r.session_id u.id lifetime_minutes db) refl e
                  f)
        ]
      ]
    where
      opened :
          (x : Db × Option Text)
          → create_session r.session_now r.session_id u.id lifetime_minutes db ≡ x
          → check_password u.password_hash r.password ≡ true
          → u.is_admin ≡ true
          → Fate r l db (open_session check_password lifetime_minutes r m x)
      opened (d, none) c e f =
          inl
            (create_session-none r.session_now r.session_id u.id lifetime_minutes db d c, λ id. cc)
      opened (d, some id) c e f = inr (u, id, m, a, g, e, f, c, refl, refl)

  -- A login is turned down and leaves the database as it was, or it is let in: the limiter allows it, the
  -- user of the email is an administrator and has the password, and a session of that user is created.
  pub handle_login-Fate :
      (r : Login) (l : Limiter) (db : Db)
      → IsTurnedDown db (handle_login check_password lifetime_minutes r l db)
        ⊎ IsLetIn r l db (handle_login check_password lifetime_minutes r l db)
  unfolding handle_login
  handle_login-Fate r l db = go (allow r.ip r.now l) refl
    where
      go :
          (x : Limiter × Bool)
          → allow r.ip r.now l ≡ x
          → Fate r l db (admitted check_password lifetime_minutes r db x)
      go (m, false) e = inl (refl, λ id. cc)
      go (m, true) e = elim (Bool-cases (not r.parses)) [
        | inl p ↦ rw p (inl (refl, λ id. cc))
        | inr p ↦ elim (Bool-cases (eq_text r.email [] || eq_text r.password [])) [
          | inl q ↦ rw (p, q) (inl (refl, λ id. cc))
          | inr q ↦ rw (p, q) (check_user-Fate r l m db (get_user_by_email r.email db) e refl)
        ]
      ]
