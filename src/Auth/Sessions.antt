-- ===== src/Auth/Sessions.antt =====
-- The life of a session.
use wp_packages.Base.{
  ℕ, ◌≡◌, ◌≢◌, ◌≤◌, refl, ap, ◌∙◌, ◌+◌, ◌*◌, ◌==◌, eq_text_refl, false, not, ◌&&◌, List, [], ◌∷◌,
  Text, Option, none, some, eq_text, eq_text_iff, ltb, filter, any, arith, Bool-cases, inl, inr,
  if◌then◌else◌,
}
use wp_packages.Auth.{
  User, Session, Db, has_id, first, create_session, user_of, validate_session, delete_session,
  cleanup_expired_sessions,
}

-- A write of the sessions, with its time.
pub data Op : Type 0 where
  create : ℕ → Option Text → ℕ → ℕ → Op
  delete : Text → Op
  expire : ℕ → Op

unfoldable pub apply : Op → Db → Db
unfolding create_session delete_session cleanup_expired_sessions
apply (create now id user lifetime) db = (create_session now id user lifetime db).0
apply (delete id) db = delete_session id db
apply (expire now) db = cleanup_expired_sessions now db

unfoldable pub run : List Op → Db → Db
unfolding apply
run [] db = db
run (op ∷ ops) db = run ops (apply op db)

-- An operation up to a time that does not delete the session, and draws another id.
abbrev pub Spares : Text → ℕ → Op → Type 0
Spares id now (create t i user lifetime) = i ≢ some id
Spares id now (delete i) = i ≢ id
Spares id now (expire t) = t ≤ now

abbrev pub AllSpare : Text → ℕ → List Op → Type 0
AllSpare id now [] = Unit
AllSpare id now (op ∷ ops) = Spares id now op × AllSpare id now ops

abbrev live : Text → ℕ → List Session → List Session
live id now ss = filter (λ (s : Session). has_id id s && ltb now s.expires_at) ss

live-delete :
    (id i : Text) (now : ℕ) (ss : List Session)
    → i ≢ id
    → live id now (filter (λ (s : Session). not (has_id i s)) ss) ≡ live id now ss
live-delete id i now [] n = refl
live-delete id i now (s ∷ ss) n =
    ground (arith, eq_text_iff s.id i, eq_text_iff s.id id, n, live-delete id i now ss n)

live-cleanup :
    (id : Text) (now t : ℕ) (ss : List Session)
    → t ≤ now
    → live id now (filter (λ (s : Session). not (ltb s.expires_at t)) ss) ≡ live id now ss
live-cleanup id now t [] le = refl
live-cleanup id now t (s ∷ ss) le = ground (arith, le, live-cleanup id now t ss le)

live-create_session :
    (id i : Text) (t user lifetime now : ℕ) (db : Db)
    → i ≢ id
    → live id now (create_session t (some i) user lifetime db).0.sessions ≡ live id now db.sessions
unfolding create_session
live-create_session id i t user lifetime now db h =
    let other : eq_text i id ≡ false = ground (arith, eq_text_iff i id, h) in
    elim (Bool-cases (any (has_id i) db.sessions)) [
      | inl e ↦ rw e refl
      | inr e ↦ rw (e, other) refl
    ]

live-apply :
    (id : Text) (now : ℕ) (op : Op) (db : Db)
    → Spares id now op
    → live id now (apply op db).sessions ≡ live id now db.sessions
unfolding apply create_session delete_session cleanup_expired_sessions
live-apply id now (create t none user lifetime) db h = refl
live-apply id now (create t (some i) user lifetime) db h =
    live-create_session id i t user lifetime now db (λ q. h (ap some q))
live-apply id now (delete i) db h = live-delete id i now db.sessions h
live-apply id now (expire t) db h = live-cleanup id now t db.sessions h

users-apply : (op : Op) (db : Db) → (apply op db).users ≡ db.users
unfolding apply create_session delete_session cleanup_expired_sessions
users-apply (create t none user lifetime) db = refl
users-apply (create t (some i) user lifetime) db = ground arith
users-apply (delete i) db = refl
users-apply (expire t) db = refl

validate_session-apply :
    (id : Text) (now : ℕ) (op : Op) (db : Db)
    → Spares id now op
    → validate_session now id (apply op db) ≡ validate_session now id db
unfolding validate_session
validate_session-apply id now op db h =
    rw (users-apply op db) (ap (λ ss. user_of db.users (first ss)) (live-apply id now op db h))

validate_session-spared :
    (id : Text) (now : ℕ) (ops : List Op) (db : Db)
    → AllSpare id now ops
    → validate_session now id (run ops db) ≡ validate_session now id db
unfolding run
validate_session-spared id now [] db h = refl
validate_session-spared id now (op ∷ ops) db (h, hs) =
    validate_session-spared id now ops (apply op db) hs ∙ validate_session-apply id now op db h

live-absent :
    (id : Text) (now : ℕ) (ss : List Session) → any (has_id id) ss ≡ false → live id now ss ≡ []
live-absent id now [] h = refl
live-absent id now (s ∷ ss) h = ground (arith, h, live-absent id now ss)

live-deleted :
    (id : Text) (now : ℕ) (ss : List Session)
    → live id now (filter (λ (s : Session). not (has_id id s)) ss) ≡ []
live-deleted id now [] = refl
live-deleted id now (s ∷ ss) = ground (arith, live-deleted id now ss)

validate_session-create_session :
    (id : Text) (t user lifetime now : ℕ) (db : Db)
    → any (has_id id) db.sessions ≡ false
    → validate_session now id (create_session t (some id) user lifetime db).0 ≡ (
        if ltb now (t + lifetime * 60)
        then first (filter (λ (u : User). u.id == user) db.users)
        else none)
unfolding validate_session create_session
validate_session-create_session id t user lifetime now db h =
    elim (Bool-cases (ltb now (t + lifetime * 60))) [
      | inl e ↦ rw (h, eq_text_refl id, e) refl
      | inr e ↦ rw (h, eq_text_refl id, e, live-absent id now db.sessions h) refl
    ]

validate_session-delete_session :
    (id : Text) (now : ℕ) (db : Db) → validate_session now id (delete_session id db) ≡ none
unfolding validate_session delete_session
validate_session-delete_session id now db = rw (live-deleted id now db.sessions) refl

-- A session that is created with a new id is valid for its user up to the end of its lifetime and not from
-- then on, whatever other sessions are created or deleted and whenever expired ones are removed up to
-- then, as long as no other session draws the id; once deleted it is not valid.
pub validate_session-run :
    (id : Text) (t user lifetime now : ℕ) (ops : List Op) (db : Db)
    → any (has_id id) db.sessions ≡ false
    → AllSpare id now ops
    → let db' = run ops (create_session t (some id) user lifetime db).0 in
      (validate_session now id db' ≡ (
        if ltb now (t + lifetime * 60)
        then first (filter (λ (u : User). u.id == user) db.users)
        else none))
      × (validate_session now id (delete_session id db') ≡ none)
validate_session-run id t user lifetime now ops db h hs =
    let started = (create_session t (some id) user lifetime db).0 in
    (
      validate_session-spared id now ops started hs
          ∙ validate_session-create_session id t user lifetime now db h,
      validate_session-delete_session id now (run ops started),
    )
