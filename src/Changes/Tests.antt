-- ===== src/Changes/Tests.antt =====
-- A feed of two changes of one package.
use wp_packages.Base.{
  ℕ, In, any, ap, subst, inr, ◌≡◌, ◌<◌, ◌⊎◌, arith, refl, true, List, [], ◌∷◌, Text, codes, some,
  eq_text, lt_text, inl,
}
use wp_packages.Text.{digits_value, is_digit}
use wp_packages.Changes.{
  Change, ChangeAction, changes, parse_since, max_timestamp, order_changes, insert_change, see,
  see_all, sort_actions, insert_action, handle_metadata_changes, cleanup_changes,
}
use wp_packages.Changes.Missed.{is_named, Poll, Polls, last_checkpoint, IsInOrder, no_change_missed}

changes_code : Unit {0}
unfolding eq_text lt_text digits_value is_digit parse_since max_timestamp order_changes
    insert_change see see_all sort_actions insert_action handle_metadata_changes cleanup_changes
changes_code = tt

abbrev akismet : Text
akismet = codes "wp-plugin/akismet"

abbrev updated : Change
updated = record { id = 1; package_name = akismet; action = codes "update"; timestamp = 30 }

abbrev deleted : Change
deleted = record { id = 2; package_name = akismet; action = codes "delete"; timestamp = 40 }

abbrev recorded : List Change
recorded = updated ∷ deleted ∷ []

abbrev answer : List ChangeAction
answer = record { action = codes "delete"; package_name = akismet; time = 0 } ∷ []

abbrev before_deletion : Poll
before_deletion = record {
  cleaned = 86400004;
  now = 86400005;
  since = codes "20";
  first = updated ∷ [];
  recorded = updated ∷ [];
}

abbrev behind_deletion : Poll
behind_deletion = record {
  cleaned = 86400005;
  now = 86400010;
  since = codes "30";
  first = recorded;
  recorded = recorded;
}

abbrev polls : List Poll
polls = before_deletion ∷ behind_deletion ∷ []

abbrev update : List ChangeAction
update = record { action = codes "update"; package_name = akismet; time = 0 } ∷ []

abbrev responses : List (ℕ × List ChangeAction)
responses = (30, update) ∷ (40, answer) ∷ []

polls_answered : Polls 20 polls responses
unfolding changes_code
polls_answered = (refl, refl, (refl, refl, tt))

before_deletion_rows : (d : Change) → In d (updated ∷ []) → d.timestamp < 40
before_deletion_rows d (inl e) =
    let at : 30 ≡ d.timestamp = ap (λ (x : Change). x.timestamp) e in omega (arith, at)
before_deletion_rows d (inr i) = absurd i

in_order : (p : Poll) → In p polls → IsInOrder deleted p
in_order p (inl e) =
    subst (IsInOrder deleted) e
      (omega arith, inr (before_deletion_rows, updated, inl refl, omega arith))
in_order p (inr (inl e)) = subst (IsInOrder deleted) e (omega arith, inl (inr (inl refl)))
in_order p (inr (inr i)) = absurd i

no_change_missed_example :
    (any (λ (r : ℕ × List ChangeAction). is_named akismet r.1) responses ≡ true)
    ⊎ ((last_checkpoint 20 responses < 40) × ((p : Poll) → In p polls → ¬ (In deleted p.first)))
no_change_missed_example =
    no_change_missed 20 polls responses deleted (omega arith) polls_answered in_order

-- The build that ended at 86400040 records its change behind a poll of the empty table at 86400050.
abbrev late : Change
late = record { id = 1; package_name = akismet; action = codes "update"; timestamp = 86400040 }

empty_table :
    handle_metadata_changes 86400050 (codes "86400030") (some []) (some []) ≡ changes 86400050 []
unfolding changes_code
empty_table = refl

missed_behind_empty_table :
    handle_metadata_changes 86400060 (codes "86400050") (some (late ∷ [])) (some (late ∷ []))
    ≡ changes 86400040 []
unfolding changes_code
missed_behind_empty_table = refl
