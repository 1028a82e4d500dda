-- ===== src/Changes/Missed.antt =====
-- A client that polls with the time stamp of its last response.
use wp_packages.Base.{
  ℕ, ◌-◌, ◌≡◌, ◌≤◌, ◌<◌, ◌⊎◌, refl, sym, ap, subst, ◌∙◌, Bool, true, false, ◌||◌, List, [], ◌∷◌,
  Text, some, eq_text, eq_text_iff, ltb, leb, filter, any, arith, Bool-cases, inl, inr, In,
}
use wp_packages.Changes.{
  Change, ChangeAction, changes, changes_retention, parse_since, max_timestamp, insert_change,
  order_changes, is_selected, action_of, see, see_all, insert_action, sort_actions, actions_between,
  checkpoint_of, respond_since, handle_metadata_changes, cleanup_changes,
}

abbrev pub is_named : Text → List ChangeAction → Bool
is_named name actions = any (λ (a : ChangeAction). eq_text a.package_name name) actions

abbrev is_changed : Text → List Change → Bool
is_changed name rows = any (λ (c : Change). eq_text c.package_name name) rows

is_changed-insert_change :
    (name : Text) (c : Change) (cs : List Change)
    → is_changed name (insert_change c cs) ≡ is_changed name (c ∷ cs)
unfolding insert_change
is_changed-insert_change name c [] = refl
is_changed-insert_change name c (d ∷ ds) = ground (arith, is_changed-insert_change name c ds)

is_changed-order_changes :
    (name : Text) (cs : List Change) → is_changed name (order_changes cs) ≡ is_changed name cs
unfolding order_changes
is_changed-order_changes name [] = refl
is_changed-order_changes name (c ∷ cs) =
    is_changed-insert_change name c (order_changes cs)
    ∙ ap (λ b. eq_text c.package_name name || b) (is_changed-order_changes name cs)

is_named-see :
    (name : Text) (a : ChangeAction) (seen : List ChangeAction)
    → is_named name (see a seen) ≡ is_named name (a ∷ seen)
unfolding see
is_named-see name a [] = refl
is_named-see name a (b ∷ bs) = ground (
  arith,
  eq_text_iff b.package_name a.package_name,
  eq_text_iff b.package_name name,
  eq_text_iff a.package_name name,
  is_named-see name a bs,
)

is_named-see_all :
    (name : Text) (cs : List Change) (seen : List ChangeAction)
    → is_named name (see_all cs seen) ≡ (is_changed name cs || is_named name seen)
unfolding see_all
is_named-see_all name [] seen = refl
is_named-see_all name (c ∷ cs) seen =
    ground (
      arith,
      is_named-see_all name cs (see (action_of c) seen),
      is_named-see name (action_of c) seen,
    )

is_named-insert_action :
    (name : Text) (a : ChangeAction) (bs : List ChangeAction)
    → is_named name (insert_action a bs) ≡ is_named name (a ∷ bs)
unfolding insert_action
is_named-insert_action name a [] = refl
is_named-insert_action name a (b ∷ bs) = ground (arith, is_named-insert_action name a bs)

is_named-sort_actions :
    (name : Text) (bs : List ChangeAction) → is_named name (sort_actions bs) ≡ is_named name bs
unfolding sort_actions
is_named-sort_actions name [] = refl
is_named-sort_actions name (a ∷ bs) =
    is_named-insert_action name a (sort_actions bs)
    ∙ ap (λ b. eq_text a.package_name name || b) (is_named-sort_actions name bs)

is_changed-filter :
    (f : Change → Bool) (c : Change) (cs : List Change)
    → In c cs
    → f c ≡ true
    → is_changed c.package_name (filter f cs) ≡ true
is_changed-filter f c [] i h = elim i [ ]
is_changed-filter f c (d ∷ cs) (inl e) h =
    let same : f d ≡ true = ap f e ∙ h in
    let named : eq_text d.package_name c.package_name ≡ true =
      (eq_text_iff d.package_name c.package_name).1 (ap (λ (x : Change). x.package_name) e) in
    rw same (ground (arith, named))
is_changed-filter f c (d ∷ cs) (inr i) h = ground (arith, is_changed-filter f c cs i h)

actions_between-In :
    (since checkpoint : ℕ) (c : Change) (rows : List Change)
    → In c rows
    → is_selected since checkpoint c ≡ true
    → is_named c.package_name (actions_between since checkpoint rows) ≡ true
actions_between-In since checkpoint c rows i h =
    is_named-sort_actions c.package_name (see_all (order_changes selected) [])
    ∙ (is_named-see_all c.package_name (order_changes selected) []
        ∙ ground (
          arith,
          is_changed-order_changes c.package_name selected,
          is_changed-filter (is_selected since checkpoint) c rows i h,
        ))
  where
    selected : List Change
    selected = filter (is_selected since checkpoint) rows

In-cleanup_changes :
    (now : ℕ) (c : Change) (rows : List Change)
    → In c rows
    → ltb c.timestamp (now - changes_retention) ≡ false
    → In c (cleanup_changes now rows)
unfolding cleanup_changes
In-cleanup_changes now c [] i h = elim i [ ]
In-cleanup_changes now c (d ∷ cs) (inl e) h =
    rw (ap (λ (x : Change). ltb x.timestamp (now - changes_retention)) e ∙ h) (inl e)
In-cleanup_changes now c (d ∷ cs) (inr i) h =
    elim (Bool-cases (ltb d.timestamp (now - changes_retention))) [
      | inl e ↦ rw e (In-cleanup_changes now c cs i h)
      | inr e ↦ rw e (inr (In-cleanup_changes now c cs i h))
    ]

-- What a response with actions says of the poll.
respond_since-changes :
    (now since checkpoint : ℕ) (first rows : List Change) (actions : List ChangeAction)
    → respond_since now (some since) (some first) (some rows) ≡ changes checkpoint actions
    → (ltb since (now - changes_retention) ≡ false)
      × (checkpoint_of now first ≡ checkpoint)
      × (actions_between since checkpoint rows ≡ actions)
respond_since-changes now since checkpoint first rows actions h =
    elim (Bool-cases (ltb since (now - changes_retention))) [
      | inl e ↦ let k = rw e at h in cc
      | inr e ↦
          let k = rw e at h in
          let same : checkpoint_of now first ≡ checkpoint = cc in (e, same, rw (sym same) cc)
    ]

-- A poll: the time of the cleanup before it and its own, its parameter, and the rows at its two reads,
-- those of the second before the cleanup.
pub record Poll : Type 0 where
  pub cleaned : ℕ
  pub now : ℕ
  pub since : Text
  pub first : List Change
  pub recorded : List Change

-- The responses of a client that polls first from `since` and then from the time stamp of the response
-- before: the time stamps and the actions.
abbrev pub Polls : ℕ → List Poll → List (ℕ × List ChangeAction) → Type 0
Polls since [] [] = Unit
Polls since [] (r ∷ rs) = ⊥
Polls since (p ∷ ps) [] = ⊥
Polls since (p ∷ ps) ((checkpoint, actions) ∷ rs) =
    (parse_since p.since ≡ some since)
    × (handle_metadata_changes p.now p.since (some p.first)
          (some (cleanup_changes p.cleaned p.recorded))
        ≡ changes checkpoint actions)
    × Polls checkpoint ps rs

abbrev pub last_checkpoint : ℕ → List (ℕ × List ChangeAction) → ℕ
last_checkpoint since [] = since
last_checkpoint since ((checkpoint, actions) ∷ rs) = last_checkpoint checkpoint rs

-- The change is recorded before the second read; or it is not yet recorded, and then it is later than
-- the rows of the first read, of which there is one behind time 0.
abbrev pub IsInOrder : Change → Poll → Type 0
IsInOrder c p =
    (p.cleaned ≤ p.now)
    × (In c p.recorded
        ⊎ (((d : Change) → In d p.first → d.timestamp < c.timestamp)
            × (d : Change) × In d p.first
            × (0 < d.timestamp)))

In-max_timestamp : (c : Change) (rows : List Change) → In c rows → c.timestamp ≤ max_timestamp rows
unfolding max_timestamp
In-max_timestamp c [] i = absurd i
In-max_timestamp c (d ∷ rows) (inl e) =
    let same : d.timestamp ≡ c.timestamp = ap (λ (x : Change). x.timestamp) e in
    ground (arith, same)
In-max_timestamp c (d ∷ rows) (inr i) = ground (arith, In-max_timestamp c rows i)

max_timestamp-bound :
    (n : ℕ) (rows : List Change)
    → 0 < n
    → ((d : Change) → In d rows → d.timestamp < n)
    → max_timestamp rows < n
unfolding max_timestamp
max_timestamp-bound n [] z h = z
max_timestamp-bound n (d ∷ rows) z h =
    ground (arith, max_timestamp-bound n rows z (λ x i. h x (inr i)), h d (inl refl))

-- The time stamp of a response is not before a row of the first read, and before all later changes.
checkpoint-In :
    (now : ℕ) (c : Change) (rows : List Change)
    → In c rows
    → 0 < c.timestamp
    → c.timestamp ≤ checkpoint_of now rows
checkpoint-In now c rows i z = ground (arith, In-max_timestamp c rows i)

checkpoint-before :
    (now : ℕ) (c d : Change) (rows : List Change)
    → In d rows
    → 0 < d.timestamp
    → ((x : Change) → In x rows → x.timestamp < c.timestamp)
    → checkpoint_of now rows < c.timestamp
checkpoint-before now c d rows i z h =
    let low = h d i in
    let above : 0 < c.timestamp = omega (arith, low) in
    ground (arith, In-max_timestamp d rows i, max_timestamp-bound c.timestamp rows above h)

-- One poll: the change is named, or it is behind the time stamp and was not there at the first read.
poll_lem :
    (since checkpoint : ℕ) (p : Poll) (actions : List ChangeAction) (c : Change)
    → since < c.timestamp
    → parse_since p.since ≡ some since
    → handle_metadata_changes p.now p.since
        (some p.first)
        (some (cleanup_changes p.cleaned p.recorded))
      ≡ changes checkpoint actions
    → IsInOrder c p
    → (is_named c.package_name actions ≡ true) ⊎ ((checkpoint < c.timestamp) × ¬ (In c p.first))
unfolding handle_metadata_changes
poll_lem since checkpoint p actions c lt parsed h (le, order) =
    let k = rw parsed at h in
    let (fresh, at, same) =
      respond_since-changes p.now since checkpoint p.first (cleanup_changes p.cleaned p.recorded)
        actions k in
    elim (Bool-cases (leb c.timestamp checkpoint)) [
      | inr late ↦
          let behind : checkpoint < c.timestamp = ground (arith, late) in
          inr (
            behind,
            λ i. omega (arith, behind, at, checkpoint-In p.now c p.first i (omega (arith, lt))),
          )
      | inl early ↦ elim order [
        | inl i ↦
            let kept =
              In-cleanup_changes p.cleaned c p.recorded i (ground (arith, fresh, le, lt)) in
            inl (
              rw (sym same) (
                actions_between-In since checkpoint c (cleanup_changes p.cleaned p.recorded) kept
                  (ground (arith, lt, early))))
        | inr (later, d, i, z) ↦
            let behind = checkpoint-before p.now c d p.first i z later in
            absurd (ground (arith, early, behind, at))
      ]
    ]

-- A client polls from the time stamp of its last response each time. A change behind the first `since` is
-- named in one of the responses, or it is behind the last time stamp, left to the next poll, and no poll
-- found it at its first read. At each poll the change is recorded before the second read, or it is not
-- yet recorded and later than the rows of the first read, of which there then is one behind time 0. A
-- cleanup is not after its poll, and each poll is answered by changes.
pub no_change_missed :
    (since : ℕ) (polls : List Poll) (responses : List (ℕ × List ChangeAction)) (c : Change)
    → since < c.timestamp
    → Polls since polls responses
    → ((p : Poll) → In p polls → IsInOrder c p)
    → (any (λ (r : ℕ × List ChangeAction). is_named c.package_name r.1) responses ≡ true)
      ⊎ ((last_checkpoint since responses < c.timestamp)
          × ((p : Poll) → In p polls → ¬ (In c p.first)))
no_change_missed since [] [] c lt w order = inr (lt, λ p i. absurd i)
no_change_missed since [] (r ∷ rs) c lt w order = absurd w
no_change_missed since (p ∷ ps) [] c lt w order = absurd w
no_change_missed since (p ∷ ps) ((checkpoint, actions) ∷ rs) c lt (parsed, answered, rest) order =
    elim (poll_lem since checkpoint p actions c lt parsed answered (order p (inl refl))) [
      | inl named ↦ inl (ground (arith, named))
      | inr (behind, absent) ↦
          elim (no_change_missed checkpoint ps rs c behind rest (λ q i. order q (inr i))) [
            | inl named ↦ inl (ground (arith, named))
            | inr (last, none_found) ↦ inr (
              last,
              λ q i f. elim i [
                | inl e ↦ absent (subst (λ (x : Poll). In c x.first) (sym e) f)
                | inr j ↦ none_found q j f
              ],
            )
          ]
    ]
