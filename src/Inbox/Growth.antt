-- ===== src/Inbox/Growth.antt =====
-- What one event does to the inbox of internal/app/inbox.go: the table goes through changes.
use go_signal.Base.{
  ℕ, ◌+◌, ◌-◌, ◌≡◌, refl, ap, sym, ◌∙◌, inl, inr, Bool, true, false, not, ◌&&◌, ◌||◌, Option, none,
  some, is_some, List, [], ◌∷◌, ◌++◌, ◌==◌, if◌then◌else◌, map, length, arith, Bool-cases,
}
use go_signal.Events.{
  Event, message, story, poll_vote, poll_close, pin, unpin, edit, delete, reaction, typing, receipt,
  read_sync, unsupported, decryption_failure, identity_changed, queue_empty, connection,
}
use go_signal.Inbox.Table.{Table, Change, adds, marks, prunes, add, prune, change, changes}
use go_signal.Inbox.Receive.{
  Inbox, Stored, Arrival, RunError, not_stored, store_mark, prune_old, record_of, store_event,
}

-- The events that become entries.
abbrev pub is_storable : Event → Bool
is_storable (typing _) = false
is_storable (receipt _) = false
is_storable (read_sync _) = false
is_storable (connection _) = false
is_storable queue_empty = false
is_storable _ = true

-- One inbox against another: the table went through changes, and gave `n` more IDs.
abbrev pub Grown : ℕ → Inbox → Inbox → Type 0
Grown n i j =
    ((cs : List (Change Stored)) × (j.table ≡ changes i.table cs))
    × (j.table.sequence ≡ i.table.sequence + n)
    × (length j.added ≡ length i.added + n)
    × (j.changed ≡ i.changed + n)

abbrev pub Outcome : Inbox → Arrival → Event → Inbox × Option RunError → Type 0
Outcome i a evt out =
    Grown (if is_storable evt && not a.add_fails then 1 else 0) i out.0
    × (is_some out.1 ≡ (is_storable evt && a.add_fails))

changes-append :
    (t : Table Stored) (cs ds : List (Change Stored))
    → changes t (cs ++ ds) ≡ changes (changes t cs) ds
unfolding changes
changes-append t [] ds = refl
changes-append t (c ∷ cs) ds = changes-append (change t c) cs ds

pub Grown-compose : (m n : ℕ) (i j k : Inbox) → Grown m i j → Grown n j k → Grown (m + n) i k
Grown-compose m n i j k g h = (
  (
    g.0.0 ++ h.0.0,
    h.0.1 ∙ ap (λ t. changes t h.0.0) g.0.1 ∙ sym (changes-append i.table g.0.0 h.0.0),
  ),
  omega (arith, g.1, h.1),
  omega (arith, g.2, h.2),
  omega (arith, g.3, h.3),
)

pub Grown-after : (n : ℕ) (i j k : Inbox) → Grown 0 i j → Grown n j k → Grown n i k
Grown-after n i j k g h =
    let c = Grown-compose 0 n i j k g h in
    (c.0, omega (arith, c.1), omega (arith, c.2), omega (arith, c.3))

pub Grown-end : (n : ℕ) (i j : Inbox) → Grown n i j → Grown (n + 0) i j
Grown-end n i j g = (g.0, omega (arith, g.1), omega (arith, g.2), omega (arith, g.3))

pub prune_old-Grown : (i : Inbox) (now : ℕ) (fails : Bool) → Grown 0 i (prune_old i now fails)
unfolding prune_old changes change prune
prune_old-Grown i now fails =
    elim (Bool-cases (i.opts.max_age == 0 && i.opts.max_count == 0 || fails)) [
      | inl h ↦ rw h (([], refl), omega arith, omega arith, omega arith)
      | inr h ↦ rw h (
        (
          prunes (if i.opts.max_age == 0 then 0 else now - i.opts.max_age) i.opts.max_count ∷ [],
          refl,
        ),
        omega arith,
        omega arith,
        omega arith,
      )
    ]

stored : (i : Inbox) (a : Arrival) (evt : Event) → Inbox × Option RunError
stored i a evt =
    if a.add_fails
    then (i, some not_stored)
    else let s = add i.table (record_of evt a.now) in
      let kept = prune_old (record i { table = s.0 }) a.now a.prune_fails in
      (record kept { changed = kept.changed + 1; added = s.1 ∷ kept.added }, none)

Stored-outcome : Inbox → Arrival → Inbox × Option RunError → Type 0
Stored-outcome i a out =
    Grown (if not a.add_fails then 1 else 0) i out.0 × (is_some out.1 ≡ a.add_fails)

stored_lem : (i : Inbox) (a : Arrival) (evt : Event) → Stored-outcome i a (stored i a evt)
unfolding stored Stored-outcome add changes change
stored_lem i a evt =
    let s = add i.table (record_of evt a.now) in
    let g = prune_old-Grown (record i { table = s.0 }) a.now a.prune_fails in
    elim (Bool-cases a.add_fails) [
      | inl h ↦ rw h ((([], refl), omega arith, omega arith, omega arith), refl)
      | inr h ↦ rw h (
        (
          (adds (record_of evt a.now) ∷ g.0.0, g.0.1),
          omega (arith, g.1),
          omega (arith, g.2),
          omega (arith, g.3),
        ),
        refl,
      )
    ]

pub none_stored : (i : Inbox) → Grown 0 i i
unfolding changes
none_stored i = (([], refl), omega arith, omega arith, omega arith)

pub store_event-Outcome :
    (i : Inbox) (a : Arrival) (evt : Event) → Outcome i a evt (store_event i a evt)
unfolding store_event Stored-outcome stored
store_event-Outcome i a (read_sync sync) = elim (Bool-cases a.mark_fails) [
  | inl h ↦ rw h (none_stored i, refl)
  | inr h ↦ rw h (
    (
      (marks (map store_mark sync.messages) ∷ [], unfold changes change in refl),
      omega arith,
      omega arith,
      omega arith,
    ),
    refl,
  )
]
store_event-Outcome i a (typing _) = (none_stored i, refl)
store_event-Outcome i a (receipt _) = (none_stored i, refl)
store_event-Outcome i a (connection _) = (none_stored i, refl)
store_event-Outcome i a queue_empty = (none_stored i, refl)
store_event-Outcome i a (message e) = stored_lem i a (message e)
store_event-Outcome i a (story e) = stored_lem i a (story e)
store_event-Outcome i a (poll_vote e) = stored_lem i a (poll_vote e)
store_event-Outcome i a (poll_close e) = stored_lem i a (poll_close e)
store_event-Outcome i a (pin e) = stored_lem i a (pin e)
store_event-Outcome i a (unpin e) = stored_lem i a (unpin e)
store_event-Outcome i a (edit e) = stored_lem i a (edit e)
store_event-Outcome i a (delete e) = stored_lem i a (delete e)
store_event-Outcome i a (reaction e) = stored_lem i a (reaction e)
store_event-Outcome i a (unsupported e) = stored_lem i a (unsupported e)
store_event-Outcome i a (decryption_failure e) = stored_lem i a (decryption_failure e)
store_event-Outcome i a (identity_changed e) = stored_lem i a (identity_changed e)
