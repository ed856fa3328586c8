-- ===== src/Inbox/Receiving.antt =====
-- What Run of internal/app/inbox.go does over a whole sequence of events.
use go_signal.Base.{
  ℕ, ◌+◌, ◌≡◌, ◌≢◌, refl, sym, ◌∙◌, ◌⊎◌, inl, inr, Bool, true, false, not, ◌&&◌, ◌||◌, Option, none,
  some, is_some, any, List, [], ◌∷◌, if◌then◌else◌, Option-cases,
}
use go_signal.Events.{
  Event, message, story, poll_vote, poll_close, pin, unpin, edit, delete, reaction, typing, receipt,
  read_sync, unsupported, decryption_failure, identity_changed, queue_empty, connection,
}
use go_signal.Inbox.Order.{IsOrdered, changes-IsOrdered}
use go_signal.Inbox.Classify.{lost_connection}
use go_signal.Inbox.Receive.{
  Inbox, Arrival, Turn, arrives, context_done, RunError, Ran, observe, prune_old, store, checked,
  receive, stop_or, loop, run,
}
use go_signal.Inbox.Growth.{
  is_storable, Grown, Grown-compose, Grown-after, Grown-end, prune_old-Grown, none_stored,
  store_event-Outcome,
}

observe-Grown : (i : Inbox) (now : ℕ) (evt : Event) → Grown 0 i (observe i now evt)
unfolding observe
observe-Grown i now (connection _) = none_stored i
observe-Grown i now (read_sync _) = none_stored i
observe-Grown i now (typing _) = none_stored i
observe-Grown i now (receipt _) = none_stored i
observe-Grown i now queue_empty = none_stored i
observe-Grown i now (message _) = none_stored i
observe-Grown i now (story _) = none_stored i
observe-Grown i now (poll_vote _) = none_stored i
observe-Grown i now (poll_close _) = none_stored i
observe-Grown i now (pin _) = none_stored i
observe-Grown i now (unpin _) = none_stored i
observe-Grown i now (edit _) = none_stored i
observe-Grown i now (delete _) = none_stored i
observe-Grown i now (reaction _) = none_stored i
observe-Grown i now (unsupported _) = none_stored i
observe-Grown i now (decryption_failure _) = none_stored i
observe-Grown i now (identity_changed _) = none_stored i

-- The arrivals that end Run: a connection that is lost for good, an event that is not stored.
abbrev pub is_lost : Event → Bool
is_lost evt = is_some (lost_connection evt)

abbrev pub stops : Arrival → Bool
stops a = is_lost a.event || is_storable a.event && a.add_fails

abbrev pub is_kept : Arrival → Bool
is_kept a = is_storable a.event && not a.add_fails

some≢none : {A : Type 0} {a : A} → some a ≢ none
some≢none h = cc

lost_unstorable : (evt : Event) → (lost_connection evt ≡ none) ⊎ (is_storable evt ≡ false)
unfolding lost_connection
lost_unstorable (connection _) = inr refl
lost_unstorable (read_sync _) = inl refl
lost_unstorable (typing _) = inl refl
lost_unstorable (receipt _) = inl refl
lost_unstorable queue_empty = inl refl
lost_unstorable (message _) = inl refl
lost_unstorable (story _) = inl refl
lost_unstorable (poll_vote _) = inl refl
lost_unstorable (poll_close _) = inl refl
lost_unstorable (pin _) = inl refl
lost_unstorable (unpin _) = inl refl
lost_unstorable (edit _) = inl refl
lost_unstorable (delete _) = inl refl
lost_unstorable (reaction _) = inl refl
lost_unstorable (unsupported _) = inl refl
lost_unstorable (decryption_failure _) = inl refl
lost_unstorable (identity_changed _) = inl refl

abbrev Received : Inbox → Arrival → Inbox × Option RunError → Type 0
Received i a out = Grown (if is_kept a then 1 else 0) i out.0 × (is_some out.1 ≡ stops a)

receive-Received : (i : Inbox) (a : Arrival) → Received i a (receive i a)
unfolding receive checked
receive-Received i a =
    let seen = observe i a.now a.event in
    let g = observe-Grown i a.now a.event in
    let o = store_event-Outcome seen a a.event in
    let h = Grown-after (if is_kept a then 1 else 0) i seen (store seen a).0 g o.0 in
    elim (Option-cases (lost_connection a.event)) [
      | inl n ↦ rw n (h, o.1)
      | inr (err, s) ↦ elim (lost_unstorable a.event) [
        | inl n ↦ absurd (some≢none (sym s ∙ n))
        | inr u ↦ rw (s, u) (g, refl)
      ]
    ]

-- The turns that end Run: the end of its context, and an arrival that does.
abbrev pub ends : Turn → Bool
ends (arrives a) = stops a
ends context_done = true

abbrev pub keeps : Turn → Bool
keeps (arrives a) = is_kept a
keeps context_done = false

-- The turns up to the first that ends Run, and those after it.
abbrev pub taken_of : List Turn → List Turn
taken_of [] = []
taken_of (t ∷ turns) = t ∷ (if ends t then [] else taken_of turns)

abbrev pub after_stop : List Turn → List Turn
after_stop [] = []
after_stop (t ∷ turns) = if ends t then turns else after_stop turns

abbrev pub kept_count : List Turn → ℕ
kept_count [] = 0
kept_count (t ∷ turns) = (if keeps t then 1 else 0) + kept_count turns

abbrev pub RunsTo : Inbox → List Turn → Ran → Type 0
RunsTo i turns ran =
    Grown (kept_count (taken_of turns)) i ran.inbox
    × (ran.untaken ≡ after_stop turns)
    × (is_some ran.err ≡ any ends turns)

stop_or-RunsTo :
    (i : Inbox) (a : Arrival) (turns : List Turn) (out : Inbox × Option RunError)
    → Received i a out
    → RunsTo out.0 turns (loop out.0 turns)
    → RunsTo i (arrives a ∷ turns) (stop_or (loop out.0 turns) out turns)
unfolding stop_or
stop_or-RunsTo i a turns (j, none) g rest =
    let s : stops a ≡ false = sym g.1 in
    rw s (
      Grown-compose (if is_kept a then 1 else 0) _ i j (loop j turns).inbox g.0 rest.0,
      rest.1,
      rest.2,
    )
stop_or-RunsTo i a turns (j, some err) g rest =
    let s : stops a ≡ true = sym g.1 in
    rw s (Grown-end (if is_kept a then 1 else 0) i j g.0, refl, refl)

loop-RunsTo : (i : Inbox) (turns : List Turn) → RunsTo i turns (loop i turns)
unfolding loop
loop-RunsTo i [] = (none_stored i, refl, refl)
loop-RunsTo i (context_done ∷ turns) = (none_stored i, refl, refl)
loop-RunsTo i (arrives a ∷ turns) =
    stop_or-RunsTo i a turns (receive i a) (receive-Received i a)
      (loop-RunsTo (receive i a).0 turns)

Grown-IsOrdered : (n : ℕ) (i j : Inbox) → Grown n i j → IsOrdered i.table → IsOrdered j.table
Grown-IsOrdered n i j g w = rw g.0.1 (changes-IsOrdered i.table g.0.0 w)

-- Run takes events until its context is done, an event reports a connection lost for good or the
-- store fails to add one, and ends with an error exactly if one of these happens; what comes after
-- is left, and without them Run takes all events. Every event it takes that is a message, edit,
-- delete, reaction, story, poll, pin, unsupported content, decryption failure or identity change
-- gets one new ID, one wake-up of the waiting readers and one call of Added, unless the store fails;
-- no other event gets any. All that happens to the table are additions, read marks and prunings, so
-- its rows stay sorted by ID.
pub run_stores :
    (i : Inbox) (now : ℕ) (prune_fails : Bool) (turns : List Turn)
    → IsOrdered i.table
    → RunsTo i turns (run i now prune_fails turns)
      × IsOrdered (run i now prune_fails turns).inbox.table
unfolding run
run_stores i now fails turns w =
    let start = prune_old i now fails in
    let r = loop-RunsTo start turns in
    let g =
      Grown-after (kept_count (taken_of turns)) i start (loop start turns).inbox
        (prune_old-Grown i now fails) r.0 in
    ((g, r.1, r.2), Grown-IsOrdered _ i (loop start turns).inbox g w)
