-- ===== src/Poll/Lifecycle.antt =====
-- Closing and deleting a poll: who may, and what it stops.
use go_signal.Base.{
  Bool, true, ◌||◌, ◌≡◌, ◌∙◌, ◌⊎◌, inl, inr, List, [], ◌∷◌, arith, Bool-cases, Option-cases, refl,
  str_eq→eq,
}
use go_signal.Uuid.{UuidLib}
use go_signal.Types.{chat_key}
use go_signal.Events.{Event, PollVote, PollClose, Delete, poll_vote, poll_close, delete}
use go_signal.Poll.State.{PollState, PollReference, reference}
use go_signal.Poll.Observe.{
  Votes, lookup, accept_vote, observe_vote, observe_close, observe_control, observe_controls,
}

abbrev pub is_over : PollState → Bool
is_over s = s.deleted || s.closure_observed

-- What the end of a poll fixes.
pub record Frozen (s t : PollState) : Type 0 where
  pub closure : t.closure_observed ≡ s.closure_observed
  pub at : t.closed_at ≡ s.closed_at
  pub stays_deleted : s.deleted ≡ true → t.deleted ≡ true

-- The event is a closure, or a deletion, of this poll by its author in its chat.
abbrev pub IsAuthorClose : PollReference → Event → Type 0
IsAuthorClose ref e =
    (c : PollClose) × (e ≡ poll_close c)
    × (chat_key c.chat ≡ chat_key ref.chat)
    × (c.target_timestamp ≡ ref.timestamp)
    × (c.sender.aci ≡ ref.author.aci)

abbrev pub IsAuthorDelete : PollReference → Event → Type 0
IsAuthorDelete ref e =
    (d : Delete) × (e ≡ delete d)
    × (chat_key d.chat ≡ chat_key ref.chat)
    × (d.target_timestamp ≡ ref.timestamp)
    × (d.sender.aci ≡ ref.author.aci)

-- acceptVote leaves the life of the poll alone.
pub over-accept_vote :
    (s : PollState) (e : PollVote) (m : Votes)
    → ((accept_vote s e m).0.deleted ≡ s.deleted)
      × ((accept_vote s e m).0.closure_observed ≡ s.closure_observed)
      × ((accept_vote s e m).0.closed_at ≡ s.closed_at)
unfolding accept_vote
over-accept_vote s e m = elim (Option-cases (lookup e.sender.aci m)) [
  | inl q ↦ rw (q, accept_vote) (refl, refl, refl)
  | inr (prev, q) ↦ rw (q, accept_vote) (ground arith, ground arith, ground arith)
]

module _ ⦃u : UuidLib⦄ where
  observe_vote_lifeless :
      (s : PollState) (m : Votes) (e : PollVote)
      → ((observe_vote s m e).0.deleted ≡ s.deleted)
        × ((observe_vote s m e).0.closure_observed ≡ s.closure_observed)
        × ((observe_vote s m e).0.closed_at ≡ s.closed_at)
  unfolding observe_vote
  observe_vote_lifeless s m e = ground (arith, over-accept_vote s e m)

  over-votes :
      (s : PollState) (m : Votes) (e : Event) → is_over s ≡ true → (observe_control s m e).1 ≡ m
  unfolding observe_control observe_vote
  over-votes s m (poll_vote e) h = ground arith
  over-votes s m _ h = ground arith

  over-Frozen :
      (s : PollState) (m : Votes) (e : Event)
      → is_over s ≡ true
      → Frozen s (observe_control s m e).0
  unfolding observe_control observe_close
  over-Frozen s m (poll_vote e) h = ground (arith, observe_vote_lifeless s m e)
  over-Frozen s m (poll_close e) h = ground arith
  over-Frozen s m _ h = ground arith

  Frozen-over : {s t : PollState} → Frozen s t → is_over s ≡ true → is_over t ≡ true
  Frozen-over f h = ground arith

  -- Once a poll is closed or deleted, no later event changes the votes, the closure or its time, and
  -- a deleted poll stays deleted.
  pub observe_controls-Frozen :
      (es : List Event) (s : PollState) (m : Votes)
      → is_over s ≡ true
      → ((observe_controls s m es).1 ≡ m) × Frozen s (observe_controls s m es).0
  unfolding observe_controls
  observe_controls-Frozen [] s m h =
      (refl, record { closure = refl; at = refl; stays_deleted = λ d. d })
  observe_controls-Frozen (e ∷ es) s m h =
      let f = over-Frozen s m e h in
      let rest =
        observe_controls-Frozen es (observe_control s m e).0 (observe_control s m e).1
          (Frozen-over f h) in
      (
        rest.0 ∙ over-votes s m e h,
        record {
          closure = rest.1.closure ∙ f.closure;
          at = rest.1.at ∙ f.at;
          stays_deleted = λ d. rest.1.stays_deleted (f.stays_deleted d);
        },
      )

  -- Only the author ends a poll: an event after which it is closed came after the closure, or is the
  -- author's own closure of it in its chat; and likewise for a deletion.
  pub only_author_closes :
      (s : PollState) (m : Votes) (e : Event)
      → (observe_control s m e).0.closure_observed ≡ true
      → (s.closure_observed ≡ true) ⊎ IsAuthorClose (reference s) e
  unfolding observe_control observe_close
  only_author_closes s m (poll_close e) h = elim (Bool-cases s.closure_observed) [
    | inl c ↦ inl c
    | inr c ↦ inr (
      e,
      refl,
      str_eq→eq (chat_key e.chat) (chat_key s.chat) (ground arith),
      (ground arith),
      str_eq→eq e.sender.aci s.author.aci (ground arith),
    )
  ]
  only_author_closes s m (poll_vote e) h = inl (ground (arith, observe_vote_lifeless s m e))
  only_author_closes s m _ h = inl (ground arith)

  pub only_author_deletes :
      (s : PollState) (m : Votes) (e : Event)
      → (observe_control s m e).0.deleted ≡ true
      → (s.deleted ≡ true) ⊎ IsAuthorDelete (reference s) e
  unfolding observe_control observe_close
  only_author_deletes s m (delete e) h = elim (Bool-cases s.deleted) [
    | inl c ↦ inl c
    | inr c ↦ inr (
      e,
      refl,
      str_eq→eq (chat_key e.chat) (chat_key s.chat) (ground arith),
      (ground arith),
      str_eq→eq e.sender.aci s.author.aci (ground arith),
    )
  ]
  only_author_deletes s m (poll_vote e) h = inl (ground (arith, observe_vote_lifeless s m e))
  only_author_deletes s m _ h = inl (ground arith)
