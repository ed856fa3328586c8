-- ===== src/Poll/Retention.antt =====
-- Which vote of a voter is retained: one that was cast, with the highest counter.
use go_signal.Base.{
  ℕ, ◌≤◌, true, false, ◌≡◌, ◌⊎◌, inl, inr, Option, some, List, [], ◌∷◌, Bytes, if◌then◌else◌, ◌==◌,
  ltb, arith, Some, Bool-cases, Option-cases, refl, str_eq, str_eq→eq, str_eq_refl, str_eq_iff,
}
use go_signal.Uuid.{UuidLib}
use go_signal.Types.{Poll, chat_key}
use go_signal.Events.{Event, PollVote, message, poll_vote}
use go_signal.Poll.State.{PollState, StateVote}
use go_signal.Poll.Creation.{sort_indexes, indexes_eq, same_poll_selection}
use go_signal.Poll.Observe.{
  Votes, lookup, insert, accept_vote, valid_observed_vote, state_vote, observe_vote,
  observe_control, observe_controls,
}
use go_signal.Poll.Retained.{creation-observe_control}
use go_signal.Poll.Lifecycle.{is_over}

pub lookup-insert :
    (k j : Bytes) (v : StateVote) (m : Votes)
    → lookup j (insert k v m) ≡ (if str_eq k j then some v else lookup j m)
unfolding lookup insert
lookup-insert k j v [] = refl
lookup-insert k j v ((i, w) ∷ m) =
    ground (arith, lookup-insert k j v m, str_eq_iff i k, str_eq_iff i j, str_eq_iff k j)

indexes_eq_refl : (is : List ℕ) → indexes_eq is is ≡ true
unfolding indexes_eq
indexes_eq_refl [] = refl
indexes_eq_refl (i ∷ is) = ground (arith, indexes_eq_refl is)

lookup-insert-some :
    (j k : Bytes) (w v : StateVote) (m : Votes)
    → lookup k (insert j w m) ≡ some v
    → (lookup k m ≡ some v) ⊎ ((j ≡ k) × (w ≡ v))
lookup-insert-some j k w v m h = elim (Bool-cases (str_eq j k)) [
  | inl same ↦ inr (str_eq→eq j k same, ground (arith, lookup-insert j k w m))
  | inr other ↦ inl (ground (arith, lookup-insert j k w m))
]

-- The voter has a retained vote, with at least the counter `n`.
abbrev pub AtLeast : Bytes → ℕ → Votes → Type 0
AtLeast k n m = (v : StateVote) × (lookup k m ≡ some v) × (n ≤ v.vote_count)

-- A vote with the highest counter yet, or another vote of the voter with no lower one, is retained.
Accepts : PollState → PollVote → Votes → Type 0
Accepts s e m = ((accept_vote s e m).1 ≡ true) ⊎ AtLeast e.sender.aci e.vote_count m

accept_vote-Accepts : (s : PollState) (e : PollVote) (m : Votes) → Accepts s e m
unfolding accept_vote Accepts
accept_vote-Accepts s e m = elim (Option-cases (lookup e.sender.aci m)) [
  | inl q ↦ inl (rw (q, accept_vote))
  | inr (prev, q) ↦ elim (Bool-cases (ltb prev.vote_count e.vote_count)) [
    | inl low ↦ inl (rw (q, accept_vote) (ground arith))
    | inr high ↦ inr (prev, q, ground arith)
  ]
]

-- An accepted vote has a counter no lower than the vote that it replaces.
accept_vote_mono :
    (s : PollState) (e : PollVote) (m : Votes) (n : ℕ)
    → (accept_vote s e m).1 ≡ true
    → AtLeast e.sender.aci n m
    → n ≤ e.vote_count
unfolding accept_vote
accept_vote_mono s e m n h (v, q, le) = let h' = rw (q, accept_vote) at h in ground arith

AtLeast-insert :
    (k : Bytes) (n : ℕ) (j : Bytes) (v : StateVote) (m : Votes)
    → (j ≡ k → n ≤ v.vote_count)
    → AtLeast k n m
    → AtLeast k n (insert j v m)
AtLeast-insert k n j v m h (w, q, le) = elim (Bool-cases (str_eq j k)) [
  | inl e ↦ (v, rw (lookup-insert j k v m, e), h (str_eq→eq j k e))
  | inr e ↦ (w, rw (lookup-insert j k v m, e) q, le)
]

module _ ⦃u : UuidLib⦄ where
  -- The vote is for this poll, which is still open, and it is valid.
  pub record Countable (s : PollState) (e : PollVote) : Type 0 where
    pub open_poll : is_over s ≡ false
    pub in_chat : chat_key e.chat ≡ chat_key s.chat
    pub stamped : (e.timestamp == 0) ≡ false
    pub target : e.target_timestamp ≡ s.timestamp
    pub author : e.target_author.aci ≡ s.author.aci
    pub valid : valid_observed_vote e s.creation ≡ true

  -- A vote event leaves the map, or enters a valid and accepted vote of this poll.
  observe_vote-cases :
      (s : PollState) (m : Votes) (e : PollVote)
      → ((observe_vote s m e).1 ≡ m)
        ⊎ (((observe_vote s m e).1 ≡ insert e.sender.aci (state_vote e) m)
            × ((accept_vote s e m).1 ≡ true)
            × (valid_observed_vote e s.creation ≡ true))
  unfolding observe_vote
  observe_vote-cases s m e = ground arith

  observe_control-cases :
      (s : PollState) (m : Votes) (e : PollVote)
      → ((observe_control s m (poll_vote e)).1 ≡ m)
        ⊎ ((observe_control s m (poll_vote e)).1 ≡ (observe_vote s m e).1)
  unfolding observe_control
  observe_control-cases s m e = ground arith

  observe_vote-AtLeast :
      (s : PollState) (m : Votes) (e : PollVote) (k : Bytes) (n : ℕ)
      → AtLeast k n m
      → AtLeast k n (observe_vote s m e).1
  observe_vote-AtLeast s m e k n h = elim (observe_vote-cases s m e) [
    | inl same ↦ rw same h
    | inr (new, ok, _) ↦ rw new (
        AtLeast-insert k n e.sender.aci (state_vote e) m
          (λ same. accept_vote_mono s e m n ok (rw same h)) h)
  ]

  -- No event lowers the counter of a retained vote.
  observe_control-AtLeast :
      (s : PollState) (m : Votes) (e : Event) (k : Bytes) (n : ℕ)
      → AtLeast k n m
      → AtLeast k n (observe_control s m e).1
  unfolding observe_control
  observe_control-AtLeast s m (poll_vote e) k n h = elim (observe_control-cases s m e) [
    | inl same ↦ rw same h
    | inr same ↦ rw same (observe_vote-AtLeast s m e k n h)
  ]
  observe_control-AtLeast s m (message e) k n h =
      let r : (observe_control s m (message e)).1 ≡ m = ground arith in rw r h
  observe_control-AtLeast s m _ k n h = ground arith

  observe_controls-AtLeast :
      (es : List Event) (s : PollState) (m : Votes) (k : Bytes) (n : ℕ)
      → AtLeast k n m
      → AtLeast k n (observe_controls s m es).1
  unfolding observe_controls
  observe_controls-AtLeast [] s m k n h = h
  observe_controls-AtLeast (e ∷ es) s m k n h =
      observe_controls-AtLeast es (observe_control s m e).0 (observe_control s m e).1 k n
        (observe_control-AtLeast s m e k n h)

  Countable-observed :
      (s : PollState) (m : Votes) (e : PollVote)
      → Countable s e
      → (observe_control s m (poll_vote e)).1
        ≡ (if (accept_vote s e m).1 then insert e.sender.aci (state_vote e) m else m)
  unfolding observe_control observe_vote
  Countable-observed s m e c = ground (
    arith,
    c.open_poll,
    c.in_chat,
    c.stamped,
    c.target,
    c.author,
    c.valid,
    str_eq_iff (chat_key e.chat) (chat_key s.chat),
    str_eq_iff e.target_author.aci s.author.aci,
  )

  Countable-AtLeast :
      (s : PollState) (m : Votes) (e : PollVote)
      → Countable s e
      → AtLeast e.sender.aci e.vote_count (observe_control s m (poll_vote e)).1
  unfolding Accepts
  Countable-AtLeast s m e c = rw (Countable-observed s m e c) (elim (accept_vote-Accepts s e m) [
    | inl ok ↦ rw ok (
      state_vote e,
      rw (lookup-insert e.sender.aci e.sender.aci (state_vote e) m, str_eq_refl e.sender.aci),
      omega arith,
    )
    | inr old ↦ elim (Bool-cases (accept_vote s e m).1) [
      | inl ok ↦ rw ok (
        state_vote e,
        rw (lookup-insert e.sender.aci e.sender.aci (state_vote e) m, str_eq_refl e.sender.aci),
        omega arith,
      )
      | inr not_ok ↦ rw not_ok old
    ]
  ])

  -- The highest counter wins: after a valid vote of an open poll, whatever comes later, the voter's
  -- retained vote has at least the counter of that vote.
  pub highest_counter_wins :
      (s : PollState) (m : Votes) (e : PollVote) (later : List Event)
      → Countable s e
      → AtLeast e.sender.aci e.vote_count (observe_controls s m (poll_vote e ∷ later)).1
  unfolding observe_controls
  highest_counter_wins s m e later c =
      observe_controls-AtLeast later (observe_control s m (poll_vote e)).0
        (observe_control s m (poll_vote e)).1 e.sender.aci e.vote_count (Countable-AtLeast s m e c)

  -- A redelivered vote is no conflict and does not replace itself.
  accept_vote_again :
      (s : PollState) (m : Votes) (e : PollVote)
      → accept_vote s e (insert e.sender.aci (state_vote e) m) ≡ (s, false)
  unfolding accept_vote same_poll_selection
  accept_vote_again s m e =
      rw
        (
          lookup-insert e.sender.aci e.sender.aci (state_vote e) m,
          str_eq_refl e.sender.aci,
          accept_vote,
        )
        (ground (arith, indexes_eq_refl (sort_indexes e.option_indexes)))

  -- Redelivery of the retained vote changes nothing: neither the state, its count of conflicts
  -- included, nor the map.
  pub redelivery_ignored :
      (s : PollState) (m : Votes) (e : PollVote)
      → Countable s e
      → observe_control s (insert e.sender.aci (state_vote e) m) (poll_vote e)
        ≡ (s, insert e.sender.aci (state_vote e) m)
  unfolding observe_control observe_vote
  redelivery_ignored s m e c = ground (
    arith,
    c.open_poll,
    c.in_chat,
    c.stamped,
    c.target,
    c.author,
    c.valid,
    str_eq_iff (chat_key e.chat) (chat_key s.chat),
    str_eq_iff e.target_author.aci s.author.aci,
    accept_vote_again s m e,
  )

  -- The event cast the vote `v` of the voter `k`, validly for a poll of that creation.
  abbrev pub IsCast : Option Poll → Bytes → StateVote → Event → Type 0
  IsCast p k v ev =
      (e : PollVote) × (ev ≡ poll_vote e)
      × (e.sender.aci ≡ k)
      × (state_vote e ≡ v)
      × (valid_observed_vote e p ≡ true)

  observe_control-IsCast :
      (s : PollState) (m : Votes) (ev : Event) (k : Bytes) (v : StateVote)
      → lookup k (observe_control s m ev).1 ≡ some v
      → (lookup k m ≡ some v) ⊎ IsCast s.creation k v ev
  unfolding observe_control
  observe_control-IsCast s m (poll_vote e) k v h = elim (observe_control-cases s m e) [
    | inl same ↦ inl (rw same at h)
    | inr same ↦ elim (observe_vote-cases s m e) [
      | inl keep ↦ inl (rw keep at (rw same at h))
      | inr (new, _, ok) ↦
          elim (lookup-insert-some e.sender.aci k (state_vote e) v m (rw new at (rw same at h))) [
            | inl old ↦ inl old
            | inr (who, what) ↦ inr (e, refl, who, what, ok)
          ]
    ]
  ]
  observe_control-IsCast s m (message e) k v h = inl (ground arith)
  observe_control-IsCast s m _ k v h = inl (ground arith)

  -- Nothing is made up: a retained vote was in the map before, or one of the events cast it.
  pub retained-IsCast :
      (es : List Event) (s : PollState) (m : Votes) (k : Bytes) (v : StateVote)
      → lookup k (observe_controls s m es).1 ≡ some v
      → (lookup k m ≡ some v) ⊎ Some (IsCast s.creation k v) es
  unfolding observe_controls
  retained-IsCast [] s m k v h = inl h
  retained-IsCast (ev ∷ es) s m k v h =
      elim (retained-IsCast es (observe_control s m ev).0 (observe_control s m ev).1 k v h) [
        | inr later ↦ inr (inr (rw (creation-observe_control s m ev) at later))
        | inl before ↦ elim (observe_control-IsCast s m ev k v before) [
          | inl old ↦ inl old
          | inr cast ↦ inr (inl cast)
        ]
      ]
