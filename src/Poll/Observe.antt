-- ===== src/Poll/Observe.antt =====
-- internal/signal/poll_reduce.go: the pass over the events for votes, closures and deletions.
-- Go's map of votes is an association list.
use go_signal.Base.{
  ℕ, ◌+◌, Bool, true, false, not, ◌&&◌, ◌||◌, Option, none, some, List, [], ◌∷◌, Bytes, any, ◌==◌,
  leb, ltb, str_eq, is_some, length, if◌then◌else◌,
}
use go_signal.Uuid.{UuidLib, is_canonical}
use go_signal.Types.{chat_key, Poll}
use go_signal.Events.{PollVote, PollClose, Event, poll_vote, poll_close, delete}
use go_signal.Request.PollCheck.{check_vote}
use go_signal.Poll.State.{StateVote, PollState}
use go_signal.Poll.Creation.{poll_envelope, same_poll_selection}

-- The map from a voter's ACI to the retained vote.
abbrev pub Votes : Type 0
Votes = List (Bytes × StateVote)

unfoldable pub lookup : Bytes → Votes → Option StateVote
lookup k [] = none
lookup k ((j, v) ∷ m) = let rest = lookup k m in if str_eq j k then some v else rest

unfoldable pub insert : Bytes → StateVote → Votes → Votes
insert k v [] = (k, v) ∷ []
insert k v ((j, w) ∷ m) =
    let rest = insert k v m in if str_eq j k then (k, v) ∷ m else (j, w) ∷ rest

-- pollControlMatches
unfoldable pub poll_control_matches : Event → PollState → Bool
poll_control_matches (delete e) s =
    e.target_timestamp == s.timestamp && str_eq e.sender.aci s.author.aci
poll_control_matches (poll_close e) s = e.target_timestamp == s.timestamp
poll_control_matches (poll_vote e) s =
    e.target_timestamp == s.timestamp && str_eq e.target_author.aci s.author.aci
poll_control_matches _ s = false

-- PollState.observeClose
unfoldable pub observe_close : PollState → PollClose → PollState
observe_close s e =
    if not (e.target_timestamp == s.timestamp)
    then s
    else if not (str_eq e.sender.aci s.author.aci)
    then record s { ignored_invalid = s.ignored_invalid + 1 }
    else if not s.deleted && not s.closure_observed
    then record s { closure_observed = true; closed_at = e.timestamp }
    else s

-- PollState.acceptVote: the state with its count of conflicts, and whether the vote replaces `prev`.
accept_over : PollState → PollVote → StateVote → PollState × Bool
unfolding same_poll_selection
accept_over s e prev =
    if not (e.vote_count == prev.vote_count) then (s, ltb prev.vote_count e.vote_count) else (
      if same_poll_selection e.option_indexes prev.option_indexes
          then s
          else record s { conflicts = s.conflicts + 1 },
      e.sync && ltb prev.timestamp e.timestamp,
    )

unfoldable pub accept_vote : PollState → PollVote → Votes → PollState × Bool
unfolding accept_over
accept_vote s e votes = elim (lookup e.sender.aci votes) [
  | none ↦ (s, true)
  | some prev ↦ accept_over s e prev
]

abbrev pub state_vote : PollVote → StateVote
state_vote e = record {
  voter = e.sender;
  option_indexes = e.option_indexes;
  vote_count = e.vote_count;
  timestamp = e.timestamp;
}

-- The part of validObservedVote that needs the creation.
unfoldable pub vote_fits : Option Poll → List ℕ → Bool
vote_fits none indexes = true
vote_fits (some p) indexes =
    if not p.allow_multiple && ltb 1 (length indexes)
    then false
    else not (any (λ index. leb (length p.options) index) indexes)

module _ ⦃u : UuidLib⦄ where
  -- validObservedVote
  unfoldable pub valid_observed_vote : PollVote → Option Poll → Bool
  unfolding vote_fits
  valid_observed_vote e p =
      if not (is_canonical e.sender.aci)
      then false
      else if is_some (check_vote (record (e.vote) { vote_count = 1 }))
      then false
      else vote_fits p e.option_indexes

  -- PollState.observeVote
  unfoldable pub observe_vote : PollState → Votes → PollVote → PollState × Votes
  unfolding accept_vote valid_observed_vote
  observe_vote s votes e =
      if s.deleted || s.closure_observed
      then (s, votes)
      else if not (e.target_timestamp == s.timestamp)
          || not (str_eq e.target_author.aci s.author.aci)
      then (s, votes)
      else if not (valid_observed_vote e s.creation)
      then (record s { ignored_invalid = s.ignored_invalid + 1 }, votes)
      else let (s', accepted) = accept_vote s e votes in
        if accepted then (s', insert e.sender.aci (state_vote e) votes) else (s', votes)

  -- The switch of observeControl.
  unfoldable pub dispatch_control : PollState → Votes → Event → PollState × Votes
  unfolding observe_close observe_vote
  dispatch_control s votes (delete e) =
      if e.target_timestamp == s.timestamp && str_eq e.sender.aci s.author.aci
      then (record s { deleted = true }, votes)
      else (s, votes)
  dispatch_control s votes (poll_close e) = (observe_close s e, votes)
  dispatch_control s votes (poll_vote e) = observe_vote s votes e
  dispatch_control s votes _ = (s, votes)

  -- PollState.observeControl
  unfoldable pub observe_control : PollState → Votes → Event → PollState × Votes
  unfolding poll_envelope poll_control_matches dispatch_control
  observe_control s votes e = elim (poll_envelope e) [
    | none ↦ (s, votes)
    | some env ↦
        if not (str_eq (chat_key env.chat) (chat_key s.chat))
        then (s, votes)
        else if env.timestamp == 0 && poll_control_matches e s
        then (record s { ignored_invalid = s.ignored_invalid + 1 }, votes)
        else dispatch_control s votes e
  ]

  -- for _, event := range events { state.observeControl(event, votes) }
  unfoldable pub observe_controls : PollState → Votes → List Event → PollState × Votes
  unfolding observe_control
  observe_controls s votes [] = (s, votes)
  observe_controls s votes (e ∷ es) =
      observe_controls (observe_control s votes e).0 (observe_control s votes e).1 es
