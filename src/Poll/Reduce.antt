-- ===== src/Poll/Reduce.antt =====
-- internal/signal/poll_reduce.go: the sorted votes, the tally, and ReducePoll. The order in which
-- Go walks the map of votes is any order of the list (Poll/Order.antt). `none` is an index out of
-- range, which stops a Go program.
use go_signal.Base.{
  ℕ, zero, suc, ◌+◌, Option, none, some, List, [], ◌∷◌, str_lt, length, replicate, if◌then◌else◌,
}
use go_signal.Uuid.{UuidLib}
use go_signal.Types.{Poll}
use go_signal.Events.{Event}
use go_signal.Poll.State.{PollReference, StateVote, PollState, init}
use go_signal.Poll.Creation.{observe_creations}
use go_signal.Poll.Observe.{Votes, observe_controls}

-- slices.SortFunc by the voters' ACIs
unfoldable pub insert_vote : StateVote → List StateVote → List StateVote
insert_vote v [] = v ∷ []
insert_vote v (w ∷ ws) =
    let rest = insert_vote v ws in if str_lt w.voter.aci v.voter.aci then w ∷ rest else v ∷ w ∷ ws

unfoldable pub sort_votes : List StateVote → List StateVote
unfolding insert_vote
sort_votes [] = []
sort_votes (v ∷ vs) = insert_vote v (sort_votes vs)

-- The values of the map, in the order in which Go walks it.
unfoldable pub values : Votes → List StateVote
values [] = []
values ((k, v) ∷ m) = v ∷ values m

-- state.Tally[index]++
unfoldable pub bump : List ℕ → ℕ → Option (List ℕ)
bump [] i = none
bump (n ∷ ns) zero = some ((n + 1) ∷ ns)
bump (n ∷ ns) (suc i) = elim (bump ns i) [ none ↦ none | some ms ↦ some (n ∷ ms) ]

unfoldable pub bump_all : List ℕ → List ℕ → Option (List ℕ)
unfolding bump
bump_all t [] = some t
bump_all t (i ∷ is) = elim (bump t i) [ none ↦ none | some t' ↦ bump_all t' is ]

unfoldable pub tally_votes : List ℕ → List StateVote → Option (List ℕ)
unfolding bump_all
tally_votes t [] = some t
tally_votes t (v ∷ vs) = elim (bump_all t v.option_indexes) [
  | none ↦ none
  | some t' ↦ tally_votes t' vs
]

unfoldable pub fill_tally : PollState → Option Poll → Option PollState
unfolding tally_votes
fill_tally s none = some s
fill_tally s (some p) =
    if s.deleted then some s else elim (tally_votes (replicate (length p.options) 0) s.votes) [
      | none ↦ none
      | some t ↦ some (record s { tally = some t })
    ]

-- PollState.finalizeVotes; state.Votes is empty before it.
unfoldable pub finalize_votes : PollState → Votes → Option PollState
unfolding sort_votes values fill_tally
finalize_votes s votes = fill_tally (record s { votes = sort_votes (values votes) }) s.creation

module _ ⦃u : UuidLib⦄ where
  -- ReducePoll
  unfoldable pub reduce : PollReference → List Event → Option PollState
  unfolding init observe_creations observe_controls finalize_votes
  reduce ref events =
      let r = observe_controls (observe_creations (init ref) events) [] events in
      finalize_votes r.0 r.1
