-- ===== src/Poll/Outcome.antt =====
-- What ReducePoll returns: it never fails, its votes are sorted with one for each voter, and its
-- tally counts them.
use mathlib.Core.List.{Perm}
use go_signal.Base.{
  ℕ, ◌<◌, true, false, not, ◌&&◌, ◌≡◌, ◌∙◌, subst, inl, inr, Option, none, some, List, [], ◌∷◌, any,
  leb, length, get_elem?, is_some, arith, Bool-cases, refl,
}
use go_signal.Uuid.{UuidLib}
use go_signal.Types.{Poll}
use go_signal.Events.{Event}
use go_signal.Poll.State.{PollState, PollReference, init}
use go_signal.Poll.Creation.{observe_creations}
use go_signal.Poll.Observe.{Votes, vote_fits, observe_controls}
use go_signal.Poll.Reduce.{values, sort_votes, fill_tally, finalize_votes, reduce}
use go_signal.Poll.Tally.{Below, VotesBelow, tally_votes-total, VotesBelow-sort_votes}
use go_signal.Poll.Counting.{
  supporters, DistinctIndexes, total-eq-supporters, DistinctIndexes-sort_votes,
}
use go_signal.Poll.Retained.{
  tally-observe_creations, tally-observe_controls, EntriesFit, Retained, observe_controls-Retained,
  creation-observe_controls, Retained-empty,
}
use go_signal.Poll.Order.{Ascending, sort_votes-perm, Ascending-sort_votes, Retained-DistinctVoters}

any-Below : (n : ℕ) (is : List ℕ) → any (λ i. leb n i) is ≡ false → Below n is
any-Below n [] h = tt
any-Below n (i ∷ is) h = ground (arith, any-Below n is)

vote_fits-Below :
    (p : Poll) (is : List ℕ) → vote_fits (some p) is ≡ true → Below (length p.options) is
unfolding vote_fits
vote_fits-Below p is h = any-Below (length p.options) is (ground arith)

values-VotesBelow :
    (p : Poll) (m : Votes) → EntriesFit (some p) m → VotesBelow (length p.options) (values m)
unfolding values
values-VotesBelow p [] h = tt
values-VotesBelow p ((k, v) ∷ m) h =
    (vote_fits-Below p v.option_indexes h.0.1, values-VotesBelow p m h.1)

-- The tally has an entry for each option of the creation: how many of the votes chose it.
abbrev pub TallyCounts : PollState → Type 0
TallyCounts s =
    (p : Poll) (t : List ℕ)
    → s.creation ≡ some p
    → s.tally ≡ some t
    → (length t ≡ length p.options)
      × ((i : ℕ) → i < length p.options → get_elem? t i ≡ some (supporters i s.votes))

-- The tally is there exactly when the creation is known and the poll is not deleted.
abbrev pub TallyPresent : PollState → Type 0
TallyPresent s = is_some s.tally ≡ (is_some s.creation && not s.deleted)

-- A finished state `r` of the counted state `s`.
record Finished (s r : PollState) : Type 0 where
  votes_eq : r.votes ≡ s.votes
  creation_eq : r.creation ≡ s.creation
  counts : TallyCounts r
  present : TallyPresent r

fill_tally-Finished :
    (s : PollState) (c : Option Poll)
    → s.creation ≡ c
    → s.tally ≡ none
    → ((p : Poll) → c ≡ some p → VotesBelow (length p.options) s.votes)
    → DistinctIndexes s.votes
    → (r : PollState) × (fill_tally s c ≡ some r) × Finished s r
unfolding fill_tally
fill_tally-Finished s none c t b d = (
  s,
  refl,
  record { votes_eq = refl; creation_eq = refl; counts = λ p u e. cc; present = ground arith },
)
fill_tally-Finished s (some p) c t b dis = elim (Bool-cases s.deleted) [
  | inl d ↦ (
    s,
    rw d,
    record { votes_eq = refl; creation_eq = refl; counts = λ p u e f. cc; present = ground arith },
  )
  | inr d ↦
      let (u, e, len, at) = tally_votes-total s.votes (length p.options) (b p refl) in
      (
        record s { tally = some u },
        ground (arith, e),
        record {
          votes_eq = refl;
          creation_eq = refl;
          counts = λ p' u' e' f. (
            ground (arith, len),
            λ i lt. ground (arith, at i, total-eq-supporters i s.votes dis),
          );
          present = ground arith;
        },
      )
]

values-DistinctIndexes : (p : Option Poll) (m : Votes) → EntriesFit p m → DistinctIndexes (values m)
unfolding values
values-DistinctIndexes p [] h = tt
values-DistinctIndexes p ((k, v) ∷ m) h = (h.0.2, values-DistinctIndexes p m h.1)

EntriesFit-VotesBelow :
    (p : Poll) (c : Option Poll) (m : Votes)
    → EntriesFit c m
    → c ≡ some p
    → VotesBelow (length p.options) (values m)
EntriesFit-VotesBelow p c m h e =
    values-VotesBelow p m (subst (λ (x : Option Poll). EntriesFit x m) e h)

finalize_votes-Finished :
    (s : PollState) (m : Votes)
    → Retained s.creation m
    → s.tally ≡ none
    → (r : PollState) × (finalize_votes s m ≡ some r)
      × Ascending r.votes
      × TallyCounts r
      × TallyPresent r
unfolding finalize_votes
finalize_votes-Finished s m h t =
    let (r, e, f) =
      fill_tally-Finished counted s.creation refl t
        (λ p q.
          VotesBelow-sort_votes (length p.options) (values m)
            (EntriesFit-VotesBelow p s.creation m h.fit q))
        (DistinctIndexes-sort_votes (values m) (values-DistinctIndexes s.creation m h.fit)) in
    (
      r,
      e,
      rw (f.votes_eq) (Ascending-sort_votes (values m) (Retained-DistinctVoters s.creation m h)),
      f.counts,
      f.present,
    )
  where
    counted : PollState
    counted = record s { votes = sort_votes (values m) }

module _ ⦃u : UuidLib⦄ where
  -- The state and the map after both passes over the events.
  abbrev pub observed : PollReference → List Event → PollState × Votes
  observed ref es = observe_controls (observe_creations (init ref) es) [] es

  observed-Retained :
      (ref : PollReference) (es : List Event)
      → Retained (observed ref es).0.creation (observed ref es).1
  observed-Retained ref es =
      rw (creation-observe_controls es (observe_creations (init ref) es) [])
        (observe_controls-Retained es (observe_creations (init ref) es) [] (Retained-empty _))

  observed-tally : (ref : PollReference) (es : List Event) → (observed ref es).0.tally ≡ none
  unfolding init
  observed-tally ref es =
      tally-observe_controls es (observe_creations (init ref) es) []
      ∙ tally-observe_creations es (init ref)

  -- ReducePoll always returns a state. Its votes are strictly sorted by voter, so each voter has
  -- one vote; its tally is present exactly when the creation is known and the poll not deleted, and
  -- then has for each option the number of the votes that chose it.
  pub reduce_total :
      (ref : PollReference) (es : List Event)
      → (r : PollState) × (reduce ref es ≡ some r)
        × Ascending r.votes
        × TallyCounts r
        × TallyPresent r
  unfolding reduce
  reduce_total ref es =
      finalize_votes-Finished (observed ref es).0 (observed ref es).1 (observed-Retained ref es)
        (observed-tally ref es)

  -- The order in which Go walks the map of votes does not matter: any map with the same votes in
  -- another order is finished to the same state as ReducePoll's.
  pub reduce-walk :
      (ref : PollReference) (es : List Event) (m : Votes)
      → Perm (values (observed ref es).1) (values m)
      → finalize_votes (observed ref es).0 m ≡ reduce ref es
  unfolding reduce finalize_votes
  reduce-walk ref es m p = rw (
      sort_votes-perm (values (observed ref es).1) (values m) p
        (Retained-DistinctVoters _ _ (observed-Retained ref es)))
