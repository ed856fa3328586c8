-- ===== src/Poll/Retained.antt =====
-- What holds of the map of votes at every moment of the pass over the events: each voter has one
-- entry, under their own ACI, and every retained selection fits the poll.
use go_signal.Base.{
  true, false, ◌≡◌, ◌∙◌, inl, inr, Option, List, [], ◌∷◌, arith, Bool-cases, Option-cases, refl,
  Bytes, str_eq, str_eq→eq, str_eq_sym, str_eq_refl,
}
use go_signal.Uuid.{UuidLib}
use go_signal.Types.{Poll}
use go_signal.Events.{Event, PollVote, message, poll_vote}
use go_signal.Request.PollCheck.{check_vote, indexes_refused}
use go_signal.Poll.State.{StateVote, PollState}
use go_signal.Poll.Creation.{observe_creation, observe_creations}
use go_signal.Poll.Observe.{
  Votes, insert, lookup, vote_fits, valid_observed_vote, accept_vote, observe_vote, observe_close,
  observe_control, observe_controls, state_vote,
}

-- The key is not in the map.
abbrev pub Fresh : Bytes → Votes → Type 0
Fresh k [] = Unit {0}
Fresh k ((j, v) ∷ m) = (str_eq j k ≡ false) × Fresh k m

abbrev pub DistinctKeys : Votes → Type 0
DistinctKeys [] = Unit {0}
DistinctKeys ((j, v) ∷ m) = Fresh j m × DistinctKeys m

-- An entry stands under its voter's ACI, its indexes are distinct and fit the poll.
abbrev pub EntryFits : Option Poll → Bytes → StateVote → Type 0
EntryFits p k v =
    (v.voter.aci ≡ k)
    × (vote_fits p v.option_indexes ≡ true)
    × (indexes_refused [] v.option_indexes ≡ false)

abbrev pub EntriesFit : Option Poll → Votes → Type 0
EntriesFit p [] = Unit {0}
EntriesFit p ((k, v) ∷ m) = EntryFits p k v × EntriesFit p m

pub record Retained (p : Option Poll) (m : Votes) : Type 0 where
  pub distinct : DistinctKeys m
  pub fit : EntriesFit p m

Fresh-insert :
    (j k : Bytes) (v : StateVote) (m : Votes)
    → str_eq k j ≡ false
    → Fresh j m
    → Fresh j (insert k v m)
unfolding insert
Fresh-insert j k v [] h f = (h, tt)
Fresh-insert j k v ((i, w) ∷ m) h f = ground (arith, Fresh-insert j k v m h f.1)

insert-DistinctKeys :
    (k : Bytes) (v : StateVote) (m : Votes) → DistinctKeys m → DistinctKeys (insert k v m)
unfolding insert
insert-DistinctKeys k v [] d = (tt, tt)
insert-DistinctKeys k v ((i, w) ∷ m) d = elim (Bool-cases (str_eq i k)) [
  | inl e ↦ let p : i ≡ k = str_eq→eq i k e in ground (arith, str_eq_refl k)
  | inr e ↦
      ground (arith, Fresh-insert i k v m (str_eq_sym k i ∙ e) d.0, insert-DistinctKeys k v m d.1)
]

insert-EntriesFit :
    (p : Option Poll) (k : Bytes) (v : StateVote) (m : Votes)
    → EntryFits p k v
    → EntriesFit p m
    → EntriesFit p (insert k v m)
unfolding insert
insert-EntriesFit p k v [] h hs = (h, tt)
insert-EntriesFit p k v ((i, w) ∷ m) h hs = ground (arith, insert-EntriesFit p k v m h hs.1)

pub insert-Retained :
    (p : Option Poll) (k : Bytes) (v : StateVote) (m : Votes)
    → EntryFits p k v
    → Retained p m
    → Retained p (insert k v m)
insert-Retained p k v m h r = record {
  distinct = insert-DistinctKeys k v m r.distinct;
  fit = insert-EntriesFit p k v m h r.fit;
}

-- acceptVote touches the count of conflicts only.
pub creation-accept_vote :
    (s : PollState) (e : PollVote) (m : Votes) → (accept_vote s e m).0.creation ≡ s.creation
unfolding accept_vote
creation-accept_vote s e m = elim (Option-cases (lookup e.sender.aci m)) [
  | inl q ↦ rw (q, accept_vote)
  | inr (prev, q) ↦ rw (q, accept_vote) (ground arith)
]

module _ ⦃u : UuidLib⦄ where
  -- A vote that passes validation may be retained.
  valid_observed_vote-EntryFits :
      (e : PollVote) (p : Option Poll)
      → valid_observed_vote e p ≡ true
      → EntryFits p e.sender.aci (state_vote e)
  unfolding valid_observed_vote check_vote
  valid_observed_vote-EntryFits e p h = ground arith

  observe_vote-Retained :
      (s : PollState) (m : Votes) (e : PollVote)
      → Retained s.creation m
      → Retained (observe_vote s m e).0.creation (observe_vote s m e).1
  unfolding observe_vote
  observe_vote-Retained s m e r = ground (
    arith,
    creation-accept_vote s e m,
    valid_observed_vote-EntryFits e s.creation,
    insert-Retained s.creation e.sender.aci (state_vote e) m,
  )

  creation-observe_vote :
      (s : PollState) (m : Votes) (e : PollVote) → (observe_vote s m e).0.creation ≡ s.creation
  unfolding observe_vote
  creation-observe_vote s m e = ground (arith, creation-accept_vote s e m)

  -- The pass over the controls leaves the creation alone.
  pub creation-observe_control :
      (s : PollState) (m : Votes) (e : Event) → (observe_control s m e).0.creation ≡ s.creation
  unfolding observe_control observe_close
  creation-observe_control s m (poll_vote e) = ground (arith, creation-observe_vote s m e)
  creation-observe_control s m _ = ground arith

  pub observe_control-Retained :
      (s : PollState) (m : Votes) (e : Event)
      → Retained s.creation m
      → Retained s.creation (observe_control s m e).1
  unfolding observe_control
  observe_control-Retained s m (poll_vote e) r =
      ground (arith, observe_vote-Retained s m e r, creation-observe_vote s m e)
  observe_control-Retained s m _ r = ground arith

  pub observe_controls-Retained :
      (es : List Event) (s : PollState) (m : Votes)
      → Retained s.creation m
      → Retained s.creation (observe_controls s m es).1
  unfolding observe_controls
  observe_controls-Retained [] s m r = r
  observe_controls-Retained (e ∷ es) s m r =
      let same = creation-observe_control s m e in
      rw same at (
        observe_controls-Retained es (observe_control s m e).0 (observe_control s m e).1
          (rw same (observe_control-Retained s m e r)))

  pub creation-observe_controls :
      (es : List Event) (s : PollState) (m : Votes)
      → (observe_controls s m es).0.creation ≡ s.creation
  unfolding observe_controls
  creation-observe_controls [] s m = refl
  creation-observe_controls (e ∷ es) s m =
      creation-observe_controls es (observe_control s m e).0 (observe_control s m e).1
      ∙ creation-observe_control s m e

pub Retained-empty : (p : Option Poll) → Retained p []
Retained-empty p = record { distinct = tt; fit = tt }

-- Neither pass writes the tally.
tally-accept_vote :
    (s : PollState) (e : PollVote) (m : Votes) → (accept_vote s e m).0.tally ≡ s.tally
unfolding accept_vote
tally-accept_vote s e m = elim (Option-cases (lookup e.sender.aci m)) [
  | inl q ↦ rw (q, accept_vote)
  | inr (prev, q) ↦ rw (q, accept_vote) (ground arith)
]

tally-observe_creation : (s : PollState) (e : Event) → (observe_creation s e).tally ≡ s.tally
unfolding observe_creation
tally-observe_creation s (message msg) = ground arith
tally-observe_creation s _ = refl

pub tally-observe_creations :
    (es : List Event) (s : PollState) → (observe_creations s es).tally ≡ s.tally
unfolding observe_creations
tally-observe_creations [] s = refl
tally-observe_creations (e ∷ es) s =
    tally-observe_creations es (observe_creation s e) ∙ tally-observe_creation s e

module _ ⦃u : UuidLib⦄ where
  tally-observe_vote :
      (s : PollState) (m : Votes) (e : PollVote) → (observe_vote s m e).0.tally ≡ s.tally
  unfolding observe_vote
  tally-observe_vote s m e = ground (arith, tally-accept_vote s e m)

  tally-observe_control :
      (s : PollState) (m : Votes) (e : Event) → (observe_control s m e).0.tally ≡ s.tally
  unfolding observe_control observe_close
  tally-observe_control s m (poll_vote e) = ground (arith, tally-observe_vote s m e)
  tally-observe_control s m _ = ground arith

  pub tally-observe_controls :
      (es : List Event) (s : PollState) (m : Votes) → (observe_controls s m es).0.tally ≡ s.tally
  unfolding observe_controls
  tally-observe_controls [] s m = refl
  tally-observe_controls (e ∷ es) s m =
      tally-observe_controls es (observe_control s m e).0 (observe_control s m e).1
      ∙ tally-observe_control s m e
