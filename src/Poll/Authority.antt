-- ===== src/Poll/Authority.antt =====
-- What the author alone decides in a reduced poll: its creation, its closure and its deletion.
use go_signal.Base.{
  true, false, ◌&&◌, ◌≡◌, ◌∙◌, ◌⊎◌, inl, inr, Option, none, some, List, [], ◌∷◌, if◌then◌else◌,
  ◌==◌, Some, arith, refl, str_eq, sym,
}
use go_signal.Uuid.{UuidLib}
use go_signal.Types.{Poll, chat_key}
use go_signal.Events.{Event, message}
use go_signal.Poll.State.{PollState, PollReference, init, reference}
use go_signal.Poll.Creation.{valid_received_poll, observe_creation, observe_creations}
use go_signal.Poll.Observe.{Votes, observe_control, observe_controls}
use go_signal.Poll.Reduce.{reduce, finalize_votes, fill_tally}
use go_signal.Poll.Retained.{creation-observe_controls}
use go_signal.Poll.Outcome.{observed}
use go_signal.Poll.Relevance.{SamePoll, observe_creation-SamePoll, observe_control-SamePoll}
use go_signal.Poll.Lifecycle.{
  IsAuthorClose, IsAuthorDelete, only_author_closes, only_author_deletes,
}

-- The valid poll that the event creates under the reference, if it is the author's message.
abbrev pub creation_of : PollReference → Event → Option Poll
creation_of ref (message msg) = elim msg.poll [
  | none ↦ none
  | some p ↦
      if str_eq (chat_key msg.chat) (chat_key ref.chat)
        && str_eq msg.sender.aci ref.author.aci
        && msg.timestamp == ref.timestamp
        && valid_received_poll p
      then some p
      else none
]
creation_of ref _ = none

abbrev or_else {ℓ} : {A : Type ℓ} → Option A → Option A → Option A
or_else none b = b
or_else (some a) b = some a

abbrev pub first_creation : PollReference → List Event → Option Poll
first_creation ref [] = none
first_creation ref (e ∷ es) = or_else (creation_of ref e) (first_creation ref es)

creation-observe_creation :
    (s : PollState) (e : Event)
    → (observe_creation s e).creation ≡ or_else s.creation (creation_of (reference s) e)
unfolding observe_creation
creation-observe_creation s (message msg) = ground arith
creation-observe_creation s _ = ground arith

reference-SamePoll : {s t : PollState} → SamePoll s t → reference t ≡ reference s
reference-SamePoll h = ground arith

or_else_assoc {ℓ} :
    {A : Type ℓ} (a b c : Option A) → or_else (or_else a b) c ≡ or_else a (or_else b c)
or_else_assoc none b c = refl
or_else_assoc (some a) b c = refl

or_else-none {ℓ} : {A : Type ℓ} (a : Option A) → or_else a none ≡ a
or_else-none none = refl
or_else-none (some a) = refl

creation-observe_creations :
    (es : List Event) (s : PollState)
    → (observe_creations s es).creation ≡ or_else s.creation (first_creation (reference s) es)
unfolding observe_creations
creation-observe_creations [] s = sym (or_else-none s.creation)
creation-observe_creations (e ∷ es) s =
    creation-observe_creations es (observe_creation s e)
    ∙ rw (
      reference-SamePoll (observe_creation-SamePoll s e),
      creation-observe_creation s e,
      or_else_assoc s.creation (creation_of (reference s) e) (first_creation (reference s) es),
    )

-- What the first pass leaves as ReducePoll set it.
record Begun (ref : PollReference) (s : PollState) : Type 0 where
  same : reference s ≡ ref
  closure : s.closure_observed ≡ false
  deletion : s.deleted ≡ false

init-Begun : (ref : PollReference) → Begun ref (init ref)
unfolding init
init-Begun ref = record { same = refl; closure = refl; deletion = refl }

observe_creation-Begun :
    (ref : PollReference) (s : PollState) (e : Event)
    → Begun ref s
    → Begun ref (observe_creation s e)
unfolding observe_creation
observe_creation-Begun ref s (message msg) b = ground arith
observe_creation-Begun ref s _ b = b

observe_creations-Begun :
    (es : List Event) (ref : PollReference) (s : PollState)
    → Begun ref s
    → Begun ref (observe_creations s es)
unfolding observe_creations
observe_creations-Begun [] ref s b = b
observe_creations-Begun (e ∷ es) ref s b =
    observe_creations-Begun es ref (observe_creation s e) (observe_creation-Begun ref s e b)

-- What finalizeVotes keeps.
record Kept (s r : PollState) : Type 0 where
  creation : r.creation ≡ s.creation
  closure : r.closure_observed ≡ s.closure_observed
  deletion : r.deleted ≡ s.deleted

fill_tally-Kept :
    (s : PollState) (c : Option Poll) (r : PollState) → fill_tally s c ≡ some r → Kept s r
unfolding fill_tally
fill_tally-Kept s none r h = ground arith
fill_tally-Kept s (some p) r h = ground arith

finalize_votes-Kept :
    (s : PollState) (m : Votes) (r : PollState) → finalize_votes s m ≡ some r → Kept s r
unfolding finalize_votes
finalize_votes-Kept s m r h =
    let k = fill_tally-Kept _ s.creation r h in
    record { creation = k.creation; closure = k.closure; deletion = k.deletion }

module _ ⦃u : UuidLib⦄ where
  closes :
      (es : List Event) (s : PollState) (m : Votes)
      → (observe_controls s m es).0.closure_observed ≡ true
      → (s.closure_observed ≡ true) ⊎ Some (IsAuthorClose (reference s)) es
  unfolding observe_controls
  closes [] s m h = inl h
  closes (e ∷ es) s m h = elim (closes es (observe_control s m e).0 (observe_control s m e).1 h) [
    | inr later ↦ inr (inr (rw (reference-SamePoll (observe_control-SamePoll s m e)) at later))
    | inl before ↦ elim (only_author_closes s m e before) [
      | inl old ↦ inl old
      | inr now ↦ inr (inl now)
    ]
  ]

  deletes :
      (es : List Event) (s : PollState) (m : Votes)
      → (observe_controls s m es).0.deleted ≡ true
      → (s.deleted ≡ true) ⊎ Some (IsAuthorDelete (reference s)) es
  unfolding observe_controls
  deletes [] s m h = inl h
  deletes (e ∷ es) s m h = elim (deletes es (observe_control s m e).0 (observe_control s m e).1 h) [
    | inr later ↦ inr (inr (rw (reference-SamePoll (observe_control-SamePoll s m e)) at later))
    | inl before ↦ elim (only_author_deletes s m e before) [
      | inl old ↦ inl old
      | inr now ↦ inr (inl now)
    ]
  ]

  -- The creation is the author's first valid one under the reference; later ones never replace it.
  pub creation-reduce :
      (ref : PollReference) (es : List Event) (r : PollState)
      → reduce ref es ≡ some r
      → r.creation ≡ first_creation ref es
  unfolding reduce init
  creation-reduce ref es r h =
      (finalize_votes-Kept (observed ref es).0 (observed ref es).1 r h).creation
      ∙ creation-observe_controls es (observe_creations (init ref) es) []
      ∙ creation-observe_creations es (init ref)

  -- Only the author ends a poll: a reduced poll is closed only if the events hold a closure of it by
  -- its author in its chat, and deleted only if they hold such a deletion.
  pub ended_by_author :
      (ref : PollReference) (es : List Event) (r : PollState)
      → reduce ref es ≡ some r
      → (r.closure_observed ≡ true → Some (IsAuthorClose ref) es)
        × (r.deleted ≡ true → Some (IsAuthorDelete ref) es)
  unfolding reduce
  ended_by_author ref es r h = (
    λ c. elim (closes es start [] (sym kept.closure ∙ c)) [
      | inl old ↦ cc (begin.closure)
      | inr found ↦ rw same at found
    ],
    λ d. elim (deletes es start [] (sym kept.deletion ∙ d)) [
      | inl old ↦ cc (begin.deletion)
      | inr found ↦ rw same at found
    ],
  )
    where
      start : PollState
      start = observe_creations (init ref) es

      kept : Kept (observe_controls start [] es).0 r
      kept = finalize_votes-Kept (observed ref es).0 (observed ref es).1 r h

      begin : Begun ref start
      begin = observe_creations-Begun es ref (init ref) (init-Begun ref)

      same : reference start ≡ ref
      same = begin.same
