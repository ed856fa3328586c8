-- ===== src/Poll/Relevance.antt =====
-- Which events count: those of the poll's chat, and the author's first valid creation.
use go_signal.Base.{
  Bool, false, ◌≡◌, ◌∙◌, inl, inr, none, some, List, [], ◌∷◌, select, arith, Bool-cases,
  Option-cases, refl, str_eq,
}
use go_signal.Uuid.{UuidLib}
use go_signal.Types.{chat_key}
use go_signal.Events.{Event, PollVote, message, poll_vote}
use go_signal.Poll.State.{PollState, PollReference, init}
use go_signal.Poll.Creation.{poll_envelope, observe_creation, observe_creations}
use go_signal.Poll.Observe.{
  Votes, lookup, accept_vote, observe_vote, observe_close, observe_control, observe_controls,
}
use go_signal.Poll.Reduce.{reduce}

-- Two states of the same poll.
pub record SamePoll (s t : PollState) : Type 0 where
  pub chat : t.chat ≡ s.chat
  pub author : t.author ≡ s.author
  pub timestamp : t.timestamp ≡ s.timestamp

pub observe_creation-SamePoll : (s : PollState) (e : Event) → SamePoll s (observe_creation s e)
unfolding observe_creation
observe_creation-SamePoll s (message msg) = ground arith
observe_creation-SamePoll s _ = ground arith

accept_vote-SamePoll : (s : PollState) (e : PollVote) (m : Votes) → SamePoll s (accept_vote s e m).0
unfolding accept_vote
accept_vote-SamePoll s e m = elim (Option-cases (lookup e.sender.aci m)) [
  | inl q ↦ rw (q, accept_vote) (record { chat = refl; author = refl; timestamp = refl })
  | inr (prev, q) ↦ rw (q, accept_vote) (ground arith)
]

-- Is the event one of the chat? Events without a poll's envelope are of none.
abbrev pub of_chat : PollReference → Event → Bool
of_chat ref e = elim (poll_envelope e) [
  | none ↦ false
  | some env ↦ str_eq (chat_key env.chat) (chat_key ref.chat)
]

observe_creation_elsewhere :
    (ref : PollReference) (s : PollState) (e : Event)
    → s.chat ≡ ref.chat
    → of_chat ref e ≡ false
    → observe_creation s e ≡ s
unfolding observe_creation poll_envelope
observe_creation_elsewhere ref s (message msg) c h = ground arith
observe_creation_elsewhere ref s _ c h = refl

observe_creations-select :
    (ref : PollReference) (es : List Event) (s : PollState)
    → s.chat ≡ ref.chat
    → observe_creations s (select (of_chat ref) es) ≡ observe_creations s es
unfolding observe_creations
observe_creations-select ref [] s c = refl
observe_creations-select ref (e ∷ es) s c =
    let same = observe_creation-SamePoll s e in
    let ih = observe_creations-select ref es (observe_creation s e) (same.chat ∙ c) in
    elim (Bool-cases (of_chat ref e)) [
      | inl at ↦ rw at ih
      | inr off ↦
          rw (off, observe_creation_elsewhere ref s e c off) (observe_creations-select ref es s c)
    ]

chat-observe_creations : (es : List Event) (s : PollState) → (observe_creations s es).chat ≡ s.chat
unfolding observe_creations
chat-observe_creations [] s = refl
chat-observe_creations (e ∷ es) s =
    chat-observe_creations es (observe_creation s e) ∙ (observe_creation-SamePoll s e).chat

module _ ⦃u : UuidLib⦄ where
  observe_vote-SamePoll :
      (s : PollState) (m : Votes) (e : PollVote) → SamePoll s (observe_vote s m e).0
  unfolding observe_vote
  observe_vote-SamePoll s m e = ground (arith, accept_vote-SamePoll s e m)

  pub observe_control-SamePoll :
      (s : PollState) (m : Votes) (e : Event) → SamePoll s (observe_control s m e).0
  unfolding observe_control observe_close
  observe_control-SamePoll s m (poll_vote e) = ground (arith, observe_vote-SamePoll s m e)
  observe_control-SamePoll s m _ = ground arith

  observe_control_elsewhere :
      (ref : PollReference) (s : PollState) (m : Votes) (e : Event)
      → s.chat ≡ ref.chat
      → of_chat ref e ≡ false
      → observe_control s m e ≡ (s, m)
  unfolding observe_control
  observe_control_elsewhere ref s m e c h = ground arith

  observe_controls-select :
      (ref : PollReference) (es : List Event) (s : PollState) (m : Votes)
      → s.chat ≡ ref.chat
      → observe_controls s m (select (of_chat ref) es) ≡ observe_controls s m es
  unfolding observe_controls
  observe_controls-select ref [] s m c = refl
  observe_controls-select ref (e ∷ es) s m c =
      let same = observe_control-SamePoll s m e in
      let ih =
        observe_controls-select ref es (observe_control s m e).0 (observe_control s m e).1
          (same.chat ∙ c) in
      elim (Bool-cases (of_chat ref e)) [
        | inl at ↦ rw at ih
        | inr off ↦
            rw (off, observe_control_elsewhere ref s m e c off)
              (observe_controls-select ref es s m c)
      ]

  -- Only the events of the poll's chat count: ReducePoll on them alone gives the same state.
  pub reduce-select :
      (ref : PollReference) (es : List Event) → reduce ref (select (of_chat ref) es) ≡ reduce ref es
  unfolding reduce init
  reduce-select ref es = rw (
    observe_creations-select ref es (init ref) refl,
    observe_controls-select ref es (observe_creations (init ref) es) []
        (chat-observe_creations es (init ref)),
  )
