-- ===== src/Poll/Creation.antt =====
-- internal/signal/poll_reduce.go: the comparisons, and the pass over the events for the creation.
use go_signal.Base.{
  ℕ, ◌+◌, Bool, true, false, not, ◌&&◌, ◌||◌, Option, none, some, List, [], ◌∷◌, Bytes, any, ◌==◌,
  leb, ltb, str_eq, eq_bool, length, if◌then◌else◌,
}
use go_signal.Types.{chat_key, Poll}
use go_signal.Events.{Envelope, Event, message, poll_vote, poll_close, delete}
use go_signal.Std.Utf8.{runes, is_blank, utf16_len}
use go_signal.Poll.State.{PollState}

-- pollEnvelope
unfoldable pub poll_envelope : Event → Option Envelope
poll_envelope (message e) = some e.envelope
poll_envelope (poll_vote e) = some e.envelope
poll_envelope (poll_close e) = some e.envelope
poll_envelope (delete e) = some e.envelope
poll_envelope _ = none

abbrev pub max_received_poll_question : ℕ
max_received_poll_question = 200

abbrev pub max_received_poll_option : ℕ
max_received_poll_option = 100

-- validPollText
unfoldable pub valid_poll_text : Bytes → ℕ → Bool
valid_poll_text s limit = elim (runes s) [
  | none ↦ false
  | some rs ↦ not (is_blank s) && leb (utf16_len rs) limit
]

-- validReceivedPoll
unfoldable pub valid_received_poll : Poll → Bool
unfolding valid_poll_text
valid_received_poll p =
    if ltb (length p.options) 2
      || ltb 10 (length p.options)
      || not (valid_poll_text p.question max_received_poll_question)
    then false
    else not (any (λ option. not (valid_poll_text option max_received_poll_option)) p.options)

-- slices.Sort of numbers
insert_index : ℕ → List ℕ → List ℕ
insert_index x [] = x ∷ []
insert_index x (y ∷ ys) = let rest = insert_index x ys in if leb x y then x ∷ y ∷ ys else y ∷ rest

unfoldable pub sort_indexes : List ℕ → List ℕ
unfolding insert_index
sort_indexes [] = []
sort_indexes (x ∷ xs) = insert_index x (sort_indexes xs)

-- slices.Equal
unfoldable pub indexes_eq : List ℕ → List ℕ → Bool
indexes_eq [] [] = true
indexes_eq [] (y ∷ ys) = false
indexes_eq (x ∷ xs) [] = false
indexes_eq (x ∷ xs) (y ∷ ys) = x == y && indexes_eq xs ys

unfoldable pub texts_eq : List Bytes → List Bytes → Bool
texts_eq [] [] = true
texts_eq [] (y ∷ ys) = false
texts_eq (x ∷ xs) [] = false
texts_eq (x ∷ xs) (y ∷ ys) = str_eq x y && texts_eq xs ys

-- samePollSelection
unfoldable pub same_poll_selection : List ℕ → List ℕ → Bool
unfolding sort_indexes indexes_eq
same_poll_selection a b = indexes_eq (sort_indexes a) (sort_indexes b)

-- samePollCreation
unfoldable pub same_poll_creation : Poll → Poll → Bool
unfolding texts_eq
same_poll_creation first second =
    str_eq first.question second.question
    && eq_bool first.allow_multiple second.allow_multiple
    && texts_eq first.options second.options

-- PollState.observeCreation
unfoldable pub observe_creation : PollState → Event → PollState
unfolding valid_received_poll same_poll_creation
observe_creation s (message msg) = elim msg.poll [
  | none ↦ s
  | some p ↦
      if not (str_eq (chat_key msg.chat) (chat_key s.chat))
      then s
      else if not (str_eq msg.sender.aci s.author.aci) || not (msg.timestamp == s.timestamp)
      then s
      else if not (valid_received_poll p)
      then record s { ignored_invalid = s.ignored_invalid + 1 }
      else elim s.creation [
        | some first ↦
            if same_poll_creation first p then s else record s { conflicts = s.conflicts + 1 }
        | none ↦ record s { creation = some p }
      ]
]
observe_creation s _ = s

-- for _, event := range events { state.observeCreation(event) }
unfoldable pub observe_creations : PollState → List Event → PollState
unfolding observe_creation
observe_creations s [] = s
observe_creations s (e ∷ es) = observe_creations (observe_creation s e) es
