-- ===== src/Tests/Polls.antt =====
-- A poll in the chat with "bb", created by "aa" at 5: votes of "dd" and "cc", and a closure. The
-- UUIDs here are the texts of two bytes.
use mathlib.Core.List.Perm
use mathlib.Core.Option
use go_signal.Base.{
  ◌↔◌, ℕ, true, false, ◌≡◌, refl, none, some, List, [], ◌∷◌, Bytes, codes, length, ◌==◌,
  if◌then◌else◌, Some, select, str_eq, str_lt,
}
use go_signal.Events.{Envelope, Event, PollVote, message, poll_vote, poll_close}
use go_signal.Poll.Authority.{ended_by_author}
use go_signal.Poll.Creation.{valid_received_poll, observe_creations}
use go_signal.Poll.Lifecycle.{Frozen, observe_controls-Frozen, IsAuthorClose, IsAuthorDelete}
use go_signal.Poll.Observe.{
  Votes, observe_controls, insert, lookup, state_vote, valid_observed_vote,
}
use go_signal.Poll.Order.{Ascending}
use go_signal.Poll.Outcome.{TallyCounts, TallyPresent, observed, reduce_total, reduce-walk}
use go_signal.Poll.Reduce.{reduce, values, finalize_votes}
use go_signal.Poll.Relevance.{of_chat, reduce-select}
use go_signal.Poll.Retention.{AtLeast, Countable, highest_counter_wins}
use go_signal.Poll.State.{PollReference, PollState, init}
use go_signal.Poll.Validation.{Acceptable, valid_received_poll-Acceptable}
use go_signal.Request.PollCheck.{
  check_poll, check_poll_within, poll_text, check_vote, poll_incoming_question_limit,
}
use go_signal.Std.Utf8.{runes, is_blank, utf16_len}
use go_signal.Types.{Chat, Poll, of_aci, chat_key}
use go_signal.Uuid.{UuidLib, is_uuid, is_canonical}

instance abbrev two_bytes : UuidLib
two_bytes = record {
  parse = λ s. if length s == 2 then some s else none;
  to_string = λ s. s;
  nil = codes "00";
}

abbrev chat : Chat
chat = record { group_id = codes ""; recipient = of_aci (codes "bb") }

abbrev envelope : Bytes → ℕ → Envelope
envelope sender at = record {
  sender = of_aci sender;
  chat = chat;
  timestamp = at;
  server_timestamp = at;
  sync = false;
}

abbrev lunch : Poll
lunch = record {
  question = codes "Lunch?";
  options = codes "yes" ∷ codes "no" ∷ [];
  allow_multiple = false;
}

abbrev creation : Event
creation = message (record {
  envelope = envelope (codes "aa") 5;
  body = [];
  mentions = [];
  attachments = [];
  sticker = none;
  poll = some lunch;
  quote = none;
  view_once = false;
  unsupported = [];
})

abbrev cast : Bytes → ℕ → ℕ → PollVote
cast voter option count = record {
  envelope = envelope voter 6;
  vote = record {
    target_author = of_aci (codes "aa");
    target_timestamp = 5;
    option_indexes = option ∷ [];
    vote_count = count;
  };
}

abbrev closure : Event
closure =
    poll_close
      (record { envelope = envelope (codes "aa") 9; close = record { target_timestamp = 5 } })

abbrev ref : PollReference
ref = record { chat = chat; author = of_aci (codes "aa"); timestamp = 5 }

abbrev events : List Event
events =
    creation
    ∷ poll_vote (cast (codes "dd") 0 1)
    ∷ poll_vote (cast (codes "cc") 1 1)
    ∷ closure
    ∷ poll_vote (cast (codes "cc") 0 2)
    ∷ []

-- The late vote does not count.
reduce_runs : Option.map (λ (s : PollState). s.tally) (reduce ref events) ≡ some (some (1 ∷ 1 ∷ []))
unfolding reduce is_uuid is_canonical poll_text chat_key check_vote runes is_blank utf16_len str_eq
    str_lt lookup insert
reduce_runs = refl

valid_received_poll-Acceptable_example :
    ((valid_received_poll lunch ≡ true) ↔ Acceptable 200 lunch)
    × ((check_poll lunch ≡ none) ↔ Acceptable 100 lunch)
    × ((check_poll_within poll_incoming_question_limit lunch ≡ none) ↔ Acceptable 200 lunch)
valid_received_poll-Acceptable_example = valid_received_poll-Acceptable lunch

reduce_total_example :
    (r : PollState) × (reduce ref events ≡ some r)
    × Ascending r.votes
    × TallyCounts r
    × TallyPresent r
reduce_total_example = reduce_total ref events

abbrev other_walk : Votes
other_walk =
    (codes "cc", state_vote (cast (codes "cc") 1 1))
    ∷ (codes "dd", state_vote (cast (codes "dd") 0 1))
    ∷ []

reduce-walk_example : finalize_votes (observed ref events).0 other_walk ≡ reduce ref events
unfolding values observe_creations observe_controls is_uuid is_canonical poll_text chat_key
    check_vote init runes is_blank utf16_len str_eq lookup insert
reduce-walk_example = reduce-walk ref events other_walk (Perm.swap _ _ [])

-- The state to which the events are reduced.
abbrev reduced : PollState
reduced = (reduce_total ref events).0

ended_by_author_example :
    (reduced.closure_observed ≡ true → Some (IsAuthorClose ref) events)
    × (reduced.deleted ≡ true → Some (IsAuthorDelete ref) events)
ended_by_author_example = ended_by_author ref events reduced (reduce_total ref events).1

reduce-select_example : reduce ref (select (of_chat ref) events) ≡ reduce ref events
reduce-select_example = reduce-select ref events

abbrev closed : PollState
closed = record (init ref) { closure_observed = true; closed_at = 9 }

observe_controls-Frozen_example :
    ((observe_controls closed [] events).1 ≡ [])
    × Frozen closed (observe_controls closed [] events).0
unfolding init
observe_controls-Frozen_example = observe_controls-Frozen events closed [] refl

-- The state with the creation, before the votes.
abbrev opened : PollState
opened = record (init ref) { creation = some lunch }

opened-Countable : Countable opened (cast (codes "cc") 1 1)
unfolding init chat_key valid_observed_vote check_vote is_uuid is_canonical str_eq
opened-Countable = record {
  open_poll = refl;
  in_chat = refl;
  stamped = refl;
  target = refl;
  author = refl;
  valid = refl;
}

highest_counter_wins_example :
    AtLeast
      (codes "cc")
      1
      (observe_controls opened [] (poll_vote (cast (codes "cc") 1 1) ∷ events)).1
highest_counter_wins_example =
    highest_counter_wins opened [] (cast (codes "cc") 1 1) events opened-Countable
