-- ===== src/Tests/Stores.antt =====
-- Tests of the models of the store's tables and of the evidence of polls, and the theorems about
-- them at concrete inputs.
use go_signal.Request.PollCheck.{check_vote}
use go_signal.Request.Styles.{check_text_styles}
use go_signal.Request.Check.{check}
use go_signal.Poll.Evidence.{
  reference_of, BelongsTo, CopyOf, check_reference, poll_evidence, poll_evidence-BelongsTo,
}
use go_signal.Counters.Own.{check_counter}
use go_signal.Store.Projections.{
  project_polls, same_poll, add_evidence, PollKey, Observation, SeedReply, observed, Gathered,
  add_rows, seed_polls, events_of, poll_projection_record,
}
use go_signal.Inbox.Pages.{last_id}
use go_signal.Inbox.Table.{records, Row, Table}
use go_signal.Store.Rows.{upsert}
use go_signal.Base.{
  ℕ, ◌≡◌, refl, true, false, Option, none, some, List, [], ◌∷◌, Bytes, codes, str_eq, all, length,
  if◌then◌else◌, arith,
}
use go_signal.Uuid.{UuidLib, is_aci}
use go_signal.Types.{Poll, of_aci, no_recipient}
use go_signal.Events.{Event, poll_close, Envelope}
use go_signal.Poll.State.{PollReference}
use go_signal.Store.Timers.{ChatTimerRecord, invalid_aci, merge_chat_timers}
use go_signal.Store.TimerLaws.{Written, timer, version_of, latest, is_stale, merge_chat_timers_lem}
use go_signal.Store.Seeding.{seed_polls-add_rows}
use go_signal.Store.Writing.{no_tables, has_evidence}
use go_signal.Store.Reduced.{project_all, poll_projection_record-reduce}

instance abbrev any_text : UuidLib
any_text = record { parse = λ s. some s; to_string = λ s. s; nil = codes "0" }

abbrev timer_of : ℕ → ℕ → ChatTimerRecord
timer_of seconds version = record { aci = codes "ann"; seconds = seconds; version = version }

abbrev three_timers : List ChatTimerRecord
three_timers = timer_of 60 7 ∷ timer_of 0 5 ∷ timer_of 30 9 ∷ []

merge_chat_timers_runs :
    merge_chat_timers (timer_of 10 6 ∷ []) three_timers ≡ (timer_of 30 9 ∷ [], none)
unfolding merge_chat_timers is_aci str_eq upsert
merge_chat_timers_runs = refl

merge_chat_timers_lem_example :
    (all (λ r. is_aci r.aci) three_timers ≡ false
      → merge_chat_timers (timer_of 10 6 ∷ []) three_timers
        ≡ (timer_of 10 6 ∷ [], some invalid_aci))
    × (all (λ r. is_aci r.aci) three_timers ≡ true
        → ((merge_chat_timers (timer_of 10 6 ∷ []) three_timers).1 ≡ none)
          × Written
              (codes "ann")
              (timer (codes "ann") (timer_of 10 6 ∷ []))
              three_timers
              (timer (codes "ann") (merge_chat_timers (timer_of 10 6 ∷ []) three_timers).0)
          × (version_of
                (timer (codes "ann") (merge_chat_timers (timer_of 10 6 ∷ []) three_timers).0)
              ≡ latest
                  (codes "ann")
                  (version_of (timer (codes "ann") (timer_of 10 6 ∷ [])))
                  three_timers)
          × ((old : ChatTimerRecord)
              → timer (codes "ann") (timer_of 10 6 ∷ []) ≡ some old
              → is_stale (codes "ann") old.version three_timers ≡ true
              → timer (codes "ann") (merge_chat_timers (timer_of 10 6 ∷ []) three_timers).0
                ≡ some old))
merge_chat_timers_lem_example =
    merge_chat_timers_lem (timer_of 10 6 ∷ []) three_timers (codes "ann")

abbrev lunch : PollKey
lunch = record { chat = codes "ann"; author = codes "bob"; timestamp = 12 }

abbrev row_with : ℕ → Row Bytes
row_with id = record {
  id = id;
  received_at = 1;
  time = 1;
  chat = codes "ann";
  sender = codes "bob";
  timestamp = 12;
  unread = false;
  event = codes "vote";
}

abbrev two_rows : Table Bytes
two_rows = record { rows = row_with 3 ∷ row_with 5 ∷ []; sequence = 5 }

-- Every row is evidence of the one poll.
abbrev seed : Row Bytes → SeedReply Bytes
seed r = observed (record { key = lunch; hash = r.event; event = r.event })

abbrev no_evidence : Gathered Bytes
no_evidence = record { evidence = []; changed = [] }

seed_polls_runs :
    seed_polls seed two_rows no_evidence
    ≡ some (record {
      evidence = record { key = lunch; hash = codes "vote"; event = codes "vote" } ∷ [];
      changed = lunch ∷ [];
    })
unfolding seed_polls records last_id add_evidence same_poll str_eq
seed_polls_runs = refl

seed_polls-add_rows_example :
    seed_polls seed two_rows no_evidence ≡ add_rows seed no_evidence two_rows.rows
seed_polls-add_rows_example = seed_polls-add_rows seed two_rows no_evidence (record {
  ordered = (omega arith, (omega arith, tt));
  numbered = (omega arith, (omega arith, tt));
})

-- A poll's state is how much evidence there is.
abbrev count_events : PollKey → List Bytes → Option ℕ
count_events k es = some (length es)

abbrev later_vote : Observation Bytes
later_vote = record { key = lunch; hash = codes "later"; event = codes "later" }

abbrev two_calls : List (Table Bytes × Option (Observation Bytes))
two_calls = (two_rows, none) ∷ (two_rows, some later_vote) ∷ []

poll_projection_record-reduce_example :
    poll_projection_record (project_all count_events seed no_tables two_calls) lunch ≡ (
      if has_evidence lunch (project_all count_events seed no_tables two_calls).evidence
      then count_events lunch
          (events_of lunch (project_all count_events seed no_tables two_calls).evidence)
      else none)
poll_projection_record-reduce_example =
    poll_projection_record-reduce count_events seed two_calls lunch

poll_projection_record_runs :
    poll_projection_record (project_all count_events seed no_tables two_calls) lunch ≡ some 2
unfolding poll_projection_record project_polls records last_id add_evidence same_poll str_eq upsert
poll_projection_record_runs = refl

abbrev from_bob : Envelope
from_bob = record {
  sender = of_aci (codes "bob");
  chat = record { group_id = codes ""; recipient = of_aci (codes "ann") };
  timestamp = 20;
  server_timestamp = 21;
  sync = false;
}

abbrev closure : Event
closure = poll_close (record { envelope = from_bob; close = record { target_timestamp = 12 } })

abbrev unquoted : Poll → Bytes
unquoted p = p.question

abbrev pair_or : PollReference × Event → Option (PollReference × Event) → PollReference × Event
pair_or other none = other
pair_or other (some p) = p

abbrev no_reference : PollReference
no_reference = record { chat = from_bob.chat; author = no_recipient; timestamp = 0 }

abbrev closing : PollReference × Event
closing = pair_or (no_reference, closure) (poll_evidence unquoted closure)

poll_evidence-BelongsTo_example :
    BelongsTo closing.0 closing.1
    × CopyOf closure closing.1
    × (check_reference closing.0 ≡ none)
    × (is_aci closing.0.author.aci ≡ true)
unfolding poll_evidence check_reference check_counter is_aci str_eq reference_of check
    check_text_styles check_vote
poll_evidence-BelongsTo_example = poll_evidence-BelongsTo unquoted closure closing.0 closing.1 refl
