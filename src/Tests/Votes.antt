-- ===== src/Tests/Votes.antt =====
-- The account's own vote counters at a concrete input.
use go_signal.Base.{◌≡◌, refl, true, none, some, [], ◌∷◌, codes, str_eq}
use go_signal.Counters.Own.{own_poll_vote_counter, counter_request, check_counter}
use go_signal.Events.{PollVote, poll_vote}
use go_signal.Request.PollCheck.{check_vote}
use go_signal.Request.Styles.{check_text_styles}
use go_signal.Types.{of_aci}
use go_signal.Uuid.{UuidLib, is_aci}
use go_signal.Request.Check

instance abbrev any_text : UuidLib
any_text = record { parse = λ s. some s; to_string = λ s. s; nil = codes "0" }

-- My vote in the chat with Ann, from another device.
abbrev own_vote : PollVote
own_vote = record {
  envelope = record {
    sender = of_aci (codes "me");
    chat = record { group_id = codes ""; recipient = of_aci (codes "ann") };
    timestamp = 9;
    server_timestamp = 9;
    sync = true;
  };
  vote = record {
    target_author = of_aci (codes "ann");
    target_timestamp = 7;
    option_indexes = 0 ∷ [];
    vote_count = 3;
  };
}

-- It counts for my account, and not for another.
own_poll_vote_counter_runs :
    (own_poll_vote_counter (poll_vote own_vote) (codes "me") ≡ some (counter_request own_vote))
    × (own_poll_vote_counter (poll_vote own_vote) (codes "ann") ≡ none)
unfolding own_poll_vote_counter str_eq check_vote check_counter is_aci Check.check check_text_styles
own_poll_vote_counter_runs = (refl, refl)
