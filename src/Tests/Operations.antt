-- ===== src/Tests/Operations.antt =====
-- Tests of the operations of the App that send, and the theorems about them at concrete inputs.
use go_signal.Groups.State.{membership_of}
use go_signal.Counters.{reserve}
use go_signal.Request.Styles.{check_text_styles}
use go_signal.Request.Check.{check}
use go_signal.Policy.Targets.{is_own, dedupe_from, resolve_users, resolve_recipients}
use go_signal.Std.Base64.{encode, decode}
use go_signal.Uuid.{is_uuid, is_aci, UuidLib}
use go_signal.Request.PinCheck.{check_pin}
use go_signal.Policy.Arguments.{
  decode_group_key, check_recipients, parse_message_ref, parse_recipient, parse_recipients,
}
use go_signal.Counters.Own.{check_counter}
use go_signal.Request.PollCheck.{check_vote}
use go_signal.Std.Decimal.{parse_uint}
use go_signal.Std.Strings.{cut_last, trim_space}
use go_signal.Send.PollChecks.{
  poll_recipient, PollCreateRequest, PollCloseRequest, PollVoteRequest, Voted,
}
use go_signal.Policy.Allowlist.{check_allowed}
use go_signal.Send.Deliver.{users_replied, user_recipients, Sent, send_prepared}
use go_signal.Base.{
  ℕ, ◌≡◌, refl, true, false, none, some, List, [], ◌∷◌, Bytes, codes, str_eq, length, Outcome, All,
}
use go_signal.Types.{Recipient, no_recipient}
use go_signal.Send.Content.{SendState, AppError}
use go_signal.Send.Emoji.{CharTables, ReactRequest, react, delete}
use go_signal.Send.Prepare.{MessageRequest}
use go_signal.Send.Message.{send}
use go_signal.Send.Pinning.{PinRequest, UnpinRequest, pin, unpin, parsed}
use go_signal.Send.PinGroups.{IsPermitted, pin-IsPermitted}
use go_signal.Send.Polling.{poll_create, poll_close, poll_vote}
use go_signal.Send.Receipt.{send_viewed_receipt}
use go_signal.Send.Refusals.{SentKept, operations-SentKept}
use go_signal.Send.Voting.{Counted, poll_vote-Counted}
use go_signal.Tests.Sends.{client, start, sent_or}

instance abbrev any_text : UuidLib
any_text = record { parse = λ s. some s; to_string = λ s. s; nil = codes "0" }

-- Every code point above 127 is printable and no letter.
instance abbrev any_symbol : CharTables
any_symbol = record { is_letter = λ c. false; is_print = λ c. true }

operations-SentKept_example :
    ((req : MessageRequest) → SentKept start (send client (λ d fs. none) none 7 start req))
    × ((req : ReactRequest) → SentKept start (react client none 7 start req))
    × ((args : List Bytes) (target : ℕ) → SentKept start (delete client none 7 start args target))
    × ((req : PinRequest) → SentKept start (pin client none 7 start req))
    × ((req : UnpinRequest) → SentKept start (unpin client none 7 start req))
    × ((req : PollCreateRequest) → SentKept start (poll_create client none 7 start req))
    × ((req : PollCloseRequest) → SentKept start (poll_close client none 7 start req))
    × ((req : PollVoteRequest) → SentKept start (poll_vote client none 7 start req))
operations-SentKept_example = operations-SentKept client none 7 (λ d fs. none) start

abbrev ballot : PollVoteRequest
ballot = record {
  group_id = codes "";
  recipient = codes "a";
  target = codes "b:5";
  option_indexes = 1 ∷ [];
  vote_count = 0;
  clear = false;
}

abbrev no_vote : Voted
no_vote = record { author = no_recipient; count = 0 }

abbrev voted : SendState × Outcome AppError (Sent Voted)
voted = poll_vote client none 7 start ballot

voted_runs : (sent_or no_vote voted.1).built.count ≡ 1
unfolding poll_vote poll_recipient parse_recipient trim_space str_eq parse_message_ref cut_last
    parse_uint check_vote send_prepared parse_recipients resolve_recipients resolve_users is_own
    dedupe_from check_counter is_aci check check_text_styles reserve
voted_runs = refl

poll_vote-Counted_example : Counted client start ballot voted.0 (sent_or no_vote voted.1)
unfolding poll_vote poll_recipient parse_recipient trim_space str_eq parse_message_ref cut_last
    parse_uint check_vote send_prepared parse_recipients resolve_recipients resolve_users is_own
    dedupe_from check_counter is_aci check check_text_styles reserve
poll_vote-Counted_example =
    poll_vote-Counted client none 7 start ballot voted.0 (sent_or no_vote voted.1) refl

-- The text of a group ID of 32 zero bytes.
abbrev family_id : Bytes
family_id = codes "group:AAAAAAAAAAAAAAAAAAAAAAAAAAAAAAAAAAAAAAAAAAA="

abbrev pin_message : PinRequest
pin_message = record {
  recipients = family_id ∷ codes "a" ∷ [];
  target = codes "b:5";
  duration_seconds = 0;
  forever = true;
}

abbrev pinned : SendState × Outcome AppError (Sent Recipient)
pinned = pin client none 7 start pin_message

pinned_runs : length pinned.0.sent ≡ 2
unfolding pin check_recipients parse_recipient trim_space str_eq decode_group_key decode
    parse_message_ref cut_last parse_uint check_pin is_uuid send_prepared resolve_recipients
    resolve_users encode is_own membership_of user_recipients dedupe_from users_replied
pinned_runs = refl

pin-IsPermitted_example : All (IsPermitted client) (parsed client pin_message.recipients)
unfolding pin check_recipients parse_recipient trim_space str_eq decode_group_key decode
    parse_message_ref cut_last parse_uint check_pin is_uuid send_prepared resolve_recipients
    resolve_users encode is_own membership_of
pin-IsPermitted_example =
    pin-IsPermitted client none 7 start pin_message pinned.0 (sent_or no_recipient pinned.1) refl

send_viewed_receipt_runs :
    length (send_viewed_receipt client none (5 ∷ 6 ∷ 5 ∷ []) start (codes "a")).0.receipts ≡ 1
unfolding send_viewed_receipt parse_recipient trim_space str_eq is_own resolve_recipients
    resolve_users dedupe_from check_allowed
send_viewed_receipt_runs = refl
