-- ===== src/Tests/Sends.antt =====
-- Tests of the models of sending, and the theorems about it at concrete inputs.
use go_signal.Policy.Targets.{
  is_own, target_string, dedupe_from, resolve_users, resolve_recipients, Target, ok,
}
use go_signal.Types.{to_string, Recipient, of_aci, no_recipient}
use go_signal.Policy.Allowlist.{denials, resolve_entries, Allowlist, resolve_list, allows}
use go_signal.Send.Deliver.{
  users_replied, user_recipients, Build, Sent, send_prepared, users_answered, unsent,
}
use go_signal.Std.Strings.{trim_space}
use go_signal.Policy.Arguments.{parse_recipient, parse_recipients}
use go_signal.Base.{
  ◌<◌, ◌≡◌, refl, true, false, none, some, List, [], ◌∷◌, Bytes, codes, str_eq, map, All, select,
  length, arith, Outcome, returns, fails,
}
use go_signal.Uuid.{UuidLib}
use go_signal.Groups.State.{Group, member, is_member}
use go_signal.Send.Content.{
  RecipientResult, device_unlinked, answered, connected, Client, SendState, TargetResult, AppError,
  not_allowed, Content, no_content,
}
use go_signal.Policy.Naming.{Listed}
use go_signal.Send.Delivery.{targets_of}
use go_signal.Send.Emoji.{CharTables}
use go_signal.Send.Outcomes.{AfterSend, send_prepared-AfterSend}
use go_signal.Send.Results.{
  is_user, is_group_result, answered_each, users_answered_lem, send_prepared-Listed,
  timestamps_grow,
}

instance abbrev any_text : UuidLib
any_text = record { parse = λ s. some s; to_string = λ s. s; nil = codes "0" }

-- Every code point above 127 is printable and no letter.
instance abbrev any_symbol : CharTables
any_symbol = record { is_letter = λ c. false; is_print = λ c. true }

abbrev family : Group
family = record {
  avatar_path = codes "";
  id = codes "family";
  master_key = codes "";
  title = codes "Family";
  description = codes "";
  revision = 3;
  timer = 0;
  announcements_only = false;
  members_can_edit_attributes = true;
  members_can_add_members = true;
  members = record { recipient = of_aci (codes "m"); role = member; joined_at_revision = 0 } ∷ [];
  pending = [];
  requesting = [];
  banned = [];
  membership = is_member;
  role = member;
  left_at = none;
}

abbrev delivered_to : Recipient → RecipientResult
delivered_to r = record { recipient = r; unidentified = true; error = none }

-- A client that finds everyone and delivers everything.
abbrev pub client : Client
client = record {
  connect = connected;
  directory = record {
    account = ok (record { aci = codes "m"; number = codes "+49" });
    resolve = λ rs. ok rs;
  };
  group = λ id. some family;
  send = λ before req. answered (map delivered_to req.recipients);
  upload = λ files. none;
  fetch_sticker = λ ref. none;
  send_receipt = λ r ts. none;
}

abbrev pub start : SendState
start = record { last_timestamp = 10; sent = []; receipts = []; counters = [] }

abbrev hello : Content
hello = record no_content { body = codes "hello" }

abbrev build : Build Unit
build s targets = (s, returns (tt, hello))

abbrev ann_and_bob : List Bytes
ann_and_bob = codes "a" ∷ codes "b" ∷ []

-- What an operation returns, or no results.
abbrev pub sent_or : {A : Type 0} → A → Outcome AppError (Sent A) → Sent A
sent_or a (returns out) = out
sent_or a (fails e) = record {
  built = a;
  result = record { timestamp = 0; results = [] };
  failure = none;
}

abbrev first_send : SendState × Outcome AppError (Sent Unit)
first_send = send_prepared client none 7 build start ann_and_bob

abbrev first_out : Sent Unit
first_out = sent_or tt first_send.1

first_send_runs :
    (first_out.result.timestamp ≡ 11)
    × (first_out.failure ≡ none)
    × (length first_out.result.results ≡ 2)
unfolding send_prepared parse_recipients parse_recipient trim_space str_eq resolve_recipients
    resolve_users is_own user_recipients dedupe_from users_replied
first_send_runs = (refl, refl, refl)

send_prepared-AfterSend_example : AfterSend client none 7 build start ann_and_bob first_send
send_prepared-AfterSend_example =
    send_prepared-AfterSend client none 7 build start (λ targets. refl) ann_and_bob

abbrev second_send : SendState × Outcome AppError (Sent Unit)
second_send = send_prepared client none 9 build first_send.0 ann_and_bob

abbrev second_out : Sent Unit
second_out = sent_or tt second_send.1

timestamps_grow_example : first_out.result.timestamp < second_out.result.timestamp
unfolding send_prepared parse_recipients parse_recipient trim_space str_eq resolve_recipients
    resolve_users is_own user_recipients dedupe_from users_replied
timestamps_grow_example =
    timestamps_grow client none 7 9 build build start first_send.0 ann_and_bob ann_and_bob
      second_send.0 first_out second_out (λ t. refl) (λ t. refl) (λ t. refl) refl refl (omega arith)

abbrev to_user : Bytes → Target
to_user aci = record { recipient = of_aci aci; group_id = codes ""; self = false }

abbrev both_allowed : Allowlist
both_allowed = record {
  all = false;
  entries = to_user (codes "a") ∷ to_user (codes "b") ∷ [];
  resolved = none;
}

abbrev allowed_send : SendState × Outcome AppError (Sent Unit)
allowed_send = send_prepared client (some both_allowed) 7 build start ann_and_bob

send_prepared-Listed_example :
    All (Listed both_allowed.entries) (targets_of (sent_or tt allowed_send.1).result.results)
unfolding resolve_list resolve_entries resolve_users is_own str_eq send_prepared parse_recipients
    parse_recipient trim_space resolve_recipients denials dedupe_from allows
send_prepared-Listed_example =
    send_prepared-Listed client both_allowed 7 build start ann_and_bob allowed_send.0
      (sent_or tt allowed_send.1) both_allowed.entries (λ t. refl) refl refl refl

-- A send that the allowlist refuses.
denied_runs :
    send_prepared client (some both_allowed) 7 build start (codes "c" ∷ [])
    ≡ (start, fails (not_allowed (codes "c" ∷ [])))
unfolding send_prepared parse_recipients parse_recipient trim_space str_eq resolve_recipients
    resolve_users is_own resolve_list resolve_entries denials dedupe_from allows target_string
    to_string
denied_runs = refl

abbrev in_family : TargetResult
in_family = unsent (record { recipient = no_recipient; group_id = codes "family"; self = false })

abbrev mixed_results : List TargetResult
mixed_results = unsent (to_user (codes "a")) ∷ in_family ∷ unsent (to_user (codes "b")) ∷ []

abbrev two_answers : List RecipientResult
two_answers =
    delivered_to (of_aci (codes "a"))
    ∷ record { recipient = of_aci (codes "b"); unidentified = false; error = some device_unlinked }
    ∷ []

users_answered_lem_example :
    (select is_user (users_answered two_answers mixed_results)
      ≡ answered_each two_answers (select is_user mixed_results))
    × (select is_group_result (users_answered two_answers mixed_results)
        ≡ select is_group_result mixed_results)
users_answered_lem_example = users_answered_lem two_answers mixed_results
