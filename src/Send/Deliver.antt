-- ===== src/Send/Deliver.antt =====
-- internal/app/send.go: one message goes to the users in one request and to each group in its own,
-- after the allowlist is passed.
use go_signal.Base.{
  ℕ, ◌+◌, ◌%◌, ◌^◌, max, false, not, Option, none, some, List, [], ◌∷◌, Bytes, is_empty, map, ◌==◌,
  any, length, Outcome, returns, fails, if◌then◌else◌,
}
use go_signal.Uuid.{UuidLib}
use go_signal.Types.{Recipient, SendRequest}
use go_signal.Policy.Targets.{Target, to_group, Result, ok, err, resolve_recipients}
use go_signal.Policy.Allowlist.{Allowlist, Verdict, allowed, denied, unresolved, check_allowed}
use go_signal.Policy.Arguments.{parse_recipients}
use go_signal.Send.Content.{
  TargetError, no_result, RecipientResult, SendReply, rejected, answered, ConnectReply,
  no_connection, Client, SendState, AppError, invalid_arguments, no_connect, unresolved_target,
  not_allowed, Content, content_request, TargetResult, SendResult, failed, SendFailure, is_unlinked,
}

abbrev pub uint64_limit : ℕ
uint64_limit = 2 ^ 64

-- App.nextTimestamp, at the time `now`
unfoldable pub next_timestamp : ℕ → SendState → SendState
next_timestamp now s = record s { last_timestamp = max now ((s.last_timestamp + 1) % uint64_limit) }

-- The users among the targets.
unfoldable pub user_recipients : List TargetResult → List Recipient
user_recipients [] = []
user_recipients (r ∷ rs) =
    let rest = user_recipients rs in if to_group r.target then rest else r.target.recipient ∷ rest

abbrev pub with_error : TargetError → TargetResult → TargetResult
with_error e r = record r { error = some e }

abbrev pub with_reply : RecipientResult → TargetResult → TargetResult
with_reply answer r = record r { unidentified = answer.unidentified; error = answer.error }

-- The results of the users when Send fails.
unfoldable pub users_failed : TargetError → List TargetResult → List TargetResult
users_failed e [] = []
users_failed e (r ∷ rs) = (if to_group r.target then r else with_error e r) ∷ users_failed e rs

-- The results of the users, each from the client's at the same position.
unfoldable pub users_answered : List RecipientResult → List TargetResult → List TargetResult
users_answered answers [] = []
users_answered [] (r ∷ rs) =
    (if to_group r.target then r else with_error no_result r) ∷ users_answered [] rs
users_answered (a ∷ answers) (r ∷ rs) =
    let same = users_answered (a ∷ answers) rs in
    let next = users_answered answers rs in
    if to_group r.target then r ∷ same else with_reply a r ∷ next

unfoldable pub users_replied : SendReply → List TargetResult → List TargetResult
unfolding users_failed users_answered
users_replied (rejected e) rs = users_failed e rs
users_replied (answered answers) rs = users_answered answers rs

-- A request is given to the client.
abbrev pub given : SendRequest → SendState → SendState
given req s = record s { sent = req ∷ s.sent }

abbrev pub group_replied : SendReply → TargetResult → TargetResult
group_replied (rejected e) r = with_error e r
group_replied (answered members) r = record r { members = members }

abbrev pub users_request : Content → ℕ → List TargetResult → SendRequest
users_request msg timestamp rs = record (content_request msg timestamp) {
  recipients = user_recipients rs;
}

abbrev pub group_request : Content → ℕ → TargetResult → SendRequest
group_request msg timestamp r = record (content_request msg timestamp) {
  group_id = r.target.group_id;
}

module _ (client : Client) (msg : Content) (timestamp : ℕ) where
  -- App.sendToUsers
  unfoldable pub send_to_users : SendState → List TargetResult → SendState × List TargetResult
  send_to_users s rs = if is_empty (user_recipients rs) then (s, rs) else (
    given (users_request msg timestamp rs) s,
    users_replied (client.send s.sent (users_request msg timestamp rs)) rs,
  )

  -- One turn of App.sendToGroups.
  unfoldable pub send_to_group : SendState → TargetResult → SendState × TargetResult
  send_to_group s r = if not (to_group r.target) then (s, r) else (
    given (group_request msg timestamp r) s,
    group_replied (client.send s.sent (group_request msg timestamp r)) r,
  )

  -- App.sendToGroups
  unfoldable pub send_to_groups : SendState → List TargetResult → SendState × List TargetResult
  unfolding send_to_group
  send_to_groups s [] = (s, [])
  send_to_groups s (r ∷ rs) =
      let first = send_to_group s r in
      let rest = send_to_groups first.0 rs in (rest.0, first.1 ∷ rest.1)

  -- Both, as sendPreparedContent calls them.
  unfoldable pub send_to_all : SendState → List TargetResult → SendState × List TargetResult
  unfolding send_to_users send_to_groups
  send_to_all s rs = let users = send_to_users s rs in send_to_groups users.0 users.1

-- SendResult.err
unfoldable pub send_error : List TargetResult → Option SendFailure
unfolding failed
send_error rs =
    if failed rs == 0
    then none
    else some (record {
      failed_targets = failed rs;
      all_targets = length rs;
      unlinked = any (λ r. is_unlinked r.error) rs;
    })

-- The results before anything is sent.
abbrev pub unsent : Target → TargetResult
unsent t = record { target = t; unidentified = false; members = []; error = none }

-- What a send returns besides an error that stops it: what was built, the results, and the
-- failure that they make.
pub record Sent (A : Type 0) : Type 0 where
  pub built : A
  pub result : SendResult
  pub failure : Option SendFailure

-- What build returns: its content with what the operation reports of it.
abbrev pub Build : Type 0 → Type 0
Build A = SendState → List Target → SendState × Outcome AppError (A × Content)

-- Given App.allow and the time.
module _ ⦃u : UuidLib⦄ (client : Client) (allow : Option Allowlist) (now : ℕ) where
  unfoldable pub delivered :
      {A : Type 0} → List Target → SendState → A → Content → SendState × Outcome AppError (Sent A)
  unfolding next_timestamp send_to_all send_error
  delivered targets s built msg =
      let stamped = next_timestamp now s in
      let all = send_to_all client msg stamped.last_timestamp stamped (map unsent targets) in
      (
        all.0,
        returns (record {
          built = built;
          result = record { timestamp = stamped.last_timestamp; results = all.1 };
          failure = send_error all.1;
        }),
      )

  unfoldable pub after_build :
      {A : Type 0}
      → List Target
      → SendState × Outcome AppError (A × Content)
      → SendState × Outcome AppError (Sent A)
  unfolding delivered
  after_build targets (s, returns (built, msg)) = delivered targets s built msg
  after_build targets (s, fails e) = (s, fails e)

  unfoldable pub after_check :
      {A : Type 0}
      → Build A
      → SendState
      → List Target
      → Verdict
      → SendState × Outcome AppError (Sent A)
  unfolding after_build
  after_check build s targets allowed = after_build targets (build s targets)
  after_check build s targets (denied names) = (s, fails (not_allowed names))
  after_check build s targets (unresolved e) = (s, fails (unresolved_target e))

  unfoldable pub after_resolve :
      {A : Type 0}
      → Build A
      → SendState
      → Result (List Target)
      → SendState × Outcome AppError (Sent A)
  unfolding after_check check_allowed
  after_resolve build s (ok targets) =
      after_check build s targets (check_allowed client.directory allow targets)
  after_resolve build s (err e) = (s, fails (unresolved_target e))

  unfoldable pub after_parse :
      {A : Type 0}
      → Build A
      → SendState
      → Option (List Target)
      → SendState × Outcome AppError (Sent A)
  unfolding after_resolve
  after_parse build s none = (s, fails invalid_arguments)
  after_parse build s (some targets) =
      after_resolve build s (resolve_recipients client.directory targets)

  unfoldable pub after_connect :
      {A : Type 0}
      → Build A
      → SendState
      → List Bytes
      → ConnectReply
      → SendState × Outcome AppError (Sent A)
  unfolding after_parse
  after_connect build s args no_connection = (s, fails no_connect)
  after_connect build s args _ = after_parse build s (parse_recipients args)

  -- App.sendPreparedContent; sendContent passes on a build that takes no targets.
  unfoldable pub send_prepared :
      {A : Type 0} → Build A → SendState → List Bytes → SendState × Outcome AppError (Sent A)
  unfolding after_connect
  send_prepared build s args = after_connect build s args client.connect
