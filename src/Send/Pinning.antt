-- ===== src/Send/Pinning.antt =====
-- internal/app/pins.go: pins and unpins of a message.
use go_signal.Base.{
  ℕ, Bool, false, not, ◌&&◌, ◌||◌, Option, none, some, is_some, List, [], ◌∷◌, Bytes, codes,
  is_empty, str_eq, any, Outcome, returns, fails, if◌then◌else◌,
}
use go_signal.Uuid.{UuidLib}
use go_signal.Types.{Recipient, OutgoingPin, OutgoingUnpin, of_aci}
use go_signal.Policy.Targets.{Target, to_group, Account, Result, ok, err, mark_self, pending}
use go_signal.Policy.Allowlist.{Allowlist}
use go_signal.Policy.Arguments.{parse_recipient, check_recipients, parse_message_ref}
use go_signal.Groups.State.{Group, GroupRole, Membership, membership_of, is_admin, is_full}
use go_signal.Request.PinCheck.{check_pin, check_unpin}
use go_signal.Request.Content.{SendError, invalid_pin}
use go_signal.Send.Content.{
  Client, SendState, AppError, invalid_arguments, invalid_payload, no_account, no_group,
  not_in_group, no_group_permission, unresolved_target, Content, no_content,
}
use go_signal.Send.Deliver.{Sent, send_prepared}

pub record PinRequest : Type 0 where
  pub recipients : List Bytes
  pub target : Bytes
  pub duration_seconds : ℕ
  pub forever : Bool

pub record UnpinRequest : Type 0 where
  pub recipients : List Bytes
  pub target : Bytes

abbrev pub some_aci : Bytes
some_aci = codes "00000000-0000-0000-0000-000000000001"

-- checkPinGroup on the group that the client knows
unfoldable pub pin_permission : Bool → Membership × GroupRole → Option AppError
pin_permission members_can_edit (membership, role) =
    if not (is_full membership)
    then some not_in_group
    else if not (is_admin role) && not members_can_edit
    then some no_group_permission
    else none

unfoldable pub check_pin_group : Bytes → Option Group → Option AppError
unfolding pin_permission
check_pin_group own none = some no_group
check_pin_group own (some g) = pin_permission g.members_can_edit_attributes (membership_of g own)

module _ ⦃u : UuidLib⦄ where
  abbrev known_author : Option (Target × ℕ) → Bool
  known_author none = false
  known_author (some (author, timestamp)) = not (str_eq author.recipient.aci (u.to_string u.nil))

  -- checkPinTarget, nil or not
  unfoldable pub check_pin_target : List Bytes → Bytes → Bool
  check_pin_target recipients target =
      check_recipients recipients && known_author (parse_message_ref target)

  -- PinRequest.Check
  unfoldable pub check_pin_args : PinRequest → Option AppError
  unfolding check_pin_target
  check_pin_args req =
      if not (check_pin_target req.recipients req.target)
      then some invalid_arguments
      else if is_some (
          check_pin (record {
            target_author = of_aci some_aci;
            target_timestamp = 1;
            duration_seconds = req.duration_seconds;
            forever = req.forever;
          }))
      then some (invalid_payload invalid_pin)
      else none

  -- UnpinRequest.Check
  unfoldable pub check_unpin_args : UnpinRequest → Option AppError
  unfolding check_pin_target
  check_unpin_args req =
      if check_pin_target req.recipients req.target then none else some invalid_arguments

  module _ (client : Client) where
    unfoldable pub pin_group_allowed : Result Account → Bytes → Option AppError
    unfolding check_pin_group
    pin_group_allowed (err e) id = some no_account
    pin_group_allowed (ok own) id = check_pin_group own.aci (client.group id)

    -- The error of a group, or those of the rest.
    abbrev pub first_error : Option AppError → Option AppError → Option AppError
    first_error (some e) rest = some e
    first_error none rest = rest

    -- The loop of App.checkPinGroups; `seen` are the groups before.
    unfoldable pub check_groups_after : List Bytes → List (Option Target) → Option AppError
    unfolding pin_group_allowed
    check_groups_after seen [] = none
    check_groups_after seen (none ∷ ts) = some invalid_arguments
    check_groups_after seen (some t ∷ ts) =
        let rest = check_groups_after seen ts in
        let after = check_groups_after (t.group_id ∷ seen) ts in
        if not (to_group t) || any (str_eq t.group_id) seen
        then rest
        else first_error (pin_group_allowed client.directory.account t.group_id) after

    unfoldable pub parsed : List Bytes → List (Option Target)
    parsed [] = []
    parsed (arg ∷ args) = parse_recipient arg ∷ parsed args

    -- App.checkPinGroups
    unfoldable pub check_pin_groups : List Bytes → Option AppError
    unfolding check_groups_after parsed
    check_pin_groups args = check_groups_after [] (parsed args)

    abbrev only_one : Result (List Recipient) → Outcome AppError Recipient
    only_one (err e) = fails (unresolved_target e)
    only_one (ok (r ∷ [])) = returns r
    only_one (ok _) = fails (invalid_payload invalid_pin)

    abbrev first_recipient : Recipient → List Target → Recipient
    first_recipient r [] = r
    first_recipient r (t ∷ ts) = t.recipient

    unfoldable pub author_marked : Target → Result Account → Outcome AppError Recipient
    author_marked author (err e) = fails (unresolved_target e)
    author_marked author (ok own) =
        let found = mark_self own (author ∷ []) in
        if is_empty (pending found)
        then returns (first_recipient author.recipient found)
        else only_one (client.directory.resolve (author.recipient ∷ []))

    -- App.resolvePinAuthor; the author is a user.
    unfoldable pub resolve_pin_author : Target → Outcome AppError Recipient
    unfolding author_marked
    resolve_pin_author author = author_marked author client.directory.account

    abbrev checked : Option SendError → Recipient → Content → Outcome AppError (Recipient × Content)
    checked (some e) author msg = fails (invalid_payload e)
    checked none author msg = returns (author, msg)

    unfoldable pub pin_content :
        PinRequest → ℕ → Outcome AppError Recipient → Outcome AppError (Recipient × Content)
    pin_content req timestamp (fails e) = fails e
    pin_content req timestamp (returns author) =
        let pin : OutgoingPin = record {
          target_author = author;
          target_timestamp = timestamp;
          duration_seconds = req.duration_seconds;
          forever = req.forever;
        } in
        checked (check_pin pin) author (record no_content { pin = some pin })

    unfoldable pub unpin_content :
        ℕ → Outcome AppError Recipient → Outcome AppError (Recipient × Content)
    unpin_content timestamp (fails e) = fails e
    unpin_content timestamp (returns author) =
        let unpin : OutgoingUnpin = record {
          target_author = author;
          target_timestamp = timestamp;
        } in
        checked (check_unpin unpin) author (record no_content { unpin = some unpin })

    abbrev pub unless :
        Option AppError
        → Outcome AppError (Recipient × Content)
        → Outcome AppError (Recipient × Content)
    unless (some e) rest = fails e
    unless none rest = rest

    module _ (allow : Option Allowlist) (now : ℕ) where
      unfoldable pub pin_message :
          PinRequest
          → SendState
          → Option (Target × ℕ)
          → SendState × Outcome AppError (Sent Recipient)
      unfolding pin_content check_pin_groups resolve_pin_author
      pin_message req s none = (s, fails invalid_arguments)
      pin_message req s (some (author, timestamp)) =
          send_prepared client allow now
            (λ state targets. (
              state,
              unless (check_pin_groups req.recipients)
                  (pin_content req timestamp (resolve_pin_author author)),
            ))
            s req.recipients

      unfoldable pub unpin_message :
          UnpinRequest
          → SendState
          → Option (Target × ℕ)
          → SendState × Outcome AppError (Sent Recipient)
      unfolding unpin_content check_pin_groups resolve_pin_author
      unpin_message req s none = (s, fails invalid_arguments)
      unpin_message req s (some (author, timestamp)) =
          send_prepared client allow now
            (λ state targets. (
              state,
              unless (check_pin_groups req.recipients)
                  (unpin_content timestamp (resolve_pin_author author)),
            ))
            s req.recipients

      abbrev unless_refused :
          Option AppError
          → SendState
          → SendState × Outcome AppError (Sent Recipient)
          → SendState × Outcome AppError (Sent Recipient)
      unless_refused (some e) s rest = (s, fails e)
      unless_refused none s rest = rest

      -- App.Pin
      unfoldable pub pin : SendState → PinRequest → SendState × Outcome AppError (Sent Recipient)
      unfolding pin_message check_pin_args
      pin s req =
          unless_refused (check_pin_args req) s (pin_message req s (parse_message_ref req.target))

      -- App.Unpin
      unfoldable pub unpin :
          SendState → UnpinRequest → SendState × Outcome AppError (Sent Recipient)
      unfolding unpin_message check_unpin_args
      unpin s req =
          unless_refused (check_unpin_args req) s
            (unpin_message req s (parse_message_ref req.target))
