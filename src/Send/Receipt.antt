-- ===== src/Send/Receipt.antt =====
-- internal/app/viewed_receipts.go: a viewed receipt for messages of another user.
use go_signal.Base.{
  ℕ, ◌||◌, Option, none, some, List, [], ◌∷◌, Bytes, is_empty, any, ◌==◌, Outcome, returns, fails,
  if◌then◌else◌,
}
use go_signal.Uuid.{UuidLib}
use go_signal.Policy.Targets.{
  Target, to_group, Account, Result, ok, err, is_own, resolve_recipients,
}
use go_signal.Policy.Allowlist.{Allowlist, Verdict, allowed, denied, unresolved, check_allowed}
use go_signal.Policy.Arguments.{parse_recipient}
use go_signal.Send.Content.{
  TargetError, ConnectReply, no_connection, Client, ViewedReceipt, SendState, AppError,
  invalid_arguments, invalid_sender, invalid_receipt, no_account, no_connect, unresolved_target,
  not_allowed, receipt_failed,
}

-- The loop over the timestamps: `kept` are those before, the newest first.
unfoldable pub distinct_from : List ℕ → List ℕ → List ℕ
distinct_from kept [] = []
distinct_from kept (t ∷ ts) =
    let rest = distinct_from kept ts in
    let after = distinct_from (t ∷ kept) ts in if any (◌==◌ t) kept then rest else t ∷ after

abbrev pub distinct : List ℕ → List ℕ
distinct ts = distinct_from [] ts

-- validateViewedReceipt on the parsed sender
unfoldable pub valid_sender : List ℕ → Option Target → Outcome AppError Target
valid_sender timestamps none = fails invalid_arguments
valid_sender timestamps (some t) =
    if to_group t || t.self
    then fails invalid_sender
    else if is_empty timestamps || any (λ n. n == 0) timestamps
    then fails invalid_receipt
    else returns t

-- rejectOwnViewedSender
unfoldable pub reject_own : Result Account → Target → Option AppError
reject_own (err e) t = some no_account
reject_own (ok own) t = if is_own t own then some invalid_sender else none

module _ ⦃u : UuidLib⦄ (client : Client) (allow : Option Allowlist) (timestamps : List ℕ)
    (s : SendState) where
  abbrev Step : Type 0
  Step = SendState × Outcome AppError ViewedReceipt

  unfoldable pub receipt_replied : ViewedReceipt → Option TargetError → Step
  receipt_replied r (some e) = (record s { receipts = r ∷ s.receipts }, fails (receipt_failed e))
  receipt_replied r none = (record s { receipts = r ∷ s.receipts }, returns r)

  unfoldable pub receipt_allowed : Target → Verdict → Step
  unfolding receipt_replied
  receipt_allowed t allowed =
      receipt_replied (record { sender = t.recipient; timestamps = distinct timestamps })
        (client.send_receipt t.recipient (distinct timestamps))
  receipt_allowed t (denied names) = (s, fails (not_allowed names))
  receipt_allowed t (unresolved e) = (s, fails (unresolved_target e))

  unfoldable pub receipt_other : Target → List Target → Option AppError → Step
  unfolding receipt_allowed
  receipt_other t targets (some e) = (s, fails e)
  receipt_other t targets none = receipt_allowed t (check_allowed client.directory allow targets)

  unfoldable pub receipt_resolved : Result (List Target) → Step
  unfolding receipt_other
  receipt_resolved (err e) = (s, fails (unresolved_target e))
  receipt_resolved (ok []) = (s, fails invalid_arguments)
  receipt_resolved (ok (t ∷ ts)) = receipt_other t (t ∷ ts) (reject_own client.directory.account t)

  unfoldable pub receipt_connected : Target → ConnectReply → Step
  unfolding receipt_resolved
  receipt_connected t no_connection = (s, fails no_connect)
  receipt_connected t _ = receipt_resolved (resolve_recipients client.directory (t ∷ []))

  unfoldable pub receipt_foreign : Target → Option AppError → Step
  unfolding receipt_connected
  receipt_foreign t (some e) = (s, fails e)
  receipt_foreign t none = receipt_connected t client.connect

  unfoldable pub receipt_valid : Outcome AppError Target → Step
  unfolding receipt_foreign reject_own
  receipt_valid (fails e) = (s, fails e)
  receipt_valid (returns t) = receipt_foreign t (reject_own client.directory.account t)

  -- App.SendViewedReceipt, for the messages of the sender with the timestamps
  unfoldable pub send_viewed_receipt : Bytes → Step
  unfolding receipt_valid valid_sender
  send_viewed_receipt sender = receipt_valid (valid_sender timestamps (parse_recipient sender))
