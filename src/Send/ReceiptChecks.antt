-- ===== src/Send/ReceiptChecks.antt =====
-- internal/app/viewed_receipts.go: which viewed receipts reach the client.
use go_signal.Base.{
  ℕ, false, ◌||◌, Option, some, List, [], ◌∷◌, Bytes, any, ◌==◌, Outcome, returns, fails, ◌≡◌,
}
use go_signal.Uuid.{UuidLib}
use go_signal.Policy.Targets.{Target, to_group, Account, ok, is_own, resolve_recipients}
use go_signal.Policy.Allowlist.{Allowlist, allowed, check_allowed}
use go_signal.Policy.Arguments.{parse_recipient}
use go_signal.Send.Content.{Client, ViewedReceipt, SendState, AppError, receipt_failed}
use go_signal.Send.Receipt.{distinct}

-- No timestamp stands twice, and none of `kept` stands in the list.
abbrev pub Distinct : List ℕ → List ℕ → Type 0
Distinct kept [] = Unit
Distinct kept (t ∷ ts) = (any (◌==◌ t) kept ≡ false) × Distinct (t ∷ kept) ts

module _ ⦃u : UuidLib⦄ (client : Client) (allow : Option Allowlist) (timestamps : List ℕ)
    (s : SendState) (arg : Bytes) where
  -- The sender and the other targets are what the argument resolves to; it is a user.
  pub record From (sender : Target) (rest : List Target) : Type 0 where
    pub written : Target
    pub parses : parse_recipient arg ≡ some written
    pub is_user : (to_group written || written.self) ≡ false
    pub resolves : resolve_recipients client.directory (written ∷ []) ≡ ok (sender ∷ rest)

  -- The one receipt that is submitted: for each of the timestamps once, to a
  -- resolved user who is not the account itself and whom the allowlist allows.
  pub record Submitted (r : ViewedReceipt) : Type 0 where
    pub sender : Target
    pub rest : List Target
    pub origin : From sender rest
    pub own : Account
    pub account : client.directory.account ≡ ok own
    pub names : r.sender ≡ sender.recipient
    pub is_foreign : is_own sender own ≡ false
    pub is_allowed : check_allowed client.directory allow (sender ∷ rest) ≡ allowed
    pub lists : r.timestamps ≡ distinct timestamps
    pub once : Distinct [] r.timestamps

  abbrev Step : Type 0
  Step = SendState × Outcome AppError ViewedReceipt

  -- How the operation ends: the receipt is submitted, the client refuses it, or it has been given
  -- none.
  abbrev pub Ends : Step → Type 0
  Ends (after, returns r) = (after.receipts ≡ r ∷ s.receipts) × Submitted r
  Ends (after, fails (receipt_failed e)) =
      (r : ViewedReceipt) × (after.receipts ≡ r ∷ s.receipts) × Submitted r
  Ends (after, fails other) = after.receipts ≡ s.receipts
