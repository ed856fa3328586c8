-- ===== src/Confirm.antt =====
-- internal/mcp/confirm.go: the confirmer's pending calls. A map is a list in the order that a walk
-- of it takes. The IDs that rand.Text makes and whether the client can ask the user are
-- parameters, and a call stands for its key (callKey).
pub mod Answers
use go_signal.Base.{
  ℕ, ◌+◌, ◌*◌, Bool, true, false, not, ◌&&◌, Option, none, some, List, [], ◌∷◌, ◌++◌, Bytes, codes,
  str_eq, ltb, select, find, if◌then◌else◌,
}

-- confirmTTL, in nanoseconds.
abbrev pub confirm_ttl : ℕ
confirm_ttl = 600 * 1_000_000_000

-- pendingCall under its ID.
pub record PendingCall : Type 0 where
  pub id : Bytes
  pub call : Bytes
  pub expires : ℕ

-- A response of the client to an input request; `none` is no ElicitResult, else its action.
pub record InputResponse : Type 0 where
  pub id : Bytes
  pub action : Option Bytes

pub data ConfirmError : Type 0 where
  mismatch not_confirmed no_elicitation : ConfirmError

-- What check returns: nil, nil; a result with the ID of the request; an error.
pub data CheckResult : Type 0 where
  go_ahead : CheckResult
  ask : Bytes → CheckResult
  refuse : ConfirmError → CheckResult

abbrev pub has_id : Bytes → PendingCall → Bool
has_id id p = str_eq p.id id

-- now.After(pending.expires)
abbrev pub is_expired : ℕ → PendingCall → Bool
is_expired now p = ltb p.expires now

-- confirmer.add
unfoldable pub add : List PendingCall → Bytes → ℕ → Bytes → List PendingCall
add pending call now text =
    select (λ p. not (is_expired now p) && not (has_id (codes "confirm-" ++ text) p)) pending
    ++ record { id = codes "confirm-" ++ text; call = call; expires = now + confirm_ttl } ∷ []

unfoldable pub unexpired : ℕ → Option PendingCall → Option PendingCall
unexpired now none = none
unexpired now (some p) = if is_expired now p then none else some p

-- confirmer.take
unfoldable pub take : List PendingCall → Bytes → ℕ → List PendingCall × Option PendingCall
unfolding unexpired
take pending id now =
    (select (λ p. not (has_id id p)) pending, unexpired now (find (has_id id) pending))

unfoldable pub is_accept : Option Bytes → Bool
is_accept none = false
is_accept (some action) = str_eq action (codes "accept")

-- The answer to a pending call that was taken.
unfoldable pub answer : Bytes → InputResponse → PendingCall → CheckResult
unfolding is_accept
answer call resp p =
    if not (str_eq p.call call)
    then refuse mismatch
    else if is_accept resp.action
    then go_ahead
    else refuse not_confirmed

module _ (can_elicit : Bool) (text : Bytes) where
  unfoldable pub asked : List PendingCall → Bytes → ℕ → List PendingCall × CheckResult
  unfolding add
  asked pending call now =
      if can_elicit
      then (add pending call now text, ask (codes "confirm-" ++ text))
      else (pending, refuse no_elicitation)

  -- The rest of check's loop, or the answer.
  unfoldable pub answered :
      Bytes
      → InputResponse
      → List PendingCall × Option PendingCall
      → List PendingCall × CheckResult
      → List PendingCall × CheckResult
  answered call resp (pending, none) rest = rest
  answered call resp (pending, some p) rest = (pending, answer call resp p)

  -- confirmer.check
  unfoldable pub check :
      List PendingCall → Bytes → ℕ → List InputResponse → List PendingCall × CheckResult
  unfolding asked answered take
  check pending call now [] = asked pending call now
  check pending call now (resp ∷ resps) =
      let taken = take pending resp.id now in
      answered call resp taken (check taken.0 call now resps)
