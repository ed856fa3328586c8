-- ===== src/Groups/Accepting.antt =====
-- internal/signal/groups_accept.go: accepting an invitation to a group.
use go_signal.Base.{
  Bool, not, ◌||◌, Option, none, some, List, is_empty, str_eq, any, length, select, ltb, ◌==◌,
  Outcome, returns, fails, ◌>>=◌, if◌then◌else◌,
}
use go_signal.Uuid.{UuidLib}
use go_signal.Types.{Recipient, no_recipient, of_aci}
use go_signal.Groups.State.{
  unknown_role, Group, PendingMember, GroupError, bad_response, not_invited, same_role, is_nil,
  accept_identity, accept_self_matches,
}
use go_signal.Groups.Changes.{max_revision}

-- What CheckAcceptInvitation returns without an error: the account is a member already, or the
-- invited identity.
pub data Invitation : Type 0 where
  already_member : Invitation
  invited : Recipient → Invitation

module _ ⦃u : UuidLib⦄ where
  -- The invitations of the account.
  abbrev pub own_pending : Recipient → List PendingMember → List PendingMember
  own_pending self ps = select (λ p. accept_self_matches p.recipient self) ps

  abbrev names_aci : PendingMember → Bool
  names_aci p = not (is_empty p.recipient.aci)

  abbrev canonical_aci : Recipient → Recipient
  canonical_aci self = of_aci (u.to_string (accept_identity self.aci))

  abbrev canonical_pni : Recipient → Recipient
  canonical_pni self = record no_recipient { pni = u.to_string (accept_identity self.pni) }

  -- pendingAcceptInvitation on the invitations of the account, the zero recipient as `none`. It
  -- fails for any of them without a role, or for two of one identity.
  unfoldable pub pending_invitation :
      Recipient → List PendingMember → Outcome GroupError (Option Recipient)
  pending_invitation self ps =
      let by_aci = length (select names_aci ps) in
      let by_pni = length (select (λ p. not (names_aci p)) ps) in
      if any (λ p. same_role p.role unknown_role) ps
      then fails bad_response
      else if ltb 1 by_aci || ltb 1 by_pni
      then fails bad_response
      else if by_aci == 1
      then returns (some (canonical_aci self))
      else if by_pni == 1
      then returns (some (canonical_pni self))
      else returns none

  unfoldable pub checked_invitation :
      Group → Recipient → Option Recipient → Outcome GroupError Invitation
  checked_invitation g self none =
      if any (λ b. accept_self_matches b.recipient self) g.banned
      then fails bad_response
      else fails not_invited
  checked_invitation g self (some r) =
      if any (λ b. accept_self_matches b.recipient self) g.banned
      then fails bad_response
      else if any (λ q. accept_self_matches q.recipient self) g.requesting
      then fails bad_response
      else if g.revision == max_revision
      then fails bad_response
      else returns (invited r)

  -- Group.CheckAcceptInvitation
  unfoldable pub check_accept_invitation : Group → Recipient → Outcome GroupError Invitation
  unfolding pending_invitation checked_invitation
  check_accept_invitation g self =
      if is_nil (accept_identity self.aci)
      then fails bad_response
      else if any (λ m. str_eq (accept_identity m.recipient.aci) (accept_identity self.aci))
          g.members
      then returns already_member
      else (pending_invitation self (own_pending self g.pending) >>= checked_invitation g self)
