-- ===== src/Groups/Members.antt =====
-- internal/signal/groups_remove.go, groups_add.go, groups_create.go: the members that a change
-- names, additions and removals.
use go_signal.Base.{
  Bool, true, false, not, ◌&&◌, ◌||◌, Option, none, some, List, [], ◌∷◌, ◌++◌, Bytes, codes,
  is_empty, str_eq, any, select, Outcome, returns, fails, ◌>>=◌, if◌then◌else◌,
}
use go_signal.Uuid.{UuidLib, is_uuid}
use go_signal.Types.{Recipient, no_recipient, of_aci}
use go_signal.Groups.State.{
  GroupRole, Membership, no_membership, is_member, is_pending, is_requesting, Group, PendingMember,
  BannedMember, GroupError, not_a_member, no_permission, invalid_member, invalid_title,
  unresolvable, membership_of, accept_identity, accept_self_matches, is_nil, is_admin, is_full,
  is_none, valid_title,
}

-- A full member who is an administrator, or the error with that refusal.
unfoldable pub as_admin : {A : Type 0} → Membership × GroupRole → A → Outcome GroupError A
as_admin m a =
    if not (is_full m.0)
    then fails not_a_member
    else if not (is_admin m.1)
    then fails no_permission
    else returns a

-- bannedACI
unfoldable pub banned_aci : List BannedMember → Bytes → Bool
banned_aci banned aci =
    any (λ m. not (is_empty m.recipient.aci) && str_eq m.recipient.aci aci) banned

module _ ⦃u : UuidLib⦄ where
  abbrev pub with_member :
      Recipient → Outcome GroupError (List Recipient) → Outcome GroupError (List Recipient)
  with_member m (returns ms) = returns (m ∷ ms)
  with_member m (fails e) = fails e

  abbrev pub nonzero : Option Bytes → Option Bytes
  nonzero none = none
  nonzero (some id) = if is_nil id then none else some id

  -- The ACI's UUID unless it is none or nil.
  unfoldable pub nonzero_uuid : Bytes → Option Bytes
  nonzero_uuid aci = nonzero (u.parse aci)

  -- The loop of normalizeGroupMembers; `seen` are the UUIDs before.
  unfoldable pub normalize_from : List Bytes → List Recipient → Outcome GroupError (List Recipient)
  unfolding nonzero_uuid
  normalize_from seen [] = returns []
  normalize_from seen (m ∷ ms) = elim (nonzero_uuid m.aci) [
    | none ↦ fails unresolvable
    | some id ↦ elim (any (str_eq id) seen) [
      | true ↦ normalize_from seen ms
      | false ↦ with_member (record m { aci = u.to_string id }) (normalize_from (id ∷ seen) ms)
    ]
  ]

  -- normalizeGroupMembers, NormalizeGroupBanMembers
  unfoldable pub normalize_members : List Recipient → Outcome GroupError (List Recipient)
  unfolding normalize_from
  normalize_members members =
      if is_empty members then fails invalid_member else normalize_from [] members

  -- Group.CheckAddMembers after its checks of the account: the members that are to be added.
  unfoldable pub add_targets :
      Group → GroupRole → List Recipient → Outcome GroupError (List Recipient)
  add_targets g role [] = returns []
  add_targets g role (m ∷ ms) = elim (membership_of g m.aci).0 [
    | is_member ↦ add_targets g role ms
    | is_pending ↦ add_targets g role ms
    | is_requesting ↦
        if is_admin role then with_member m (add_targets g role ms) else fails no_permission
    | no_membership ↦ with_member m (add_targets g role ms)
  ]

  -- checkedBannedAddTargets
  unfoldable pub unless_banned : Group → List Recipient → Outcome GroupError (List Recipient)
  unless_banned g targets =
      if any (λ m. banned_aci g.banned m.aci) targets then fails invalid_member else returns targets

  unfoldable pub add_as :
      Group → Membership × GroupRole → List Recipient → Outcome GroupError (List Recipient)
  unfolding add_targets unless_banned
  add_as g m members =
      if not (is_full m.0)
      then fails not_a_member
      else if not (is_admin m.1) && not g.members_can_add_members
      then fails no_permission
      else (add_targets g m.1 members >>= unless_banned g)

  -- Group.CheckAddMembers
  unfoldable pub check_add_members :
      Group → Bytes → List Recipient → Outcome GroupError (List Recipient)
  unfolding normalize_members add_as
  check_add_members g self members = normalize_members members >>= add_as g (membership_of g self)

  -- CreateGroupOptions.Check
  unfoldable pub check_create : Bytes → List Recipient → Option GroupError
  check_create title members =
      if not (valid_title title)
      then some invalid_title
      else if any (λ m. not (is_uuid m.aci)) members
      then some unresolvable
      else none

  -- The canonical text of an identity; the text is not empty.
  unfoldable pub canonical : Bytes → Option Bytes
  canonical value =
      if is_nil (accept_identity value) then none else some (u.to_string (accept_identity value))

  abbrev canonical_or_empty : Bytes → Option Bytes
  canonical_or_empty value = if is_empty value then some value else canonical value

  abbrev both : Recipient → Option Bytes → Option Bytes → Option Recipient
  both m (some aci) (some pni) = some (record m { aci = aci; pni = pni })
  both m _ _ = none

  -- A turn of NormalizeGroupRemovalMembers: the member with canonical identities.
  unfoldable pub removal_member : Recipient → Option Recipient
  unfolding canonical
  removal_member m =
      if is_empty m.aci && is_empty m.pni
      then none
      else both m (canonical_or_empty m.aci) (canonical_or_empty m.pni)

  abbrev removal_key : Recipient → Bytes
  removal_key m = m.aci ++ codes "|" ++ m.pni

  unfoldable pub removals_from : List Bytes → List Recipient → Outcome GroupError (List Recipient)
  unfolding removal_member
  removals_from seen [] = returns []
  removals_from seen (m ∷ ms) = elim (removal_member m) [
    | none ↦ fails unresolvable
    | some c ↦ elim (any (str_eq (removal_key c)) seen) [
      | true ↦ removals_from seen ms
      | false ↦ with_member c (removals_from (removal_key c ∷ seen) ms)
    ]
  ]

  -- NormalizeGroupRemovalMembers
  unfoldable pub normalize_removals : List Recipient → Outcome GroupError (List Recipient)
  unfolding removals_from
  normalize_removals members =
      if is_empty members then fails invalid_member else removals_from [] members

  abbrev of_pni : Bytes → Recipient
  of_pni pni = record no_recipient { pni = pni }

  -- removalMembershipTargets
  unfoldable pub removal_membership_targets : Group → Recipient → List Recipient
  removal_membership_targets g m =
      (if is_none (membership_of (record g { pending = [] }) m.aci).0
        then []
        else of_aci m.aci ∷ [])
      ++ invited g.pending
    where
      invited : List PendingMember → List Recipient
      invited [] = []
      invited (p ∷ ps) =
          let rest = invited ps in
          if accept_self_matches p.recipient m then p.recipient ∷ rest else rest

  -- The loop of removalTargets.
  unfoldable pub removal_targets_of :
      Group → Recipient → List Recipient → Outcome GroupError (List Recipient)
  unfolding removal_membership_targets
  removal_targets_of g self [] = returns []
  removal_targets_of g self (m ∷ ms) =
      let rest = removal_targets_of g self ms in
      let found = removal_membership_targets g m in
      if accept_self_matches (of_aci m.aci) self || accept_self_matches (of_pni m.pni) self
      then fails invalid_member
      else if is_empty found
      then fails invalid_member
      else (rest >>= λ more. returns (found ++ more))

  -- Group.removalTargets
  unfoldable pub removal_targets :
      Group → Recipient → List Recipient → Outcome GroupError (List Recipient)
  unfolding normalize_removals removal_targets_of as_admin
  removal_targets g self members = normalize_removals members >>= λ ms.
      as_admin (membership_of g self.aci) ms >>= λ ms'.
      removal_targets_of g self ms' >>= normalize_removals

  -- removalMatches
  unfoldable pub removal_matches : Recipient → List Recipient → Bool
  removal_matches r targets = any (accept_self_matches r) targets

  -- Group.withRemovedTargets
  unfoldable pub with_removed_targets : Group → List Recipient → Group
  unfolding removal_matches
  with_removed_targets g targets = record g {
    members = select (λ m. not (removal_matches (of_aci m.recipient.aci) targets)) g.members;
    pending = select (λ m. not (removal_matches m.recipient targets)) g.pending;
    requesting = select (λ m. not (removal_matches (of_aci m.recipient.aci) targets)) g.requesting;
  }

  -- Group.WithRemovedMembersAs
  unfoldable pub with_removed_members :
      Group → Recipient → List Recipient → Outcome GroupError Group
  unfolding removal_targets with_removed_targets
  with_removed_members g self members =
      removal_targets g self members >>= λ targets. returns (with_removed_targets g targets)
