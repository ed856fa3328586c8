-- ===== src/Groups/Changes.antt =====
-- internal/signal/groups_roles.go, groups_bans.go, groups_update.go: changes of roles, bans and
-- settings. A revision is a uint32 that is never incremented past its limit.
use go_signal.Base.{
  ℕ, ◌+◌, ◌-◌, ◌^◌, Bool, not, ◌&&◌, ◌||◌, Option, List, [], ◌∷◌, ◌++◌, Bytes, is_empty, str_eq,
  any, select, map, length, ◌==◌, Outcome, returns, fails, ◌>>=◌, if◌then◌else◌,
}
use go_signal.Uuid.{UuidLib}
use go_signal.Types.{Recipient}
use go_signal.Groups.State.{
  GroupRole, unknown_role, Group, GroupMember, BannedMember, GroupError, last_admin, invalid_member,
  exhausted, same_role, is_full, admins, membership_of,
}
use go_signal.Groups.Members.{as_admin, banned_aci, normalize_members}

abbrev pub max_revision : ℕ
max_revision = 2 ^ 32 - 1

-- The next revision of a group that changed.
unfoldable pub revised : Bool → Group → Group → Outcome GroupError Group
revised changed g next =
    if not changed
    then returns next
    else if g.revision == max_revision
    then fails exhausted
    else returns (record next { revision = g.revision + 1 })

-- next.Membership, next.Role = next.MembershipOf(self)
unfoldable pub with_membership : Bytes → Group → Group
with_membership self g = record g {
  membership = (membership_of g self).0;
  role = (membership_of g self).1;
}

-- An ACI is among the targets.
abbrev pub is_target : List Recipient → Bytes → Bool
is_target targets aci = any (λ t. str_eq t.aci aci) targets

-- The members with a role set for the targets.
abbrev pub set_role : List Recipient → GroupRole → GroupMember → GroupMember
set_role targets role m = if is_target targets m.recipient.aci then record m { role = role } else m

-- A target has another role.
abbrev pub has_other_role : List Recipient → GroupRole → GroupMember → Bool
has_other_role targets role m = is_target targets m.recipient.aci && not (same_role m.role role)

unfoldable pub roles_set : Group → Bytes → List Recipient → GroupRole → Outcome GroupError Group
unfolding revised with_membership
roles_set g self targets role =
    let next = record g { members = map (set_role targets role) g.members } in
    if admins next.members == 0
    then fails last_admin
    else (revised (any (has_other_role targets role) g.members) g next >>= λ n.
        returns (with_membership self n))

-- memberRoleTargets after its checks of the account: every target is a full member.
unfoldable pub all_members : Group → List Recipient → Outcome GroupError (List Recipient)
all_members g targets =
    if any (λ t. not (is_full (membership_of g t.aci).0)) targets
    then fails invalid_member
    else returns targets

module _ ⦃u : UuidLib⦄ where
  -- Group.WithMemberRole
  unfoldable pub with_member_role :
      Group → Bytes → List Recipient → GroupRole → Outcome GroupError Group
  unfolding all_members roles_set
  with_member_role g self members role =
      if same_role role unknown_role
      then fails invalid_member
      else (normalize_members members >>= λ ms.
          as_admin (membership_of g self) ms >>= all_members g >>= λ targets.
          roles_set g self targets role)

  -- banTargets
  unfoldable pub ban_targets : Group → Bytes → List Recipient → Outcome GroupError (List Recipient)
  ban_targets g self members = as_admin (membership_of g self) members >>= λ ms.
      if any (λ m. str_eq m.aci self) ms then fails invalid_member else returns ms

abbrev with_aci : List Recipient → Recipient → Bool
with_aci targets r = not (is_empty r.aci) && is_target targets r.aci

-- removeBannedTargets
unfoldable pub remove_banned_targets : Group → List Recipient → Group
remove_banned_targets g targets = record g {
  members = select (λ m. not (is_target targets m.recipient.aci)) g.members;
  pending = select (λ m. not (with_aci targets m.recipient)) g.pending;
  requesting = select (λ m. not (is_target targets m.recipient.aci)) g.requesting;
}

-- The bans that are new.
unfoldable pub new_bans : Group → List Recipient → Option ℕ → List BannedMember
new_bans g [] at = []
new_bans g (m ∷ ms) at =
    let rest = new_bans g ms at in
    if banned_aci g.banned m.aci then rest else record { recipient = m; banned_at = at } ∷ rest

abbrev pub banned_group : Group → List Recipient → Option ℕ → Group
banned_group g targets at = record (remove_banned_targets g targets) {
  banned = g.banned ++ new_bans g targets at;
}

abbrev pub unbanned_group : Group → List Recipient → Group
unbanned_group g targets = record g {
  banned = select (λ m. not (with_aci targets m.recipient)) g.banned;
}

-- banMembershipChanged
unfoldable pub ban_membership_changed : Group → Group → Bool
ban_membership_changed g next =
    not (length next.members == length g.members)
    || not (length next.pending == length g.pending)
    || not (length next.requesting == length g.requesting)
    || not (length next.banned == length g.banned)

unfoldable pub ban_changed : Group → Bytes → Group → Outcome GroupError Group
unfolding ban_membership_changed revised with_membership
ban_changed g self next =
    revised (ban_membership_changed g next) g next >>= λ n. returns (with_membership self n)

module _ ⦃u : UuidLib⦄ where
  -- Group.WithBannedMembers
  unfoldable pub with_banned_members :
      Group → Bytes → List Recipient → Bool → Option ℕ → Outcome GroupError Group
  unfolding remove_banned_targets new_bans ban_changed ban_targets
  with_banned_members g self members ban at =
      normalize_members members >>= ban_targets g self >>= λ targets.
      ban_changed g self (if ban then banned_group g targets at else unbanned_group g targets)
