-- ===== src/Groups/Leaving.antt =====
-- internal/signal/groups.go: leaving a group, with the promotions that it may need.
use go_signal.Base.{
  ℕ, suc, ◌+◌, Bool, false, not, ◌&&◌, Option, none, some, List, [], ◌∷◌, Bytes, codes, is_empty,
  str_eq, any, find, length, ltb, ◌==◌, Outcome, returns, fails, if◌then◌else◌,
}
use go_signal.Uuid.{UuidLib}
use go_signal.Types.{Recipient}
use go_signal.Groups.State.{
  GroupRole, unknown_role, Membership, no_membership, Group, GroupMember, GroupError, not_a_member,
  last_admin, invalid_promotion, unresolvable, is_admin, is_full, is_none, is_nil, admins,
  membership_of, self_membership, accept_identity,
}

-- The member that a promotion names.
abbrev pub promoted_member : Group → Recipient → Option GroupMember
promoted_member g r = find (λ m. not (is_empty r.aci) && str_eq m.recipient.aci r.aci) g.members

-- A turn of newAdmins: the promotion is refused, is of an administrator, or makes one.
pub data Promotion : Type 0 where
  refused no_change promotes : Promotion

unfoldable pub promotion : Group → Bytes → Recipient → Promotion
promotion g self r = of_member (promoted_member g r)
  where
    of_member : Option GroupMember → Promotion
    of_member none = refused
    of_member (some m) =
        if str_eq r.aci self then refused else if is_admin m.role then no_change else promotes

abbrev pub one_more : Outcome GroupError ℕ → Outcome GroupError ℕ
one_more (returns n) = returns (suc n)
one_more (fails e) = fails e

-- The loop of newAdmins: the size of the map `promoted`; `seen` are its keys before.
unfoldable pub new_admins_from : Group → Bytes → List Bytes → List Recipient → Outcome GroupError ℕ
new_admins_from g self seen [] = returns 0
new_admins_from g self seen (r ∷ rs) =
    let same = new_admins_from g self seen rs in
    let more = new_admins_from g self (r.aci ∷ seen) rs in
    elim (promotion g self r) [
      | refused ↦ fails invalid_promotion
      | no_change ↦ same
      | promotes ↦ if any (str_eq r.aci) seen then same else one_more more
    ]

-- Group.newAdmins
abbrev pub new_admins : Group → Bytes → List Recipient → Outcome GroupError ℕ
new_admins g self promote = new_admins_from g self [] promote

abbrev pub with_admins : Group → Bool → Outcome GroupError ℕ → Option GroupError
with_admins g own_admin (fails e) = some e
with_admins g own_admin (returns n) =
    if own_admin && admins g.members + n == 1 && ltb 1 (length g.members)
    then some last_admin
    else none

-- Group.checkLeave
unfoldable pub check_leave_as :
    Group → Bytes → List Recipient → Membership × GroupRole → Option GroupError
unfolding new_admins_from
check_leave_as g self promote m =
    let own_admin = is_full m.0 && is_admin m.1 in
    if is_none m.0
    then some not_a_member
    else if not (is_empty promote) && not own_admin
    then some invalid_promotion
    else if not (is_full m.0)
    then none
    else with_admins g own_admin (new_admins g self promote)

-- Group.CheckLeave
unfoldable pub check_leave : Group → Bytes → List Recipient → Option GroupError
unfolding check_leave_as
check_leave g self promote = check_leave_as g self promote (membership_of g self)

-- Group{}
abbrev pub no_group : Group
no_group = record {
  avatar_path = codes "";
  id = codes "";
  master_key = codes "";
  title = codes "";
  description = codes "";
  revision = 0;
  timer = 0;
  announcements_only = false;
  members_can_edit_attributes = false;
  members_can_add_members = false;
  members = [];
  pending = [];
  requesting = [];
  banned = [];
  membership = no_membership;
  role = unknown_role;
  left_at = none;
}

module _ ⦃u : UuidLib⦄ where
  abbrev seen_as : Group → Membership × GroupRole → Group
  seen_as g m = record g { membership = m.0; role = m.1 }

  -- Group.PrepareLeave
  unfoldable pub prepare_leave : Group → Recipient → List Recipient → Group × Option GroupError
  unfolding check_leave_as
  prepare_leave g self promote =
      if is_nil (accept_identity self.aci) then (no_group, some unresolvable) else (
        seen_as g (self_membership g self),
        check_leave_as g self.aci promote (self_membership g self),
      )
