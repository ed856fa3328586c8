-- ===== src/Groups/State.antt =====
-- internal/signal/groups.go: a group, who is in it, and the checks of a new title. A Duration is
-- in nanoseconds; a time that may be zero is an option.
use go_signal.Base.{
  ℕ, suc, Bool, true, false, not, ◌&&◌, Option, none, some, List, [], ◌∷◌, Bytes, codes, is_empty,
  str_eq, find, if◌then◌else◌,
}
use go_signal.Std.Utf8.{valid_string, is_blank}
use go_signal.Uuid.{UuidLib}
use go_signal.Types.{Recipient, no_recipient}

pub data GroupRole : Type 0 where
  unknown_role member admin : GroupRole

pub data Membership : Type 0 where
  no_membership is_member is_pending is_requesting : Membership

-- GroupRole.String and Membership.String
unfoldable pub role_string : GroupRole → Bytes
role_string unknown_role = codes "unknown"
role_string member = codes "member"
role_string admin = codes "admin"

unfoldable pub membership_string : Membership → Bytes
membership_string no_membership = codes "none"
membership_string is_member = codes "member"
membership_string is_pending = codes "pending"
membership_string is_requesting = codes "requesting"

abbrev pub same_role : GroupRole → GroupRole → Bool
same_role unknown_role unknown_role = true
same_role member member = true
same_role admin admin = true
same_role _ _ = false

abbrev pub is_admin : GroupRole → Bool
is_admin r = same_role r admin

pub record GroupMember : Type 0 where
  pub recipient : Recipient
  pub role : GroupRole
  pub joined_at_revision : ℕ

pub record PendingMember : Type 0 where
  pub recipient : Recipient
  pub role : GroupRole
  pub added_by : Recipient
  pub invited_at : Option ℕ

pub record RequestingMember : Type 0 where
  pub recipient : Recipient
  pub requested_at : Option ℕ

pub record BannedMember : Type 0 where
  pub recipient : Recipient
  pub banned_at : Option ℕ

-- Group, without the error that stands in place of a group in a list.
pub record Group : Type 0 where
  pub avatar_path : Bytes
  pub id : Bytes
  pub master_key : Bytes
  pub title : Bytes
  pub description : Bytes
  pub revision : ℕ
  pub timer : ℕ
  pub announcements_only : Bool
  pub members_can_edit_attributes : Bool
  pub members_can_add_members : Bool
  pub members : List GroupMember
  pub pending : List PendingMember
  pub requesting : List RequestingMember
  pub banned : List BannedMember
  pub membership : Membership
  pub role : GroupRole
  pub left_at : Option ℕ

-- The errors of these checks; `exhausted` is the ErrUnknownGroup of a revision at its limit.
pub data GroupError : Type 0 where
  not_a_member last_admin invalid_promotion invalid_title no_permission invalid_member : GroupError
  unresolvable exhausted invalid_update not_invited bad_response unknown_group : GroupError

abbrev pub aci_of : Recipient → Bytes
aci_of r = r.aci

-- The members of each kind with an ACI.
abbrev pub member_with : Bytes → List GroupMember → Option GroupMember
member_with aci ms = find (λ m. str_eq m.recipient.aci aci) ms

abbrev pub pending_with : Bytes → List PendingMember → Option PendingMember
pending_with aci ms = find (λ m. str_eq m.recipient.aci aci) ms

abbrev pub requesting_with : Bytes → List RequestingMember → Option RequestingMember
requesting_with aci ms = find (λ m. str_eq m.recipient.aci aci) ms

unfoldable pub found_as :
    Option GroupMember → Option PendingMember → Option RequestingMember → Membership × GroupRole
found_as (some m) p r = (is_member, m.role)
found_as none (some p) r = (is_pending, p.role)
found_as none none (some r) = (is_requesting, unknown_role)
found_as none none none = (no_membership, unknown_role)

-- Group.MembershipOf
unfoldable pub membership_of : Group → Bytes → Membership × GroupRole
unfolding found_as
membership_of g aci =
    if is_empty aci
    then (no_membership, unknown_role)
    else found_as (member_with aci g.members) (pending_with aci g.pending)
        (requesting_with aci g.requesting)

-- Group.Admins
unfoldable pub admins : List GroupMember → ℕ
admins [] = 0
admins (m ∷ ms) = let rest = admins ms in if is_admin m.role then suc rest else rest

module _ ⦃u : UuidLib⦄ where
  -- acceptIdentity: the nil UUID where the text is none.
  unfoldable pub accept_identity : Bytes → Bytes
  accept_identity value = or_nil (u.parse value)
    where
      or_nil : Option Bytes → Bytes
      or_nil none = u.nil
      or_nil (some id) = id

  abbrev pub is_nil : Bytes → Bool
  is_nil id = str_eq id u.nil

  abbrev same_identity : Bytes → Bytes → Bool
  same_identity a b =
      not (is_nil (accept_identity b)) && str_eq (accept_identity a) (accept_identity b)

  -- acceptSelfMatches
  unfoldable pub accept_self_matches : Recipient → Recipient → Bool
  unfolding accept_identity
  accept_self_matches r self =
      if not (is_empty r.aci) && is_empty r.pni
      then same_identity r.aci self.aci
      else if not (is_empty r.pni) && is_empty r.aci
      then same_identity r.pni self.pni
      else false

  abbrev invited_as : List PendingMember → Recipient → Option PendingMember
  invited_as ps identity = find (λ p. accept_self_matches p.recipient identity) ps

  unfoldable pub self_found :
      Membership × GroupRole → Option PendingMember → Option PendingMember → Membership × GroupRole
  self_found (is_member, role) aci pni = (is_member, role)
  self_found other (some p) pni = (is_pending, p.role)
  self_found other none (some p) = (is_pending, p.role)
  self_found other none none = other

  -- Group.SelfMembership
  unfoldable pub self_membership : Group → Recipient → Membership × GroupRole
  unfolding self_found membership_of accept_identity
  self_membership g self =
      if is_nil (accept_identity self.aci)
      then (no_membership, unknown_role)
      else self_found
          (membership_of (record g { pending = [] }) (u.to_string (accept_identity self.aci)))
          (invited_as g.pending (record no_recipient { aci = self.aci }))
          (invited_as g.pending (record no_recipient { pni = self.pni }))

-- ValidateGroupTitle, nil or not
unfoldable pub valid_title : Bytes → Bool
valid_title title = valid_string title && not (is_blank title)

abbrev pub is_full : Membership → Bool
is_full is_member = true
is_full _ = false

abbrev pub is_none : Membership → Bool
is_none no_membership = true
is_none _ = false

unfoldable pub rename_as : Group → Membership × GroupRole → Option GroupError
rename_as g m =
    if not (is_full m.0)
    then some not_a_member
    else if not (is_admin m.1) && not g.members_can_edit_attributes
    then some no_permission
    else none

-- Group.CheckRename
unfoldable pub check_rename : Group → Bytes → Bytes → Option GroupError
unfolding valid_title rename_as membership_of
check_rename g self title =
    if not (valid_title title) then some invalid_title else rename_as g (membership_of g self)
