-- ===== src/Tests/GroupChanges.antt =====
-- Tests of the models of groups, identities and names, and the theorems about them at concrete
-- inputs.
use go_signal.Groups.Leaving.{promotion, check_leave}
use go_signal.Std.Utf8.{valid_string}
use go_signal.Groups.Members.{banned_aci, as_admin, normalize_members}
use go_signal.Base.{
  ◌≡◌, ◌≢◌, refl, true, false, ◌&&◌, none, some, List, [], ◌∷◌, Bytes, codes, str_eq, length,
  if◌then◌else◌, arith, ap, Outcome, returns, fails, All,
}
use go_signal.Uuid.{UuidLib}
use go_signal.Types.{of_aci}
use go_signal.Groups.State.{
  Group, GroupMember, GroupRole, member, admin, is_member, membership_of, admins,
}
use go_signal.Groups.Changes.{with_member_role, with_banned_members}
use go_signal.Groups.Settings.{ImageLib, GroupUpdate, with_update}
use go_signal.Groups.Banning.{BansChanged, with_banned_members-BansChanged}
use go_signal.Groups.Updating.{Updated, with_update-Updated}
use go_signal.Groups.Remaining.{Orphanless, check_leave-Orphanless}
use go_signal.Identities.Trust.{group_safety_number}
use go_signal.Identities.Table.{ProtocolKey, has_key, identity, apply_identity_trust}
use go_signal.Identities.Trusting.{trusted_record, apply_identity_trust_lem}
use go_signal.Identities.Numbers.{join, IsBlock, group_safety_number-join}
use go_signal.Names.{Contact, contact_title, display_name, distinguish, new_names, label}
use go_signal.Names.Labels.{labels_differ}

instance abbrev any_text : UuidLib
any_text = record { parse = λ s. some s; to_string = λ s. s; nil = codes "0" }

-- A decoder that decodes nothing.
instance abbrev no_images : ImageLib
no_images = record { decode_config = λ s. none; decodes = λ s. false }

abbrev in_group : Bytes → GroupRole → GroupMember
in_group aci role = record { recipient = of_aci aci; role = role; joined_at_revision = 0 }

abbrev group_with : List GroupMember → Group
group_with members = record {
  avatar_path = codes "";
  id = codes "family";
  master_key = codes "";
  title = codes "Family";
  description = codes "";
  revision = 3;
  timer = 0;
  announcements_only = false;
  members_can_edit_attributes = true;
  members_can_add_members = true;
  members = members;
  pending = [];
  requesting = [];
  banned = [];
  membership = is_member;
  role = member;
  left_at = none;
}

abbrev family : Group
family = group_with (in_group (codes "ann") admin ∷ in_group (codes "bob") member ∷ [])

-- The group that an operation on the family returns, or the family.
abbrev group_or_family : {E : Type 0} → Outcome E Group → Group
group_or_family (returns g) = g
group_or_family (fails e) = family

abbrev promoted : Group
promoted = group_or_family (with_member_role family (codes "ann") (of_aci (codes "bob") ∷ []) admin)

with_member_role_runs : (admins promoted.members ≡ 2) × (promoted.revision ≡ 4)
unfolding admins with_member_role normalize_members str_eq as_admin membership_of
with_member_role_runs = (refl, refl)

abbrev without_bob : Group
without_bob =
    group_or_family
      (with_banned_members family (codes "ann") (of_aci (codes "bob") ∷ []) true (some 9))

with_banned_members_runs : (length without_bob.members ≡ 1) × (length without_bob.banned ≡ 1)
unfolding with_banned_members normalize_members str_eq as_admin membership_of banned_aci
with_banned_members_runs = (refl, refl)

with_banned_members-BansChanged_example :
    BansChanged family (codes "ann") (of_aci (codes "bob") ∷ []) true without_bob
unfolding with_banned_members normalize_members str_eq as_admin membership_of
with_banned_members-BansChanged_example =
    with_banned_members-BansChanged family (codes "ann") (of_aci (codes "bob") ∷ []) true (some 9)
      without_bob refl

abbrev described_update : GroupUpdate
described_update = record {
  avatar = none;
  description = some (codes "cousins");
  timer_seconds = some 60;
  announcements_only = none;
  members_can_edit_attributes = none;
  members_can_add_members = none;
}

abbrev described : Group
described = group_or_family (with_update family (codes "bob") described_update)

with_update_runs : (described.description ≡ codes "cousins") × (described.revision ≡ 4)
unfolding with_update valid_string membership_of str_eq
with_update_runs = (refl, refl)

with_update-Updated_example : Updated family (codes "bob") described_update described
unfolding with_update valid_string membership_of str_eq
with_update-Updated_example =
    with_update-Updated family (codes "bob") described_update described refl

check_leave-Orphanless_example : Orphanless (codes "ann") (of_aci (codes "bob") ∷ []) family.members
unfolding str_eq admins membership_of check_leave promotion
check_leave-Orphanless_example =
    check_leave-Orphanless family (codes "ann") (of_aci (codes "bob") ∷ []) (refl, (refl, tt))
      (omega arith) refl refl

abbrev ann_keys : List ProtocolKey
ann_keys = record { their_service_id = codes "ann"; key = codes "k2" } ∷ []

apply_identity_trust_lem_example :
    (identity
        (apply_identity_trust ann_keys [] (codes "ann") (codes "k2") (codes "verified")).0
        (codes "ann")
      ≡ (if has_key ann_keys (codes "ann") (codes "k2") && str_eq (codes "ann") (codes "ann")
          then some (
              trusted_record
                (codes "ann")
                (codes "k2")
                (codes "verified")
                (identity [] (codes "ann")))
          else identity [] (codes "ann")))
    × (has_key ann_keys (codes "ann") (codes "k2") ≡ false
        → (apply_identity_trust ann_keys [] (codes "ann") (codes "k2") (codes "verified")).1
          ≡ false)
apply_identity_trust_lem_example =
    apply_identity_trust_lem ann_keys [] (codes "ann") (codes "k2") (codes "verified") (codes "ann")

group_safety_number-join_example :
    (join (group_safety_number (codes "123456789012")) ≡ codes "123456789012")
    × All IsBlock (group_safety_number (codes "123456789012"))
group_safety_number-join_example = group_safety_number-join (codes "123456789012")

abbrev sam : Bytes → Bytes → Contact
sam aci number = record {
  recipient = record (of_aci aci) { number = number };
  contact_name = codes "Sam";
  profile_name = codes "";
  nickname = codes "";
  blocked = false;
  accepted = none;
}

abbrev first_sam : Contact
first_sam = sam (codes "aaaa") (codes "+491")

abbrev second_sam : Contact
second_sam = sam (codes "bbbb") (codes "+492")

labels_differ_example :
    label (new_names (codes "me") (first_sam ∷ second_sam ∷ [])) first_sam.recipient
    ≢ label (new_names (codes "me") (first_sam ∷ second_sam ∷ [])) second_sam.recipient
unfolding distinguish display_name contact_title str_eq
labels_differ_example =
    labels_differ (codes "me") [] [] [] first_sam second_sam refl
      (λ e. let wrong : false ≡ true = ap (λ t. str_eq t (codes "+492")) e in absurd (ground arith))
      refl refl refl refl
