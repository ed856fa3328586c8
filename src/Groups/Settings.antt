-- ===== src/Groups/Settings.antt =====
-- internal/signal/groups_update.go and groups_avatar.go: changes of a group's settings. The decoder
-- of images is a parameter.
use go_signal.Base.{
  ℕ, ◌*◌, ◌^◌, Bool, true, false, not, ◌&&◌, ◌||◌, Option, none, some, is_some, Bytes, codes,
  is_empty, str_eq, eq_bool, length, ltb, leb, ◌==◌, Outcome, fails, if◌then◌else◌,
}
use go_signal.Std.Utf8.{valid_string}
use go_signal.Groups.State.{
  GroupRole, Membership, Group, GroupError, not_a_member, no_permission, invalid_update, is_admin,
  is_full, membership_of,
}
use go_signal.Groups.Changes.{revised}

-- image.Config
pub record ImageConfig : Type 0 where
  pub format : Bytes
  pub width : ℕ
  pub height : ℕ

-- image.DecodeConfig, and whether image.Decode succeeds.
pub record ImageLib : Type 0 where
  pub decode_config : Bytes → Option ImageConfig
  pub decodes : Bytes → Bool

-- GroupAvatarUpdate
pub record AvatarUpdate : Type 0 where
  pub bytes : Bytes
  pub remove : Bool

-- MaxGroupAvatarSize, MaxGroupAvatarDimension
abbrev pub max_avatar_size : ℕ
max_avatar_size = 2 * 2 ^ 20

abbrev pub max_avatar_dimension : ℕ
max_avatar_dimension = 2048

-- validAvatarConfig
unfoldable pub valid_avatar_config : ImageConfig → Bool
valid_avatar_config c =
    (str_eq c.format (codes "png") || str_eq c.format (codes "jpeg"))
    && ltb 0 c.width
    && ltb 0 c.height
    && leb c.width max_avatar_dimension
    && leb c.height max_avatar_dimension

-- A setting is nil or given.
pub record GroupUpdate : Type 0 where
  pub avatar : Option AvatarUpdate
  pub description : Option Bytes
  pub timer_seconds : Option ℕ
  pub announcements_only : Option Bool
  pub members_can_edit_attributes : Option Bool
  pub members_can_add_members : Option Bool

-- GroupUpdate.attributeSettings and adminSettings
unfoldable pub attribute_settings : GroupUpdate → Bool
attribute_settings up = is_some up.avatar || is_some up.description || is_some up.timer_seconds

unfoldable pub admin_settings : GroupUpdate → Bool
admin_settings up =
    is_some up.announcements_only
    || is_some up.members_can_edit_attributes
    || is_some up.members_can_add_members

module _ ⦃images : ImageLib⦄ where
  abbrev valid_image : Option ImageConfig → Bytes → Bool
  valid_image none bytes = false
  valid_image (some c) bytes = valid_avatar_config c && images.decodes bytes

  -- GroupAvatarUpdate.check, nil or not
  unfoldable pub check_avatar : AvatarUpdate → Bool
  check_avatar a =
      if a.remove && is_empty a.bytes
      then true
      else if a.remove || is_empty a.bytes || ltb max_avatar_size (length a.bytes)
      then false
      else valid_image (images.decode_config a.bytes) a.bytes

  abbrev valid_description : Option Bytes → Bool
  valid_description none = true
  valid_description (some text) = valid_string text

  abbrev valid_avatar : Option AvatarUpdate → Bool
  valid_avatar none = true
  valid_avatar (some a) = check_avatar a

  -- GroupUpdate.Check, nil or not
  unfoldable pub check_settings : GroupUpdate → Bool
  unfolding attribute_settings admin_settings
  check_settings up =
      (attribute_settings up || admin_settings up)
      && valid_description up.description
      && valid_avatar up.avatar

  unfoldable pub update_as : Group → GroupUpdate → Membership × GroupRole → Option GroupError
  unfolding attribute_settings admin_settings
  update_as g up m =
      if not (is_full m.0)
      then some not_a_member
      else if admin_settings up && not (is_admin m.1)
      then some no_permission
      else if attribute_settings up && not (is_admin m.1) && not g.members_can_edit_attributes
      then some no_permission
      else none

  -- Group.CheckUpdate
  unfoldable pub check_update : Group → Bytes → GroupUpdate → Option GroupError
  unfolding check_settings update_as
  check_update g self up =
      if check_settings up then update_as g up (membership_of g self) else some invalid_update

abbrev pub or_else : {A : Type 0} → Option A → A → A
or_else none a = a
or_else (some b) a = b

-- time.Second in nanoseconds
abbrev second : ℕ
second = 10 ^ 9

abbrev pub timer_of : Option ℕ → ℕ → ℕ
timer_of none timer = timer
timer_of (some seconds) timer = seconds * second

-- The avatar is removed.
abbrev pub removes_avatar : Option AvatarUpdate → Bool
removes_avatar none = false
removes_avatar (some a) = a.remove

-- A new avatar is given.
abbrev pub sets_avatar : Option AvatarUpdate → Bool
sets_avatar none = false
sets_avatar (some a) = not a.remove

-- Group.updatedSettings
unfoldable pub updated_settings : Group → GroupUpdate → Group
updated_settings g up = record g {
  avatar_path = if removes_avatar up.avatar then codes "" else g.avatar_path;
  description = or_else up.description g.description;
  timer = timer_of up.timer_seconds g.timer;
  announcements_only = or_else up.announcements_only g.announcements_only;
  members_can_edit_attributes =
      or_else up.members_can_edit_attributes g.members_can_edit_attributes;
  members_can_add_members = or_else up.members_can_add_members g.members_can_add_members;
}

-- Group.sameSettings
unfoldable pub same_settings : Group → Group → Bool
same_settings a b =
    str_eq a.avatar_path b.avatar_path
    && str_eq a.description b.description
    && a.timer == b.timer
    && eq_bool a.announcements_only b.announcements_only
    && eq_bool a.members_can_edit_attributes b.members_can_edit_attributes
    && eq_bool a.members_can_add_members b.members_can_add_members

-- The update changes a setting, or gives an avatar.
abbrev pub changes_settings : Group → GroupUpdate → Bool
changes_settings g up = not (same_settings (updated_settings g up) g) || sets_avatar up.avatar

module _ ⦃images : ImageLib⦄ where
  abbrev pub unless_refused :
      Option GroupError → Outcome GroupError Group → Outcome GroupError Group
  unless_refused (some e) r = fails e
  unless_refused none r = r

  -- Group.WithUpdate
  unfoldable pub with_update : Group → Bytes → GroupUpdate → Outcome GroupError Group
  unfolding updated_settings same_settings revised check_update
  with_update g self up =
      unless_refused (check_update g self up)
        (revised (changes_settings g up) g (updated_settings g up))
