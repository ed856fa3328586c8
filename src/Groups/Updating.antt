-- ===== src/Groups/Updating.antt =====
-- internal/signal/groups_update.go: who may change which settings.
use go_signal.Base.{
  ◌↔◌, ◌⊎◌, inl, inr, ◌==◌, eq_bool, str_eq→eq, str_eq_refl, arith, ℕ, ◌+◌, Bool, true, false, not,
  ◌&&◌, ◌||◌, Option, none, some, is_some, Bytes, Outcome, codes, returns, if◌then◌else◌, ◌≡◌, ◌∙◌,
  refl, sym, ap, subst,
}
use go_signal.Groups.State.{
  Membership, no_membership, is_member, is_pending, is_requesting, Group, GroupError, not_a_member,
  no_permission, invalid_update, is_admin, is_full, membership_of,
}
use go_signal.Groups.Changes.{revised}
use go_signal.Groups.Promoting.{bumped, revised_returns}
use go_signal.Groups.Settings.{
  ImageLib, AvatarUpdate, GroupUpdate, attribute_settings, admin_settings, check_settings, or_else,
  removes_avatar, timer_of, update_as, check_update, updated_settings, changes_settings,
  same_settings, sets_avatar, unless_refused, with_update,
}

-- The settings that only administrators change, and those of the group's attributes.
abbrev pub SameRules : Group → Group → Type 0
SameRules a b =
    (a.announcements_only ≡ b.announcements_only)
    × (a.members_can_edit_attributes ≡ b.members_can_edit_attributes)
    × (a.members_can_add_members ≡ b.members_can_add_members)

abbrev pub SameAttributes : Group → Group → Type 0
SameAttributes a b =
    (a.avatar_path ≡ b.avatar_path) × (a.description ≡ b.description) × (a.timer ≡ b.timer)

-- What an update that succeeds makes of a group.
pub record Updated (g : Group) (self : Bytes) (up : GroupUpdate) (next : Group) : Type 0 where
  pub by_member : (membership_of g self).0 ≡ is_member
  pub rules_by_admin : is_admin (membership_of g self).1 ≡ false → SameRules next g
  pub attributes_by_editor :
      is_admin (membership_of g self).1 ≡ false
      → g.members_can_edit_attributes ≡ false
      → SameAttributes next g
  pub members_kept : next.members ≡ g.members
  pub revision : (next.revision ≡ g.revision) ⊎ (next.revision ≡ g.revision + 1)
  pub kept_only_if :
      next.revision ≡ g.revision
      → SameRules next g × SameAttributes next g × (sets_avatar up.avatar ≡ false)
  pub grows_only_if :
      next.revision ≡ g.revision + 1
      → ¬ (SameRules next g × SameAttributes next g × (sets_avatar up.avatar ≡ false))

bumped_rules : (b : Bool) (g next : Group) → SameRules next g → SameRules (bumped b g next) g
bumped_rules true g next h = h
bumped_rules false g next h = h

bumped_attributes :
    (b : Bool) (g next : Group) → SameAttributes next g → SameAttributes (bumped b g next) g
bumped_attributes true g next h = h
bumped_attributes false g next h = h

bumped_members : (b : Bool) (g next : Group) → (bumped b g next).members ≡ next.members
bumped_members true g next = refl
bumped_members false g next = refl

bool_eq : (a b : Bool) → eq_bool a b ≡ true → a ≡ b
bool_eq true true h = refl
bool_eq true false h = cc
bool_eq false true h = cc
bool_eq false false h = refl

eq_bool_refl : (a : Bool) → eq_bool a a ≡ true
eq_bool_refl true = refl
eq_bool_refl false = refl

all_of :
    (a b c d e f : Bool)
    → (a && b && c && d && e && f) ≡ true
    → (a ≡ true) × (b ≡ true) × (c ≡ true) × (d ≡ true) × (e ≡ true) × (f ≡ true)
all_of a b c d e f h = ground arith

number_eq : (m n : ℕ) → (m == n) ≡ true → m ≡ n
number_eq m n h = ground arith

-- The code's test of settings holds exactly of equal settings.
same_settings_lem :
    (a b : Group) → (same_settings a b ≡ true) ↔ (SameRules a b × SameAttributes a b)
unfolding same_settings
same_settings_lem a b = (to, from)
  where
    to : same_settings a b ≡ true → SameRules a b × SameAttributes a b
    to h =
        let (path, text, time, mode, edit, add) = all_of _ _ _ _ _ _ h in
        (
          (
            bool_eq a.announcements_only b.announcements_only mode,
            bool_eq a.members_can_edit_attributes b.members_can_edit_attributes edit,
            bool_eq a.members_can_add_members b.members_can_add_members add,
          ),
          (
            str_eq→eq a.avatar_path b.avatar_path path,
            str_eq→eq a.description b.description text,
            number_eq a.timer b.timer time,
          ),
        )

    from : SameRules a b × SameAttributes a b → same_settings a b ≡ true
    from ((mode, edit, add), (path, text, time)) =
        rw (mode, edit, add, path, text, time)
          (ground (
            arith,
            str_eq_refl b.avatar_path,
            str_eq_refl b.description,
            eq_bool_refl b.announcements_only,
            eq_bool_refl b.members_can_edit_attributes,
            eq_bool_refl b.members_can_add_members,
          ))

-- What the revision says of the settings.
abbrev Counted : Group → GroupUpdate → Group → Type 0
Counted g up next =
    ((next.revision ≡ g.revision) ⊎ (next.revision ≡ g.revision + 1))
    × (next.revision ≡ g.revision
        → SameRules next g × SameAttributes next g × (sets_avatar up.avatar ≡ false))
    × (next.revision ≡ g.revision + 1
        → ¬ (SameRules next g × SameAttributes next g × (sets_avatar up.avatar ≡ false)))

bumped-Counted :
    (g : Group) (up : GroupUpdate) (b : Bool)
    → changes_settings g up ≡ b
    → Counted g up (bumped b g (updated_settings g up))
unfolding updated_settings
bumped-Counted g up true h = (
  inr refl,
  λ e. absurd (ground (arith, e)),
  λ e (rules, attributes, avatar).
      let same : same_settings (updated_settings g up) g ≡ true =
        (same_settings_lem (updated_settings g up) g).1 (rules, attributes) in
      absurd (ground (arith, same, avatar, h)),
)
bumped-Counted g up false h =
    let same : same_settings (updated_settings g up) g ≡ true = ground (arith, h) in
    let (rules, attributes) = (same_settings_lem (updated_settings g up) g).0 same in
    (inl refl, λ e. (rules, attributes, ground (arith, h)), λ e. absurd (ground (arith, e)))

-- What passes the checks of the account.
passed :
    (full settings is_adm attributes edit : Bool)
    → (if not full
        then some not_a_member
        else if settings && not is_adm
        then some no_permission
        else if attributes && not is_adm && not edit
        then some no_permission
        else none)
      ≡ none
    → (full ≡ true)
      × (is_adm ≡ false → settings ≡ false)
      × (is_adm ≡ false → edit ≡ false → attributes ≡ false)
passed false s a at e h = cc
passed true s true at e h = (refl, λ k. cc, λ k l. cc)
passed true true false at e h = cc
passed true false false true true h = (refl, λ k. refl, λ k l. cc)
passed true false false true false h = cc
passed true false false false e h = (refl, λ k. refl, λ k l. refl)

full_member : (m : Membership) → is_full m ≡ true → m ≡ is_member
full_member is_member h = refl
full_member no_membership h = cc
full_member is_pending h = cc
full_member is_requesting h = cc

no_admin_settings :
    (g : Group) (up : GroupUpdate) → admin_settings up ≡ false → SameRules (updated_settings g up) g
unfolding admin_settings updated_settings
no_admin_settings g up h =
    by_settings up.announcements_only up.members_can_edit_attributes up.members_can_add_members h
  where
    by_settings :
        (a b c : Option Bool)
        → (is_some a || is_some b || is_some c) ≡ false
        → (or_else a g.announcements_only ≡ g.announcements_only)
          × (or_else b g.members_can_edit_attributes ≡ g.members_can_edit_attributes)
          × (or_else c g.members_can_add_members ≡ g.members_can_add_members)
    by_settings none none none k = (refl, refl, refl)
    by_settings (some a) b c k = cc
    by_settings none (some b) c k = cc
    by_settings none none (some c) k = cc

no_attribute_settings :
    (g : Group) (up : GroupUpdate)
    → attribute_settings up ≡ false
    → SameAttributes (updated_settings g up) g
unfolding attribute_settings updated_settings
no_attribute_settings g up h = by_settings up.avatar up.description up.timer_seconds h
  where
    by_settings :
        (a : Option AvatarUpdate) (b : Option Bytes) (c : Option ℕ)
        → (is_some a || is_some b || is_some c) ≡ false
        → ((if removes_avatar a then codes "" else g.avatar_path) ≡ g.avatar_path)
          × (or_else b g.description ≡ g.description)
          × (timer_of c g.timer ≡ g.timer)
    by_settings none none none k = (refl, refl, refl)
    by_settings (some a) b c k = cc
    by_settings none (some b) c k = cc
    by_settings none none (some c) k = cc

module _ ⦃images : ImageLib⦄ where
  checked :
      (g : Group) (self : Bytes) (up : GroupUpdate)
      → check_update g self up ≡ none
      → update_as g up (membership_of g self) ≡ none
  unfolding check_update
  checked g self up h = by_test (check_settings up) h
    where
      by_test :
          (b : Bool)
          → (if b then update_as g up (membership_of g self) else some invalid_update) ≡ none
          → update_as g up (membership_of g self) ≡ none
      by_test true k = k
      by_test false k = cc

  allowed :
      (e : Option GroupError) (r : Outcome GroupError Group) (next : Group)
      → unless_refused e r ≡ returns next
      → (e ≡ none) × (r ≡ returns next)
  allowed none r next h = (refl, h)
  allowed (some e) r next h = cc

  -- An update that succeeds is made by a member. One who is no administrator leaves the
  -- announcement mode and the permissions as they were, and the avatar, the description and the
  -- timer, too, if members may not edit the attributes. The members stay. The revision is the same
  -- or one larger: the same only if each of these six settings is as it was and no avatar is given,
  -- and one larger only if one of them changed or an avatar is given.
  pub with_update-Updated :
      (g : Group) (self : Bytes) (up : GroupUpdate) (next : Group)
      → with_update g self up ≡ returns next
      → Updated g self up next
  unfolding with_update update_as
  with_update-Updated g self up next h =
      let changed = changes_settings g up in
      let named = updated_settings g up in
      let (ok, r) = allowed (check_update g self up) (revised changed g named) next h in
      let (eq, fits) = revised_returns changed g named next r in
      let (full, rules, attributes) =
        passed (is_full (membership_of g self).0) (admin_settings up)
          (is_admin (membership_of g self).1) (attribute_settings up) g.members_can_edit_attributes
          (checked g self up ok) in
      let counted =
        subst (λ (x : Group). Counted g up x) (sym eq) (bumped-Counted g up changed refl) in
      record {
        by_member = full_member (membership_of g self).0 full;
        rules_by_admin = λ a.
            subst (λ (x : Group). SameRules x g) (sym eq)
              (bumped_rules changed g named (no_admin_settings g up (rules a)));
        attributes_by_editor = λ a e.
            subst (λ (x : Group). SameAttributes x g) (sym eq)
              (bumped_attributes changed g named (no_attribute_settings g up (attributes a e)));
        members_kept = ap (λ x. x.members) eq ∙ bumped_members changed g named;
        revision = counted.0;
        kept_only_if = counted.1;
        grows_only_if = counted.2;
      }
