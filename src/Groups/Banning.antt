-- ===== src/Groups/Banning.antt =====
-- internal/signal/groups_bans.go: who is a member and who is banned after a change of bans.
use go_signal.Base.{
  ℕ, Bool, true, false, not, ◌&&◌, ◌||◌, Option, List, [], ◌∷◌, ◌++◌, Bytes, is_empty, str_eq,
  str_eq→eq, any, select, Outcome, returns, fails, ◌>>=◌, if◌then◌else◌, ◌≡◌, ◌∙◌, refl, sym, ap,
  subst, arith, Bool-cases, inl, inr,
}
use go_signal.Uuid.{UuidLib}
use go_signal.Types.{Recipient}
use go_signal.Groups.State.{
  admin, is_member, Group, GroupMember, BannedMember, GroupError, invalid_member, membership_of,
}
use go_signal.Groups.Members.{as_admin, banned_aci, normalize_members}
use go_signal.Groups.Named.{is_named, normalize_members-is_named}
use go_signal.Groups.Changes.{
  revised, with_membership, is_target, remove_banned_targets, new_bans, banned_group,
  unbanned_group, ban_membership_changed, ban_changed, ban_targets, with_banned_members,
}
use go_signal.Groups.Promoting.{as_admin_returns, bind_returns, bumped, revised_returns}

module _ {A : Type 0} (id : A → Bytes) (removed : Bytes → Bool) (x : Bytes) where
  -- An element with the identity is among those not removed if it is in the list, and the identity
  -- is not removed.
  pub any-select :
      (xs : List A)
      → any (λ a. str_eq (id a) x) (select (λ a. not (removed (id a))) xs)
        ≡ (not (removed x) && any (λ a. str_eq (id a) x) xs)
  any-select [] = ground arith
  any-select (a ∷ xs) = elim (Bool-cases (str_eq (id a) x)) [
    | inl h ↦
        let q : removed (id a) ≡ removed x = ap removed (str_eq→eq (id a) x h) in
        ground (arith, any-select xs, q, h)
    | inr h ↦ ground (arith, any-select xs, h)
  ]

banned-append :
    (xs ys : List BannedMember) (x : Bytes)
    → banned_aci (xs ++ ys) x ≡ (banned_aci xs x || banned_aci ys x)
unfolding banned_aci
banned-append [] ys x = refl
banned-append (a ∷ xs) ys x = ground (arith, banned-append xs ys x)

new_bans_lem :
    (g : Group) (targets : List Recipient) (at : Option ℕ) (x : Bytes)
    → is_empty x ≡ false
    → banned_aci (new_bans g targets at) x ≡ (not (banned_aci g.banned x) && is_target targets x)
unfolding new_bans banned_aci
new_bans_lem g [] at x e = ground arith
new_bans_lem g (t ∷ ts) at x e = elim (Bool-cases (str_eq t.aci x)) [
  | inl h ↦
      let same = str_eq→eq t.aci x h in
      let known : banned_aci g.banned t.aci ≡ banned_aci g.banned x =
        ap (banned_aci g.banned) same in
      let full : is_empty t.aci ≡ false = ap is_empty same ∙ e in
      ground (arith, new_bans_lem g ts at x e, known, full, h)
  | inr h ↦ ground (arith, new_bans_lem g ts at x e, h)
]

unban_lem :
    (targets : List Recipient) (banned : List BannedMember) (x : Bytes)
    → is_empty x ≡ false
    → banned_aci
        (select
          (λ m. not (not (is_empty m.recipient.aci) && is_target targets m.recipient.aci))
          banned)
        x
      ≡ (not (is_target targets x) && banned_aci banned x)
unfolding banned_aci
unban_lem targets [] x e = ground arith
unban_lem targets (b ∷ bs) x e = elim (Bool-cases (str_eq b.recipient.aci x)) [
  | inl h ↦
      let same = str_eq→eq b.recipient.aci x h in
      let known : is_target targets b.recipient.aci ≡ is_target targets x =
        ap (is_target targets) same in
      let full : is_empty b.recipient.aci ≡ false = ap is_empty same ∙ e in
      ground (arith, unban_lem targets bs x e, known, full, h)
  | inr h ↦ ground (arith, unban_lem targets bs x e, h)
]

abbrev pub has_member : Bytes → List GroupMember → Bool
has_member x ms = any (λ m. str_eq m.recipient.aci x) ms

-- What a ban (or an unban) that succeeds makes of a group: an administrator made it, who is none of
-- the targets, whose ACIs are those of the members given; a ban bans the targets besides those who are banned, and no target is a member; an
-- unban lifts the bans of its targets and keeps the members.
pub record BansChanged ⦃u : UuidLib⦄ (g : Group) (self : Bytes) (given : List Recipient)
    (ban : Bool) (next : Group) : Type 0 where
  pub targets : List Recipient
  pub named : (x : Bytes) → is_target targets x ≡ is_named given x
  pub by_admin : membership_of g self ≡ (is_member, admin)
  pub not_self : is_target targets self ≡ false
  pub members :
      (x : Bytes)
      → has_member x next.members ≡ (
          if ban
          then not (is_target targets x) && has_member x g.members
          else has_member x g.members)
  pub bans :
      (x : Bytes)
      → is_empty x ≡ false
      → banned_aci next.banned x ≡ (
          if ban
          then banned_aci g.banned x || is_target targets x
          else not (is_target targets x) && banned_aci g.banned x)

bumped_bans : (b : Bool) (g next : Group) → (bumped b g next).banned ≡ next.banned
bumped_bans true g next = refl
bumped_bans false g next = refl

bumped_members : (b : Bool) (g next : Group) → (bumped b g next).members ≡ next.members
bumped_members true g next = refl
bumped_members false g next = refl

ban_changed_returns :
    (g : Group) (self : Bytes) (named next : Group)
    → ban_changed g self named ≡ returns next
    → (next.members ≡ named.members) × (next.banned ≡ named.banned)
unfolding ban_changed with_membership
ban_changed_returns g self named next h =
    let changed = ban_membership_changed g named in
    let (n, r, m) =
      bind_returns (revised changed g named) (λ n. returns (with_membership self n)) next h in
    let (eq, fits) = revised_returns changed g named n r in
    let whole : with_membership self (bumped changed g named) ≡ next = cc in
    (
      ap (λ x. x.members) (sym whole) ∙ bumped_members changed g named,
      ap (λ x. x.banned) (sym whole) ∙ bumped_bans changed g named,
    )

ban-BansChanged :
    ⦃u : UuidLib⦄ (g : Group) (self : Bytes) (given : List Recipient) (ban : Bool)
    (targets : List Recipient) (at : Option ℕ) (next : Group)
    → ((x : Bytes) → is_target targets x ≡ is_named given x)
    → membership_of g self ≡ (is_member, admin)
    → is_target targets self ≡ false
    → ban_changed g self (if ban then banned_group g targets at else unbanned_group g targets)
      ≡ returns next
    → BansChanged g self given ban next
unfolding remove_banned_targets
ban-BansChanged g self given true targets at next same a s h =
    let (m, b) = ban_changed_returns g self (banned_group g targets at) next h in
    record {
      targets = targets;
      named = same;
      by_admin = a;
      not_self = s;
      members = λ x.
          ap (has_member x) m ∙ any-select (λ k. k.recipient.aci) (is_target targets) x g.members;
      bans = λ x e.
          ap (λ l. banned_aci l x) b
          ∙ banned-append g.banned (new_bans g targets at) x
          ∙ ground (arith, new_bans_lem g targets at x e);
    }
ban-BansChanged g self given false targets at next same a s h =
    let (m, b) = ban_changed_returns g self (unbanned_group g targets) next h in
    record {
      targets = targets;
      named = same;
      by_admin = a;
      not_self = s;
      members = λ x. ap (has_member x) m;
      bans = λ x e. ap (λ l. banned_aci l x) b ∙ unban_lem targets g.banned x e;
    }

abbrev listed : List Recipient → Outcome GroupError (List Recipient)
listed ms = returns ms

unless_self :
    (self : Bytes) (ms targets : List Recipient) (b : Bool)
    → is_target ms self ≡ b
    → (if b then fails invalid_member else returns ms) ≡ listed targets
    → (is_target targets self ≡ false) × (ms ≡ targets)
unless_self self ms targets true e h = cc
unless_self self ms targets false e h =
    let same : ms ≡ targets = cc in (subst (λ ts. is_target ts self ≡ false) same e, same)

-- A ban or an unban that succeeds is made by an administrator, not of himself, and its targets are
-- those whose ACIs the given members have, in whatever spelling. After a ban exactly those are
-- members who were and are no targets, and exactly those are banned who were or are targets; after
-- an unban the members are the same, and the targets are banned no more.
pub with_banned_members-BansChanged :
    ⦃u : UuidLib⦄ (g : Group) (self : Bytes) (members : List Recipient) (ban : Bool) (at : Option ℕ)
    (next : Group)
    → with_banned_members g self members ban at ≡ returns next
    → BansChanged g self members ban next
unfolding with_banned_members ban_targets
with_banned_members-BansChanged g self members ban at next h =
    let act = λ (targets : List Recipient).
      ban_changed g self (if ban then banned_group g targets at else unbanned_group g targets) in
    let (targets, t, done) =
      bind_returns (normalize_members members >>= ban_targets g self) act next h in
    let (ms, n, t') = bind_returns (normalize_members members) (ban_targets g self) targets t in
    let check =
      λ (ms : List Recipient). if is_target ms self then fails invalid_member else returns ms in
    let (ms', a, t'') = bind_returns (as_admin (membership_of g self) ms) check targets t' in
    let (by, same_ms) = as_admin_returns (membership_of g self) ms ms' a in
    let (not_self, same_targets) = unless_self self ms' targets (is_target ms' self) refl t'' in
    ban-BansChanged g self members ban targets at next
      (normalize_members-is_named members targets (n ∙ ap listed (same_ms ∙ same_targets))) by
      not_self done
