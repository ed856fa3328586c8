-- ===== src/Groups/Promoting.antt =====
-- internal/signal/groups_roles.go: what a change of roles keeps.
use go_signal.Base.{
  ℕ, ◌+◌, ◌<◌, Bool, true, false, not, ◌&&◌, List, Bytes, any, map, ◌==◌, Outcome, returns, fails,
  ◌>>=◌, if◌then◌else◌, ◌≡◌, refl, arith,
}
use go_signal.Uuid.{UuidLib}
use go_signal.Types.{Recipient}
use go_signal.Groups.State.{
  GroupRole, unknown_role, member, admin, Membership, no_membership, is_member, is_pending,
  is_requesting, Group, GroupError, exhausted, admins, is_full, membership_of,
}
use go_signal.Groups.Members.{as_admin}
use go_signal.Groups.Named.{is_named}
use go_signal.Groups.Changes.{is_target, max_revision, revised, set_role, has_other_role}

-- What as_admin passes on is its argument, for an administrator.
pub as_admin_returns :
    {A : Type 0} (m : Membership × GroupRole) (a b : A)
    → as_admin m a ≡ returns b
    → (m ≡ (is_member, admin)) × (a ≡ b)
unfolding as_admin
as_admin_returns (is_member, admin) a b h = (refl, cc)
as_admin_returns (is_member, member) a b h = cc
as_admin_returns (is_member, unknown_role) a b h = cc
as_admin_returns (no_membership, r) a b h = cc
as_admin_returns (is_pending, r) a b h = cc
as_admin_returns (is_requesting, r) a b h = cc

-- A step of a function that returns: what it got, and what the rest made of it.
pub bind_returns :
    {A B : Type 0} (r : Outcome GroupError A) (f : A → Outcome GroupError B) (b : B)
    → (r >>= f) ≡ returns b
    → (a : A) × (r ≡ returns a) × (f a ≡ returns b)
bind_returns (returns a) f b h = (a, refl, h)
bind_returns (fails e) f b h = cc

-- The next state of a group, with its revision one larger if it changed.
abbrev pub bumped : Bool → Group → Group → Group
bumped true g next = record next { revision = g.revision + 1 }
bumped false g next = next

abbrev listed : List Recipient → Outcome GroupError (List Recipient)
listed ms = returns ms

abbrev fine : Group → Outcome GroupError Group
fine g = returns g

pub positive : (n : ℕ) → (n == 0) ≡ false → 0 < n
positive n h = ground arith

pub revised_returns :
    (changed : Bool) (g next out : Group)
    → revised changed g next ≡ returns out
    → (out ≡ bumped changed g next) × ((changed && g.revision == max_revision) ≡ false)
unfolding revised
revised_returns false g next out h = (cc, refl)
revised_returns true g next out h = by_test (g.revision == max_revision) h
  where
    by_test :
        (b : Bool)
        → (if b then fails exhausted else returns (record next { revision = g.revision + 1 }))
          ≡ fine out
        → (out ≡ record next { revision = g.revision + 1 }) × (b ≡ false)
    by_test true k = cc
    by_test false k = (cc, refl)

-- What a change of roles that succeeds makes of a group: an administrator made it, the targets,
-- whose ACIs are those of the members given, are full members all and have the role, no one else's
-- changes, and there is an administrator left; the revision grows by one if a role changed.
pub record RolesChanged ⦃u : UuidLib⦄ (g : Group) (self : Bytes) (given : List Recipient)
    (role : GroupRole) (next : Group) : Type 0 where
  pub targets : List Recipient
  pub named : (x : Bytes) → is_target targets x ≡ is_named given x
  pub by_admin : membership_of g self ≡ (is_member, admin)
  pub all_full : any (λ t. not (is_full (membership_of g t.aci).0)) targets ≡ false
  pub members : next.members ≡ map (set_role targets role) g.members
  pub has_admin : 0 < admins next.members
  pub revision :
      next.revision
      ≡ (if any (has_other_role targets role) g.members then g.revision + 1 else g.revision)
  pub invited_kept : next.pending ≡ g.pending
