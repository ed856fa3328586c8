-- ===== src/Groups/Remaining.antt =====
-- internal/signal/groups.go: leaving a group leaves it an administrator.
use go_signal.Base.{
  ℕ, ◌+◌, ◌<◌, Bool, true, false, not, ◌&&◌, Option, none, some, List, [], ◌∷◌, Bytes, is_empty,
  str_eq, length, ltb, ◌==◌, Outcome, returns, fails, if◌then◌else◌, ◌≡◌, ◌∙◌, refl, ap, subst,
  arith, Bool-cases, ◌⊎◌, inl, inr,
}
use go_signal.Types.{Recipient}
use go_signal.Groups.State.{
  GroupRole, unknown_role, Membership, no_membership, is_member, Group, GroupMember, PendingMember,
  RequestingMember, GroupError, last_admin, invalid_promotion, is_admin, admins, member_with,
  pending_with, requesting_with, found_as, membership_of,
}
use go_signal.Groups.Banning.{any-select, has_member}
use go_signal.Groups.Leaving.{new_admins, with_admins, check_leave_as, check_leave}
use go_signal.Groups.AdminCounts.{
  Unique, others, remaining, admins-others, admins_promoted, admins_kept, promoted_admin,
}
use go_signal.Groups.Promotions.{Promotes, counted-Promotes}

-- A member with the ACI, of the role that MembershipOf gives.
found_member :
    (g : Group) (self : Bytes)
    → (membership_of g self).0 ≡ is_member
    → (own : GroupMember) × (member_with self g.members ≡ some own)
      × ((membership_of g self).1 ≡ own.role)
unfolding membership_of found_as
found_member g self h =
    by_test (is_empty self) (member_with self g.members) (pending_with self g.pending)
      (requesting_with self g.requesting) refl h
  where
    by_test :
        (b : Bool) (m : Option GroupMember) (p : Option PendingMember) (q : Option RequestingMember)
        → member_with self g.members ≡ m
        → (if b then (no_membership, unknown_role) else found_as m p q).0 ≡ is_member
        → (own : GroupMember) × (member_with self g.members ≡ some own)
          × ((if b then (no_membership, unknown_role) else found_as m p q).1 ≡ own.role)
    by_test true m p q e k = cc
    by_test false none none none e k = cc
    by_test false none none (some x) e k = cc
    by_test false none (some x) q e k = cc
    by_test false (some own) p q e k = (own, e, refl)

-- What a promotion of another member leaves.
promoted_remains :
    (g : Group) (self : Bytes) (promote : List Recipient)
    → Promotes g self promote
    → 0 < admins (remaining self promote g.members)
promoted_remains g self promote (x, t, m, n) =
    let stays : has_member x (others self g.members) ≡ true =
      any-select (λ k. k.recipient.aci) (λ b. str_eq b self) x g.members ∙ rw (n, m) refl in
    promoted_admin promote (others self g.members) x stays t

-- The account is the only member.
alone :
    (self : Bytes) (promote : List Recipient) (ms : List GroupMember) (own : GroupMember)
    → member_with self ms ≡ some own
    → ltb 1 (length ms) ≡ false
    → remaining self promote ms ≡ []
alone self promote [] own f h = refl
alone self promote (m ∷ n ∷ ms) own f h = absurd (ground arith)
alone self promote (m ∷ []) own f h = by_test (str_eq m.recipient.aci self) refl f
  where
    by_test :
        (b : Bool)
        → str_eq m.recipient.aci self ≡ b
        → (if b then some m else none) ≡ some own
        → remaining self promote (m ∷ []) ≡ []
    by_test true e k = rw e refl
    by_test false e k = cc

-- What is left when the account leaves: no member, or an administrator.
abbrev pub Orphanless : Bytes → List Recipient → List GroupMember → Type 0
Orphanless self promote ms =
    (remaining self promote ms ≡ []) ⊎ (0 < admins (remaining self promote ms))

admin_leaves :
    (g : Group) (self : Bytes) (promote : List Recipient) (own : GroupMember) (n : ℕ)
    → Unique g.members
    → member_with self g.members ≡ some own
    → 0 < admins g.members
    → (n ≡ 0) ⊎ Promotes g self promote
    → (admins g.members + n == 1 && ltb 1 (length g.members)) ≡ false
    → Orphanless self promote g.members
admin_leaves g self promote own n d f a (inr p) h = inr (promoted_remains g self promote p)
admin_leaves g self promote own n d f a (inl z) h = elim (Bool-cases (ltb 1 (length g.members))) [
  | inr l ↦ inl (alone self promote g.members own f l)
  | inl l ↦
      let two : (admins g.members + n == 1) ≡ false = ground (arith, h, l) in
      let least = admins-others self g.members d in
      let kept = admins_promoted promote (others self g.members) in
      inr (ground (arith, two, least, kept, a, z))
]

member_leaves :
    (g : Group) (self : Bytes) (promote : List Recipient) (own : GroupMember)
    → Unique g.members
    → member_with self g.members ≡ some own
    → is_admin own.role ≡ false
    → 0 < admins g.members
    → Orphanless self promote g.members
member_leaves g self promote own d f r a =
    let same = admins_kept self g.members own d f r in
    let kept = admins_promoted promote (others self g.members) in inr (omega (arith, same, kept, a))

-- What the check of a member who leaves has tested.
leave_tested :
    (g : Group) (self : Bytes) (promote : List Recipient) (role : GroupRole)
    → check_leave_as g self promote (is_member, role) ≡ none
    → is_admin role ≡ true
    → (n : ℕ) × (new_admins g self promote ≡ returns n)
      × ((admins g.members + n == 1 && ltb 1 (length g.members)) ≡ false)
unfolding check_leave_as
leave_tested g self promote role h a =
    by_test (is_empty promote) (is_admin role) a (new_admins g self promote) refl h
  where
    by_count : (b : Bool) → (if b then some last_admin else none) ≡ none → b ≡ false
    by_count true k = cc
    by_count false k = refl

    by_test :
        (e b : Bool)
        → b ≡ true
        → (r : Outcome GroupError ℕ) → new_admins g self promote ≡ r
        → (if not e && not b then some invalid_promotion else with_admins g b r) ≡ none
        → (n : ℕ) × (new_admins g self promote ≡ returns n)
          × ((admins g.members + n == 1 && ltb 1 (length g.members)) ≡ false)
    by_test e false p r q k = cc
    by_test true true p (returns n) q k = (n, q, by_count _ k)
    by_test false true p (returns n) q k = (n, q, by_count _ k)
    by_test true true p (fails x) q k = cc
    by_test false true p (fails x) q k = cc

-- A member whose leaving the check allows, with the promotions that go with it, leaves either no
-- member or an administrator, if the group had one and no two members have the same ACI.
pub check_leave-Orphanless :
    (g : Group) (self : Bytes) (promote : List Recipient)
    → Unique g.members
    → 0 < admins g.members
    → (membership_of g self).0 ≡ is_member
    → check_leave g self promote ≡ none
    → Orphanless self promote g.members
unfolding check_leave
check_leave-Orphanless g self promote d a m h =
    let (own, f, r) = found_member g self m in
    elim (Bool-cases (is_admin own.role)) [
      | inr plain ↦ member_leaves g self promote own d f plain a
      | inl adm ↦
          let role : is_admin (membership_of g self).1 ≡ true =
            ap (λ (x : GroupRole). is_admin x) r ∙ adm in
          let pair : membership_of g self ≡ (is_member, (membership_of g self).1) =
            (λ i. (m i, (membership_of g self).1)) in
          let tested =
            subst (λ (x : Membership × GroupRole). check_leave_as g self promote x ≡ none) pair h in
          let (n, c, k) = leave_tested g self promote (membership_of g self).1 tested role in
          admin_leaves g self promote own n d f a (counted-Promotes g self promote [] n c) k
    ]
