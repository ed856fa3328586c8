-- ===== src/Groups/AdminCounts.antt =====
-- internal/signal/groups.go: how many administrators a change of members leaves.
use go_signal.Base.{
  suc, ◌<◌, ◌≤◌, Bool, true, false, not, ◌&&◌, some, List, [], ◌∷◌, Bytes, is_empty, str_eq,
  str_eq→eq, find, select, map, if◌then◌else◌, ◌≡◌, ◌∙◌, refl, sym, ap, subst, arith, Bool-cases,
  inl, inr,
}
use go_signal.Types.{Recipient}
use go_signal.Groups.State.{admin, GroupMember, is_admin, admins, member_with}
use go_signal.Groups.Changes.{is_target, set_role}
use go_signal.Groups.Banning.{has_member}

-- No two members have the same ACI.
abbrev pub Unique : List GroupMember → Type 0
Unique [] = Unit
Unique (m ∷ ms) = (has_member m.recipient.aci ms ≡ false) × Unique ms

abbrev pub others : Bytes → List GroupMember → List GroupMember
others self ms = select (λ m. not (str_eq m.recipient.aci self)) ms

-- The members after a change that promotes members and removes the account.
abbrev pub remaining : Bytes → List Recipient → List GroupMember → List GroupMember
remaining self promote ms = map (set_role promote admin) (others self ms)

others_none :
    (self : Bytes) (ms : List GroupMember) → has_member self ms ≡ false → others self ms ≡ ms
others_none self [] h = refl
others_none self (m ∷ ms) h = elim (Bool-cases (str_eq m.recipient.aci self)) [
  | inl e ↦ ground (arith, e, h)
  | inr e ↦
      let rest : has_member self ms ≡ false = ground (arith, e, h) in
      rw e (ap (◌∷◌ m) (others_none self ms rest))
]

-- At most one administrator is the account.
pub admins-others :
    (self : Bytes) (ms : List GroupMember) → Unique ms → admins ms ≤ suc (admins (others self ms))
unfolding admins
admins-others self [] d = ground arith
admins-others self (m ∷ ms) (d, ds) = elim (Bool-cases (str_eq m.recipient.aci self)) [
  | inl e ↦
      let absent : has_member self ms ≡ false =
        subst (λ x. has_member x ms ≡ false) (str_eq→eq m.recipient.aci self e) d in
      let kept = others_none self ms absent in rw (e, kept) (ground arith)
  | inr e ↦ rw e (ground (arith, admins-others self ms ds))
]

pub admins_promoted :
    (promote : List Recipient) (ms : List GroupMember)
    → admins ms ≤ admins (map (set_role promote admin) ms)
unfolding admins
admins_promoted promote [] = ground arith
admins_promoted promote (m ∷ ms) = elim (Bool-cases (is_target promote m.recipient.aci)) [
  | inl h ↦ rw h (ground (arith, admins_promoted promote ms))
  | inr h ↦ rw h (ground (arith, admins_promoted promote ms))
]

-- No administrator is the account if it is a member of another role.
pub admins_kept :
    (self : Bytes) (ms : List GroupMember) (own : GroupMember)
    → Unique ms
    → member_with self ms ≡ some own
    → is_admin own.role ≡ false
    → admins (others self ms) ≡ admins ms
unfolding admins
admins_kept self [] own d f h = refl
admins_kept self (m ∷ ms) own (d, ds) f h = elim (Bool-cases (str_eq m.recipient.aci self)) [
  | inl e ↦
      let absent : has_member self ms ≡ false =
        subst (λ x. has_member x ms ≡ false) (str_eq→eq m.recipient.aci self e) d in
      let kept = others_none self ms absent in
      let here = rw_found e f in
      let plain : is_admin m.role ≡ false =
        subst (λ (x : GroupMember). is_admin x.role ≡ false) (sym here) h in
      rw (e, kept, plain) refl
  | inr e ↦
      let there = rw_rest e f in
      let ih = admins_kept self ms own ds there h in ground (arith, e, ih)
]
  where
    rw_found :
        str_eq m.recipient.aci self ≡ true
        → (if str_eq m.recipient.aci self then some m else member_with self ms) ≡ some own
        → m ≡ own
    rw_found e k = by_test (str_eq m.recipient.aci self) e k
      where
        by_test :
            (b : Bool) → b ≡ true → (if b then some m else member_with self ms) ≡ some own → m ≡ own
        by_test true e k = cc
        by_test false e k = cc

    rw_rest :
        str_eq m.recipient.aci self ≡ false
        → (if str_eq m.recipient.aci self then some m else member_with self ms) ≡ some own
        → member_with self ms ≡ some own
    rw_rest e k = by_test (str_eq m.recipient.aci self) e k
      where
        by_test :
            (b : Bool)
            → b ≡ false
            → (if b then some m else member_with self ms) ≡ some own
            → member_with self ms ≡ some own
        by_test true e k = cc
        by_test false e k = k

-- A member whom the change promotes is an administrator after it.
pub promoted_admin :
    (promote : List Recipient) (ms : List GroupMember) (x : Bytes)
    → has_member x ms ≡ true
    → is_target promote x ≡ true
    → 0 < admins (map (set_role promote admin) ms)
unfolding admins
promoted_admin promote [] x h t = cc
promoted_admin promote (m ∷ ms) x h t = elim (Bool-cases (str_eq m.recipient.aci x)) [
  | inl e ↦
      let named : is_target promote m.recipient.aci ≡ true =
        ap (is_target promote) (str_eq→eq m.recipient.aci x e) ∙ t in
      rw named (ground arith)
  | inr e ↦
      let rest : has_member x ms ≡ true = ground (arith, e, h) in
      ground (arith, promoted_admin promote ms x rest t)
]

pub find_any :
    (r : Recipient) (ms : List GroupMember) (m : GroupMember)
    → find (λ m. not (is_empty r.aci) && str_eq m.recipient.aci r.aci) ms ≡ some m
    → has_member r.aci ms ≡ true
find_any r [] m h = cc
find_any r (k ∷ ms) m h = elim (Bool-cases (str_eq k.recipient.aci r.aci)) [
  | inl e ↦ rw e refl
  | inr e ↦
      let p : (not (is_empty r.aci) && str_eq k.recipient.aci r.aci) ≡ false =
        rw e (and_false (not (is_empty r.aci))) in
      let rest = find_rest p h in ground (arith, e, find_any r ms m rest)
]
  where
    and_false : (b : Bool) → (b && false) ≡ false
    and_false true = refl
    and_false false = refl

    find_rest :
        (not (is_empty r.aci) && str_eq k.recipient.aci r.aci) ≡ false
        → (if not (is_empty r.aci) && str_eq k.recipient.aci r.aci
            then some k
            else find (λ m. not (is_empty r.aci) && str_eq m.recipient.aci r.aci) ms)
          ≡ some m
        → find (λ m. not (is_empty r.aci) && str_eq m.recipient.aci r.aci) ms ≡ some m
    find_rest e k' = by_test (not (is_empty r.aci) && str_eq k.recipient.aci r.aci) e k'
      where
        by_test :
            (b : Bool)
            → b ≡ false
            → (if b
                then some k
                else find (λ m. not (is_empty r.aci) && str_eq m.recipient.aci r.aci) ms)
              ≡ some m
            → find (λ m. not (is_empty r.aci) && str_eq m.recipient.aci r.aci) ms ≡ some m
        by_test true e h = cc
        by_test false e h = h
