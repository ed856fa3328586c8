-- ===== src/Groups/Promotions.antt =====
-- internal/signal/groups.go: what the promotions of a change make of the members.
use go_signal.Base.{
  ℕ, Bool, true, false, Option, none, some, List, [], ◌∷◌, Bytes, str_eq, str_eq_refl, any, returns,
  fails, if◌then◌else◌, ◌≡◌, refl, arith, ◌⊎◌, inl, inr,
}
use go_signal.Types.{Recipient}
use go_signal.Groups.State.{Group, GroupMember, invalid_promotion, is_admin}
use go_signal.Groups.Changes.{is_target}
use go_signal.Groups.Banning.{has_member}
use go_signal.Groups.Leaving.{
  Promotion, refused, no_change, promotes, promoted_member, promotion, one_more, new_admins_from,
}
use go_signal.Groups.AdminCounts.{find_any}

-- A promotion that makes an administrator names a member other than the account.
promotes_member :
    (g : Group) (self : Bytes) (r : Recipient)
    → promotion g self r ≡ promotes
    → (has_member r.aci g.members ≡ true) × (str_eq r.aci self ≡ false)
unfolding promotion
promotes_member g self r h = by_member (promoted_member g r) refl h
  where
    by_role :
        (m : GroupMember) (own adm : Bool)
        → str_eq r.aci self ≡ own
        → (if own then refused else if adm then no_change else promotes) ≡ promotes
        → str_eq r.aci self ≡ false
    by_role m true adm e k = cc
    by_role m false true e k = cc
    by_role m false false e k = e

    by_member :
        (o : Option GroupMember)
        → promoted_member g r ≡ o
        → (elim o [
          | none ↦ refused
          | some m ↦
              if str_eq r.aci self then refused else if is_admin m.role then no_change else promotes
        ])
          ≡ promotes
        → (has_member r.aci g.members ≡ true) × (str_eq r.aci self ≡ false)
    by_member none e k = cc
    by_member (some m) e k =
        (find_any r g.members m e, by_role m (str_eq r.aci self) (is_admin m.role) refl k)

-- Some promotion of the list makes an administrator.
abbrev pub Promotes : Group → Bytes → List Recipient → Type 0
Promotes g self rs =
    (x : Bytes) × (is_target rs x ≡ true)
    × (has_member x g.members ≡ true)
    × (str_eq x self ≡ false)

more_targets :
    (g : Group) (self : Bytes) (r : Recipient) (rs : List Recipient)
    → Promotes g self rs
    → Promotes g self (r ∷ rs)
more_targets g self r rs (x, t, m, n) = (x, ground (arith, t), m, n)

pub counted-Promotes :
    (g : Group) (self : Bytes) (rs : List Recipient) (seen : List Bytes) (n : ℕ)
    → new_admins_from g self seen rs ≡ returns n
    → (n ≡ 0) ⊎ Promotes g self rs
unfolding new_admins_from
counted-Promotes g self [] seen n h = inl cc
counted-Promotes g self (r ∷ rs) seen n h =
    by_promotion (promotion g self r) (any (str_eq r.aci) seen) refl
      (counted-Promotes g self rs seen n) h
  where
    here : promotion g self r ≡ promotes → Promotes g self (r ∷ rs)
    here e = let (m, n) = promotes_member g self r e in (r.aci, rw (str_eq_refl r.aci) refl, m, n)

    rest : (n ≡ 0) ⊎ Promotes g self rs → (n ≡ 0) ⊎ Promotes g self (r ∷ rs)
    rest (inl z) = inl z
    rest (inr p) = inr (more_targets g self r rs p)

    by_promotion :
        (p : Promotion) (b : Bool)
        → promotion g self r ≡ p
        → (new_admins_from g self seen rs ≡ returns n → (n ≡ 0) ⊎ Promotes g self rs)
        → (elim p [
          | refused ↦ fails invalid_promotion
          | no_change ↦ new_admins_from g self seen rs
          | promotes ↦
              if b
              then new_admins_from g self seen rs
              else one_more (new_admins_from g self (r.aci ∷ seen) rs)
        ])
          ≡ returns n
        → (n ≡ 0) ⊎ Promotes g self (r ∷ rs)
    by_promotion refused b e ih k = cc
    by_promotion no_change b e ih k = rest (ih k)
    by_promotion promotes b e ih k = inr (here e)
