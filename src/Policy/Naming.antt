-- ===== src/Policy/Naming.antt =====
-- internal/app/policy.go: which targets an allowlist names, and what the check makes of them.
use go_signal.Base.{
  ◌≡◌, ◌∙◌, sym, ap, refl, Bool, true, false, not, some, List, [], ◌∷◌, Bytes, is_empty, str_eq,
  str_eq→eq, str_eq_refl, All, if◌then◌else◌, ◌⊎◌, inl, inr, arith, Bool-cases,
}
use go_signal.Policy.Targets.{Target, to_group, target_string, Directory, ok}
use go_signal.Policy.Allowlist.{
  Allowlist, allowed, denied, denials, same_target, allows, judged, checked_list, resolve_list,
  check_allowed,
}

-- An entry names a target: the same group, the note to self, or the user with the same ACI.
pub data NamesTarget (entry t : Target) : Type 0 where
  group_named : to_group t ≡ true → entry.group_id ≡ t.group_id → NamesTarget entry t
  self_named :
      to_group entry ≡ false
      → to_group t ≡ false
      → entry.self ≡ true
      → t.self ≡ true
      → NamesTarget entry t
  user_named :
      to_group entry ≡ false
      → to_group t ≡ false
      → entry.self ≡ false
      → t.self ≡ false
      → is_empty t.recipient.aci ≡ false
      → entry.recipient.aci ≡ t.recipient.aci
      → NamesTarget entry t

abbrev pub Listed : List Target → Target → Type 0
Listed [] t = ⊥
Listed (entry ∷ entries) t = NamesTarget entry t ⊎ Listed entries t

-- The names of the targets that no entry names, in order.
abbrev pub Refuses : List Target → List Target → List Bytes → Type 0
Refuses entries [] names = names ≡ []
Refuses entries (t ∷ ts) names =
    (Listed entries t × Refuses entries ts names)
    ⊎ ((Listed entries t → ⊥)
        × (rest : List Bytes) × (names ≡ target_string t ∷ rest)
        × Refuses entries ts rest)

same_target-NamesTarget : (a b : Target) → same_target a b ≡ true → NamesTarget a b
unfolding same_target
same_target-NamesTarget a b h = elim (Bool-cases (to_group b)) [
  | inl g ↦ group_named g (str_eq→eq a.group_id b.group_id (ground (arith, g, h)))
  | inr g ↦ elim (Bool-cases (to_group a)) [
    | inl k ↦
        let same : str_eq a.group_id b.group_id ≡ true = ground (arith, g, k, h) in
        let eq = str_eq→eq a.group_id b.group_id same in
        let none_left : to_group a ≡ to_group b = ap (λ x. not (is_empty x)) eq in
        absurd (ground (arith, g, k, none_left))
    | inr k ↦ elim (Bool-cases (a.self)) [
      | inl p ↦ self_named k g p (ground (arith, g, k, p, h))
      | inr p ↦
          let same : str_eq a.recipient.aci b.recipient.aci ≡ true = ground (arith, g, k, p, h) in
          let eq = str_eq→eq a.recipient.aci b.recipient.aci same in
          let full : is_empty a.recipient.aci ≡ false = ground (arith, g, k, p, h) in
          user_named k g p (ground (arith, g, k, p, h)) (ap is_empty (sym eq) ∙ full) eq
    ]
  ]
]

NamesTarget-same_target : (a b : Target) → NamesTarget a b → same_target a b ≡ true
unfolding same_target
NamesTarget-same_target a b (group_named g e) =
    let s : str_eq a.group_id b.group_id ≡ true =
      ap (λ x. str_eq x b.group_id) e ∙ str_eq_refl b.group_id in
    ground (arith, g, s)
NamesTarget-same_target a b (self_named k g p q) = ground (arith, k, g, p, q)
NamesTarget-same_target a b (user_named k g p q f e) =
    let s : str_eq a.recipient.aci b.recipient.aci ≡ true =
      ap (λ x. str_eq x b.recipient.aci) e ∙ str_eq_refl b.recipient.aci in
    let full : is_empty a.recipient.aci ≡ false = ap is_empty e ∙ f in
    ground (arith, k, g, p, q, full, s)

allows-Listed : (entries : List Target) (t : Target) → allows entries t ≡ true → Listed entries t
unfolding allows
allows-Listed [] t h = cc
allows-Listed (entry ∷ entries) t h = elim (Bool-cases (same_target entry t)) [
  | inl e ↦ inl (same_target-NamesTarget entry t e)
  | inr e ↦ inr (allows-Listed entries t (ground (arith, e, h)))
]

Listed-allows : (entries : List Target) (t : Target) → Listed entries t → allows entries t ≡ true
unfolding allows
Listed-allows [] t l = elim l [ ]
Listed-allows (entry ∷ entries) t (inl n) = ground (arith, NamesTarget-same_target entry t n)
Listed-allows (entry ∷ entries) t (inr l) = ground (arith, Listed-allows entries t l)

unlisted : (entries : List Target) (t : Target) → allows entries t ≡ false → Listed entries t → ⊥
unlisted entries t h l = let k = Listed-allows entries t l in absurd (ground (arith, h, k))

denials-Refuses : (entries ts : List Target) → Refuses entries ts (denials entries ts)
unfolding denials
denials-Refuses entries [] = refl
denials-Refuses entries (t ∷ ts) = elim (Bool-cases (allows entries t)) [
  | inl h ↦ rw h (inl (allows-Listed entries t h, denials-Refuses entries ts))
  | inr h ↦ rw h (inr (unlisted entries t h, denials entries ts, refl, denials-Refuses entries ts))
]

if_not : {A : Type 0} (b : Bool) (x y : A) → b ≡ false → (if b then x else y) ≡ y
if_not true x y h = cc
if_not false x y h = refl

-- With an allowlist that does not allow everyone and whose entries resolve, the check passes
-- exactly when an entry names every target (a group by its ID, the note to self, a user by the
-- ACI), and else it is denied with exactly the targets that none names, in order.
pub check_allowed-Refuses :
    (dir : Directory) (l : Allowlist) (ts entries : List Target)
    → l.all ≡ false
    → (resolve_list dir l).1 ≡ ok entries
    → (names : List Bytes) × Refuses entries ts names
      × (check_allowed dir (some l) ts ≡ (if is_empty names then allowed else denied names))
unfolding check_allowed checked_list judged
check_allowed-Refuses dir l ts entries h r = (
  denials entries ts,
  denials-Refuses entries ts,
  if_not l.all allowed (judged ts (resolve_list dir l).1) h ∙ rw r refl,
)

none_refused :
    (entries ts : List Target) (names : List Bytes)
    → Refuses entries ts names
    → names ≡ []
    → All (Listed entries) ts
none_refused entries [] names f e = tt
none_refused entries (t ∷ ts) names (inl (l, f)) e = (l, none_refused entries ts names f e)
none_refused entries (t ∷ ts) names (inr (u, rest, n, f)) e = cc

-- What is let through is named by an entry.
pub allowed-Listed :
    (dir : Directory) (l : Allowlist) (ts entries : List Target)
    → l.all ≡ false
    → (resolve_list dir l).1 ≡ ok entries
    → check_allowed dir (some l) ts ≡ allowed
    → All (Listed entries) ts
allowed-Listed dir l ts entries h r c =
    let (names, f, e) = check_allowed-Refuses dir l ts entries h r in
    none_refused entries ts names f (nothing names (sym e ∙ c))
  where
    nothing :
        (names : List Bytes)
        → (if is_empty names then allowed else denied names) ≡ allowed
        → names ≡ []
    nothing [] k = refl
    nothing (n ∷ names) k = cc
