-- ===== src/Policy/Resolving.antt =====
-- What resolving recipients in internal/app/recipient.go keeps and drops.
use go_signal.Base.{
  ℕ, ◌+◌, ◌≡◌, ◌≢◌, ◌∙◌, sym, ap, refl, inl, inr, Bool, true, false, not, ◌&&◌, List, [], ◌∷◌,
  Bytes, is_empty, length, str_eq, str_eq→eq, str_eq_iff, str_eq_refl, str_eq_sym, any, All, arith,
  Bool-cases,
}
use go_signal.Types.{Recipient}
use go_signal.Policy.Targets.{
  Target, to_group, Directory, Account, Result, ok, err, mark_one, is_pending, mark_self, pending,
  fill, filled, looked_up, marked, resolve_users, dedupe_key, dedupe_from, dedupe,
}

-- The key is one of the list.
abbrev pub has_key : Bytes → List Target → Bool
has_key key ts = any (λ t. str_eq (dedupe_key t) key) ts

abbrev pub seen_key : Bytes → List Bytes → Bool
seen_key key seen = any (str_eq key) seen

-- No two targets have the same key.
abbrev pub DistinctKeys : List Target → Type 0
DistinctKeys [] = Unit {0}
DistinctKeys (t ∷ ts) = (has_key (dedupe_key t) ts ≡ false) × DistinctKeys ts

-- What is kept has the keys of the list that were not seen.
has_key-dedupe_from :
    (seen : List Bytes) (ts : List Target) (key : Bytes)
    → has_key key (dedupe_from seen ts) ≡ (has_key key ts && not (seen_key key seen))
unfolding dedupe_from
has_key-dedupe_from seen [] key = refl
has_key-dedupe_from seen (t ∷ ts) key =
    let same = str_eq_iff (dedupe_key t) key in
    let back = str_eq_iff key (dedupe_key t) in
    elim (Bool-cases (seen_key (dedupe_key t) seen)) [
      | inl h ↦ elim (Bool-cases (str_eq (dedupe_key t) key)) [
        | inl e ↦
            let k = str_eq→eq (dedupe_key t) key e in
            let s : seen_key key seen ≡ true = sym (ap (λ b. seen_key b seen) k) ∙ h in
            rw (h, e, s) (has_key-dedupe_from seen ts key ∙ rw s (ground arith))
        | inr e ↦ rw (h, e) (has_key-dedupe_from seen ts key)
      ]
      | inr h ↦ elim (Bool-cases (str_eq (dedupe_key t) key)) [
        | inl e ↦
            let k = str_eq→eq (dedupe_key t) key e in
            let s : seen_key key seen ≡ false = sym (ap (λ b. seen_key b seen) k) ∙ h in
            rw (h, e, s) refl
        | inr e ↦
            let e' : str_eq key (dedupe_key t) ≡ false = str_eq_sym key (dedupe_key t) ∙ e in
            rw (h, e) (has_key-dedupe_from (dedupe_key t ∷ seen) ts key ∙ rw e' refl)
      ]
    ]

DistinctKeys-dedupe_from :
    (seen : List Bytes) (ts : List Target) → DistinctKeys (dedupe_from seen ts)
unfolding dedupe_from
DistinctKeys-dedupe_from seen [] = tt
DistinctKeys-dedupe_from seen (t ∷ ts) =
    let key = dedupe_key t in
    let has = has_key-dedupe_from (key ∷ seen) ts key in
    elim (Bool-cases (seen_key key seen)) [
      | inl h ↦ rw h (DistinctKeys-dedupe_from seen ts)
      | inr h ↦
          rw h (has ∙ rw (str_eq_refl key) (ground arith), DistinctKeys-dedupe_from (key ∷ seen) ts)
    ]

-- Dropping duplicates keeps each group and each ACI of the targets once, and no other.
pub dedupe_lem :
    (ts : List Target) (key : Bytes)
    → DistinctKeys (dedupe ts) × (has_key key (dedupe ts) ≡ has_key key ts)
dedupe_lem ts key = (DistinctKeys-dedupe_from [] ts, has_key-dedupe_from [] ts key ∙ ground arith)

-- A target that a message can go to: a group, the note to self, or a user with an ACI.
abbrev pub IsResolved : Target → Type 0
IsResolved t = is_pending t ≡ false

-- Each target has the group of the one in its place.
abbrev pub SameGroups : List Target → List Target → Type 0
SameGroups [] [] = Unit {0}
SameGroups [] (u ∷ us) = ⊥
SameGroups (t ∷ ts) [] = ⊥
SameGroups (t ∷ ts) (u ∷ us) = (t.group_id ≡ u.group_id) × SameGroups ts us

SameGroups-refl : (ts : List Target) → SameGroups ts ts
SameGroups-refl [] = tt
SameGroups-refl (t ∷ ts) = (refl, SameGroups-refl ts)

SameGroups-trans : (ts us vs : List Target) → SameGroups ts us → SameGroups us vs → SameGroups ts vs
SameGroups-trans [] [] vs s r = r
SameGroups-trans [] (u ∷ us) vs s r = absurd s
SameGroups-trans (t ∷ ts) [] vs s r = absurd s
SameGroups-trans (t ∷ ts) (u ∷ us) [] s r = absurd r
SameGroups-trans (t ∷ ts) (u ∷ us) (v ∷ vs) s r = (s.0 ∙ r.0, SameGroups-trans ts us vs s.1 r.1)

is_empty_nil : (s : Bytes) → is_empty s ≡ true → s ≡ []
is_empty_nil [] h = refl
is_empty_nil (x ∷ s) h = cc

mark_one-group :
    (own : Account) (t : Target) → to_group t ≡ false → t.group_id ≡ (mark_one own t).group_id
mark_one-group own t h = ground (arith, is_empty_nil t.group_id)

mark_self-SameGroups : (own : Account) (ts : List Target) → SameGroups ts (mark_self own ts)
unfolding mark_self
mark_self-SameGroups own [] = tt
mark_self-SameGroups own (t ∷ ts) = elim (Bool-cases (to_group t)) [
  | inl h ↦ rw h (refl, mark_self-SameGroups own ts)
  | inr h ↦ rw h (mark_one-group own t h, mark_self-SameGroups own ts)
]

fill-SameGroups : (ts : List Target) (rs : List Recipient) → SameGroups ts (fill ts rs)
unfolding fill
fill-SameGroups [] rs = tt
fill-SameGroups (t ∷ ts) [] = SameGroups-refl (t ∷ ts)
fill-SameGroups (t ∷ ts) (r ∷ rs) = elim (Bool-cases (is_pending t)) [
  | inl h ↦ rw h (refl, fill-SameGroups ts rs)
  | inr h ↦ rw h (refl, fill-SameGroups ts (r ∷ rs))
]

one_more : (n : ℕ) → 1 + n ≢ 0
one_more n h = omega arith

length-pending_more :
    (t : Target) (ts : List Target)
    → is_pending t ≡ true
    → length (pending (t ∷ ts)) ≡ 1 + length (pending ts)
unfolding pending
length-pending_more t ts h = rw h (omega arith)

length-pending_same :
    (t : Target) (ts : List Target)
    → is_pending t ≡ false
    → length (pending (t ∷ ts)) ≡ length (pending ts)
unfolding pending
length-pending_same t ts h = rw h refl

none_pending : (ts : List Target) → length (pending ts) ≡ 0 → All IsResolved ts
none_pending [] e = tt
none_pending (t ∷ ts) e = elim (Bool-cases (is_pending t)) [
  | inl h ↦ absurd (one_more (length (pending ts)) (sym (length-pending_more t ts h) ∙ e))
  | inr h ↦ (h, none_pending ts (sym (length-pending_same t ts h) ∙ e))
]

fill-IsResolved :
    (ts : List Target) (rs : List Recipient)
    → length (pending ts) ≡ length rs
    → All (λ r. is_empty r.aci ≡ false) rs
    → All IsResolved (fill ts rs)
unfolding fill pending
fill-IsResolved [] rs e k = tt
fill-IsResolved (t ∷ ts) [] e k = none_pending (t ∷ ts) e
fill-IsResolved (t ∷ ts) (r ∷ rs) e k = elim (Bool-cases (is_pending t)) [
  | inl h ↦
      let n = length-pending_more t ts h in
      rw h (ground (arith, k.0), fill-IsResolved ts rs (omega (arith, e, n)) k.1)
  | inr h ↦
      let n = length-pending_same t ts h in
      rw h (h, fill-IsResolved ts (r ∷ rs) (omega (arith, e, n)) k)
]

groups-IsResolved : (ts : List Target) → any (λ t. not (to_group t)) ts ≡ false → All IsResolved ts
groups-IsResolved [] h = tt
groups-IsResolved (t ∷ ts) h = (ground arith, groups-IsResolved ts (ground arith))

is_empty-length : {A : Type 0} (xs : List A) → is_empty xs ≡ true → length xs ≡ 0
is_empty-length [] h = refl
is_empty-length (x ∷ xs) h = cc

-- What resolving promises of the targets it is given.
abbrev pub Resolves : List Target → Result (List Target) → Type 0
Resolves ts (ok us) = SameGroups ts us × All IsResolved us
Resolves ts (err e) = Unit {0}

-- signal.Client.Resolve: a recipient with an ACI for each that it was asked for, or an error.
abbrev pub Answers : List Recipient → Result (List Recipient) → Type 0
Answers asked (ok rs) = (length asked ≡ length rs) × All (λ r. is_empty r.aci ≡ false) rs
Answers asked (err e) = Unit {0}

filled-Resolves :
    (ts : List Target) (answer : Result (List Recipient))
    → Answers (pending ts) answer
    → Resolves ts (filled ts answer)
unfolding filled
filled-Resolves ts (ok rs) a = (fill-SameGroups ts rs, fill-IsResolved ts rs a.0 a.1)
filled-Resolves ts (err e) a = tt

Resolves-after :
    (ts us : List Target) (out : Result (List Target))
    → SameGroups ts us
    → Resolves us out
    → Resolves ts out
Resolves-after ts us (ok vs) s r = (SameGroups-trans ts us vs s r.0, r.1)
Resolves-after ts us (err e) s r = tt

module _ (dir : Directory) (answers : (rs : List Recipient) → Answers rs (dir.resolve rs)) where
  looked_up-Resolves : (ts : List Target) → Resolves ts (looked_up dir ts)
  unfolding looked_up
  looked_up-Resolves ts = elim (Bool-cases (is_empty (pending ts))) [
    | inl h ↦ rw h (SameGroups-refl ts, none_pending ts (is_empty-length (pending ts) h))
    | inr h ↦ rw h (filled-Resolves ts (dir.resolve (pending ts)) (answers (pending ts)))
  ]

  marked-Resolves : (ts : List Target) (own : Result Account) → Resolves ts (marked dir ts own)
  unfolding marked
  marked-Resolves ts (ok own) =
      Resolves-after ts (mark_self own ts) (looked_up dir (mark_self own ts))
        (mark_self-SameGroups own ts) (looked_up-Resolves (mark_self own ts))
  marked-Resolves ts (err e) = tt

  -- With a client that answers a lookup with an ACI for each user, resolving the users of targets
  -- either fails or gives one target for each, in order: a group stays the group it is, and every
  -- other target is the note to self or a user with an ACI.
  pub resolve_users_lem : (ts : List Target) → Resolves ts (resolve_users dir ts)
  unfolding resolve_users
  resolve_users_lem ts = elim (Bool-cases (any (λ t. not (to_group t)) ts)) [
    | inl h ↦ rw h (marked-Resolves ts dir.account)
    | inr h ↦ rw h (SameGroups-refl ts, groups-IsResolved ts h)
  ]
