-- ===== src/Policy/Allowing.antt =====
-- What the allowlist of internal/app/policy.go lets through.
use go_signal.Base.{
  ◌≡◌, ◌∙◌, sym, ap, refl, Bool, true, false, not, ◌&&◌, some, List, [], ◌∷◌, is_empty, str_eq_iff,
  str_eq_sym, all, map, select, if◌then◌else◌, arith,
}
use go_signal.Types.{Chat}
use go_signal.Policy.Targets.{Target, target_string, Directory, ok}
use go_signal.Policy.Allowlist.{
  same_target, allows, Allowlist, allows_none, allowed, denied, denials, resolve_list,
  check_allowed, chat_allowed, judged, checked_list, chat_target, among,
}

same_target_sym : (a b : Target) → same_target a b ≡ same_target b a
unfolding same_target
same_target_sym a b = ground (
  arith,
  str_eq_sym a.group_id b.group_id,
  str_eq_iff a.recipient.aci b.recipient.aci,
  str_eq_iff b.recipient.aci a.recipient.aci,
)

same_target_trans :
    (a b c : Target) → same_target a b ≡ true → same_target b c ≡ true → same_target a c ≡ true
unfolding same_target
same_target_trans a b c h k = ground (
  arith,
  str_eq_iff a.group_id b.group_id,
  str_eq_iff b.group_id c.group_id,
  str_eq_iff a.group_id c.group_id,
  str_eq_iff a.recipient.aci b.recipient.aci,
  str_eq_iff b.recipient.aci c.recipient.aci,
  str_eq_iff a.recipient.aci c.recipient.aci,
)

-- Being the same target is symmetric, and two targets that are the same as a third are the same:
-- what an entry of the allowlist allows is one group, the note to self, or one user.
pub same_target_lem :
    (a b c : Target)
    → same_target a b ≡ true
    → same_target b c ≡ true
    → (same_target b a ≡ true) × (same_target a c ≡ true)
same_target_lem a b c h k = (sym (same_target_sym a b) ∙ h, same_target_trans a b c h k)

denials-select :
    (entries ts : List Target)
    → denials entries ts ≡ map target_string (select (λ t. not (allows entries t)) ts)
unfolding denials
denials-select entries [] = refl
denials-select entries (t ∷ ts) = ground (arith, denials-select entries ts)

is_empty-denials :
    (entries ts : List Target) → is_empty (denials entries ts) ≡ all (λ t. allows entries t) ts
unfolding denials
is_empty-denials entries [] = refl
is_empty-denials entries (t ∷ ts) = ground (arith, is_empty-denials entries ts)

if_not : {A : Type 0} (b : Bool) (x y : A) → b ≡ false → (if b then x else y) ≡ y
if_not true x y h = cc
if_not false x y h = refl

-- With an allowlist that does not allow everyone and whose entries are resolved, the check passes
-- exactly when an entry allows every target, and else names exactly the targets that none does.
pub check_allowed_lem :
    (dir : Directory) (l : Allowlist) (ts entries : List Target)
    → l.all ≡ false
    → (resolve_list dir l).1 ≡ ok entries
    → check_allowed dir (some l) ts ≡ (
        if all (λ t. allows entries t) ts
        then allowed
        else denied (map target_string (select (λ t. not (allows entries t)) ts)))
unfolding check_allowed checked_list judged
check_allowed_lem dir l ts entries h r =
    if_not l.all allowed (judged ts (resolve_list dir l).1) h
    ∙ rw (r, is_empty-denials entries ts, denials-select entries ts) refl

chat_allowed_lem :
    (dir : Directory) (l : Allowlist) (c : Chat) (entries : List Target)
    → l.all ≡ false
    → (resolve_list dir l).1 ≡ ok entries
    → chat_allowed dir (some l) c ≡ (
        if allows_none l
        then ok false
        else if is_empty c.group_id && is_empty c.recipient.aci
        then ok false
        else ok (allows entries (chat_target c)))
unfolding chat_allowed among
chat_allowed_lem dir l c entries h r =
    let e : among (chat_target c) (resolve_list dir l).1 ≡ ok (allows entries (chat_target c)) =
      rw r refl in
    let f = if_not l.all (ok true) _ h in
    ap (λ v. if allows_none l then ok false else v)
      (f ∙ ap (λ v. if is_empty c.group_id && is_empty c.recipient.aci then ok false else v) e)

ok_true :
    (nobody unknown named : Bool)
    → (if nobody then ok false else if unknown then ok false else ok named) ≡ ok true
    → (unknown ≡ false) × (named ≡ true)
ok_true true unknown named e = cc
ok_true false true named e = cc
ok_true false false false e = cc
ok_true false false true e = (refl, refl)

-- A chat that is allowed, of an allowlist that does not allow everyone, is a group or a chat with a
-- known user that a resolved entry names; the check of a message to it passes as well.
pub chat_allowed-check_allowed :
    (dir : Directory) (l : Allowlist) (c : Chat) (entries : List Target)
    → l.all ≡ false
    → (resolve_list dir l).1 ≡ ok entries
    → chat_allowed dir (some l) c ≡ ok true
    → (check_allowed dir (some l) (chat_target c ∷ []) ≡ allowed)
      × ((is_empty c.group_id && is_empty c.recipient.aci) ≡ false)
chat_allowed-check_allowed dir l c entries h r e =
    let known =
      ok_true (allows_none l) (is_empty c.group_id && is_empty c.recipient.aci)
        (allows entries (chat_target c)) (sym (chat_allowed_lem dir l c entries h r) ∙ e) in
    (check_allowed_lem dir l (chat_target c ∷ []) entries h r ∙ rw known.1 refl, known.0)
