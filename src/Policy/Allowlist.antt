-- ===== src/Policy/Allowlist.antt =====
-- internal/app/policy.go: the allowlist that restricts where messages go.
use go_signal.Base.{
  Bool, true, false, not, ◌&&◌, ◌||◌, Option, none, some, List, [], ◌∷◌, ◌++◌, Bytes, codes,
  is_empty, str_eq, any, if◌then◌else◌,
}
use go_signal.Types.{Chat}
use go_signal.Policy.Targets.{
  Target, to_group, target_string, ResolveError, Result, ok, err, Directory, resolve_users,
  not_on_signal, client_failed,
}

-- sameTarget
unfoldable pub same_target : Target → Target → Bool
same_target a b =
    if to_group a || to_group b
    then str_eq a.group_id b.group_id
    else if a.self || b.self
    then a.self && b.self
    else not (is_empty a.recipient.aci) && str_eq a.recipient.aci b.recipient.aci

-- allows
unfoldable pub allows : List Target → Target → Bool
unfolding same_target
allows entries t = any (λ entry. same_target entry t) entries

-- Allowlist; `resolved` is `none` until it is done.
pub record Allowlist : Type 0 where
  pub all : Bool
  pub entries : List Target
  pub resolved : Option (List Target)

-- Allowlist.Empty
abbrev pub allows_none : Allowlist → Bool
allows_none l = not l.all && is_empty l.entries

-- Allowlist.Missing
unfoldable pub missing : Allowlist → Allowlist → List Bytes
missing l other =
    if l.all then [] else written other.entries ++ (if other.all then codes "*" ∷ [] else [])
  where
    is_listed : Target → Bool
    is_listed t = any (λ entry. str_eq (target_string entry) (target_string t)) l.entries

    written : List Target → List Bytes
    written [] = []
    written (t ∷ ts) = let rest = written ts in if is_listed t then rest else target_string t ∷ rest

with_entry : Result (List Target) → Result (List Target) → Result (List Target)
with_entry (ok []) rest = rest
with_entry (ok (t ∷ ts)) (ok rest) = ok (t ∷ rest)
with_entry (ok (t ∷ ts)) (err e) = err e
with_entry (err not_on_signal) rest = rest
with_entry (err client_failed) rest = err client_failed

-- The loop of resolveList.
unfoldable pub resolve_entries : Directory → List Target → Result (List Target)
unfolding with_entry
resolve_entries dir [] = ok []
resolve_entries dir (t ∷ ts) = with_entry (resolve_users dir (t ∷ [])) (resolve_entries dir ts)

unfoldable pub remembered : Allowlist → Result (List Target) → Allowlist
remembered l (ok ts) = record l { resolved = some ts }
remembered l (err e) = l

unfoldable pub resolved_or :
    Directory → Allowlist → Option (List Target) → Allowlist × Result (List Target)
unfolding remembered
resolved_or dir l (some ts) = (l, ok ts)
resolved_or dir l none =
    (remembered l (resolve_entries dir l.entries), resolve_entries dir l.entries)

-- App.resolveList
unfoldable pub resolve_list : Directory → Allowlist → Allowlist × Result (List Target)
unfolding resolved_or
resolve_list dir l = resolved_or dir l l.resolved

-- What checkAllowed returns: nil, ErrRecipientNotAllowed with the targets it names, an error.
pub data Verdict : Type 0 where
  allowed : Verdict
  denied : List Bytes → Verdict
  unresolved : ResolveError → Verdict

unfoldable pub denials : List Target → List Target → List Bytes
denials entries [] = []
denials entries (t ∷ ts) =
    let rest = denials entries ts in if allows entries t then rest else target_string t ∷ rest

unfoldable pub judged : List Target → Result (List Target) → Verdict
judged ts (ok entries) =
    if is_empty (denials entries ts) then allowed else denied (denials entries ts)
judged ts (err e) = unresolved e

unfoldable pub checked_list : Directory → Option Allowlist → List Target → Verdict
unfolding judged
checked_list dir none ts = allowed
checked_list dir (some l) ts = if l.all then allowed else judged ts (resolve_list dir l).1

-- App.checkAllowed
unfoldable pub check_allowed : Directory → Option Allowlist → List Target → Verdict
unfolding checked_list
check_allowed dir allow ts = checked_list dir allow ts

unfoldable pub chat_target : Chat → Target
chat_target c = record { recipient = c.recipient; group_id = c.group_id; self = false }

unfoldable pub among : Target → Result (List Target) → Result Bool
among t (ok entries) = ok (allows entries t)
among t (err e) = err e

-- App.ChatAllowed
unfoldable pub chat_allowed : Directory → Option Allowlist → Chat → Result Bool
unfolding chat_target among
chat_allowed dir none c = ok false
chat_allowed dir (some l) c =
    if allows_none l
    then ok false
    else if l.all
    then ok true
    else if is_empty c.group_id && is_empty c.recipient.aci
    then ok false
    else among (chat_target c) (resolve_list dir l).1
