-- ===== src/Policy/Targets.antt =====
-- internal/app/recipient.go: where a message goes. The client is a parameter: the own account, and
-- the lookup of users, which returns one resolved recipient for each, or fails. Arguments are
-- parsed.
use go_signal.Base.{
  Bool, true, not, ◌&&◌, ◌||◌, List, [], ◌∷◌, ◌++◌, Bytes, codes, is_empty, str_eq, any,
  if◌then◌else◌,
}
use go_signal.Types.{Recipient, to_string}

-- Target
pub record Target : Type 0 where
  pub recipient : Recipient
  pub group_id : Bytes
  pub self : Bool

-- Target.IsGroup
abbrev pub to_group : Target → Bool
to_group t = not (is_empty t.group_id)

-- Target.String
unfoldable pub target_string : Target → Bytes
target_string t =
    if to_group t
    then codes "group:" ++ t.group_id
    else if t.self
    then codes "self"
    else if not (is_empty t.recipient.username) && is_empty t.recipient.aci
    then codes "@" ++ t.recipient.username
    else to_string t.recipient

-- What resolving needs of signal.Account.
pub record Account : Type 0 where
  pub aci : Bytes
  pub number : Bytes

-- Why resolving fails: ErrNotOnSignal, or another error of the client.
pub data ResolveError : Type 0 where
  not_on_signal client_failed : ResolveError

pub data Result (A : Type 0) : Type 0 where
  ok : A → Result A
  err : ResolveError → Result A

-- The client's Account and Resolve.
pub record Directory : Type 0 where
  pub account : Result Account
  pub resolve : List Recipient → Result (List Recipient)

-- isOwn
unfoldable pub is_own : Target → Account → Bool
is_own t own =
    t.self
    || str_eq t.recipient.aci own.aci
    || not (is_empty t.recipient.number) && str_eq t.recipient.number own.number

-- The note-to-self target.
abbrev pub own_target : Account → Target
own_target own = record {
  recipient = record { aci = own.aci; pni = codes ""; number = own.number; username = codes "" };
  group_id = codes "";
  self = true;
}

-- A turn of markSelf's loop on a target that is not a group.
abbrev pub mark_one : Account → Target → Target
mark_one own t = if is_own t own then own_target own else t

-- The target is left to look up.
abbrev pub is_pending : Target → Bool
is_pending t = not (to_group t) && not t.self && is_empty t.recipient.aci

-- markSelf, with the own account at hand; which targets are left to look up is is_pending.
unfoldable pub mark_self : Account → List Target → List Target
mark_self own [] = []
mark_self own (t ∷ ts) = (if to_group t then t else mark_one own t) ∷ mark_self own ts

unfoldable pub pending : List Target → List Recipient
pending [] = []
pending (t ∷ ts) = let rest = pending ts in if is_pending t then t.recipient ∷ rest else rest

-- The resolved recipients in the place of the pending ones.
unfoldable pub fill : List Target → List Recipient → List Target
fill [] rs = []
fill (t ∷ ts) [] = t ∷ ts
fill (t ∷ ts) (r ∷ rs) =
    let rest = fill ts rs in
    let same = fill ts (r ∷ rs) in
    if is_pending t then record t { recipient = r } ∷ rest else t ∷ same

unfoldable pub filled : List Target → Result (List Recipient) → Result (List Target)
unfolding fill
filled ts (ok rs) = ok (fill ts rs)
filled ts (err e) = err e

module _ (dir : Directory) where
  unfoldable pub looked_up : List Target → Result (List Target)
  unfolding filled pending
  looked_up ts = if is_empty (pending ts) then ok ts else filled ts (dir.resolve (pending ts))

  unfoldable pub marked : List Target → Result Account → Result (List Target)
  unfolding mark_self looked_up
  marked ts (ok own) = looked_up (mark_self own ts)
  marked ts (err e) = err e

  -- App.resolveUsers; the account is asked for if a target is no group.
  unfoldable pub resolve_users : List Target → Result (List Target)
  unfolding marked
  resolve_users ts = if any (λ t. not (to_group t)) ts then marked ts dir.account else ok ts

-- dedupe's key.
abbrev pub dedupe_key : Target → Bytes
dedupe_key t = if to_group t then codes "group:" ++ t.group_id else t.recipient.aci

unfoldable pub dedupe_from : List Bytes → List Target → List Target
dedupe_from seen [] = []
dedupe_from seen (t ∷ ts) =
    let rest = dedupe_from (dedupe_key t ∷ seen) ts in
    let skip = dedupe_from seen ts in if any (str_eq (dedupe_key t)) seen then skip else t ∷ rest

-- dedupe
abbrev pub dedupe : List Target → List Target
dedupe ts = dedupe_from [] ts

deduped : Result (List Target) → Result (List Target)
deduped (ok ts) = ok (dedupe ts)
deduped (err e) = err e

-- App.ResolveRecipients on arguments that are parsed.
unfoldable pub resolve_recipients : Directory → List Target → Result (List Target)
unfolding deduped
resolve_recipients dir ts = deduped (resolve_users dir ts)
