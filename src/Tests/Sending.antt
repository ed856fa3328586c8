-- ===== src/Tests/Sending.antt =====
-- Tests of the models of the allowlist, the confirmation and the vote counters, and the theorems
-- about them at concrete inputs.
use go_signal.Base.{
  ◌≡◌, refl, true, false, ◌&&◌, none, some, List, [], ◌∷◌, Bytes, codes, str_eq, is_empty, map,
  if◌then◌else◌, arith, Some,
}
use go_signal.Confirm.{answer, PendingCall, InputResponse, go_ahead, check}
use go_signal.Confirm.Answers.{Consumed, check-Consumed}
use go_signal.Counters.{Reservation, key_of, reserve, reserve_all}
use go_signal.Policy.Targets.{
  dedupe_from, is_own, Target, Directory, ok, target_string, resolve_users, dedupe,
}
use go_signal.Policy.Allowlist.{
  denials, resolve_entries, Allowlist, allowed, denied, allows, resolve_list, check_allowed,
  chat_allowed, chat_target, missing,
}
use go_signal.Policy.Allowing.{chat_allowed-check_allowed}
use go_signal.Policy.Naming.{Refuses, check_allowed-Refuses}
use go_signal.Policy.Resolving.{Answers}
use go_signal.Std.Decimal.{format}
use go_signal.Types.{to_string, Recipient, Chat, of_aci, no_recipient}

abbrev automatic : Reservation
automatic = record { chat = codes "ann"; author = codes "bob"; timestamp = 12; explicit = 0 }

abbrev explicitly_five : Reservation
explicitly_five = record { chat = codes "ann"; author = codes "bob"; timestamp = 12; explicit = 5 }

reserve_runs : (reserve (reserve_all [] (automatic ∷ explicitly_five ∷ [])) automatic).1 ≡ some 6
unfolding reserve reserve_all str_eq key_of format
reserve_runs = refl

abbrev one_call : PendingCall
one_call = record { id = codes "confirm-1"; call = codes "send {}"; expires = 50 }

abbrev accepts_it : InputResponse
accepts_it = record { id = codes "confirm-1"; action = some (codes "accept") }

check_runs :
    check true (codes "2") (one_call ∷ []) (codes "send {}") 50 (accepts_it ∷ []) ≡ ([], go_ahead)
unfolding check str_eq answer
check_runs = refl

check_late : (check false (codes "2") (one_call ∷ []) (codes "send {}") 51 (accepts_it ∷ [])).0 ≡ []
unfolding check str_eq
check_late = refl

check-Consumed_example :
    Some
      (Consumed
        (one_call ∷ [])
        (check true (codes "2") (one_call ∷ []) (codes "send {}") 50 (accepts_it ∷ [])).0
        (codes "send {}")
        50)
      (accepts_it ∷ [])
unfolding str_eq answer
check-Consumed_example =
    check-Consumed true (codes "2") (one_call ∷ []) (codes "send {}") 50 (accepts_it ∷ [])
      (unfold check in refl)

abbrev user : Bytes → Target
user aci = record { recipient = of_aci aci; group_id = codes ""; self = false }

abbrev by_number : Target
by_number = record {
  recipient = record no_recipient { number = codes "+4915112345678" };
  group_id = codes "";
  self = false;
}

abbrev group : Target
group = record { recipient = no_recipient; group_id = codes "family"; self = false }

-- Every user that is looked up is Ann.
abbrev directory : Directory
directory = record {
  account = ok (record { aci = codes "me"; number = codes "+49" });
  resolve = λ rs. ok (map (λ r. of_aci (codes "ann")) rs);
}

directory-Answers : (rs : List Recipient) → Answers rs (directory.resolve rs)
directory-Answers [] = (refl, tt)
directory-Answers (r ∷ rs) =
    let rest = directory-Answers rs in (omega (arith, rest.0), (refl, rest.1))

abbrev allowlist : Allowlist
allowlist = record { all = false; entries = by_number ∷ group ∷ []; resolved = none }

check_allowed_runs :
    check_allowed directory (some allowlist) (user (codes "ann") ∷ user (codes "bob") ∷ group ∷ [])
    ≡ denied (codes "bob" ∷ [])
unfolding check_allowed resolve_list resolve_entries resolve_users is_own str_eq denials allows
    target_string to_string
check_allowed_runs = refl

missing_runs : missing allowlist (record allowlist { all = true }) ≡ codes "*" ∷ []
unfolding missing str_eq target_string to_string
missing_runs = refl

check_allowed-Refuses_example :
    (names : List Bytes) × Refuses
      (user (codes "ann") ∷ group ∷ [])
      (group ∷ user (codes "bob") ∷ [])
      names
    × (check_allowed directory (some allowlist) (group ∷ user (codes "bob") ∷ [])
        ≡ (if is_empty names then allowed else denied names))
unfolding resolve_entries resolve_users is_own str_eq
check_allowed-Refuses_example =
    check_allowed-Refuses directory allowlist (group ∷ user (codes "bob") ∷ [])
      (user (codes "ann") ∷ group ∷ []) refl (unfold resolve_list in refl)

abbrev family : Chat
family = record { group_id = codes "family"; recipient = no_recipient }

chat_allowed-check_allowed_example :
    (check_allowed directory (some allowlist) (chat_target family ∷ []) ≡ allowed)
    × ((is_empty family.group_id && is_empty family.recipient.aci) ≡ false)
unfolding resolve_entries resolve_users is_own str_eq resolve_list allows
chat_allowed-check_allowed_example =
    chat_allowed-check_allowed directory allowlist family (user (codes "ann") ∷ group ∷ []) refl
      (unfold resolve_list in refl) (unfold chat_allowed in refl)

dedupe_runs : dedupe (group ∷ user (codes "ann") ∷ group ∷ []) ≡ group ∷ user (codes "ann") ∷ []
unfolding dedupe_from str_eq
dedupe_runs = refl
