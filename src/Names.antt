-- ===== src/Names.antt =====
-- internal/app/names.go and internal/signal/contacts.go: the names of users, and the labels that tell
-- them apart. A map is a function of its keys; where a map may lack a key it is an option.
use go_signal.Base.{
  ℕ, suc, ◌+◌, ◌-◌, Bool, true, false, not, ◌&&◌, ◌||◌, Option, none, some, is_some, List, [], ◌∷◌,
  ◌++◌, Bytes, codes, is_empty, str_eq, any, map, select, find, reverse, take, length, ltb, ◌==◌,
  if◌then◌else◌,
}
use go_signal.Types.{Recipient, to_string, Chat, Mention, Quote}
use go_signal.Events.{
  Envelope, Message, Story, Edit, ReadMark, Event, message, story, poll_vote, poll_close, pin,
  unpin, edit, delete, reaction, typing, receipt, read_sync, unsupported, decryption_failure,
}
pub mod Book
pub mod Labels

-- signal.Contact
pub record Contact : Type 0 where
  pub recipient : Recipient
  pub open recipient use *
  pub contact_name : Bytes
  pub profile_name : Bytes
  pub nickname : Bytes
  pub blocked : Bool
  pub accepted : Option Bool

-- Contact.Name
unfoldable pub contact_title : Contact → Bytes
contact_title c =
    if not (is_empty c.nickname)
    then c.nickname
    else if not (is_empty c.contact_name)
    then c.contact_name
    else c.profile_name

-- Contact.DisplayName
unfoldable pub display_name : Contact → Bytes
unfolding contact_title
display_name c =
    if not (is_empty (contact_title c))
    then contact_title c
    else if not (is_empty c.number)
    then c.number
    else to_string c.recipient

-- nameEntry
pub record NameEntry : Type 0 where
  pub name : Bytes
  pub label : Bytes

abbrev pub no_entry : NameEntry
no_entry = record { name = codes ""; label = codes "" }

-- Names; a later pair of a list of a map overrides an earlier one.
pub record Names : Type 0 where
  pub own : Bytes
  pub by_aci : List (Bytes × NameEntry)
  pub by_number : List (Bytes × NameEntry)
  pub groups : List (Bytes × Bytes)

-- shortACILen
abbrev pub short_aci_len : ℕ
short_aci_len = 8

-- distinguish
unfoldable pub distinguish : Contact → Bytes
unfolding display_name
distinguish c =
    if not (is_empty c.number) && not (str_eq c.number (display_name c))
    then c.number
    else if ltb short_aci_len (length c.aci)
    then take short_aci_len c.aci
    else to_string c.recipient

-- How many contacts have the display name.
unfoldable pub count_names : Bytes → List Contact → ℕ
count_names name [] = 0
count_names name (c ∷ cs) =
    let rest = count_names name cs in if str_eq (display_name c) name then suc rest else rest

-- The entry of a contact among all contacts.
unfoldable pub entry_of : List Contact → Contact → NameEntry
unfolding distinguish count_names
entry_of all c = record {
  name = contact_title c;
  label =
      if ltb 1 (count_names (display_name c) all)
      then display_name c ++ codes " (" ++ distinguish c ++ codes ")"
      else display_name c;
}

-- The pairs that the loop of NewNames writes, in its order.
unfoldable pub keyed : (Contact → Bytes) → List Contact → List Contact → List (Bytes × NameEntry)
unfolding entry_of
keyed key all [] = []
keyed key all (c ∷ cs) =
    let rest = keyed key all cs in if is_empty (key c) then rest else (key c, entry_of all c) ∷ rest

abbrev pub contact_aci : Contact → Bytes
contact_aci c = c.recipient.aci

abbrev pub contact_number : Contact → Bytes
contact_number c = c.recipient.number

-- NewNames
unfoldable pub new_names : Bytes → List Contact → Names
unfolding keyed
new_names own contacts = record {
  own = own;
  by_aci = keyed contact_aci contacts contacts;
  by_number = keyed contact_number contacts contacts;
  groups = [];
}

abbrev pub or_first : {A : Type 0} → Option A → Option A → Option A
or_first (some b) o = some b
or_first none o = o

-- The value of a key: the last pair of it.
unfoldable pub value_of : {A : Type 0} → Bytes → List (Bytes × A) → Option A
value_of key [] = none
value_of key ((k, a) ∷ rest) = or_first (value_of key rest) (if str_eq k key then some a else none)

-- signal.CachedGroup, of which the title is used.
abbrev pub CachedTitles : Type 0
CachedTitles = List (Bytes × Bytes)

-- cachedTitles and Names.WithGroups
unfoldable pub cached_titles : CachedTitles → CachedTitles
cached_titles cached = select (λ p. not (is_empty p.1)) cached

unfoldable pub with_groups : Names → CachedTitles → Names
with_groups n titles = record n { groups = titles }

abbrev text_or_empty : Option Bytes → Bytes
text_or_empty none = codes ""
text_or_empty (some s) = s

-- Names.GroupTitle
unfoldable pub group_title : Names → Bytes → Bytes
unfolding value_of
group_title n id = text_or_empty (value_of id n.groups)

abbrev entry_or_none : Option NameEntry → NameEntry
entry_or_none none = no_entry
entry_or_none (some e) = e

-- Names.lookup
unfoldable pub lookup : Names → Recipient → NameEntry
unfolding value_of
lookup n r = by_entry (if is_empty r.aci then none else value_of r.aci n.by_aci)
  where
    by_entry : Option NameEntry → NameEntry
    by_entry (some e) = e
    by_entry none =
        if is_empty r.number then no_entry else entry_or_none (value_of r.number n.by_number)

-- Names.Name, Label and IsSelf
abbrev pub name : Names → Recipient → Bytes
name n r = (lookup n r).name

abbrev pub label : Names → Recipient → Bytes
label n r = (lookup n r).label

unfoldable pub is_self : Names → Recipient → Bool
is_self n r = not (is_empty n.own) && str_eq r.aci n.own
