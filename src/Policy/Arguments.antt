-- ===== src/Policy/Arguments.antt =====
-- internal/app/recipient.go, groups.go, content.go, react.go and policy.go: the forms of a
-- recipient, of a group ID, of the reference to a message and of an allowlist in an argument.
-- Every error is that the argument is invalid, `none`.
use go_signal.Base.{
  ℕ, Bool, true, false, not, ◌&&◌, ◌||◌, Option, none, some, List, [], ◌∷◌, Bytes, codes, is_empty,
  leb, ◌==◌, str_eq, length, drop, any, all, if◌then◌else◌,
}
use go_signal.Std.Base64
use go_signal.Std.Decimal
use go_signal.Std.Strings.{between, has_prefix, trim_space, trim_pads, cut_last}
use go_signal.Uuid.{UuidLib}
use go_signal.Types.{Recipient, no_recipient}
use go_signal.Policy.Targets.{Target, to_group}
use go_signal.Policy.Allowlist.{Allowlist}

-- groupIDLen
abbrev pub group_id_len : ℕ
group_id_len = 32

-- A group ID of the right length, in standard base64.
abbrev of_key : Option Bytes → Option Bytes
of_key none = none
of_key (some raw) = if length raw == group_id_len then some (Base64.encode raw) else none

abbrev pub key_or_url : Bytes → Option Bytes → Option Bytes
key_or_url arg (some raw) = of_key (some raw)
key_or_url arg none = of_key (Base64.decode_url (trim_pads arg))

-- decodeGroupKey
unfoldable pub decode_group_key : Bytes → Option Bytes
decode_group_key arg = key_or_url arg (Base64.decode arg)

-- checkPollGroup, nil or not
unfoldable pub check_poll_group : Bytes → Bool
check_poll_group id = is_itself (decode_group_key id)
  where
    is_itself : Option Bytes → Bool
    is_itself none = false
    is_itself (some canonical) = str_eq canonical id

-- strings.EqualFold(arg, SelfRecipient): the long s folds with s, too.
unfoldable pub is_self_word : Bytes → Bool
is_self_word [] = false
is_self_word (c ∷ s) = (c == b's' || c == b'S') && elf s || c == 0xc5 && long_s s
  where
    elf : Bytes → Bool
    elf (e ∷ l ∷ f ∷ []) =
        (e == b'e' || e == b'E') && (l == b'l' || l == b'L') && (f == b'f' || f == b'F')
    elf other = false

    long_s : Bytes → Bool
    long_s [] = false
    long_s (d ∷ r) = d == 0xbf && elf r

abbrev pub is_digit : ℕ → Bool
is_digit c = between b'0' b'9' c

-- e164.MatchString
unfoldable pub is_e164 : Bytes → Bool
is_e164 (p ∷ d ∷ ds) =
    p == b'+' && between b'1' b'9' d && all is_digit ds && leb 1 (length ds) && leb (length ds) 14
is_e164 other = false

abbrev pub no_target : Target
no_target = record { recipient = no_recipient; group_id = codes ""; self = false }

abbrev pub self_target : Target
self_target = record no_target { self = true }

abbrev pub group_target : Bytes → Target
group_target id = record no_target { group_id = id }

abbrev pub user_target : Recipient → Target
user_target r = record no_target { recipient = r }

unfoldable pub of_group_key : Option Bytes → Option Target
of_group_key none = none
of_group_key (some id) = some (group_target id)

-- parseGroup
unfoldable pub parse_group : Bytes → Option Target
unfolding of_group_key
parse_group arg = of_group_key (decode_group_key (drop (length (codes "group:")) arg))

-- The name after the @.
unfoldable pub parse_username : Bytes → Option Target
parse_username name =
    if is_empty name || any (λ c. c == b' ' || c == b'@') name
    then none
    else some (user_target (record no_recipient { username = name }))

unfoldable pub parse_number : Bytes → Option Target
unfolding is_e164
parse_number arg =
    if is_e164 arg then some (user_target (record no_recipient { number = arg })) else none

module _ ⦃u : UuidLib⦄ where
  unfoldable pub of_uuid : Bytes → Option Bytes → Option Target
  of_uuid arg none = none
  of_uuid arg (some id) =
      if length arg == length (u.to_string u.nil)
      then some (user_target (record no_recipient { aci = u.to_string id }))
      else none

  unfoldable pub parse_aci : Bytes → Option Target
  unfolding of_uuid
  parse_aci arg = of_uuid arg (u.parse arg)

  -- The cases of ParseRecipient.
  unfoldable pub parse_trimmed : Bytes → Option Target
  unfolding is_self_word parse_group parse_username parse_number parse_aci
  parse_trimmed arg =
      if is_self_word arg
      then some self_target
      else if has_prefix (codes "group:") arg
      then parse_group arg
      else if has_prefix (codes "@") arg
      then parse_username (drop 1 arg)
      else if has_prefix (codes "+") arg
      then parse_number arg
      else parse_aci arg

  -- ParseRecipient
  unfoldable pub parse_recipient : Bytes → Option Target
  unfolding parse_trimmed
  parse_recipient arg = parse_trimmed (trim_space arg)

  unfoldable pub with_target : Option Target → Option (List Target) → Option (List Target)
  with_target (some t) (some ts) = some (t ∷ ts)
  with_target (some t) none = none
  with_target none rest = none

  -- The loop of ResolveRecipients over its arguments: all of them parse, or it fails.
  unfoldable pub parse_recipients : List Bytes → Option (List Target)
  unfolding with_target
  parse_recipients [] = some []
  parse_recipients (arg ∷ args) = with_target (parse_recipient arg) (parse_recipients args)

  -- checkRecipients, no error or some
  unfoldable pub check_recipients : List Bytes → Bool
  unfolding parse_recipients
  check_recipients args = not (is_empty args) && parsed (parse_recipients args)
    where
      parsed : Option (List Target) → Bool
      parsed none = false
      parsed (some ts) = true

  abbrev nonzero : Option ℕ → Option ℕ
  nonzero none = none
  nonzero (some n) = if n == 0 then none else some n

  -- parseTimestamp
  unfoldable pub parse_timestamp : Bytes → Option ℕ
  parse_timestamp arg = nonzero (Decimal.parse_uint 64 (trim_space arg))

  unfoldable pub reference : Option ℕ → Option Target → Option (Target × ℕ)
  reference none author = none
  reference (some timestamp) none = none
  reference (some timestamp) (some author) =
      if to_group author then none else some (author, timestamp)

  -- parseMessageRef, which is ParseQuote and ParseTarget
  unfoldable pub parse_message_ref : Bytes → Option (Target × ℕ)
  unfolding reference parse_timestamp
  parse_message_ref arg = elim (cut_last b':' arg) [
    | none ↦ none
    | some (before, after) ↦ reference (parse_timestamp after) (parse_recipient before)
  ]

  unfoldable pub listed : Option Target → Option Allowlist → Option Allowlist
  listed none rest = none
  listed (some t) none = none
  listed (some t) (some l) = some (record l { entries = t ∷ l.entries })

  -- ParseAllowlist
  unfoldable pub parse_allowlist : List Bytes → Option Allowlist
  unfolding listed
  parse_allowlist [] = some (record { all = false; entries = []; resolved = none })
  parse_allowlist (arg ∷ args) =
      let rest = parse_allowlist args in
      if str_eq (trim_space arg) (codes "*")
      then everything rest
      else listed (parse_recipient arg) rest
    where
      everything : Option Allowlist → Option Allowlist
      everything none = none
      everything (some l) = some (record l { all = true })
