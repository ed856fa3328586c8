-- ===== src/Identities/Trust.antt =====
-- internal/signal/identity.go: trust levels, and safety numbers in blocks.
use go_signal.Base.{
  ℕ, zero, suc, Bool, ◌&&◌, ◌||◌, Option, none, some, List, [], ◌∷◌, ◌++◌, Bytes, codes, all,
  length, take, drop, is_empty, str_eq, ltb, ◌==◌, if◌then◌else◌,
}
use go_signal.Std.Decimal.{format}
use go_signal.Std.Strings.{between, space_len}

-- TrustLevel: an int, of which 1, 2 and 3 have names.
abbrev pub TrustLevel : Type 0
TrustLevel = ℕ

abbrev pub trust_untrusted : TrustLevel
trust_untrusted = 1

abbrev pub trust_unverified : TrustLevel
trust_unverified = 2

abbrev pub trust_verified : TrustLevel
trust_verified = 3

-- TrustLevel.String
unfoldable pub level_string : TrustLevel → Bytes
level_string level =
    if level == trust_untrusted
    then codes "untrusted"
    else if level == trust_unverified
    then codes "trusted-unverified"
    else if level == trust_verified
    then codes "trusted-verified"
    else codes "TrustLevel(" ++ format level ++ codes ")"

-- TrustLevel.Trusted
unfoldable pub trusted : TrustLevel → Bool
trusted level = level == trust_unverified || level == trust_verified

-- ParseTrustLevel
unfoldable pub parse_trust_level : Bytes → TrustLevel
unfolding level_string
parse_trust_level name =
    if str_eq (level_string trust_untrusted) name
    then trust_untrusted
    else if str_eq (level_string trust_unverified) name
    then trust_unverified
    else if str_eq (level_string trust_verified) name
    then trust_verified
    else 0

-- SafetyNumberDigits
abbrev pub safety_number_digits : ℕ
safety_number_digits = 60

-- strings.Join(strings.Fields(s), ""): the text without its white space; `skip` are the bytes that
-- a space still has.
unfoldable pub without_spaces : ℕ → Bytes → Bytes
unfolding space_len
without_spaces skip [] = []
without_spaces (suc skip) (c ∷ s) = without_spaces skip s
without_spaces zero (c ∷ s) = elim (space_len (c ∷ s)) [
  | zero ↦ c ∷ without_spaces 0 s
  | suc k ↦ without_spaces k s
]

-- NormalizeSafetyNumber; `none` is ErrInvalidSafetyNumber.
unfoldable pub normalize_safety_number : Bytes → Option Bytes
unfolding without_spaces
normalize_safety_number s =
    let digits = without_spaces 0 s in
    if length digits == safety_number_digits && all (between b'0' b'9') digits
    then some digits
    else none

-- blockLen
abbrev pub block_len : ℕ
block_len = 5

-- The loop of GroupSafetyNumber; `fuel` bounds its turns.
unfoldable pub blocks_from : ℕ → Bytes → List Bytes
blocks_from zero number = if is_empty number then [] else number ∷ []
blocks_from (suc fuel) number =
    if ltb block_len (length number)
    then take block_len number ∷ blocks_from fuel (drop block_len number)
    else if is_empty number
    then []
    else number ∷ []

-- GroupSafetyNumber
unfoldable pub group_safety_number : Bytes → List Bytes
unfolding blocks_from
group_safety_number number = blocks_from (length number) number
