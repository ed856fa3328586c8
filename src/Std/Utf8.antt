-- ===== src/Std/Utf8.antt =====
-- unicode/utf8, unicode/utf16 and strings.TrimSpace, on strings of bytes.
use go_signal.Base.{
  ℕ, zero, suc, ◌+◌, ◌-◌, ◌*◌, Bool, true, false, ◌&&◌, ◌||◌, Option, none, some, List, [], ◌∷◌,
  Bytes, leb, ltb, ◌==◌, if◌then◌else◌, all, is_some, ◌≡◌, refl, codes,
}

abbrev between : ℕ → ℕ → ℕ → Bool
between lo hi c = leb lo c && leb c hi

-- What the decoder waits for: the continuation bytes left, the range of the next one, and the
-- value so far.
pub record Partial : Type 0 where
  pub left : ℕ
  pub lo : ℕ
  pub hi : ℕ
  pub value : ℕ

idle : Partial
idle = record { left = 0; lo = 0x80; hi = 0xbf; value = 0 }

-- The ranges of the first byte, and of the second after it, of the Unicode standard's table 3-7.
lead : ℕ → Option Partial
lead c =
    if between 0xc2 0xdf c
    then some (record { left = 1; lo = 0x80; hi = 0xbf; value = c - 0xc0 })
    else if c == 0xe0
    then some (record { left = 2; lo = 0xa0; hi = 0xbf; value = 0 })
    else if c == 0xed
    then some (record { left = 2; lo = 0x80; hi = 0x9f; value = 0xd })
    else if between 0xe1 0xef c
    then some (record { left = 2; lo = 0x80; hi = 0xbf; value = c - 0xe0 })
    else if c == 0xf0
    then some (record { left = 3; lo = 0x90; hi = 0xbf; value = 0 })
    else if between 0xf1 0xf3 c
    then some (record { left = 3; lo = 0x80; hi = 0xbf; value = c - 0xf0 })
    else if c == 0xf4
    then some (record { left = 3; lo = 0x80; hi = 0x8f; value = 4 })
    else none

-- One byte: the next state of the decoder, and the rune that the byte completes.
next_byte : Partial → ℕ → Option (Partial × Option ℕ)
unfolding idle lead
next_byte p c =
    if p.left == 0
    then (if ltb c 0x80 then some (idle, some c) else begin (lead c))
    else if between p.lo p.hi c
    then more (p.left - 1) (p.value * 64 + (c - 0x80))
    else none
  where
    begin : Option Partial → Option (Partial × Option ℕ)
    begin none = none
    begin (some q) = some (q, none)

    more : ℕ → ℕ → Option (Partial × Option ℕ)
    more zero v = some (idle, some v)
    more (suc k) v = some (record { left = suc k; lo = 0x80; hi = 0xbf; value = v }, none)

abbrev add_rune : Option ℕ → Option (List ℕ) → Option (List ℕ)
add_rune r none = none
add_rune none (some rs) = some rs
add_rune (some r) (some rs) = some (r ∷ rs)

decode : Partial → Bytes → Option (List ℕ)
unfolding next_byte
decode p [] = if p.left == 0 then some [] else none
decode p (c ∷ s) = elim (next_byte p c) [ none ↦ none | some (q, r) ↦ add_rune r (decode q s) ]

-- []rune(s) of a valid string; `none` where utf8.ValidString(s) is false.
unfoldable pub runes : Bytes → Option (List ℕ)
unfolding decode idle
runes s = decode idle s

unfoldable pub valid_string : Bytes → Bool
unfolding runes
valid_string s = is_some (runes s)

-- unicode.IsSpace
unfoldable pub is_space : ℕ → Bool
is_space r =
    between 9 13 r
    || r == 0x20
    || r == 0x85
    || r == 0xa0
    || r == 0x1680
    || between 0x2000 0x200a r
    || r == 0x2028
    || r == 0x2029
    || r == 0x202f
    || r == 0x205f
    || r == 0x3000

-- strings.TrimSpace(s) == "": all runes are white space. A byte that is no UTF-8 reads as U+FFFD,
-- which is not.
unfoldable pub is_blank : Bytes → Bool
unfolding runes is_space
is_blank s = elim (runes s) [ none ↦ false | some rs ↦ all is_space rs ]

-- utf16.RuneLen
unfoldable pub rune_len : ℕ → ℕ
rune_len r = if ltb r 0x10000 then 1 else 2

-- len(utf16.Encode(rs))
unfoldable pub utf16_len : List ℕ → ℕ
unfolding rune_len
utf16_len [] = 0
utf16_len (r ∷ rs) = rune_len r + utf16_len rs

-- "aé€😀" in UTF-8.
runes_mixed :
    runes (0x61 ∷ 0xc3 ∷ 0xa9 ∷ 0xe2 ∷ 0x82 ∷ 0xac ∷ 0xf0 ∷ 0x9f ∷ 0x98 ∷ 0x80 ∷ [])
    ≡ some (0x61 ∷ 0xe9 ∷ 0x20ac ∷ 0x1f600 ∷ [])
unfolding runes
runes_mixed = refl

-- A surrogate, an overlong form and a truncated rune are refused.
runes_invalid :
    (runes (0xed ∷ 0xa0 ∷ 0x80 ∷ []) ≡ none)
    × (runes (0xc0 ∷ 0x80 ∷ []) ≡ none)
    × (runes (0xe2 ∷ 0x82 ∷ []) ≡ none)
unfolding runes
runes_invalid = (refl, refl, refl)

is_blank_examples : (is_blank (codes " \t\n") ≡ true) × (is_blank (codes " a ") ≡ false)
unfolding is_blank
is_blank_examples = (refl, refl)

-- The rune at the start of the string and its bytes, or `none` where no valid rune starts.
first_rune : Partial → ℕ → Bytes → Option (ℕ × ℕ)
unfolding next_byte
first_rune p n [] = none
first_rune p n (c ∷ s) = elim (next_byte p c) [
  | none ↦ none
  | some (q, some r) ↦ some (r, n + 1)
  | some (q, none) ↦ first_rune q (n + 1) s
]

-- The runes of `for range s`, after the bytes to skip: a byte that starts no valid rune is U+FFFD.
range_from : ℕ → Bytes → List ℕ
unfolding first_rune idle
range_from skip [] = []
range_from (suc skip) (c ∷ s) = range_from skip s
range_from zero (c ∷ s) = elim (first_rune idle 0 (c ∷ s)) [
  | none ↦ 0xfffd ∷ range_from 0 s
  | some (r, width) ↦ r ∷ range_from (width - 1) s
]

-- for _, r := range s
unfoldable pub range_runes : Bytes → List ℕ
unfolding range_from
range_runes s = range_from 0 s

range_runes_mixed :
    range_runes (0x61 ∷ 0xff ∷ 0xf0 ∷ 0x9f ∷ 0x98 ∷ 0x80 ∷ 0xe2 ∷ 0x82 ∷ [])
    ≡ 0x61 ∷ 0xfffd ∷ 0x1f600 ∷ 0xfffd ∷ 0xfffd ∷ []
unfolding range_runes
range_runes_mixed = refl
