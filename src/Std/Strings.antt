-- ===== src/Std/Strings.antt =====
-- strings: TrimSpace, HasPrefix, TrimPrefix, Split, LastIndex, ToLower and EqualFold, on strings of
-- bytes, as far as the code uses them.
use go_signal.Base.{
  ℕ, zero, suc, ◌+◌, Bool, ◌&&◌, ◌||◌, Option, none, some, List, [], ◌∷◌, ◌++◌, reverse, Bytes,
  codes, leb, ◌==◌, str_eq, length, take, if◌then◌else◌, ◌≡◌, refl,
}

abbrev pub between : ℕ → ℕ → ℕ → Bool
between lo hi c = leb lo c && leb c hi

-- How many bytes of white space a rune at the start of the string is; zero if it is none.
abbrev ascii_space : ℕ → Bool
ascii_space c = between 9 13 c || c == 0x20

abbrev space_two : ℕ → ℕ → Bool
space_two a b = a == 0xc2 && (b == 0x85 || b == 0xa0)

abbrev space_three : ℕ → ℕ → ℕ → Bool
space_three a b c =
    a == 0xe1 && b == 0x9a && c == 0x80
    || a == 0xe2 && b == 0x80 && (between 0x80 0x8a c || c == 0xa8 || c == 0xa9 || c == 0xaf)
    || a == 0xe2 && b == 0x81 && c == 0x9f
    || a == 0xe3 && b == 0x80 && c == 0x80

unfoldable pub space_len : Bytes → ℕ
space_len [] = 0
space_len (a ∷ []) = if ascii_space a then 1 else 0
space_len (a ∷ b ∷ []) = if ascii_space a then 1 else if space_two a b then 2 else 0
space_len (a ∷ b ∷ c ∷ s) =
    if ascii_space a then 1 else if space_two a b then 2 else if space_three a b c then 3 else 0

-- The same for a rune at the end of the string, which is given backwards.
unfoldable pub space_end : Bytes → ℕ
space_end [] = 0
space_end (a ∷ []) = if ascii_space a then 1 else 0
space_end (b ∷ a ∷ []) = if ascii_space b then 1 else if space_two a b then 2 else 0
space_end (c ∷ b ∷ a ∷ s) =
    if ascii_space c then 1 else if space_two b c then 2 else if space_three a b c then 3 else 0

module _ (spaces : Bytes → ℕ) where
  -- Drops bytes: the `skip` that a space still has, and those of the spaces after it.
  unfoldable pub skip_space : ℕ → Bytes → Bytes
  skip_space skip [] = []
  skip_space (suc skip) (c ∷ s) = skip_space skip s
  skip_space zero (c ∷ s) = elim (spaces (c ∷ s)) [ zero ↦ c ∷ s | suc k ↦ skip_space k s ]

-- strings.TrimSpace
unfoldable pub trim_space : Bytes → Bytes
unfolding skip_space space_len space_end
trim_space s = reverse (skip_space space_end 0 (reverse (skip_space space_len 0 s)))

-- strings.HasPrefix
abbrev pub has_prefix : Bytes → Bytes → Bool
has_prefix prefix s = str_eq (take (length prefix) s) prefix

-- strings.TrimRight(s, "=")
unfoldable pub trim_pads : Bytes → Bytes
trim_pads s = reverse (leading (reverse s))
  where
    leading : Bytes → Bytes
    leading [] = []
    leading (c ∷ r) = let rest = leading r in if c == b'=' then rest else c ∷ r

-- strings.Split(s, ":"): the pieces between the separators, one at least.
unfoldable pub split : ℕ → Bytes → List Bytes
split sep [] = [] ∷ []
split sep (c ∷ s) = if c == sep then [] ∷ split sep s else onto (split sep s)
  where
    onto : List Bytes → List Bytes
    onto [] = (c ∷ []) ∷ []
    onto (p ∷ ps) = (c ∷ p) ∷ ps

-- strings.LastIndex(s, ":"): what is before and after the last separator.
unfoldable pub cut_last : ℕ → Bytes → Option (Bytes × Bytes)
cut_last sep [] = none
cut_last sep (c ∷ s) = elim (cut_last sep s) [
  | some (a, b) ↦ some (c ∷ a, b)
  | none ↦ if c == sep then some ([], s) else none
]

abbrev lower_letter : ℕ → ℕ
lower_letter c = if between b'A' b'Z' c then c + 32 else c

-- strings.ToLower as far as its result is ASCII: of the letters that are not, only U+0130 and the
-- Kelvin sign have a lower case that is; the others stay.
unfoldable pub lower : Bytes → Bytes
lower [] = []
lower (a ∷ []) = lower_letter a ∷ []
lower (a ∷ b ∷ []) =
    if a == 0xc4 && b == 0xb0 then b'i' ∷ [] else lower_letter a ∷ lower_letter b ∷ []
lower (a ∷ b ∷ c ∷ s) =
    let one = lower_letter a ∷ lower (b ∷ c ∷ s) in
    let two = b'i' ∷ lower (c ∷ s) in
    let three = b'k' ∷ lower s in
    if a == 0xc4 && b == 0xb0
    then two
    else if a == 0xe2 && b == 0x84 && c == 0xaa
    then three
    else one

lower_runs :
    (lower (codes "BoLD") ≡ codes "bold")
    × (lower (codes "Stri" ++ 0xe2 ∷ 0x84 ∷ 0xaa ∷ codes "e") ≡ codes "strike")
unfolding lower
lower_runs = (refl, refl)

trim_space_runs :
    (trim_space (codes " \t a b\n") ≡ codes "a b")
    × (trim_space (0xe2 ∷ 0x80 ∷ 0x83 ∷ 0x61 ∷ 0xc2 ∷ 0xa0 ∷ []) ≡ 0x61 ∷ [])
unfolding trim_space
trim_space_runs = (refl, refl)

split_runs :
    (split b':' (codes "1:2:x") ≡ codes "1" ∷ codes "2" ∷ codes "x" ∷ [])
    × (cut_last b':' (codes "a:b:7") ≡ some (codes "a:b", codes "7"))
unfolding split cut_last
split_runs = (refl, refl)
