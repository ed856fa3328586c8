-- ===== src/Std/Decimal.antt =====
-- strconv.FormatInt and strconv.ParseInt in base 10, on numbers that are not negative; ParseInt
-- also reads a sign.
use mathlib.Core.WellFounded.{Acc, WellFounded}
use mathlib.Core.Logic.{dite, dif_pos, dif_neg}
use native.Mathlib.Bridge.{le_prop}
use native.Mathlib.Decide.{dec_lt}
use go_signal.Base.{
  ℕ, zero, suc, ◌+◌, ◌-◌, ◌*◌, ◌/◌, ◌%◌, ◌^◌, ◌<◌, ◌≤◌, Bool, true, false, ◌&&◌, ◌≡◌, ◌∙◌, refl, ap,
  sym, subst, is_empty, Option, none, some, [], ◌∷◌, Bytes, codes, leb, ltb, ◌==◌, if◌then◌else◌,
  arith, Bool-cases, ◌⊎◌, inl, inr,
}

Acc-below : (k n : ℕ) → n < k → Acc ◌<◌ n
Acc-below zero n h = absurd (omega arith)
Acc-below (suc k) n h = Acc.intro n λ m lt. Acc-below k m (omega arith)

lt_wf : WellFounded ◌<◌
unfolding Acc-below
lt_wf = record { apply = λ n. Acc-below (suc n) n (omega arith) }

-- The digits of `n` before `out`; none for zero.
digits : (n : ℕ) → Acc ◌<◌ n → Bytes → Bytes
digits n (Acc.intro _ smaller) out =
    dite (dec_lt 0 n)
      (λ h. digits (n / 10) (smaller (n / 10) (omega arith)) ((b'0' + n % 10) ∷ out)) (λ _. out)

-- strconv.FormatInt(n, 10)
unfoldable pub format : ℕ → Bytes
unfolding digits lt_wf dec_lt
format n = if n == 0 then b'0' ∷ [] else digits n (lt_wf.apply n) []

-- The number of a text of digits, or `none`.
scan : ℕ → Bytes → Option ℕ
scan n [] = some n
scan n (c ∷ s) =
    let rest = scan (n * 10 + (c - b'0')) s in if leb b'0' c && leb c b'9' then rest else none

magnitude : Bytes → Option ℕ
unfolding scan
magnitude [] = none
magnitude (c ∷ s) = scan 0 (c ∷ s)

-- A parsed integer: its sign and its magnitude.
pub record Parsed : Type 0 where
  pub negative : Bool
  pub value : ℕ

-- ParseInt's range error for 64 bits: -2^63 to 2^63 - 1.
in_range : Bool → Option ℕ → Option Parsed
in_range negative none = none
in_range true (some n) =
    if leb n (2 ^ 63) then some (record { negative = true; value = n }) else none
in_range false (some n) =
    if ltb n (2 ^ 63) then some (record { negative = false; value = n }) else none

-- strconv.ParseInt(s, 10, 64); `none` is its error.
unfoldable pub parse : Bytes → Option Parsed
unfolding magnitude in_range
parse [] = none
parse (c ∷ s) =
    if c == b'-'
    then in_range true (magnitude s)
    else if c == b'+'
    then in_range false (magnitude s)
    else in_range false (magnitude (c ∷ s))

format_runs : format 10203 ≡ codes "10203"
unfolding format
format_runs = refl

parse_runs :
    (parse (codes "-12") ≡ some (record { negative = true; value = 12 }))
    × (parse (codes "9223372036854775808") ≡ none)
    × (parse (codes "1_0") ≡ none)
unfolding parse
parse_runs = (refl, refl, refl)

scan-cons : (n : ℕ) (out : Bytes) → scan (n / 10) ((b'0' + n % 10) ∷ out) ≡ scan n out
unfolding scan
scan-cons n out =
    let e : n / 10 * 10 + (b'0' + n % 10 - b'0') ≡ n = omega arith in
    ground (arith, ap (λ (m : ℕ). scan m out) e)

scan-digits : (n : ℕ) (w : Acc ◌<◌ n) (out : Bytes) → scan 0 (digits n w out) ≡ scan n out
unfolding digits
scan-digits n (Acc.intro _ smaller) out = elim (dec_lt 0 n) [
  | yes h ↦ rw (dif_pos (dec_lt 0 n) le_prop h _ _) (
      scan-digits (n / 10) (smaller (n / 10) (omega arith)) ((b'0' + n % 10) ∷ out)
      ∙ scan-cons n out)
  | no h ↦ let z : n ≡ 0 = omega arith in rw (dif_neg (dec_lt 0 n) h _ _, z)
]

-- The first byte of a number is a digit, so no sign.
abbrev StartsDigit : Bytes → Type 0
StartsDigit [] = ⊥
StartsDigit (c ∷ s) = (b'0' ≤ c) × (c ≤ b'9')

digits-StartsDigit :
    (n : ℕ) (w : Acc ◌<◌ n) (out : Bytes) → (0 < n) ⊎ StartsDigit out → StartsDigit (digits n w out)
unfolding digits
digits-StartsDigit n (Acc.intro _ smaller) out h = elim (dec_lt 0 n) [
  | yes p ↦ rw (dif_pos (dec_lt 0 n) le_prop p _ _) (
      digits-StartsDigit (n / 10) (smaller (n / 10) (omega arith)) ((b'0' + n % 10) ∷ out)
        (inr (omega arith)))
  | no p ↦ rw (dif_neg (dec_lt 0 n) p _ _) (elim h [ inl q ↦ absurd (p q) | inr q ↦ q ])
]

parse-StartsDigit :
    (s : Bytes) (n : ℕ)
    → StartsDigit s
    → scan 0 s ≡ some n
    → n < 2 ^ 63
    → parse s ≡ some (record { negative = false; value = n })
unfolding parse
parse-StartsDigit [] n d h lt = absurd d
parse-StartsDigit (c ∷ s) n d h lt = ground arith

zero-of_test : (n : ℕ) → (n == 0) ≡ true → n ≡ 0
zero-of_test n h = ground arith

-- ParseInt reads back what FormatInt writes.
pub parse-format :
    (n : ℕ) → n < 2 ^ 63 → parse (format n) ≡ some (record { negative = false; value = n })
unfolding format
parse-format n h = elim (Bool-cases (n == 0)) [
  | inl z ↦ rw z (
      subst (λ (m : ℕ). parse (codes "0") ≡ some (record { negative = false; value = m }))
        (sym (zero-of_test n z)) (unfold parse in refl))
  | inr p ↦ rw p (
      parse-StartsDigit (digits n (lt_wf.apply n) []) n
        (digits-StartsDigit n (lt_wf.apply n) [] (inl (ground arith)))
        (scan-digits n (lt_wf.apply n) [] ∙ (unfold scan in refl)) h)
]

pub format_nonempty : (n : ℕ) → is_empty (format n) ≡ false
unfolding format
format_nonempty n = elim (Bool-cases (n == 0)) [
  | inl z ↦ rw z
  | inr p ↦ rw p (
      starts (digits n (lt_wf.apply n) [])
        (digits-StartsDigit n (lt_wf.apply n) [] (inl (ground arith))))
]
  where
    starts : (s : Bytes) → StartsDigit s → is_empty s ≡ false
    starts [] d = absurd d
    starts (c ∷ s) d = refl

below : ℕ → Option ℕ → Option ℕ
below limit none = none
below limit (some n) = if ltb n limit then some n else none

-- strconv.ParseUint(s, 10, bits); `none` is its error, of the syntax or of the range.
unfoldable pub parse_uint : ℕ → Bytes → Option ℕ
unfolding magnitude below
parse_uint bits s = below (2 ^ bits) (magnitude s)

parse_uint_runs :
    (parse_uint 32 (codes "4294967295") ≡ some 4294967295)
    × (parse_uint 32 (codes "4294967296") ≡ none)
    × (parse_uint 64 (codes "+1") ≡ none)
unfolding parse_uint
parse_uint_runs = (refl, refl, refl)

parse_uint-StartsDigit :
    (bits : ℕ) (s : Bytes) (n : ℕ)
    → StartsDigit s
    → scan 0 s ≡ some n
    → n < 2 ^ bits
    → parse_uint bits s ≡ some n
unfolding parse_uint
parse_uint-StartsDigit bits [] n d h lt = absurd d
parse_uint-StartsDigit bits (c ∷ s) n d h lt = ground arith

-- What ParseUint and ParseInt read of a formatted number other than zero.
scan-format : (n : ℕ) → (n == 0) ≡ false → StartsDigit (format n) × (scan 0 (format n) ≡ some n)
unfolding format
scan-format n p = rw p (
  digits-StartsDigit n (lt_wf.apply n) [] (inl (ground arith)),
  scan-digits n (lt_wf.apply n) [] ∙ (unfold scan in refl),
)

-- ParseUint reads back what FormatUint writes.
pub parse_uint-format :
    (bits n : ℕ) → (n == 0) ≡ false → n < 2 ^ bits → parse_uint bits (format n) ≡ some n
parse_uint-format bits n p h =
    let s = scan-format n p in parse_uint-StartsDigit bits (format n) n s.0 s.1 h
