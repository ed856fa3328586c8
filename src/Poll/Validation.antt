-- ===== src/Poll/Validation.antt =====
-- The validators of poll_check.go and poll_reduce.go, and what they accept.
use go_signal.Base.{
  Bool, true, false, List, [], ◌∷◌, any, All, not, length, refl, ℕ, ◌≤◌, ◌≡◌, ◌↔◌, inl, inr, none,
  some, Bytes, arith, Option-cases,
}
use go_signal.Std.Utf8.{runes, is_blank, utf16_len}
use go_signal.Types.{Poll}
use go_signal.Request.PollCheck.{
  poll_text, poll_text_limit, check_poll, check_poll_within, poll_incoming_question_limit,
}
use go_signal.Poll.Creation.{valid_poll_text, valid_received_poll}

-- Valid UTF-8 that is not blank and has no more UTF-16 units than the limit.
abbrev pub IsText : Bytes → ℕ → Type 0
IsText s limit = (rs : List ℕ) × (runes s ≡ some rs) × (is_blank s ≡ false) × (utf16_len rs ≤ limit)

-- A question within the limit, and 2 to 10 options of at most 100 UTF-16 units.
abbrev pub Acceptable : ℕ → Poll → Type 0
Acceptable limit p =
    IsText p.question limit
    × (2 ≤ length p.options)
    × (length p.options ≤ 10)
    × All (λ option. IsText option 100) p.options

poll_text-IsText : (s : Bytes) (limit : ℕ) → (poll_text s limit ≡ true) ↔ IsText s limit
unfolding poll_text
poll_text-IsText s limit = (to, λ (rs, e, b, l). ground (arith, e, b, l))
  where
    to : poll_text s limit ≡ true → IsText s limit
    to h = elim (Option-cases (runes s)) [
      | inl e ↦ absurd (ground (arith, h, e))
      | inr (rs, e) ↦ (rs, e, ground (arith, h, e), ground (arith, h, e))
    ]

valid_poll_text-IsText : (s : Bytes) (limit : ℕ) → (valid_poll_text s limit ≡ true) ↔ IsText s limit
unfolding valid_poll_text
valid_poll_text-IsText s limit = (to, λ (rs, e, b, l). ground (arith, e, b, l))
  where
    to : valid_poll_text s limit ≡ true → IsText s limit
    to h = elim (Option-cases (runes s)) [
      | inl e ↦ absurd (ground (arith, h, e))
      | inr (rs, e) ↦ (rs, e, ground (arith, h, e), ground (arith, h, e))
    ]

-- No option fails a test just when all have what it tests.
each_option :
    (test : Bytes → Bool)
    → ((s : Bytes) → (test s ≡ true) ↔ IsText s 100)
    → (options : List Bytes)
    → (any (λ option. not (test option)) options ≡ false)
      ↔ All (λ option. IsText option 100) options
each_option test is [] = ((λ h. tt), (λ h. refl))
each_option test is (o ∷ os) = (
  λ h. ((is o).0 (ground (arith, h)), (each_option test is os).0 (ground (arith, h))),
  λ (t, ts).
      let one = (is o).1 t in let rest = (each_option test is os).1 ts in ground (arith, one, rest),
)

check_poll_within-Acceptable :
    (limit : ℕ) (p : Poll) → (check_poll_within limit p ≡ none) ↔ Acceptable limit p
unfolding check_poll_within
check_poll_within-Acceptable limit p = (to, from)
  where
    options :
        (any (λ option. not (poll_text option poll_text_limit)) p.options ≡ false)
        ↔ All (λ option. IsText option 100) p.options
    options = each_option (λ s. poll_text s 100) (λ s. poll_text-IsText s 100) p.options

    to : check_poll_within limit p ≡ none → Acceptable limit p
    to h = (
      (poll_text-IsText p.question limit).0 (ground (arith, h)),
      ground (arith, h),
      ground (arith, h),
      options.0 (ground (arith, h)),
    )

    from : Acceptable limit p → check_poll_within limit p ≡ none
    from (question, least, most, texts) =
        let q = (poll_text-IsText p.question limit).1 question in
        let o = options.1 texts in ground (arith, q, least, most, o)

-- The reducer accepts a received creation exactly if its question is a text of at most 200 UTF-16
-- units (valid UTF-8, not blank) and it has 2 to 10 options, each a text of at most 100; the check
-- of a poll to be sent passes exactly if it is so with a question of at most 100, and the check
-- with the incoming limit accepts what the reducer accepts.
pub valid_received_poll-Acceptable :
    (p : Poll)
    → ((valid_received_poll p ≡ true) ↔ Acceptable 200 p)
      × ((check_poll p ≡ none) ↔ Acceptable 100 p)
      × ((check_poll_within poll_incoming_question_limit p ≡ none) ↔ Acceptable 200 p)
unfolding valid_received_poll check_poll
valid_received_poll-Acceptable p =
    ((to, from), check_poll_within-Acceptable 100 p, check_poll_within-Acceptable 200 p)
  where
    options :
        (any (λ option. not (valid_poll_text option 100)) p.options ≡ false)
        ↔ All (λ option. IsText option 100) p.options
    options = each_option (λ s. valid_poll_text s 100) (λ s. valid_poll_text-IsText s 100) p.options

    to : valid_received_poll p ≡ true → Acceptable 200 p
    to h = (
      (valid_poll_text-IsText p.question 200).0 (ground (arith, h)),
      ground (arith, h),
      ground (arith, h),
      options.0 (ground (arith, h)),
    )

    from : Acceptable 200 p → valid_received_poll p ≡ true
    from (question, least, most, texts) =
        let q = (valid_poll_text-IsText p.question 200).1 question in
        let o = options.1 texts in ground (arith, q, least, most, o)
