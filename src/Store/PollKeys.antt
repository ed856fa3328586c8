-- ===== src/Store/PollKeys.antt =====
-- internal/store/poll_projections.go: equality of the keys of polls.
use go_signal.Base.{
  ℕ, true, false, str_eq, str_eq→eq, str_eq_refl, ◌==◌, ◌≡◌, ◌∙◌, sym, ap, arith, Bool-cases, inl,
  inr,
}
use go_signal.Store.Projections.{PollKey, same_poll}

number_eq : (a b : ℕ) → (a == b) ≡ true → a ≡ b
number_eq a b h = ground arith

pub same_poll→eq : (a b : PollKey) → same_poll a b ≡ true → a ≡ b
unfolding same_poll
same_poll→eq a b h =
    let p : str_eq a.chat b.chat ≡ true = ground (arith, h) in
    let q : str_eq a.author b.author ≡ true = ground (arith, h) in
    let r : (a.timestamp == b.timestamp) ≡ true = ground (arith, h) in
    let p' = str_eq→eq a.chat b.chat p in
    let q' = str_eq→eq a.author b.author q in
    let r' = number_eq a.timestamp b.timestamp r in
    λ i. record { chat = p' i; author = q' i; timestamp = r' i }

same_poll_refl : (a : PollKey) → same_poll a a ≡ true
unfolding same_poll
same_poll_refl a = rw (str_eq_refl a.chat, str_eq_refl a.author) (ground arith)

pub same_poll_sym : (a b : PollKey) → same_poll a b ≡ same_poll b a
same_poll_sym a b = elim (Bool-cases (same_poll a b)) [
  | inl h ↦
      let e = same_poll→eq a b h in h ∙ sym (ap (λ x. same_poll x a) (sym e) ∙ same_poll_refl a)
  | inr h ↦ elim (Bool-cases (same_poll b a)) [
    | inr k ↦ h ∙ sym k
    | inl k ↦
        let e = same_poll→eq b a k in
        let both : same_poll a b ≡ true = ap (λ x. same_poll a x) e ∙ same_poll_refl a in
        absurd (true≢false (sym both ∙ h))
  ]
]
  where
    true≢false : true ≡ false → ⊥
    true≢false k = cc
