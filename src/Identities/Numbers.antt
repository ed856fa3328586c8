-- ===== src/Identities/Numbers.antt =====
-- internal/signal/identity.go: names of trust levels read back, and blocks of a safety number.
use go_signal.Base.{
  ℕ, zero, suc, ◌<◌, ◌≤◌, true, false, List, [], ◌∷◌, ◌++◌, Bytes, All, length, take, drop,
  take-append-drop, length-take, length-drop, is_empty, ltb, if◌then◌else◌, ◌≡◌, ◌∙◌, refl, sym, ap,
  arith, Bool-cases, append-nil, inl, inr,
}
use go_signal.Identities.Trust.{block_len, blocks_from, group_safety_number}

-- strings.Join(blocks, "")
abbrev pub join : List Bytes → Bytes
join [] = []
join (b ∷ bs) = b ++ join bs

abbrev pub IsBlock : Bytes → Type 0
IsBlock b = (0 < length b) × (length b ≤ block_len)

nonempty : (s : Bytes) → is_empty s ≡ false → 0 < length s
nonempty [] h = cc
nonempty (c ∷ s) h = omega arith

empty : (s : Bytes) → is_empty s ≡ true → s ≡ []
empty [] h = refl
empty (c ∷ s) h = cc

rest-blocks :
    (s : Bytes)
    → length s ≤ block_len
    → (join (if is_empty s then [] else s ∷ []) ≡ s)
      × All IsBlock (if is_empty s then [] else s ∷ [])
rest-blocks s h = elim (Bool-cases (is_empty s)) [
  | inl e ↦ rw e (sym (empty s e), tt)
  | inr e ↦ rw e (append-nil s, ((nonempty s e, h), tt))
]

blocks_from-join :
    (fuel : ℕ) (s : Bytes)
    → length s ≤ fuel
    → (join (blocks_from fuel s) ≡ s) × All IsBlock (blocks_from fuel s)
unfolding blocks_from
blocks_from-join zero s h = rest-blocks s (omega arith)
blocks_from-join (suc fuel) s h = elim (Bool-cases (ltb block_len (length s))) [
  | inl e ↦
      let left : length (drop block_len s) ≤ fuel = ground (arith, length-drop block_len s) in
      let ih = blocks_from-join fuel (drop block_len s) left in
      let full : length (take block_len s) ≡ 5 = ground (arith, length-take block_len s) in
      rw e (
        ap (λ t. take block_len s ++ t) ih.0 ∙ take-append-drop block_len s,
        ((ground (arith, full), ground (arith, full)), ih.1),
      )
  | inr e ↦ rw e (rest-blocks s (ground arith))
]

-- The blocks of a safety number are the number, in order, each of one to five digits.
pub group_safety_number-join :
    (number : Bytes)
    → (join (group_safety_number number) ≡ number) × All IsBlock (group_safety_number number)
unfolding group_safety_number
group_safety_number-join number = blocks_from-join (length number) number (omega arith)
