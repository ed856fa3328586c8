-- ===== src/Counters/Reserved.antt =====
-- The counters that ReservePollVote of internal/store/poll_counters.go gives out.
use go_signal.Base.{
  ℕ, ◌+◌, ◌≡◌, ◌∙◌, sym, ap, refl, ◌⊎◌, inl, inr, max, true, false, ◌&&◌, none, some, List, [], ◌∷◌,
  ◌==◌, ltb, str_eq→eq, str_eq_refl, Bool-cases, if◌then◌else◌, arith,
}
use go_signal.Counters.{
  CounterKey, CounterRow, max_counter, same_key, raise, advance, Reservation, key_of, reserve,
}

-- The counter of a key; zero while there is none.
abbrev pub counter_of : List CounterRow → CounterKey → ℕ
counter_of [] key = 0
counter_of (row ∷ rows) key = if same_key row.key key then row.counter else counter_of rows key

same_key→eq : (a b : CounterKey) → same_key a b ≡ true → a ≡ b
same_key→eq a b h =
    ground (
      arith,
      str_eq→eq a.chat b.chat,
      str_eq→eq a.author b.author,
      str_eq→eq a.timestamp b.timestamp,
    )

same_key_refl : (a : CounterKey) → same_key a a ≡ true
same_key_refl a = ground (arith, str_eq_refl a.chat, str_eq_refl a.author, str_eq_refl a.timestamp)

same_key-left : (a b k : CounterKey) → same_key a b ≡ true → same_key a k ≡ same_key b k
same_key-left a b k h = ap (λ c. same_key c k) (same_key→eq a b h)

same_key-apart :
    (a b k : CounterKey) → same_key a b ≡ false → same_key b k ≡ true → same_key a k ≡ false
same_key-apart a b k h g = sym (ap (λ c. same_key a c) (same_key→eq b k g)) ∙ h

counter-raise :
    (rows : List CounterRow) (key k : CounterKey) (n : ℕ)
    → counter_of (raise rows key n) k
      ≡ (if same_key key k then max (counter_of rows key) n else counter_of rows k)
unfolding raise
counter-raise [] key k n = ground arith
counter-raise (row ∷ rows) key k n =
    let rest = counter-raise rows key k n in
    elim (Bool-cases (same_key row.key key)) [
      | inl h ↦ let e = same_key-left row.key key k h in rw (h, e) (ground arith)
      | inr h ↦ elim (Bool-cases (same_key key k)) [
        | inl g ↦ let a = same_key-apart row.key key k h g in rw (h, g, a) (rest ∙ rw g refl)
        | inr g ↦ rw (h, g) (ground (arith, rest))
      ]
    ]

counter-advance :
    (rows : List CounterRow) (key k : CounterKey)
    → counter_of (advance rows key).0 k ≡ (
        if same_key key k && ltb (counter_of rows key) max_counter
        then counter_of rows key + 1
        else counter_of rows k)
unfolding advance
counter-advance [] key k = ground arith
counter-advance (row ∷ rows) key k =
    let rest = counter-advance rows key k in
    elim (Bool-cases (same_key row.key key)) [
      | inl h ↦
          let e = same_key-left row.key key k h in
          elim (Bool-cases (ltb row.counter max_counter)) [
            | inl l ↦ rw (h, l, e) (ground arith)
            | inr l ↦ rw (h, l, e) (ground arith)
          ]
      | inr h ↦ elim (Bool-cases (same_key key k)) [
        | inl g ↦ let a = same_key-apart row.key key k h g in rw (h, g, a) (rest ∙ rw g refl)
        | inr g ↦
            let e : counter_of (advance rows key).0 k ≡ counter_of rows k = rest ∙ rw g refl in
            rw (h, g, e) refl
      ]
    ]

result-advance :
    (rows : List CounterRow) (key : CounterKey)
    → (advance rows key).1
      ≡ (if ltb (counter_of rows key) max_counter then some (counter_of rows key + 1) else none)
unfolding advance
result-advance [] key = ground arith
result-advance (row ∷ rows) key = elim (Bool-cases (same_key row.key key)) [
  | inl h ↦ elim (Bool-cases (ltb row.counter max_counter)) [
    | inl l ↦ rw (h, l) refl
    | inr l ↦ rw (h, l) refl
  ]
  | inr h ↦ rw h (result-advance rows key)
]

-- What a reservation returns, by the counter of its poll: the explicit counter unchanged, or one
-- more than the counter there is, or nothing when that is the largest uint32. The counter of the
-- poll then is the largest that it was or that was asked for, and no other poll's changes.
pub reserve_lem :
    (rows : List CounterRow) (r : Reservation) (k : CounterKey)
    → ((reserve rows r).1 ≡ (
        if r.explicit == 0
        then (if ltb (counter_of rows (key_of r)) max_counter
            then some (counter_of rows (key_of r) + 1)
            else none)
        else some r.explicit))
      × (counter_of (reserve rows r).0 (key_of r) ≡ (
          if r.explicit == 0
          then (if ltb (counter_of rows (key_of r)) max_counter
              then counter_of rows (key_of r) + 1
              else counter_of rows (key_of r))
          else max (counter_of rows (key_of r)) r.explicit))
      × ((same_key (key_of r) k ≡ true) ⊎ (counter_of (reserve rows r).0 k ≡ counter_of rows k))
unfolding reserve
reserve_lem rows r k =
    let key = key_of r in
    let self = same_key_refl key in
    elim (Bool-cases (r.explicit == 0)) [
      | inl h ↦ rw h (
        result-advance rows key,
        counter-advance rows key key ∙ rw self refl,
        elim (Bool-cases (same_key key k)) [
          | inl g ↦ inl g
          | inr g ↦ inr (counter-advance rows key k ∙ rw g refl)
        ],
      )
      | inr h ↦ rw h (
        refl,
        counter-raise rows key key r.explicit ∙ rw self refl,
        elim (Bool-cases (same_key key k)) [
          | inl g ↦ inl g
          | inr g ↦ inr (counter-raise rows key k r.explicit ∙ rw g refl)
        ],
      )
    ]
