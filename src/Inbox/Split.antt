-- ===== src/Inbox/Split.antt =====
-- Rows in the order of their IDs, split after a page of them, for internal/app/inbox.go.
use go_signal.Base.{
  ℕ, zero, suc, ◌≤◌, ◌<◌, ◌≡◌, refl, ap, sym, ◌∙◌, ◌⊎◌, inl, inr, Bool, ◌&&◌, some, All, List, [],
  ◌∷◌, ltb, take, drop, select, arith, Bool-cases,
}
use go_signal.Inbox.Table.{Row}
use go_signal.Inbox.Order.{Ordered}
use go_signal.Inbox.Pages.{last_id}
use go_signal.Inbox.Windows.{list_cases, cons≢nil, take-Nil, drop-Nil}

module _ {E : Type 0} where
  -- The rows after an ID that pass the test.
  abbrev pub above : (Row E → Bool) → ℕ → Row E → Bool
  above q n r = ltb n r.id && q r

  pub above-Ordered :
      (q : Row E → Bool) (a b lo : ℕ) (rows : List (Row E))
      → a ≤ lo
      → b ≤ lo
      → Ordered lo rows
      → select (above q a) rows ≡ select (above q b) rows
  above-Ordered q a b lo [] ha hb o = refl
  above-Ordered q a b lo (r ∷ rows) ha hb o =
      let rest = above-Ordered q a b r.id rows (omega arith) (omega arith) o.1 in
      ground (arith, rest)

  -- What a page of `suc n` entries and the rows after its last ID are of the selected rows.
  abbrev pub Split : (Row E → Bool) → ℕ → ℕ → ℕ → List (Row E) → List (Row E) → Type 0
  Split q n lo top rows sel =
      (next : ℕ) × (last_id (take (suc n) sel) ≡ some next)
      × (lo < next)
      × (next ≤ top)
      × (select (above q next) rows ≡ drop (suc n) sel)

  last_id-cons :
      (r : Row E) (n : ℕ) (y : Row E) (ys : List (Row E))
      → last_id (r ∷ take (suc n) (y ∷ ys)) ≡ last_id (take (suc n) (y ∷ ys))
  unfolding last_id
  last_id-cons r n y ys = refl

  select-above_cons :
      (q : Row E → Bool) (n : ℕ) (r : Row E) (rows : List (Row E))
      → r.id ≤ n
      → select (above q n) (r ∷ rows) ≡ select (above q n) rows
  select-above_cons q n r rows h = ground arith

  Split-cons :
      (q : Row E → Bool) (n lo top : ℕ) (r : Row E) (rows sel : List (Row E))
      → lo < r.id
      → Split q n r.id top rows sel
      → Split q n lo top (r ∷ rows) sel
  Split-cons q n lo top r rows sel h (next, e, lt, le, d) =
      (next, e, omega arith, le, select-above_cons q next r rows (omega arith) ∙ d)

  Split-first :
      (q : Row E → Bool) (n lo top : ℕ) (r : Row E) (rows sel : List (Row E))
      → lo < r.id
      → r.id ≤ top
      → sel ≡ select (above q r.id) rows
      → (sel ≡ [] ⊎ n ≡ 0)
      → Split q n lo top (r ∷ rows) (r ∷ sel)
  unfolding last_id
  Split-first q n lo top r rows sel h k e (inl z) = (
    r.id,
    rw (z, take-Nil {A = Row E} n) refl,
    h,
    k,
    select-above_cons q r.id r rows (omega arith) ∙ sym e ∙ rw (z, drop-Nil {A = Row E} n) refl,
  )
  Split-first q n lo top r rows sel h k e (inr z) =
      rw z (r.id, refl, h, k, select-above_cons q r.id r rows (omega arith) ∙ sym e)

  Split-next :
      (q : Row E → Bool) (n lo top : ℕ) (r : Row E) (rows sel : List (Row E)) (y : Row E)
      (ys : List (Row E))
      → lo < r.id
      → sel ≡ y ∷ ys
      → Split q n r.id top rows sel
      → Split q (suc n) lo top (r ∷ rows) (r ∷ sel)
  Split-next q n lo top r rows sel y ys h z (next, e, lt, le, d) = (
    next,
    ap (λ l. last_id (r ∷ take (suc n) l)) z
        ∙ last_id-cons r n y ys
        ∙ ap (λ l. last_id (take (suc n) l)) (sym z)
        ∙ e,
    omega arith,
    le,
    select-above_cons q next r rows (omega arith) ∙ d,
  )

  Split-taken :
      (q : Row E → Bool) (n lo top : ℕ) (r : Row E) (rows sel : List (Row E)) (y : Row E)
      (ys : List (Row E))
      → lo < r.id
      → r.id ≤ top
      → sel ≡ select (above q r.id) rows
      → sel ≡ y ∷ ys
      → ((m : ℕ) → Split q m r.id top rows sel)
      → Split q n lo top (r ∷ rows) (r ∷ sel)
  Split-taken q zero lo top r rows sel y ys h k same z rec =
      Split-first q 0 lo top r rows sel h k same (inr refl)
  Split-taken q (suc n) lo top r rows sel y ys h k same z rec =
      Split-next q n lo top r rows sel y ys h z (rec n)

  pub Split-from :
      (q : Row E → Bool) (after n lo top : ℕ) (rows : List (Row E)) (y : Row E) (ys : List (Row E))
      → Ordered lo rows
      → All (λ r. r.id ≤ top) rows
      → select (above q after) rows ≡ y ∷ ys
      → Split q n lo top rows (select (above q after) rows)
  Split-from q after n lo top [] y ys o u e = absurd (cons≢nil (sym e))
  Split-from q after n lo top (r ∷ rows) y ys o u e =
      let rest = select (above q after) rows in
      elim (Bool-cases (above q after r)) [
        | inr h ↦
            let e' : rest ≡ y ∷ ys = rw (sym e, h) refl in
            rw h (
              Split-cons q n lo top r rows rest o.0
                (Split-from q after n r.id top rows y ys o.1 u.1 e'))
        | inl h ↦
            let same : rest ≡ select (above q r.id) rows =
              above-Ordered q after r.id r.id rows (ground arith) (omega arith) o.1 in
            rw h (elim (list_cases rest) [
              | inl z ↦ Split-first q n lo top r rows rest o.0 u.0 same (inl z)
              | inr (x, xs, z) ↦
                  Split-taken q n lo top r rows rest x xs o.0 u.0 same z
                    (λ m. Split-from q after m r.id top rows x xs o.1 u.1 z)
            ])
      ]
