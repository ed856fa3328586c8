-- ===== src/Store/Seeding.antt =====
-- internal/store/poll_projections.go: the evidence of an old inbox is gathered from every row.
use go_signal.Base.{
  ℕ, zero, suc, ◌<◌, ◌≤◌, Bool, true, ◌||◌, Option, none, some, List, [], ◌∷◌, ◌++◌, length, select,
  take, drop, take-append-drop, length-drop, ltb, ◌==◌, ◌≡◌, ◌∙◌, refl, sym, ap, arith, Bool-cases,
  inl, inr,
}
use go_signal.Inbox.Table.{Row, Table, matches, records}
use go_signal.Inbox.Order.{Ordered, IsOrdered}
use go_signal.Inbox.Pages.{last_id}
use go_signal.Inbox.Split.{above, Split-from}
use go_signal.Inbox.Windows.{list_cases}
use go_signal.Store.Projections.{
  SeedReply, unreadable, unrelated, observed, Gathered, add_evidence, add_rows,
  poll_seed_batch_size, batch_filter, last_or, on_reply, and_again, on_batch, seed_from, seed_polls,
}

abbrev every : {E : Type 0} → Row E → Bool
every r = true

module _ {V E : Type 0} (seed : Row E → SeedReply V) (t : Table E) where
  abbrev rest_after : ℕ → List (Row E)
  rest_after after = select (above every after) t.rows

  batch_matches :
      (after lo : ℕ) (rows : List (Row E))
      → Ordered lo rows
      → select (matches (batch_filter after)) rows ≡ select (above every after) rows
  unfolding matches
  batch_matches after lo [] o = refl
  batch_matches after lo (r ∷ rows) o =
      let rest = batch_matches after r.id rows o.1 in
      let here : (after == 0 || ltb after r.id) ≡ ltb after r.id = ground arith in
      ground (arith, rest, here)

  batch :
      (after : ℕ)
      → IsOrdered t
      → records t (batch_filter after) ≡ take poll_seed_batch_size (rest_after after)
  unfolding records
  batch after w = ap (take poll_seed_batch_size) (batch_matches after 0 t.rows w.ordered)

  add_rows-append :
      (g : Gathered V) (rs qs : List (Row E))
      → add_rows seed g (rs ++ qs) ≡ and_again (λ h. add_rows seed h qs) (add_rows seed g rs)
  unfolding add_rows
  add_rows-append g [] qs = refl
  add_rows-append g (r ∷ rs) qs =
      by_reply (seed r) (add_rows-append g rs qs) (λ o. add_rows-append (add_evidence g o) rs qs)
    where
      by_reply :
          (s : SeedReply V)
          → add_rows seed g (rs ++ qs) ≡ and_again (λ h. add_rows seed h qs) (add_rows seed g rs)
          → ((o : _)
              → add_rows seed (add_evidence g o) (rs ++ qs)
                ≡ and_again (λ h. add_rows seed h qs) (add_rows seed (add_evidence g o) rs))
          → on_reply s
              (add_rows seed g (rs ++ qs))
              (λ o. add_rows seed (add_evidence g o) (rs ++ qs))
            ≡ and_again
                (λ h. add_rows seed h qs)
                (on_reply s (add_rows seed g rs) (λ o. add_rows seed (add_evidence g o) rs))
      by_reply unreadable same more = refl
      by_reply unrelated same more = same
      by_reply (observed o) same more = more o

  on_batch_nonempty :
      (again : ℕ → Gathered V → Option (Gathered V)) (after next : ℕ) (g : Gathered V)
      (l : List (Row E))
      → last_id l ≡ some next
      → on_batch seed again after g l ≡ and_again (again next) (add_rows seed g l)
  unfolding on_batch
  on_batch_nonempty again after next g [] h = absurd (no_last h)
    where
      no_last : last_id {E = E} [] ≡ some next → ⊥
      no_last k = unfold last_id in cc
  on_batch_nonempty again after next g (r ∷ rs) h =
      ap (λ o. and_again (again (last_or after o)) (add_rows seed g (r ∷ rs))) h

  and_again_same :
      (f k : Gathered V → Option (Gathered V)) (o : Option (Gathered V))
      → ((x : Gathered V) → f x ≡ k x)
      → and_again f o ≡ and_again k o
  and_again_same f k none same = refl
  and_again_same f k (some x) same = same x

  -- The rest of the rows is read in enough turns.
  seed_from-add_rows :
      (fuel after : ℕ) (g : Gathered V)
      → IsOrdered t
      → length (rest_after after) < fuel
      → seed_from seed t fuel after g ≡ add_rows seed g (rest_after after)
  unfolding seed_from
  seed_from-add_rows zero after g w h = absurd (omega arith)
  seed_from-add_rows (suc fuel) after g w h =
      ap (on_batch seed (λ a k. seed_from seed t fuel a k) after g) (batch after w)
      ∙ elim (list_cases (rest_after after)) [
        | inl e ↦ rw e (unfold on_batch add_rows in refl)
        | inr (y, ys, e) ↦
            let (next, l, lo, top, d) =
              Split-from every after 999 0 t.sequence t.rows y ys w.ordered w.numbered e in
            let sel = rest_after after in
            let some_left : length sel ≡ suc (length ys) = ap length e in
            let fits : length (rest_after next) < fuel =
              omega (arith, ap length d, length-drop 1000 sel, some_left, h) in
            on_batch_nonempty (λ a k. seed_from seed t fuel a k) after next g (take 1000 sel) l
            ∙ and_again_same (λ k. seed_from seed t fuel next k)
                (λ k. add_rows seed k (drop 1000 sel)) (add_rows seed g (take 1000 sel))
                (λ x. seed_from-add_rows fuel next x w fits ∙ ap (add_rows seed x) d)
            ∙ sym (add_rows-append g (take 1000 sel) (drop 1000 sel))
            ∙ ap (add_rows seed g) (take-append-drop 1000 sel)
      ]

  all_after : (lo : ℕ) (rows : List (Row E)) → Ordered lo rows → select (above every 0) rows ≡ rows
  all_after lo [] o = refl
  all_after lo (r ∷ rows) o =
      let here : ltb 0 r.id ≡ true = ground arith in rw here (ap (◌∷◌ r) (all_after r.id rows o.1))

  length-select : (p : Row E → Bool) (rows : List (Row E)) → length (select p rows) ≤ length rows
  length-select p [] = omega arith
  length-select p (r ∷ rows) = elim (Bool-cases (p r)) [
    | inl h ↦ rw h (omega (arith, length-select p rows))
    | inr h ↦ rw h (omega (arith, length-select p rows))
  ]

  -- Seeding in batches of 1000 ends, and gathers the evidence of every row of an ordered inbox,
  -- from the first to the last, or fails at a row that the seed cannot read.
  pub seed_polls-add_rows :
      (g : Gathered V) → IsOrdered t → seed_polls seed t g ≡ add_rows seed g t.rows
  unfolding seed_polls
  seed_polls-add_rows g w =
      let fits : length (rest_after 0) < suc (length t.rows) =
        omega (arith, length-select (above every 0) t.rows) in
      seed_from-add_rows (suc (length t.rows)) 0 g w fits
      ∙ ap (add_rows seed g) (all_after 0 t.rows w.ordered)
