-- ===== src/Inbox/Marks.antt =====
-- What marking entries as read and pruning old entries do to the table of
-- internal/store/inbox.go.
use go_signal.Base.{
  ℕ, zero, suc, ◌+◌, ◌-◌, ◌≤◌, ◌<◌, ◌≡◌, ◌∙◌, ap, Bool, false, ◌&&◌, ◌⊎◌, inl, inr, List, [], ◌∷◌,
  ◌++◌, ◌==◌, leb, str_eq, length, take, drop, select, any, arith, refl, Bool-cases, if◌then◌else◌,
  length-drop, length-take, ◌||◌, take-append-drop, map,
}
use go_signal.Inbox.Table.{
  Row, Table, InboxMark, timestamp_arg, expired, drop_expired, expired_count, keep_newest,
  excess_count, prune, mark_row, unix_milli, mark_rows, mark_read, is_marked,
}

length-select : {A : Type 0} (p : A → Bool) (xs : List A) → length (select p xs) ≤ length xs
length-select p [] = omega arith
length-select p (x ∷ xs) = ground (arith, length-select p xs)

take-none : {A : Type 0} (n : ℕ) (xs : List A) → n ≡ 0 → take n xs ≡ []
take-none n xs h = rw h refl

module _ {E : Type 0} where
  -- How many rows are unread.
  abbrev pub unread : List (Row E) → ℕ
  unread [] = 0
  unread (r ∷ rs) = (if r.unread then 1 else 0) + unread rs

  -- The message of a row, as a mark names it.
  abbrev pub named_by : InboxMark → Row E → Bool
  named_by m r = str_eq r.sender m.sender && r.timestamp == timestamp_arg m.timestamp

  -- What marking leaves: the row itself, or the row unread no more.
  abbrev pub read_by : List InboxMark → Row E → Row E
  read_by ms r = if r.unread && any (λ m. named_by m r) ms then record r { unread = false } else r

  mark_row_lem : (m : InboxMark) (r : Row E) → mark_row m r ≡ read_by (m ∷ []) r
  unfolding mark_row is_marked
  mark_row_lem m r = ground arith

  mark_rows-map : (m : InboxMark) (rs : List (Row E)) → (mark_rows m rs).0 ≡ map (mark_row m) rs
  unfolding mark_rows
  mark_rows-map m [] = refl
  mark_rows-map m (r ∷ rs) = ap (◌∷◌ (mark_row m r)) (mark_rows-map m rs)

  unread-mark_rows :
      (m : InboxMark) (rs : List (Row E))
      → (mark_rows m rs).1 + unread (mark_rows m rs).0 ≡ unread rs
  unfolding mark_rows mark_row is_marked
  unread-mark_rows m [] = refl
  unread-mark_rows m (r ∷ rs) = let h = unread-mark_rows m rs in ground (arith, h)

  read_by-cons :
      (m : InboxMark) (ms : List InboxMark) (r : Row E)
      → read_by ms (mark_row m r) ≡ read_by (m ∷ ms) r
  unfolding mark_row is_marked
  read_by-cons m ms r = ground arith

  read_by-map :
      (m : InboxMark) (ms : List InboxMark) (rs : List (Row E))
      → map (read_by ms) (map (mark_row m) rs) ≡ map (read_by (m ∷ ms)) rs
  read_by-map m ms [] = refl
  read_by-map m ms (r ∷ rs) =
      rw (read_by-cons m ms r) (ap (◌∷◌ (read_by (m ∷ ms) r)) (read_by-map m ms rs))

  map-read_by-none : (rs : List (Row E)) → rs ≡ map (read_by []) rs
  map-read_by-none [] = refl
  map-read_by-none (r ∷ rs) =
      let h : r ≡ read_by [] r = ground arith in ground (arith, h, map-read_by-none rs)

  -- Marking messages as read changes nothing but the unread flag, which it clears in exactly the
  -- unread rows that some mark names by sender and timestamp; the number it returns is by how much
  -- the unread rows became fewer.
  pub mark_read_lem :
      (rows : List (Row E)) (ms : List InboxMark)
      → ((mark_read rows ms).0 ≡ map (read_by ms) rows)
        × ((mark_read rows ms).1 + unread (mark_read rows ms).0 ≡ unread rows)
  unfolding mark_read
  mark_read_lem rows [] = (map-read_by-none rows, omega arith)
  mark_read_lem rows (m ∷ ms) =
      let rest = mark_read_lem (mark_rows m rows).0 ms in
      (
        rest.0 ∙ ap (map (read_by ms)) (mark_rows-map m rows) ∙ read_by-map m ms rows,
        omega (arith, rest.1, unread-mark_rows m rows),
      )

  -- A row that is not too old to keep: no time is given, or the row was not received before it.
  abbrev pub is_fresh : ℕ → Row E → Bool
  is_fresh before r = before == 0 || leb (unix_milli before) r.received_at

  abbrev pub fresh : ℕ → List (Row E) → List (Row E)
  fresh before rows = select (is_fresh before) rows

  drop_expired-fresh :
      (before : ℕ) (rows : List (Row E)) → drop_expired before rows ≡ fresh before rows
  unfolding drop_expired expired
  drop_expired-fresh before [] = ground arith
  drop_expired-fresh before (r ∷ rs) = ground (arith, drop_expired-fresh before rs)

  length-expired :
      (before : ℕ) (rows : List (Row E))
      → expired_count before rows + length (drop_expired before rows) ≡ length rows
  unfolding expired_count drop_expired
  length-expired before [] = ground arith
  length-expired before (r ∷ rs) = ground (arith, length-expired before rs)

  length-excess :
      (keep : ℕ) (rows : List (Row E))
      → excess_count keep rows + length (keep_newest keep rows) ≡ length rows
  unfolding excess_count keep_newest
  length-excess keep rows =
      let n = length rows - keep in ground (arith, length-take n rows, length-drop n rows)

  -- What is left of `rows` when the newest `keep` of them are kept, zero keeping all.
  abbrev pub Kept : ℕ → List (Row E) → List (Row E) → Type 0
  Kept keep rows left =
      ((cut : List (Row E)) × (cut ++ left ≡ rows)
        × ((cut ≡ []) ⊎ ((0 < keep) × (length left ≡ keep))))
      × ((keep ≡ 0) ⊎ (length left ≤ keep))

  drop_to :
      (keep : ℕ) (rows : List (Row E)) → 0 < keep → Kept keep rows (drop (length rows - keep) rows)
  drop_to keep rows h =
      let n = length rows - keep in
      let len = length-drop n rows in
      (
        (
          take n rows,
          take-append-drop n rows,
          elim (Bool-cases (leb (length rows) keep)) [
            | inl le ↦ inl (take-none n rows (ground arith))
            | inr gt ↦ inr (h, ground (arith, len))
          ],
        ),
        inr (omega (arith, len)),
      )

  keep_newest_lem : (keep : ℕ) (rows : List (Row E)) → Kept keep rows (keep_newest keep rows)
  unfolding keep_newest
  keep_newest_lem zero rows = (([], refl, inl refl), inl refl)
  keep_newest_lem (suc keep) rows =
      let h : (suc keep == 0) ≡ false = ground arith in rw h (drop_to (suc keep) rows (omega arith))

  -- Pruning removes the rows received before the time it is given, if it is given one, and then the
  -- oldest rows in excess of the number to keep, if it is given one, and no row else: either
  -- nothing is cut off the rows that are not too old, or exactly that number is left. It returns
  -- how many rows it deleted.
  pub prune_lem :
      (t : Table E) (before keep : ℕ)
      → Kept keep (fresh before t.rows) (prune t before keep).0.rows
        × ((prune t before keep).1 + length (prune t before keep).0.rows ≡ length t.rows)
  unfolding prune
  prune_lem t before keep =
      let rows = drop_expired before t.rows in
      let old = length-expired before t.rows in
      let more = length-excess keep rows in
      (
        rw (drop_expired-fresh before t.rows) (keep_newest_lem keep (fresh before t.rows)),
        omega arith,
      )
