-- ===== src/Inbox/Order.antt =====
-- The IDs of the table of internal/store/inbox.go under every change of it.
use go_signal.Base.{
  ℕ, zero, suc, ◌+◌, ◌-◌, ◌≤◌, ◌<◌, ◌≡◌, Bool, not, List, [], ◌∷◌, ◌++◌, length, drop, select, All,
  arith,
}
use go_signal.Inbox.Table.{
  Row, Table, NewRecord, InboxMark, Change, adds, marks, prunes, add, expired, drop_expired,
  keep_newest, prune, mark_row, mark_rows, mark_read, change, changes,
}

module _ {E : Type 0} where
  -- The IDs rise strictly, from above `lo`.
  abbrev pub Ordered : ℕ → List (Row E) → Type 0
  Ordered lo [] = Unit {0}
  Ordered lo (r ∷ rs) = (lo < r.id) × Ordered r.id rs

  abbrev pub UpTo : ℕ → List (Row E) → Type 0
  UpTo n = All (λ r. r.id ≤ n)

  pub record IsOrdered (t : Table E) : Type 0 where
    pub ordered : Ordered 0 t.rows
    pub numbered : UpTo t.sequence t.rows

  pub Ordered-weaken : (m n : ℕ) (rs : List (Row E)) → m ≤ n → Ordered n rs → Ordered m rs
  Ordered-weaken m n [] h o = tt
  Ordered-weaken m n (r ∷ rs) h o = (omega arith, o.1)

  UpTo-weaken : (m n : ℕ) (rs : List (Row E)) → m ≤ n → UpTo m rs → UpTo n rs
  UpTo-weaken m n [] h u = tt
  UpTo-weaken m n (r ∷ rs) h u = (omega arith, UpTo-weaken m n rs h u.1)

  Ordered-append :
      (lo n : ℕ) (rs : List (Row E)) (r : Row E)
      → Ordered lo rs
      → UpTo n rs
      → n < r.id
      → lo < r.id
      → Ordered lo (rs ++ r ∷ [])
  Ordered-append lo n [] r o u h k = (k, tt)
  Ordered-append lo n (x ∷ xs) r o u h k = (o.0, Ordered-append x.id n xs r o.1 u.1 h (omega arith))

  UpTo-append :
      (n : ℕ) (rs : List (Row E)) (r : Row E) → UpTo n rs → r.id ≤ n → UpTo n (rs ++ r ∷ [])
  UpTo-append n [] r u h = (h, tt)
  UpTo-append n (x ∷ xs) r u h = (u.0, UpTo-append n xs r u.1 h)

  pub Ordered-select :
      (p : Row E → Bool) (lo : ℕ) (rs : List (Row E)) → Ordered lo rs → Ordered lo (select p rs)
  Ordered-select p lo [] o = tt
  Ordered-select p lo (r ∷ rs) o =
      ground (arith, Ordered-select p r.id rs o.1, Ordered-weaken lo r.id (select p rs))

  pub UpTo-select :
      (p : Row E → Bool) (n : ℕ) (rs : List (Row E)) → UpTo n rs → UpTo n (select p rs)
  UpTo-select p n [] u = tt
  UpTo-select p n (r ∷ rs) u = ground (arith, UpTo-select p n rs u.1)

  Ordered-drop : (k lo : ℕ) (rs : List (Row E)) → Ordered lo rs → Ordered lo (drop k rs)
  Ordered-drop zero lo rs o = o
  Ordered-drop (suc k) lo [] o = tt
  Ordered-drop (suc k) lo (r ∷ rs) o =
      Ordered-weaken lo r.id (drop k rs) (omega arith) (Ordered-drop k r.id rs o.1)

  UpTo-drop : (k n : ℕ) (rs : List (Row E)) → UpTo n rs → UpTo n (drop k rs)
  UpTo-drop zero n rs u = u
  UpTo-drop (suc k) n [] u = tt
  UpTo-drop (suc k) n (r ∷ rs) u = UpTo-drop k n rs u.1

  id-mark_row : (m : InboxMark) (r : Row E) → (mark_row m r).id ≡ r.id
  unfolding mark_row
  id-mark_row m r = ground arith

  Ordered-mark_rows :
      (m : InboxMark) (lo : ℕ) (rs : List (Row E)) → Ordered lo rs → Ordered lo (mark_rows m rs).0
  unfolding mark_rows
  Ordered-mark_rows m lo [] o = tt
  Ordered-mark_rows m lo (r ∷ rs) o = rw (id-mark_row m r) (o.0, Ordered-mark_rows m r.id rs o.1)

  UpTo-mark_rows :
      (m : InboxMark) (n : ℕ) (rs : List (Row E)) → UpTo n rs → UpTo n (mark_rows m rs).0
  unfolding mark_rows
  UpTo-mark_rows m n [] u = tt
  UpTo-mark_rows m n (r ∷ rs) u = (rw (id-mark_row m r) u.0, UpTo-mark_rows m n rs u.1)

  Ordered-mark_read :
      (ms : List InboxMark) (lo : ℕ) (rs : List (Row E))
      → Ordered lo rs
      → Ordered lo (mark_read rs ms).0
  unfolding mark_read
  Ordered-mark_read [] lo rs o = o
  Ordered-mark_read (m ∷ ms) lo rs o =
      Ordered-mark_read ms lo (mark_rows m rs).0 (Ordered-mark_rows m lo rs o)

  UpTo-mark_read :
      (ms : List InboxMark) (n : ℕ) (rs : List (Row E)) → UpTo n rs → UpTo n (mark_read rs ms).0
  unfolding mark_read
  UpTo-mark_read [] n rs u = u
  UpTo-mark_read (m ∷ ms) n rs u = UpTo-mark_read ms n (mark_rows m rs).0 (UpTo-mark_rows m n rs u)

  keep_drop-Ordered :
      (before keep lo : ℕ) (rs : List (Row E))
      → Ordered lo rs
      → Ordered lo (keep_newest keep (drop_expired before rs))
  unfolding keep_newest drop_expired
  keep_drop-Ordered before keep lo rs o =
      let kept = Ordered-select (λ r. not (expired before r)) lo rs o in
      ground (
        arith,
        kept,
        Ordered-drop (length rs - keep) lo rs o,
        Ordered-drop (length (select (λ r. not (expired before r)) rs) - keep) lo _ kept,
      )

  UpTo-below : (n : ℕ) (rs : List (Row E)) {m : ℕ} → n < m → UpTo n rs → All (λ r. r.id < m) rs
  UpTo-below n [] h u = tt
  UpTo-below n (r ∷ rs) h u = (omega arith, UpTo-below n rs h u.1)

  keep_drop-UpTo :
      (before keep n : ℕ) (rs : List (Row E))
      → UpTo n rs
      → UpTo n (keep_newest keep (drop_expired before rs))
  unfolding keep_newest drop_expired
  keep_drop-UpTo before keep n rs u =
      let kept = UpTo-select (λ r. not (expired before r)) n rs u in
      ground (
        arith,
        kept,
        UpTo-drop (length rs - keep) n rs u,
        UpTo-drop (length (select (λ r. not (expired before r)) rs) - keep) n _ kept,
      )

  add-IsOrdered : (t : Table E) (r : NewRecord E) → IsOrdered t → IsOrdered (add t r).0
  unfolding add
  add-IsOrdered t r w = record {
    ordered = Ordered-append 0 t.sequence t.rows _ w.ordered w.numbered (omega arith) (omega arith);
    numbered =
        UpTo-append (t.sequence + 1) t.rows _
          (UpTo-weaken t.sequence (t.sequence + 1) t.rows (omega arith) w.numbered) (omega arith);
  }

  pub change-IsOrdered : (t : Table E) (c : Change E) → IsOrdered t → IsOrdered (change t c)
  unfolding change prune
  change-IsOrdered t (adds r) w = add-IsOrdered t r w
  change-IsOrdered t (marks ms) w = record {
    ordered = Ordered-mark_read ms 0 t.rows w.ordered;
    numbered = UpTo-mark_read ms t.sequence t.rows w.numbered;
  }
  change-IsOrdered t (prunes before keep) w = record {
    ordered = keep_drop-Ordered before keep 0 t.rows w.ordered;
    numbered = keep_drop-UpTo before keep t.sequence t.rows w.numbered;
  }

  -- Whatever sequence of additions, read marks and prunings a table goes through, its rows stay
  -- sorted by strictly ascending IDs, none above the largest ID given, if they were.
  pub changes-IsOrdered :
      (t : Table E) (cs : List (Change E)) → IsOrdered t → IsOrdered (changes t cs)
  unfolding changes
  changes-IsOrdered t [] w = w
  changes-IsOrdered t (c ∷ cs) w = changes-IsOrdered (change t c) cs (change-IsOrdered t c w)

  change-sequence : (t : Table E) (c : Change E) → t.sequence ≤ (change t c).sequence
  unfolding change add prune
  change-sequence t (adds r) = omega arith
  change-sequence t (marks ms) = omega arith
  change-sequence t (prunes before keep) = omega arith

  changes-sequence : (t : Table E) (cs : List (Change E)) → t.sequence ≤ (changes t cs).sequence
  unfolding changes
  changes-sequence t [] = omega arith
  changes-sequence t (c ∷ cs) = omega (arith, change-sequence t c, changes-sequence (change t c) cs)

  -- The ID a record is given is below every ID that is given after any further changes, and above
  -- the ID of every row that is left of them: no ID is used twice, even when its row was pruned.
  pub add_fresh :
      (t : Table E) (r q : NewRecord E) (cs : List (Change E))
      → IsOrdered t
      → ((add t r).1 < (add (changes (add t r).0 cs) q).1)
        × All (λ row. row.id < (add (changes (add t r).0 cs) q).1) (changes (add t r).0 cs).rows
  unfolding add
  add_fresh t r q cs w =
      let later = (add t r).0 in
      let ok = changes-IsOrdered later cs (add-IsOrdered t r w) in
      (omega (arith, changes-sequence later cs), UpTo-below _ _ (omega arith) ok.numbered)
