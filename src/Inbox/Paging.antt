-- ===== src/Inbox/Paging.antt =====
-- What a reader of internal/app/inbox.go gets who pages through the inbox with List.
use go_signal.Base.{
  ℕ, zero, suc, ◌+◌, ◌^◌, ◌≤◌, ◌<◌, ◌≡◌, refl, ap, subst, sym, ◌∙◌, inl, inr, Bool, true, false,
  not, ◌&&◌, ◌||◌, none, some, List, [], ◌∷◌, ◌++◌, Bytes, str_eq, is_empty, ◌==◌, ltb, leb, length,
  take, drop, select, min, arith, Bool-cases, take-append-drop, length-take,
}
use go_signal.Std.Decimal.{parse-format, format_nonempty}
use go_signal.Inbox.Table.{Row, Table, matches, records, unix_milli}
use go_signal.Inbox.Order.{Ordered, IsOrdered, UpTo, UpTo-select}
use go_signal.Inbox.Pages.{
  MessagesRequest, MessagesPage, page_of, format_cursor, parse_cursor, unsigned, limit_of,
  is_newest, query_of, page, last_id, page_cursor, list, listed, latest_cursor, newest_one,
  first_cursor,
}
use go_signal.Inbox.Windows.{list_cases, cons≢nil, take-Nil, shown_lem, is_empty-drop, positive}
use go_signal.Inbox.Split.{above, Split-from}
use mathlib.Core.List.{reverse_aux}

-- The cursor after an entry is read back as the entry's ID, which an int64 holds.
pub parse_cursor-format_cursor : (id : ℕ) → id < 2 ^ 63 → parse_cursor (format_cursor id) ≡ some id
unfolding parse_cursor unsigned
parse_cursor-format_cursor id h = rw (format_nonempty id, parse-format id h) refl

after_zero :
    (cursor : Bytes) (after : ℕ)
    → is_empty cursor ≡ true
    → parse_cursor cursor ≡ some after
    → after ≡ 0
unfolding parse_cursor
after_zero [] after h c = cc
after_zero (x ∷ cursor) after h c = cc

module _ {E : Type 0} where
  -- What a request wants of a row besides its ID.
  abbrev pub wanted : MessagesRequest → Row E → Bool
  wanted req r =
      (is_empty req.chat || str_eq r.chat req.chat)
      && (req.since == 0 || leb (unix_milli req.since) r.time)

  -- The rows after an ID that a request selects.
  abbrev pub selected : Table E → MessagesRequest → ℕ → List (Row E)
  selected t req after = select (above (wanted req) after) t.rows

  matches-above :
      (req : MessagesRequest) (after : ℕ) (r : Row E)
      → 0 < r.id
      → matches (query_of req after) r ≡ above (wanted req) after r
  unfolding matches query_of
  matches-above req after r h = ground arith

  select-matches :
      (req : MessagesRequest) (after lo : ℕ) (rows : List (Row E))
      → Ordered lo rows
      → select (matches (query_of req after)) rows ≡ select (above (wanted req) after) rows
  select-matches req after lo [] o = refl
  select-matches req after lo (r ∷ rows) o =
      let rest = select-matches req after r.id rows o.1 in
      rw (matches-above req after r (omega arith), rest) refl

  records-query_of :
      (t : Table E) (req : MessagesRequest) (after : ℕ)
      → IsOrdered t
      → is_newest req ≡ false
      → records t (query_of req after) ≡ take (limit_of req + 1) (selected t req after)
  unfolding records query_of
  records-query_of t req after w h =
      let pos : (limit_of req + 1 == 0) ≡ false = ground arith in
      rw (h, pos, select-matches req after 0 t.rows w.ordered) refl

  UpTo-reverse_aux :
      (n : ℕ) (rs acc : List (Row E)) → UpTo n rs → UpTo n acc → UpTo n (reverse_aux rs acc)
  UpTo-reverse_aux n [] acc u v = v
  UpTo-reverse_aux n (r ∷ rs) acc u v = UpTo-reverse_aux n rs (r ∷ acc) u.1 (u.0, v)

  UpTo-take : (n k : ℕ) (rs : List (Row E)) → UpTo n rs → UpTo n (take k rs)
  UpTo-take n zero rs u = tt
  UpTo-take n (suc k) [] u = tt
  UpTo-take n (suc k) (r ∷ rs) u = (u.0, UpTo-take n k rs u.1)

  abbrev IsCursor : Table E → Bytes → Type 0
  IsCursor t cursor = (id : ℕ) × (cursor ≡ format_cursor id) × (id ≤ t.sequence)

  first_cursor-IsCursor :
      (t : Table E) (rs : List (Row E)) → UpTo t.sequence rs → IsCursor t (first_cursor rs)
  unfolding first_cursor
  first_cursor-IsCursor t [] u = (0, refl, omega arith)
  first_cursor-IsCursor t (r ∷ rs) u = (r.id, refl, u.0)

  latest_cursor-IsCursor : (t : Table E) → IsOrdered t → IsCursor t (latest_cursor t)
  unfolding latest_cursor records
  latest_cursor-IsCursor t w =
      let v =
        UpTo-reverse_aux t.sequence _ []
          (UpTo-select (matches newest_one) t.sequence t.rows w.numbered) tt in
      first_cursor-IsCursor t _ (UpTo-reverse_aux t.sequence _ [] (UpTo-take t.sequence 1 _ v) tt)

  select-none :
      (q : Row E → Bool) (a b : ℕ) (rows : List (Row E))
      → a ≤ b
      → select (above q a) rows ≡ []
      → select (above q b) rows ≡ []
  select-none q a b [] h e = refl
  select-none q a b (r ∷ rows) h e = elim (Bool-cases (above q a r)) [
    | inl t ↦
        let g : select (above q a) (r ∷ rows) ≡ r ∷ select (above q a) rows = rw t refl in
        absurd (cons≢nil (sym g ∙ e))
    | inr f ↦
        let f' : above q b r ≡ false = ground arith in
        let g : select (above q a) (r ∷ rows) ≡ select (above q a) rows = rw f refl in
        rw f' (select-none q a b rows h (sym g ∙ e))
  ]

  -- A page of the rows that a request selects after an ID, and the ID that its cursor continues
  -- from.
  abbrev pub IsPage : Table E → MessagesRequest → ℕ → MessagesPage E → Type 0
  IsPage t req after p =
      (next : ℕ) × (parse_cursor p.cursor ≡ some next)
      × (selected t req after ≡ p.entries ++ selected t req next)
      × (length p.entries ≡ min (limit_of req) (length (selected t req after)))
      × (p.more ≡ not (is_empty (selected t req next)))

  -- The page of the entries that are read, by what is selected.
  shown_page : Table E → MessagesRequest → List (Row E) → MessagesPage E
  shown_page t req sel = record {
    entries = take (limit_of req) sel;
    cursor = page_cursor t req (last_id (take (limit_of req) sel));
    more = ltb (limit_of req) (length sel);
  }

  page-shown_page :
      (t : Table E) (req : MessagesRequest) (sel : List (Row E))
      → page t req (take (limit_of req + 1) sel) ≡ shown_page t req sel
  unfolding page shown_page
  page-shown_page t req sel =
      let k = limit_of req in let h = shown_lem k (k + 1) sel (omega arith) in rw (h.0, h.1) refl

  nothing-IsPage :
      (t : Table E) (req : MessagesRequest) (after next : ℕ)
      → parse_cursor (page_cursor t req none) ≡ some next
      → selected t req after ≡ []
      → selected t req next ≡ []
      → IsPage t req after (shown_page t req [])
  unfolding shown_page last_id
  nothing-IsPage t req after next c e n =
      let none_taken = take-Nil {A = Row E} (limit_of req) in
      (
        next,
        rw none_taken c,
        rw (none_taken, e, n) refl,
        rw (none_taken, e) (omega arith),
        rw n (ground arith),
      )

  empty-IsPage :
      (t : Table E) (req : MessagesRequest) (after : ℕ)
      → IsOrdered t
      → t.sequence < 2 ^ 63
      → parse_cursor req.cursor ≡ some after
      → selected t req after ≡ []
      → IsPage t req after (shown_page t req [])
  unfolding page_cursor
  empty-IsPage t req after w s c e = elim (Bool-cases (is_empty req.cursor)) [
    | inr h ↦ nothing-IsPage t req after after (rw h c) e e
    | inl h ↦
        let (id, l, b) = latest_cursor-IsCursor t w in
        let z = after_zero req.cursor after h c in
        nothing-IsPage t req after id (rw (h, l) (parse_cursor-format_cursor id (omega arith))) e
          (select-none (wanted req) after id t.rows (omega arith) e)
  ]

  next-IsPage :
      (t : Table E) (req : MessagesRequest) (after : ℕ) (y : Row E) (ys : List (Row E))
      → IsOrdered t
      → t.sequence < 2 ^ 63
      → selected t req after ≡ y ∷ ys
      → IsPage t req after (shown_page t req (selected t req after))
  unfolding shown_page page_cursor
  next-IsPage t req after y ys w s e =
      let (k, z) = positive (limit_of req) (ground arith) in
      let (next, l, lo, top, d) =
        Split-from (wanted req) after k 0 t.sequence t.rows y ys w.ordered w.numbered e in
      let sel = selected t req after in
      let shut : last_id (take (limit_of req) sel) ≡ some next =
        ap (λ n. last_id (take n sel)) z ∙ l in
      let left : selected t req next ≡ drop (limit_of req) sel = d ∙ ap (λ n. drop n sel) (sym z) in
      (
        next,
        ap (λ o. parse_cursor (page_cursor t req o)) shut
            ∙ parse_cursor-format_cursor next (omega arith),
        sym (take-append-drop (limit_of req) sel) ∙ ap (◌++◌ (take (limit_of req) sel)) (sym left),
        length-take (limit_of req) sel,
        is_empty-drop (limit_of req) sel ∙ ap (λ rest. not (is_empty rest)) (sym left),
      )

  -- On a readable inbox whose IDs an int64 holds, a List with a valid cursor or a time returns a
  -- page that starts what the request selects after the cursor: its entries, as many as the limit
  -- (50 unless given, at most 200) allows, followed by what the request selects after the page's
  -- own cursor, are all it selects after the given one. So following the cursors reads every entry
  -- once, in order, and `more` tells whether any is left.
  pub list_pages :
      (t : Table E) (req : MessagesRequest) (after : ℕ)
      → IsOrdered t
      → t.sequence < 2 ^ 63
      → is_newest req ≡ false
      → parse_cursor req.cursor ≡ some after
      → (p : MessagesPage E) × (list (some t) req ≡ page_of p) × IsPage t req after p
  unfolding list listed
  list_pages t req after w s n c =
      let sel = selected t req after in
      (
        shown_page t req sel,
        rw (c, records-query_of t req after w n, page-shown_page t req sel) refl,
        elim (list_cases sel) [
          | inl e ↦
              subst (λ l. IsPage t req after (shown_page t req l)) (sym e)
                (empty-IsPage t req after w s c e)
          | inr (y, ys, e) ↦ next-IsPage t req after y ys w s e
        ],
      )
