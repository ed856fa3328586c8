-- ===== src/Store/Rows.antt =====
-- Tables with a primary key: the row with a key, INSERT with ON CONFLICT, and DELETE.
use go_signal.Base.{
  Bool, true, false, not, Option, none, some, List, [], ◌∷◌, find, select, if◌then◌else◌, ◌≡◌, ◌∙◌,
  refl, sym, ap, Bool-cases, inl, inr,
}

module _ {K R : Type 0} (key : R → K) (same : K → K → Bool) where
  -- The row with the key.
  abbrev pub row_of : K → List R → Option R
  row_of k rows = find (λ r. same (key r) k) rows

  -- INSERT … ON CONFLICT (key) DO UPDATE, where `merge` makes the new row of the old one and the
  -- one that conflicts.
  unfoldable pub upsert : (R → R → R) → R → List R → List R
  upsert merge new [] = new ∷ []
  upsert merge new (r ∷ rows) =
      let rest = upsert merge new rows in
      if same (key r) (key new) then merge r new ∷ rows else r ∷ rest

  -- DELETE … WHERE key = …
  abbrev pub delete_row : K → List R → List R
  delete_row k rows = select (λ r. not (same (key r) k)) rows

  abbrev pub merged : (R → R → R) → Option R → R → R
  merged merge none new = new
  merged merge (some old) new = merge old new

  module _ (merge : R → R → R) (new : R) where
    -- The row with the key of an upsert is the merged one.
    pub upsert_here :
        (k : K) (rows : List R)
        → ((a b : K) → same a b ≡ true → a ≡ b)
        → same (key new) k ≡ true
        → ((old : R) → key old ≡ key new → key (merge old new) ≡ key new)
        → row_of k (upsert merge new rows) ≡ some (merged merge (row_of k rows) new)
    unfolding upsert
    upsert_here k [] eq h keeps = rw h refl
    upsert_here k (r ∷ rows) eq h keeps = elim (Bool-cases (same (key r) (key new))) [
      | inl e ↦
          let here : same (key r) k ≡ true = ap (λ a. same a k) (eq (key r) (key new) e) ∙ h in
          let there : same (key (merge r new)) k ≡ true =
            ap (λ a. same a k) (keeps r (eq (key r) (key new) e)) ∙ h in
          rw (e, there, here) refl
      | inr e ↦
          let other : same (key r) k ≡ false = ap (same (key r)) (sym (eq (key new) k h)) ∙ e in
          rw (e, other) (upsert_here k rows eq h keeps)
    ]

    -- The row with another key stays.
    pub upsert_other :
        (k : K) (rows : List R)
        → ((a b : K) → same a b ≡ true → a ≡ b)
        → same (key new) k ≡ false
        → ((old : R) → key old ≡ key new → key (merge old new) ≡ key new)
        → row_of k (upsert merge new rows) ≡ row_of k rows
    unfolding upsert
    upsert_other k [] eq h keeps = rw h refl
    upsert_other k (r ∷ rows) eq h keeps = elim (Bool-cases (same (key r) (key new))) [
      | inl e ↦
          let here : same (key r) k ≡ false = ap (λ a. same a k) (eq (key r) (key new) e) ∙ h in
          let there : same (key (merge r new)) k ≡ false =
            ap (λ a. same a k) (keeps r (eq (key r) (key new) e)) ∙ h in
          rw (e, there, here) refl
      | inr e ↦
          rw e (ap (λ o. if same (key r) k then some r else o) (upsert_other k rows eq h keeps))
    ]
