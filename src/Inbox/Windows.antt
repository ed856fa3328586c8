-- ===== src/Inbox/Windows.antt =====
-- Taking and dropping of lists, for the pages of internal/app/inbox.go.
use go_signal.Base.{
  ℕ, zero, suc, ◌≤◌, ◌<◌, ◌≡◌, ◌≢◌, refl, ap, sym, ◌∙◌, ◌⊎◌, inl, inr, true, false, not, List, [],
  ◌∷◌, is_empty, ltb, if◌then◌else◌, length, take, drop, arith, Bool-cases, length-take,
}

-- A list is empty or has a first element.
pub list_cases : {A : Type 0} (xs : List A) → (xs ≡ []) ⊎ ((y : A) × (ys : List A) × (xs ≡ y ∷ ys))
list_cases [] = inl refl
list_cases (y ∷ ys) = inr (y, ys, refl)

pub cons≢nil : {A : Type 0} {y : A} {ys : List A} → (y ∷ ys) ≢ []
cons≢nil h = cc

abbrev pub Nil : (A : Type 0) → List A → Type 0
Nil A xs = xs ≡ []

pub take-Nil : {A : Type 0} (n : ℕ) → Nil A (take n [])
take-Nil zero = refl
take-Nil (suc n) = refl

pub drop-Nil : {A : Type 0} (n : ℕ) → Nil A (drop n [])
drop-Nil zero = refl
drop-Nil (suc n) = refl

pub take_within : {A : Type 0} (m n : ℕ) (l : List A) → m ≤ n → take m (take n l) ≡ take m l
take_within zero n l h = refl
take_within (suc m) zero l h = absurd (omega arith)
take_within (suc m) (suc n) [] h = refl
take_within (suc m) (suc n) (x ∷ l) h = ap (◌∷◌ x) (take_within m n l (omega arith))

pub take_all : {A : Type 0} (n : ℕ) (l : List A) → length l ≤ n → take n l ≡ l
take_all zero [] h = refl
take_all zero (x ∷ l) h = absurd (omega arith)
take_all (suc n) [] h = refl
take_all (suc n) (x ∷ l) h = ap (◌∷◌ x) (take_all n l (omega arith))

-- Of `n` rows read, more than `k`, the first `k` are shown.
abbrev pub shown_of : {A : Type 0} → ℕ → List A → List A
shown_of k read = if ltb k (length read) then take k read else read

pub shown_lem :
    {A : Type 0} (k n : ℕ) (l : List A)
    → k < n
    → (shown_of k (take n l) ≡ take k l) × (ltb k (length (take n l)) ≡ ltb k (length l))
shown_lem k n l h =
    let len = length-take n l in
    elim (Bool-cases (ltb k (length l))) [
      | inl e ↦
          let e' : ltb k (length (take n l)) ≡ true = ground arith in
          (rw e' (take_within k n l (omega arith)), e' ∙ sym e)
      | inr e ↦
          let e' : ltb k (length (take n l)) ≡ false = ground arith in
          (rw e' (take_all n l (ground arith) ∙ sym (take_all k l (ground arith))), e' ∙ sym e)
    ]

pub is_empty-drop : {A : Type 0} (n : ℕ) (l : List A) → ltb n (length l) ≡ not (is_empty (drop n l))
is_empty-drop zero [] = refl
is_empty-drop zero (x ∷ l) = ground arith
is_empty-drop (suc n) [] = ground arith
is_empty-drop (suc n) (x ∷ l) = ground (arith, is_empty-drop n l)

pub positive : (n : ℕ) → 0 < n → (k : ℕ) × (n ≡ suc k)
positive zero h = absurd (omega arith)
positive (suc k) h = (k, refl)
