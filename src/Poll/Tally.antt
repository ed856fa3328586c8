-- ===== src/Poll/Tally.antt =====
-- The tally: every index is in range, and each entry counts the voters who chose it.
use go_signal.Base.{
  ℕ, zero, suc, ◌+◌, ◌<◌, ◌≡◌, ◌∙◌, some, List, [], ◌∷◌, ◌==◌, All, length, replicate, get_elem?,
  length-replicate, arith, refl, if◌then◌else◌,
}
use go_signal.Poll.State.{StateVote}
use go_signal.Poll.Reduce.{bump, bump_all, tally_votes, sort_votes, insert_vote}

abbrev pub Below : ℕ → List ℕ → Type 0
Below n = All (λ i. i < n)

abbrev pub VotesBelow : ℕ → List StateVote → Type 0
VotesBelow n = All (λ v. Below n v.option_indexes)

-- How often a number stands in a list.
abbrev pub occurrences : ℕ → List ℕ → ℕ
occurrences i [] = 0
occurrences i (j ∷ js) = (if i == j then 1 else 0) + occurrences i js

abbrev pub total : ℕ → List StateVote → ℕ
total i [] = 0
total i (v ∷ vs) = occurrences i v.option_indexes + total i vs

-- `t'` is `t` with `f i` added at every index `i`.
abbrev Adds : (ℕ → ℕ) → List ℕ → List ℕ → Type 0
Adds f [] [] = Unit {0}
Adds f [] (y ∷ ys) = ⊥
Adds f (x ∷ xs) [] = ⊥
Adds f (x ∷ xs) (y ∷ ys) = (y ≡ x + f 0) × Adds (λ i. f (suc i)) xs ys

Adds-zero : (xs : List ℕ) → Adds (λ _. 0) xs xs
Adds-zero [] = tt
Adds-zero (x ∷ xs) = (omega arith, Adds-zero xs)

Adds-trans :
    (f g h : ℕ → ℕ) (xs ys zs : List ℕ)
    → ((i : ℕ) → h i ≡ f i + g i)
    → Adds f xs ys
    → Adds g ys zs
    → Adds h xs zs
Adds-trans f g h [] [] [] e a b = tt
Adds-trans f g h [] [] (z ∷ zs) e a b = b
Adds-trans f g h [] (y ∷ ys) zs e a b = absurd a
Adds-trans f g h (x ∷ xs) [] zs e a b = absurd a
Adds-trans f g h (x ∷ xs) (y ∷ ys) [] e a b = absurd b
Adds-trans f g h (x ∷ xs) (y ∷ ys) (z ∷ zs) e a b = (
  omega (arith, e 0, a.0, b.0),
  Adds-trans (λ i. f (suc i)) (λ i. g (suc i)) (λ i. h (suc i)) xs ys zs (λ i. e (suc i)) a.1 b.1,
)

length-Adds : (f : ℕ → ℕ) (xs ys : List ℕ) → Adds f xs ys → length ys ≡ length xs
length-Adds f [] [] a = refl
length-Adds f [] (y ∷ ys) a = absurd a
length-Adds f (x ∷ xs) [] a = absurd a
length-Adds f (x ∷ xs) (y ∷ ys) a = omega (arith, length-Adds (λ i. f (suc i)) xs ys a.1)

get_elem?-Adds :
    (f : ℕ → ℕ) (n i : ℕ) (ys : List ℕ)
    → Adds f (replicate n 0) ys
    → i < n
    → get_elem? ys i ≡ some (f i)
get_elem?-Adds f zero i ys a h = absurd (omega arith)
get_elem?-Adds f (suc n) i [] a h = absurd a
get_elem?-Adds f (suc n) zero (y ∷ ys) a h = ground arith
get_elem?-Adds f (suc n) (suc i) (y ∷ ys) a h =
    get_elem?-Adds (λ i. f (suc i)) n i ys a.1 (omega arith)

-- One more at the index `i`.
abbrev one_at : ℕ → ℕ → ℕ
one_at zero zero = 1
one_at zero (suc j) = 0
one_at (suc i) zero = 0
one_at (suc i) (suc j) = one_at i j

one_at-eq : (i j : ℕ) → one_at i j ≡ (if j == i then 1 else 0)
one_at-eq zero zero = refl
one_at-eq zero (suc j) = ground arith
one_at-eq (suc i) zero = ground arith
one_at-eq (suc i) (suc j) = one_at-eq i j ∙ ground arith

bump-Adds :
    (t : List ℕ) (i : ℕ)
    → i < length t
    → (t' : List ℕ) × (bump t i ≡ some t') × Adds (one_at i) t t'
unfolding bump
bump-Adds [] i h = absurd (omega arith)
bump-Adds (n ∷ ns) zero h = ((n + 1) ∷ ns, refl, (refl, Adds-zero ns))
bump-Adds (n ∷ ns) (suc i) h =
    let (ms, e, a) = bump-Adds ns i (omega arith) in (n ∷ ms, rw e, (omega arith, a))

bump_all-Adds :
    (is t : List ℕ)
    → Below (length t) is
    → (t' : List ℕ) × (bump_all t is ≡ some t') × Adds (λ j. occurrences j is) t t'
unfolding bump_all
bump_all-Adds [] t h = (t, refl, Adds-zero t)
bump_all-Adds (i ∷ is) t h =
    let (t', e, a) = bump-Adds t i h.0 in
    let len : length t' ≡ length t = length-Adds _ t t' a in
    let (t'', e', a') = bump_all-Adds is t' (rw len h.1) in
    (t'', rw (e, bump_all) e', Adds-trans _ _ _ t t' t'' (λ j. omega (arith, one_at-eq i j)) a a')

-- The loop over the votes raises each entry by the number of its choices.
tally_votes-Adds :
    (vs : List StateVote) (t : List ℕ)
    → VotesBelow (length t) vs
    → (t' : List ℕ) × (tally_votes t vs ≡ some t') × Adds (λ j. total j vs) t t'
unfolding tally_votes
tally_votes-Adds [] t h = (t, refl, Adds-zero t)
tally_votes-Adds (v ∷ vs) t h =
    let (t', e, a) = bump_all-Adds v.option_indexes t h.0 in
    let len : length t' ≡ length t = length-Adds _ t t' a in
    let (t'', e', a') = tally_votes-Adds vs t' (rw len h.1) in
    (t'', rw (e, tally_votes) e', Adds-trans _ _ _ t t' t'' (λ j. omega arith) a a')

-- From zeros: the tally exists, has an entry for each option, and the entry counts the choices.
pub tally_votes-total :
    (vs : List StateVote) (n : ℕ)
    → VotesBelow n vs
    → (t : List ℕ) × (tally_votes (replicate n 0) vs ≡ some t)
      × (length t ≡ n)
      × ((i : ℕ) → i < n → get_elem? t i ≡ some (total i vs))
tally_votes-total vs n h =
    let len : length (replicate n 0) ≡ n = length-replicate n 0 in
    let (t, e, a) = tally_votes-Adds vs (replicate n 0) (rw len h) in
    (t, e, length-Adds _ _ t a ∙ len, λ i lt. get_elem?-Adds _ n i t a lt)

-- Sorting the votes changes neither the bounds of the indexes nor the counts.
VotesBelow-insert_vote :
    (n : ℕ) (v : StateVote) (vs : List StateVote)
    → Below n v.option_indexes
    → VotesBelow n vs
    → VotesBelow n (insert_vote v vs)
unfolding insert_vote
VotesBelow-insert_vote n v [] h hs = (h, tt)
VotesBelow-insert_vote n v (w ∷ ws) h hs = ground (arith, VotesBelow-insert_vote n v ws h hs.1)

pub VotesBelow-sort_votes :
    (n : ℕ) (vs : List StateVote) → VotesBelow n vs → VotesBelow n (sort_votes vs)
unfolding sort_votes
VotesBelow-sort_votes n [] h = tt
VotesBelow-sort_votes n (v ∷ vs) h =
    VotesBelow-insert_vote n v (sort_votes vs) h.0 (VotesBelow-sort_votes n vs h.1)
