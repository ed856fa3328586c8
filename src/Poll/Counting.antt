-- ===== src/Poll/Counting.antt =====
-- With distinct indexes, the choices of an option are the voters who chose it.
use go_signal.Base.{
  ℕ, Bool, true, false, ◌≡◌, List, [], ◌∷◌, any, ◌==◌, All, length, select, arith, refl,
  if◌then◌else◌,
}
use go_signal.Request.PollCheck.{indexes_refused}
use go_signal.Poll.State.{StateVote}
use go_signal.Poll.Reduce.{sort_votes, insert_vote}
use go_signal.Poll.Tally.{occurrences, total}

abbrev pub chose : ℕ → StateVote → Bool
chose i v = any (◌==◌ i) v.option_indexes

-- How many of the votes chose the option.
abbrev pub supporters : ℕ → List StateVote → ℕ
supporters i vs = length (select (chose i) vs)

abbrev pub DistinctIndexes : List StateVote → Type 0
DistinctIndexes = All (λ v. indexes_refused [] v.option_indexes ≡ false)

-- An index seen before does not come again.
not_again :
    (i : ℕ) (seen is : List ℕ)
    → indexes_refused seen is ≡ false
    → any (◌==◌ i) seen ≡ true
    → occurrences i is ≡ 0
unfolding indexes_refused
not_again i seen [] h s = refl
not_again i seen (j ∷ js) h s = ground (arith, not_again i (j ∷ seen) js)

occurrences-any :
    (i : ℕ) (seen is : List ℕ)
    → indexes_refused seen is ≡ false
    → occurrences i is ≡ (if any (◌==◌ i) is then 1 else 0)
unfolding indexes_refused
occurrences-any i seen [] h = refl
occurrences-any i seen (j ∷ js) h =
    ground (arith, occurrences-any i (j ∷ seen) js, not_again i (j ∷ seen) js)

pub total-eq-supporters :
    (i : ℕ) (vs : List StateVote) → DistinctIndexes vs → total i vs ≡ supporters i vs
total-eq-supporters i [] h = refl
total-eq-supporters i (v ∷ vs) h =
    ground (arith, occurrences-any i [] v.option_indexes h.0, total-eq-supporters i vs h.1)

DistinctIndexes-insert_vote :
    (v : StateVote) (vs : List StateVote)
    → indexes_refused [] v.option_indexes ≡ false
    → DistinctIndexes vs
    → DistinctIndexes (insert_vote v vs)
unfolding insert_vote
DistinctIndexes-insert_vote v [] h hs = (h, tt)
DistinctIndexes-insert_vote v (w ∷ ws) h hs =
    ground (arith, DistinctIndexes-insert_vote v ws h hs.1)

pub DistinctIndexes-sort_votes :
    (vs : List StateVote) → DistinctIndexes vs → DistinctIndexes (sort_votes vs)
unfolding sort_votes
DistinctIndexes-sort_votes [] h = tt
DistinctIndexes-sort_votes (v ∷ vs) h =
    DistinctIndexes-insert_vote v (sort_votes vs) h.0 (DistinctIndexes-sort_votes vs h.1)
