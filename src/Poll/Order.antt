-- ===== src/Poll/Order.antt =====
-- The votes of a reduced poll are sorted, whatever the order in which Go walks its map.
use mathlib.Core.Logic.{∥∥₁_elim}
use mathlib.Core.List.{Perm, Permᴰ}
use go_signal.Base.{
  true, false, ◌≡◌, ◌∙◌, subst, inl, inr, Option, List, [], ◌∷◌, All, arith, Bool-cases, refl,
  Bytes, str_eq, str_lt, str_eq_sym, str_eq_refl, str_lt_trans, str_lt_total, str_lt_asym,
}
use go_signal.Types.{Poll}
use go_signal.Poll.State.{StateVote}
use go_signal.Poll.Observe.{Votes}
use go_signal.Poll.Reduce.{insert_vote, sort_votes, values}
use go_signal.Poll.Retained.{Fresh, DistinctKeys, EntriesFit, Retained}

-- Strictly ascending by the voters' ACIs, so with one vote for each voter.
abbrev pub Ascending : List StateVote → Type 0
Ascending [] = Unit {0}
Ascending (v ∷ vs) = All (λ w. str_lt v.voter.aci w.voter.aci ≡ true) vs × Ascending vs

abbrev Absent : Bytes → List StateVote → Type 0
Absent k = All (λ w. str_eq w.voter.aci k ≡ false)

abbrev pub DistinctVoters : List StateVote → Type 0
DistinctVoters [] = Unit {0}
DistinctVoters (v ∷ vs) = Absent v.voter.aci vs × DistinctVoters vs

-- Of two strings that differ, one is below the other.
str_lt-of_ne : (s t : Bytes) → str_eq s t ≡ false → str_lt s t ≡ false → str_lt t s ≡ true
str_lt-of_ne s t h k = ground (arith, str_lt_total s t, str_eq_refl s)

-- Insertion places two votes of different voters in either order.
insert_vote-insert_vote :
    (a b : StateVote) (l : List StateVote)
    → str_eq a.voter.aci b.voter.aci ≡ false
    → insert_vote a (insert_vote b l) ≡ insert_vote b (insert_vote a l)
unfolding insert_vote
insert_vote-insert_vote a b [] h =
    ground (arith, str_lt-of_ne a.voter.aci b.voter.aci h, str_lt_asym a.voter.aci b.voter.aci)
insert_vote-insert_vote a b (w ∷ ws) h = ground (
  arith,
  insert_vote-insert_vote a b ws h,
  str_lt-of_ne a.voter.aci b.voter.aci h,
  str_lt_asym a.voter.aci b.voter.aci,
  str_lt_trans w.voter.aci a.voter.aci b.voter.aci,
  str_lt_trans w.voter.aci b.voter.aci a.voter.aci,
)

Absent-perm : (k : Bytes) {vs ws : List StateVote} → Permᴰ vs ws → Absent k vs → Absent k ws
Absent-perm k Permᴰ.nil h = tt
Absent-perm k (Permᴰ.cons p q) h = (rw (← p) h.0, Absent-perm k q h.1)
Absent-perm k (Permᴰ.swap p q) h = (rw (← q) h.1.0, (rw (← p) h.0, h.1.1))
Absent-perm k (Permᴰ.trans p q) h = Absent-perm k q (Absent-perm k p h)

DistinctVoters-perm : {vs ws : List StateVote} → Permᴰ vs ws → DistinctVoters vs → DistinctVoters ws
DistinctVoters-perm Permᴰ.nil h = tt
DistinctVoters-perm (Permᴰ.cons p q) h = (rw (← p) (Absent-perm _ q h.0), DistinctVoters-perm q h.1)
DistinctVoters-perm (Permᴰ.swap {a} {b} {l = l} p q) h = (
  (rw (← p, ← q) (str_eq_sym a.voter.aci b.voter.aci ∙ h.0.0), moved q h.1.0),
  (moved p h.0.1, h.1.1),
)
  where
    moved : {x y : StateVote} → x ≡ y → Absent x.voter.aci l → Absent y.voter.aci l
    moved e f = subst (λ (x : StateVote). Absent x.voter.aci l) e f
DistinctVoters-perm (Permᴰ.trans p q) h = DistinctVoters-perm q (DistinctVoters-perm p h)

sort_votes-permᴰ :
    {vs ws : List StateVote} → Permᴰ vs ws → DistinctVoters vs → sort_votes vs ≡ sort_votes ws
unfolding sort_votes
sort_votes-permᴰ Permᴰ.nil h = refl
sort_votes-permᴰ (Permᴰ.cons p q) h = rw (p, sort_votes-permᴰ q h.1)
sort_votes-permᴰ (Permᴰ.swap {a} {b} {l = l} p q) h =
    rw (← p, ← q)
      (insert_vote-insert_vote a b (sort_votes l) (str_eq_sym a.voter.aci b.voter.aci ∙ h.0.0))
sort_votes-permᴰ (Permᴰ.trans p q) h =
    sort_votes-permᴰ p h ∙ sort_votes-permᴰ q (DistinctVoters-perm p h)

votes_set : IsSet (List StateVote)
votes_set = hlevel

pub sort_votes-perm :
    (vs ws : List StateVote) → Perm vs ws → DistinctVoters vs → sort_votes vs ≡ sort_votes ws
sort_votes-perm vs ws p h = ∥∥₁_elim p (votes_set _ _) (λ d. sort_votes-permᴰ d h)

-- Sorting votes of distinct voters puts them in strictly ascending order.
Above-insert_vote :
    (k : Bytes) (v : StateVote) (vs : List StateVote)
    → str_lt k v.voter.aci ≡ true
    → All (λ w. str_lt k w.voter.aci ≡ true) vs
    → All (λ w. str_lt k w.voter.aci ≡ true) (insert_vote v vs)
unfolding insert_vote
Above-insert_vote k v [] h a = (h, tt)
Above-insert_vote k v (w ∷ ws) h a = ground (arith, Above-insert_vote k v ws h a.1)

Above-trans :
    (j k : Bytes) (vs : List StateVote)
    → str_lt j k ≡ true
    → All (λ w. str_lt k w.voter.aci ≡ true) vs
    → All (λ w. str_lt j w.voter.aci ≡ true) vs
Above-trans j k [] h a = tt
Above-trans j k (w ∷ ws) h a = (str_lt_trans j k w.voter.aci h a.0, Above-trans j k ws h a.1)

Ascending-insert_vote :
    (v : StateVote) (vs : List StateVote)
    → Absent v.voter.aci vs
    → Ascending vs
    → Ascending (insert_vote v vs)
unfolding insert_vote
Ascending-insert_vote v [] f a = (tt, tt)
Ascending-insert_vote v (w ∷ ws) f a = elim (Bool-cases (str_lt w.voter.aci v.voter.aci)) [
  | inl e ↦
      rw (e, insert_vote)
        (Above-insert_vote w.voter.aci v ws e a.0, Ascending-insert_vote v ws f.1 a.1)
  | inr e ↦
      let below = str_lt-of_ne w.voter.aci v.voter.aci f.0 e in
      rw (e, insert_vote) ((below, Above-trans v.voter.aci w.voter.aci ws below a.0), a)
]

Absent-insert_vote :
    (k : Bytes) (v : StateVote) (vs : List StateVote)
    → str_eq v.voter.aci k ≡ false
    → Absent k vs
    → Absent k (insert_vote v vs)
unfolding insert_vote
Absent-insert_vote k v [] h a = (h, tt)
Absent-insert_vote k v (w ∷ ws) h a = ground (arith, Absent-insert_vote k v ws h a.1)

Absent-sort_votes : (k : Bytes) (vs : List StateVote) → Absent k vs → Absent k (sort_votes vs)
unfolding sort_votes
Absent-sort_votes k [] h = tt
Absent-sort_votes k (v ∷ vs) h =
    Absent-insert_vote k v (sort_votes vs) h.0 (Absent-sort_votes k vs h.1)

pub Ascending-sort_votes : (vs : List StateVote) → DistinctVoters vs → Ascending (sort_votes vs)
unfolding sort_votes
Ascending-sort_votes [] h = tt
Ascending-sort_votes (v ∷ vs) h =
    Ascending-insert_vote v (sort_votes vs) (Absent-sort_votes v.voter.aci vs h.0)
      (Ascending-sort_votes vs h.1)

-- The map of the reducer holds one vote for each voter.
Absent-values :
    (p : Option Poll) (k : Bytes) (m : Votes) → Fresh k m → EntriesFit p m → Absent k (values m)
unfolding values
Absent-values p k [] f h = tt
Absent-values p k ((j, v) ∷ m) f h = (rw (h.0.0) f.0, Absent-values p k m f.1 h.1)

values-DistinctVoters :
    (p : Option Poll) (m : Votes) → DistinctKeys m → EntriesFit p m → DistinctVoters (values m)
unfolding values
values-DistinctVoters p [] d h = tt
values-DistinctVoters p ((k, v) ∷ m) d h =
    (rw (h.0.0) (Absent-values p k m d.0 h.1), values-DistinctVoters p m d.1 h.1)

pub Retained-DistinctVoters :
    (p : Option Poll) (m : Votes) → Retained p m → DistinctVoters (values m)
Retained-DistinctVoters p m r = values-DistinctVoters p m r.distinct r.fit
