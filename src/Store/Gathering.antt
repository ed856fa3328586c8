-- ===== src/Store/Gathering.antt =====
-- internal/store/poll_projections.go: how the gathered evidence grows, and which polls it changes.
use go_signal.Base.{
  Bool, true, false, ◌||◌, Option, none, some, List, [], ◌∷◌, ◌++◌, any, ◌≡◌, ◌∙◌, refl, sym, ap,
  arith, Bool-cases, inl, inr,
}
use go_signal.Inbox.Table.{Row}
use go_signal.Store.Projections.{
  PollKey, same_poll, Observation, SeedReply, unreadable, unrelated, observed, Gathered,
  same_evidence, with_key, add_evidence, on_reply, add_rows, events_of,
}
use go_signal.Store.PollKeys.{same_poll→eq, same_poll_sym}
use go_signal.Store.Writing.{has_evidence}

any-with_key :
    (k new : PollKey) (ks : List PollKey)
    → any (same_poll k) (with_key new ks) ≡ (same_poll k new || any (same_poll k) ks)
any-with_key k new ks = elim (Bool-cases (any (same_poll new) ks)) [
  | inr h ↦ rw h refl
  | inl h ↦ rw h (by_test h (same_poll k new) refl)
]
  where
    unnamed : (b : Bool) → b ≡ true → b ≡ (true || b)
    unnamed b e = e

    by_test :
        any (same_poll new) ks ≡ true
        → (b : Bool) → same_poll k new ≡ b
        → any (same_poll k) ks ≡ (b || any (same_poll k) ks)
    by_test h false e = refl
    by_test h true e =
        unnamed (any (same_poll k) ks) (ap (λ x. any (same_poll x) ks) (same_poll→eq k new e) ∙ h)

or_true : (a b : Bool) → a ≡ true → (a || b) ≡ true
or_true a b h = ground (arith, h)

or_false : (a b : Bool) → (a || b) ≡ false → (a ≡ false) × (b ≡ false)
or_false false b h = (refl, h)
or_false true b h = cc

false≢true : false ≡ true → ⊥
false≢true q = cc

module _ {V : Type 0} where
  -- The evidence gathered besides `before`: a changed poll has evidence, and another has the same.
  abbrev pub Gathers : List (Observation V) → Gathered V → Type 0
  Gathers before g =
      (k : PollKey)
      → (any (same_poll k) g.changed ≡ true → has_evidence k g.evidence ≡ true)
        × (any (same_poll k) g.changed ≡ false
            → (events_of k g.evidence ≡ events_of k before)
              × (has_evidence k g.evidence ≡ has_evidence k before))

  has_evidence-append :
      (k : PollKey) (es : List (Observation V)) (o : Observation V)
      → has_evidence k (es ++ o ∷ []) ≡ (has_evidence k es || same_poll o.key k)
  has_evidence-append k [] o = ground arith
  has_evidence-append k (e ∷ es) o = ground (arith, has_evidence-append k es o)

  events_of-append :
      (k : PollKey) (es : List (Observation V)) (o : Observation V)
      → same_poll o.key k ≡ false
      → events_of k (es ++ o ∷ []) ≡ events_of k es
  unfolding events_of
  events_of-append k [] o h = rw h refl
  events_of-append k (e ∷ es) o h = elim (Bool-cases (same_poll e.key k)) [
    | inl c ↦ rw c (ap (◌∷◌ e.event) (events_of-append k es o h))
    | inr c ↦ rw c (events_of-append k es o h)
  ]

  new-Gathers :
      (before : List (Observation V)) (g : Gathered V) (o : Observation V)
      → Gathers before g
      → Gathers before
          (record { evidence = g.evidence ++ o ∷ []; changed = with_key o.key g.changed })
  new-Gathers before g o h k = (
    λ c.
        has_evidence-append k g.evidence o
        ∙ named (same_poll k o.key) (any (same_poll k) g.changed) (has_evidence k g.evidence)
            (same_poll o.key k) (same_poll_sym k o.key) (sym (any-with_key k o.key g.changed) ∙ c)
            (h k).0,
    λ c.
        let (other, kept) =
          or_false (same_poll k o.key) (any (same_poll k) g.changed)
            (sym (any-with_key k o.key g.changed) ∙ c) in
        let other' : same_poll o.key k ≡ false = same_poll_sym o.key k ∙ other in
        let (events, has) = (h k).1 kept in
        (
          events_of-append k g.evidence o other' ∙ events,
          has_evidence-append k g.evidence o ∙ ground (arith, has, other'),
        ),
  )
    where
      named : (a b c d : Bool) → a ≡ d → (a || b) ≡ true → (b ≡ true → c ≡ true) → (c || d) ≡ true
      named a b true d e p f = refl
      named true b false d e p f = sym e
      named false b false d e p f = absurd (false≢true (f p))

  pub add_evidence-Gathers :
      (before : List (Observation V)) (g : Gathered V) (o : Observation V)
      → Gathers before g
      → Gathers before (add_evidence g o)
  unfolding add_evidence
  add_evidence-Gathers before g o h = elim (Bool-cases (any (λ e. same_evidence e o) g.evidence)) [
    | inl e ↦ rw e h
    | inr e ↦ rw e (new-Gathers before g o h)
  ]

  abbrev pub MaybeGathers : List (Observation V) → Option (Gathered V) → Type 0
  MaybeGathers before none = Unit
  MaybeGathers before (some g) = Gathers before g

  module _ {E : Type 0} (seed : Row E → SeedReply V) where
    pub add_rows-Gathers :
        (before : List (Observation V)) (g : Gathered V) (rs : List (Row E))
        → Gathers before g
        → MaybeGathers before (add_rows seed g rs)
    unfolding add_rows
    add_rows-Gathers before g [] h = h
    add_rows-Gathers before g (r ∷ rs) h =
        by_reply (seed r) (add_rows-Gathers before g rs h)
          (λ o. add_rows-Gathers before (add_evidence g o) rs (add_evidence-Gathers before g o h))
      where
        by_reply :
            (s : SeedReply V)
            → MaybeGathers before (add_rows seed g rs)
            → ((o : Observation V) → MaybeGathers before (add_rows seed (add_evidence g o) rs))
            → MaybeGathers before
                (on_reply s (add_rows seed g rs) (λ o. add_rows seed (add_evidence g o) rs))
        by_reply unreadable same more = tt
        by_reply unrelated same more = same
        by_reply (observed o) same more = more o
