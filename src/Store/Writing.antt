-- ===== src/Store/Writing.antt =====
-- internal/store/poll_projections.go: what reducing the changed polls writes.
use go_signal.Base.{
  Bool, true, false, ◌||◌, Option, none, some, List, [], ◌∷◌, any, if◌then◌else◌, ◌≡◌, ◌∙◌, refl,
  sym, ap, Bool-cases, Option-cases, inl, inr,
}
use go_signal.Store.Rows.{row_of, upsert, merged, upsert_here, upsert_other}
use go_signal.Store.Timers.{excluded}
use go_signal.Store.Projections.{
  PollKey, same_poll, Observation, Projection, projection_key, PollTables, events_of, written,
  reduce_poll, reduce_changed, and_rest, state_of,
}
use go_signal.Store.PollKeys.{same_poll→eq, same_poll_sym}

-- The tables of a new account.
abbrev pub no_tables : {V S : Type 0} → PollTables V S
no_tables = record { evidence = []; projections = []; seeded = false }

abbrev pub has_evidence : {V : Type 0} → PollKey → List (Observation V) → Bool
has_evidence k es = any (λ e. same_poll e.key k) es

module _ {V S : Type 0} (reduce : PollKey → List V → Option S) where
  abbrev pub state_in : PollKey → List (Projection S) → Option S
  state_in k ps = state_of (row_of projection_key same_poll k ps)

  -- The abstract view of the tables: a poll that has evidence has the state that its evidence
  -- reduces to, and another poll has none.
  abbrev pub Reduces : List (Observation V) → List (Projection S) → Type 0
  Reduces es ps =
      (k : PollKey)
      → state_in k ps ≡ (if has_evidence k es then reduce k (events_of k es) else none)

  -- What reducing the changed polls does.
  unfoldable pub Written :
      List (Observation V) → List PollKey → List (Projection S) → List (Projection S) → Type 0
  Written es ks before after =
      (k : PollKey)
      → state_in k after
        ≡ (if any (same_poll k) ks then reduce k (events_of k es) else state_in k before)

  excluded_state :
      (new : Projection S) (o : Option (Projection S))
      → (merged projection_key same_poll excluded o new).state ≡ new.state
  excluded_state new none = refl
  excluded_state new (some old) = refl

  write_one :
      (es : List (Observation V)) (k₀ : PollKey) (s : S) (ps : List (Projection S)) (k : PollKey)
      → reduce k₀ (events_of k₀ es) ≡ some s
      → state_in k (upsert projection_key same_poll excluded (record { key = k₀; state = s }) ps)
        ≡ (if same_poll k k₀ then reduce k (events_of k es) else state_in k ps)
  write_one es k₀ s ps k h =
      let new : Projection S = record { key = k₀; state = s } in
      elim (Bool-cases (same_poll k k₀)) [
        | inl e ↦
            let e' : same_poll k₀ k ≡ true = same_poll_sym k₀ k ∙ e in
            let here =
              upsert_here projection_key same_poll excluded new k ps same_poll→eq e'
                (λ old q. refl) in
            let same = same_poll→eq k k₀ e in
            rw e (
              ap (state_of) here
              ∙ ap some (excluded_state new (row_of projection_key same_poll k ps))
              ∙ sym h
              ∙ ap (λ x. reduce x (events_of x es)) (sym same))
        | inr e ↦
            let e' : same_poll k₀ k ≡ false = same_poll_sym k₀ k ∙ e in
            let there =
              upsert_other projection_key same_poll excluded new k ps same_poll→eq e'
                (λ old q. refl) in
            rw e (ap (state_of) there)
      ]

  no_result : (after : List (Projection S)) → none ≡ some after → ⊥
  no_result after h = cc

  written-some :
      (k : PollKey) (es : List (Observation V)) (ps after : List (Projection S)) (o : Option S)
      → reduce k (events_of k es) ≡ o
      → written reduce k ps o ≡ some after
      → (s : S) × (reduce k (events_of k es) ≡ some s)
        × (upsert projection_key same_poll excluded (record { key = k; state = s }) ps ≡ after)
  written-some k es ps after none e h = cc
  written-some k es ps after (some s) e h = (s, e, cc)

  pub reduce_changed-Written :
      (es : List (Observation V)) (ks : List PollKey) (ps after : List (Projection S))
      → reduce_changed reduce es ps ks ≡ some after
      → Written es ks ps after
  unfolding reduce_changed reduce_poll Written
  reduce_changed-Written es [] ps after h k = ap (state_in k) (sym same)
    where
      same : ps ≡ after
      same = cc
  reduce_changed-Written es (k₀ ∷ ks) ps after h k =
      elim (Option-cases (written reduce k₀ ps (reduce k₀ (events_of k₀ es)))) [
        | inl e ↦ absurd (none_left e h)
        | inr (ps', e) ↦
            let (s, r, w) = written-some k₀ es ps ps' (reduce k₀ (events_of k₀ es)) refl e in
            let rest : reduce_changed reduce es ps' ks ≡ some after = some_left ps' e h in
            let one = ap (state_in k) (sym w) ∙ write_one es k₀ s ps k r in
            let later = reduce_changed-Written es ks ps' after rest k in
            later ∙ either (any (same_poll k) ks) (same_poll k k₀) (state_in k ps') one
      ]
    where
      none_left :
          written reduce k₀ ps (reduce k₀ (events_of k₀ es)) ≡ none
          → reduce_changed reduce es ps (k₀ ∷ ks) ≡ some after
          → ⊥
      none_left e q =
          no_result after (sym (ap (and_rest (λ ps'. reduce_changed reduce es ps' ks)) e) ∙ q)

      some_left :
          (ps' : List (Projection S))
          → written reduce k₀ ps (reduce k₀ (events_of k₀ es)) ≡ some ps'
          → reduce_changed reduce es ps (k₀ ∷ ks) ≡ some after
          → reduce_changed reduce es ps' ks ≡ some after
      some_left ps' e q = sym (ap (and_rest (λ ps'. reduce_changed reduce es ps' ks)) e) ∙ q

      either :
          (a b : Bool) (x : Option S)
          → x ≡ (if b then reduce k (events_of k es) else state_in k ps)
          → (if a then reduce k (events_of k es) else x)
            ≡ (if b || a then reduce k (events_of k es) else state_in k ps)
      either true true x q = refl
      either true false x q = refl
      either false true x q = q
      either false false x q = q
