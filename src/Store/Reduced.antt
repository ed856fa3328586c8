-- ===== src/Store/Reduced.antt =====
-- internal/store/poll_projections.go: the stored state of a poll is what its evidence reduces to.
use go_signal.Base.{
  ℕ, zero, suc, Bool, true, false, Option, none, some, List, [], ◌∷◌, length, any, if◌then◌else◌,
  ◌≡◌, ◌∙◌, refl,
}
use go_signal.Inbox.Table.{Row, Table, records}
use go_signal.Inbox.Pages.{last_id}
use go_signal.Store.Projections.{
  PollKey, same_poll, Observation, Projection, PollTables, SeedReply, Gathered, add_rows,
  seed_polls, seed_from, and_again, last_or, batch_filter, on_batch, events_of, reduce_changed,
  stored, added, committed, project_polls, poll_projection_record,
}
use go_signal.Store.Writing.{
  no_tables, has_evidence, state_in, Reduces, Written, reduce_changed-Written,
}
use go_signal.Store.Gathering.{Gathers, add_evidence-Gathers, MaybeGathers, add_rows-Gathers}

module _ {V S : Type 0} (reduce : PollKey → List V → Option S) where
  added-Gathers :
      (before : List (Observation V)) (next : Option (Observation V)) (g : Gathered V)
      → Gathers before g
      → Gathers before (added reduce next g)
  added-Gathers before none g h = h
  added-Gathers before (some o) g h = add_evidence-Gathers before g o h

  gathered-Reduces :
      (es : List (Observation V)) (ps after : List (Projection S)) (g : Gathered V)
      → (Reduces reduce) es ps
      → Gathers es g
      → (Written reduce) g.evidence g.changed ps after
      → (Reduces reduce) g.evidence after
  unfolding Written
  gathered-Reduces es ps after g r h w k = w k ∙ by_test (any (same_poll k) g.changed) refl
    where
      by_test :
          (b : Bool)
          → any (same_poll k) g.changed ≡ b
          → (if b then reduce k (events_of k g.evidence) else (state_in reduce) k ps)
            ≡ (if has_evidence k g.evidence then reduce k (events_of k g.evidence) else none)
      by_test true e = rw ((h k).0 e) refl
      by_test false e = let (events, has) = (h k).1 e in r k ∙ rw (events, has) refl

  -- The view holds of the tables.
  abbrev IsReduced : PollTables V S → Type 0
  IsReduced t = (Reduces reduce) t.evidence t.projections

  start-Gathers : (es : List (Observation V)) → Gathers es (record { evidence = es; changed = [] })
  start-Gathers es k = (λ c. absurd (no_key c), λ c. (refl, refl))
    where
      no_key : false ≡ true → ⊥
      no_key q = cc

  stored-IsReduced :
      (t : PollTables V S) (g : Gathered V) (o : Option (List (Projection S)))
      → reduce_changed reduce g.evidence t.projections g.changed ≡ o
      → IsReduced t
      → Gathers t.evidence g
      → IsReduced (stored reduce t g.evidence o).0
  unfolding stored
  stored-IsReduced t g none e r h = r
  stored-IsReduced t g (some ps) e r h =
      gathered-Reduces t.evidence t.projections ps g r h
        ((reduce_changed-Written reduce) g.evidence g.changed t.projections ps e)

  committed-IsReduced :
      (t : PollTables V S) (next : Option (Observation V)) (o : Option (Gathered V))
      → IsReduced t
      → MaybeGathers t.evidence o
      → IsReduced (committed reduce t next o).0
  unfolding committed
  committed-IsReduced t next none r h = r
  committed-IsReduced t next (some g) r h =
      stored-IsReduced t (added reduce next g) _ refl r (added-Gathers t.evidence next g h)

  module _ {E : Type 0} (seed : Row E → SeedReply V) where
    on_batch-Gathers :
        (before : List (Observation V)) (again : ℕ → Gathered V → Option (Gathered V)) (after : ℕ)
        (g : Gathered V) (rs : List (Row E))
        → ((n : ℕ) (x : Gathered V) → Gathers before x → MaybeGathers before (again n x))
        → Gathers before g
        → MaybeGathers before (on_batch seed again after g rs)
    unfolding on_batch
    on_batch-Gathers before again after g [] next h = h
    on_batch-Gathers before again after g (r ∷ rs) next h =
        by_rows (add_rows seed g (r ∷ rs)) (add_rows-Gathers seed before g (r ∷ rs) h)
      where
        by_rows :
            (o : Option (Gathered V))
            → MaybeGathers before o
            → MaybeGathers before (and_again (again (last_or after (last_id (r ∷ rs)))) o)
        by_rows none k = tt
        by_rows (some x) k = next (last_or after (last_id (r ∷ rs))) x k

    seed_from-Gathers :
        (inbox : Table E) (before : List (Observation V)) (fuel after : ℕ) (g : Gathered V)
        → Gathers before g
        → MaybeGathers before (seed_from seed inbox fuel after g)
    unfolding seed_from
    seed_from-Gathers inbox before zero after g h = tt
    seed_from-Gathers inbox before (suc fuel) after g h =
        on_batch-Gathers before (λ a x. seed_from seed inbox fuel a x) after g
          (records inbox (batch_filter after)) (λ n x k. seed_from-Gathers inbox before fuel n x k)
          h

    project_polls-IsReduced :
        (inbox : Table E) (t : PollTables V S) (next : Option (Observation V))
        → IsReduced t
        → IsReduced (project_polls reduce seed inbox t next).0
    unfolding project_polls seed_polls
    project_polls-IsReduced inbox t next r = by_test t.seeded
      where
        by_test :
            (b : Bool)
            → IsReduced
                (committed reduce t next (
                  if b
                  then some (record { evidence = t.evidence; changed = [] })
                  else seed_from seed inbox
                      (suc (length inbox.rows))
                      0
                      (record { evidence = t.evidence; changed = [] }))).0
        by_test true =
            committed-IsReduced t next (some (record { evidence = t.evidence; changed = [] })) r
              (start-Gathers t.evidence)
        by_test false =
            committed-IsReduced t next
              (seed_from seed inbox (suc (length inbox.rows)) 0
                (record { evidence = t.evidence; changed = [] }))
              r
              (seed_from-Gathers inbox t.evidence (suc (length inbox.rows)) 0
                (record { evidence = t.evidence; changed = [] }) (start-Gathers t.evidence))

    -- The tables after calls of ProjectPolls, each with the inbox of its time and the evidence that
    -- it adds.
    abbrev pub project_all :
        PollTables V S → List (Table E × Option (Observation V)) → PollTables V S
    project_all t [] = t
    project_all t ((inbox, next) ∷ calls) =
        project_all (project_polls reduce seed inbox t next).0 calls

    all-IsReduced :
        (t : PollTables V S) (calls : List (Table E × Option (Observation V)))
        → IsReduced t
        → IsReduced (project_all t calls)
    all-IsReduced t [] r = r
    all-IsReduced t ((inbox, next) ∷ calls) r =
        all-IsReduced (project_polls reduce seed inbox t next).0 calls
          (project_polls-IsReduced inbox t next r)

    -- Whatever calls of ProjectPolls have been made on an account, failed ones among them, the
    -- record of a poll is exactly what the function of the reduction makes of all evidence of that
    -- poll in the table, in the order of its arrival, and there is no record of a poll without
    -- evidence.
    pub poll_projection_record-reduce :
        (calls : List (Table E × Option (Observation V))) (k : PollKey)
        → poll_projection_record (project_all no_tables calls) k ≡ (
            if has_evidence k (project_all no_tables calls).evidence
            then reduce k (events_of k (project_all no_tables calls).evidence)
            else none)
    unfolding poll_projection_record
    poll_projection_record-reduce calls k = all-IsReduced no_tables calls (λ j. refl) k
