-- ===== src/Store/Projections.antt =====
-- internal/store/poll_projections.go: the evidence of polls, and the state that is reduced from it.
-- The encodings of events and of states, the decoding of an inbox row and the reduction are the
-- functions that the store is given. A timestamp is in the tables as its decimal text.
use go_signal.Base.{
  ℕ, zero, suc, Bool, true, false, ◌&&◌, Option, none, some, List, [], ◌∷◌, ◌++◌, Bytes, codes, map,
  length, select, any, str_eq, ◌==◌, if◌then◌else◌,
}
use go_signal.Inbox.Table.{Row, Table, InboxFilter, records}
use go_signal.Inbox.Pages.{last_id}
use go_signal.Store.Rows.{row_of, upsert}
use go_signal.Store.Timers.{excluded}

-- PollKey
pub record PollKey : Type 0 where
  pub chat : Bytes
  pub author : Bytes
  pub timestamp : ℕ

unfoldable pub same_poll : PollKey → PollKey → Bool
same_poll a b = str_eq a.chat b.chat && str_eq a.author b.author && a.timestamp == b.timestamp

-- PollObservation, and a row of gosignal_poll_evidence
pub record Observation (V : Type 0) : Type 0 where
  pub key : PollKey
  pub hash : Bytes
  pub event : V

-- A row of gosignal_poll_projections
pub record Projection (S : Type 0) : Type 0 where
  pub key : PollKey
  pub state : S

abbrev pub projection_key : {S : Type 0} → Projection S → PollKey
projection_key p = p.key

-- The tables, and whether the meta key poll-projections-seeded is set.
pub record PollTables (V S : Type 0) : Type 0 where
  pub evidence : List (Observation V)
  pub projections : List (Projection S)
  pub seeded : Bool

-- What a PollSeed returns: an error, nil, or an observation.
pub data SeedReply (V : Type 0) : Type 0 where
  unreadable unrelated : SeedReply V
  observed : Observation V → SeedReply V

-- The evidence and the keys of the map `changed`.
pub record Gathered (V : Type 0) : Type 0 where
  pub evidence : List (Observation V)
  pub changed : List PollKey

abbrev pub with_key : PollKey → List PollKey → List PollKey
with_key k ks = if any (same_poll k) ks then ks else k ∷ ks

-- pollSeedBatchSize
abbrev pub poll_seed_batch_size : ℕ
poll_seed_batch_size = 1000

abbrev pub batch_filter : ℕ → InboxFilter
batch_filter after = record {
  after = after;
  until = 0;
  chat = codes "";
  since = 0;
  unread = false;
  limit = poll_seed_batch_size;
  newest = false;
}

-- The ID of the last record of a batch.
abbrev pub last_or : ℕ → Option ℕ → ℕ
last_or after none = after
last_or after (some id) = id

abbrev pub and_rest :
    {S : Type 0}
    → (List (Projection S) → Option (List (Projection S)))
    → Option (List (Projection S))
    → Option (List (Projection S))
and_rest next none = none
and_rest next (some ps) = next ps

module _ {V : Type 0} where
  abbrev pub same_evidence : Observation V → Observation V → Bool
  same_evidence a b = same_poll a.key b.key && str_eq a.hash b.hash

  -- Store.addPollEvidence: ON CONFLICT DO NOTHING.
  unfoldable pub add_evidence : Gathered V → Observation V → Gathered V
  add_evidence g o =
      if any (λ e. same_evidence e o) g.evidence
      then g
      else record { evidence = g.evidence ++ o ∷ []; changed = with_key o.key g.changed }

  -- What a seed's reply for a row goes on with.
  abbrev pub on_reply :
      SeedReply V
      → Option (Gathered V)
      → (Observation V → Option (Gathered V))
      → Option (Gathered V)
  on_reply unreadable same more = none
  on_reply unrelated same more = same
  on_reply (observed o) same more = more o

  abbrev pub and_again :
      (Gathered V → Option (Gathered V)) → Option (Gathered V) → Option (Gathered V)
  and_again next none = none
  and_again next (some g) = next g

  module _ {E : Type 0} (seed : Row E → SeedReply V) where
    -- The loop over the records of a batch; `none` is the error of a seed.
    unfoldable pub add_rows : Gathered V → List (Row E) → Option (Gathered V)
    add_rows g [] = some g
    add_rows g (r ∷ rs) = on_reply (seed r) (add_rows g rs) (λ o. add_rows (add_evidence g o) rs)

    -- A turn of seedPolls' loop on the batch that it read; `again` is the next turn.
    unfoldable pub on_batch :
        (ℕ → Gathered V → Option (Gathered V)) → ℕ → Gathered V → List (Row E) → Option (Gathered V)
    unfolding add_rows
    on_batch again after g [] = some g
    on_batch again after g (r ∷ rs) =
        and_again (again (last_or after (last_id (r ∷ rs)))) (add_rows g (r ∷ rs))

    -- Store.seedPolls from a position; each turn reads a batch, and `fuel` bounds the turns.
    unfoldable pub seed_from : Table E → ℕ → ℕ → Gathered V → Option (Gathered V)
    unfolding on_batch
    seed_from t zero after g = none
    seed_from t (suc fuel) after g =
        on_batch (λ a h. seed_from t fuel a h) after g (records t (batch_filter after))

    -- Enough turns for the batches and the empty one.
    unfoldable pub seed_polls : Table E → Gathered V → Option (Gathered V)
    unfolding seed_from
    seed_polls t g = seed_from t (suc (length t.rows)) 0 g

  -- The events of a poll, ORDER BY id.
  unfoldable pub events_of : PollKey → List (Observation V) → List V
  events_of k es = map (λ e. e.event) (select (λ e. same_poll e.key k) es)

  module _ {S : Type 0} (reduce : PollKey → List V → Option S) where
    abbrev pub written : PollKey → List (Projection S) → Option S → Option (List (Projection S))
    written k ps none = none
    written k ps (some s) =
        some (upsert projection_key same_poll excluded (record { key = k; state = s }) ps)

    -- Store.reducePoll; `none` is the error of the reduction.
    unfoldable pub reduce_poll :
        List (Observation V) → List (Projection S) → PollKey → Option (List (Projection S))
    unfolding events_of
    reduce_poll es ps k = written k ps (reduce k (events_of k es))

    -- The loop over the changed keys.
    unfoldable pub reduce_changed :
        List (Observation V) → List (Projection S) → List PollKey → Option (List (Projection S))
    unfolding reduce_poll
    reduce_changed es ps [] = some ps
    reduce_changed es ps (k ∷ ks) = and_rest (λ ps'. reduce_changed es ps' ks) (reduce_poll es ps k)

    abbrev pub added : Option (Observation V) → Gathered V → Gathered V
    added none g = g
    added (some o) g = add_evidence g o

    unfoldable pub stored :
        PollTables V S → List (Observation V) → Option (List (Projection S)) → PollTables V S × Bool
    stored t es none = (t, false)
    stored t es (some ps) = (record { evidence = es; projections = ps; seeded = true }, true)

    -- The transaction after the seeds; a failure leaves the tables as they were.
    unfoldable pub committed :
        PollTables V S → Option (Observation V) → Option (Gathered V) → PollTables V S × Bool
    unfolding reduce_changed stored
    committed t next none = (t, false)
    committed t next (some g) =
        let all = added next g in
        stored t all.evidence (reduce_changed all.evidence t.projections all.changed)

    -- Store.ProjectPolls: the tables after it, and whether it succeeded.
    unfoldable pub project_polls :
        {E : Type 0}
        → (Row E → SeedReply V)
        → Table E
        → PollTables V S
        → Option (Observation V)
        → PollTables V S × Bool
    unfolding committed seed_polls
    project_polls seed inbox t next = committed t next (
        if t.seeded
        then some (record { evidence = t.evidence; changed = [] })
        else seed_polls seed inbox (record { evidence = t.evidence; changed = [] }))

-- Store.PollProjectionRecord
abbrev pub state_of : {S : Type 0} → Option (Projection S) → Option S
state_of none = none
state_of (some p) = some p.state

unfoldable pub poll_projection_record : {V S : Type 0} → PollTables V S → PollKey → Option S
poll_projection_record t k = state_of (row_of projection_key same_poll k t.projections)
