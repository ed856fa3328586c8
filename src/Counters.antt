-- ===== src/Counters.antt =====
-- internal/store/poll_counters.go: the vote counter of each poll, kept in the table
-- gosignal_poll_counters. A timestamp is in the table as its decimal text.
pub mod Reserved
pub mod Own
use go_signal.Base.{
  ℕ, ◌+◌, ◌-◌, ◌^◌, max, Bool, true, false, ◌&&◌, Option, none, some, List, [], ◌∷◌, Bytes, ◌==◌,
  ltb, str_eq, if◌then◌else◌,
}
use go_signal.Std.Decimal.{format}

-- The primary key.
pub record CounterKey : Type 0 where
  pub chat : Bytes
  pub author : Bytes
  pub timestamp : Bytes

pub record CounterRow : Type 0 where
  pub key : CounterKey
  pub counter : ℕ

abbrev pub max_counter : ℕ
max_counter = 2 ^ 32 - 1

abbrev pub same_key : CounterKey → CounterKey → Bool
same_key a b = str_eq a.chat b.chat && str_eq a.author b.author && str_eq a.timestamp b.timestamp

-- INSERT … ON CONFLICT … DO UPDATE SET counter=MAX(counter, excluded.counter)
unfoldable pub raise : List CounterRow → CounterKey → ℕ → List CounterRow
raise [] key n = record { key = key; counter = n } ∷ []
raise (row ∷ rows) key n =
    let rest = raise rows key n in
    if same_key row.key key then record row { counter = max row.counter n } ∷ rows else row ∷ rest

-- INSERT … ON CONFLICT … DO UPDATE SET counter=counter+1 WHERE counter < 4294967295, and the
-- counter it returns; `none` when it returns no row.
unfoldable pub advance : List CounterRow → CounterKey → List CounterRow × Option ℕ
advance [] key = (record { key = key; counter = 1 } ∷ [], some 1)
advance (row ∷ rows) key =
    let rest = advance rows key in
    if same_key row.key key
    then (if ltb row.counter max_counter
        then (record row { counter = row.counter + 1 } ∷ rows, some (row.counter + 1))
        else (row ∷ rows, none))
    else (row ∷ rest.0, rest.1)

-- A reservation: the arguments of ReservePollVote.
pub record Reservation : Type 0 where
  pub chat : Bytes
  pub author : Bytes
  pub timestamp : ℕ
  pub explicit : ℕ

unfoldable pub key_of : Reservation → CounterKey
key_of r = record { chat = r.chat; author = r.author; timestamp = format r.timestamp }

-- Store.ReservePollVote; `none` is ErrPollVoteExhausted.
unfoldable pub reserve : List CounterRow → Reservation → List CounterRow × Option ℕ
unfolding raise advance
reserve rows r =
    if r.explicit == 0
    then advance rows (key_of r)
    else (raise rows (key_of r) r.explicit, some r.explicit)

unfoldable pub reserve_all : List CounterRow → List Reservation → List CounterRow
reserve_all rows [] = rows
reserve_all rows (r ∷ rs) = reserve_all (reserve rows r).0 rs
