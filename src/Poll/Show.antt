-- ===== src/Poll/Show.antt =====
-- internal/app/poll_show.go: the state of a poll from the end of its chat's history in the inbox.
-- The reads of the client are parameters; the context is not cancelled.
use go_signal.Base.{
  ℕ, ◌+◌, ◌-◌, Bool, true, false, Option, none, some, List, [], ◌∷◌, codes, map, is_empty, length,
  drop, ltb, leb, ◌==◌, if◌then◌else◌,
}
use go_signal.Uuid.{UuidLib}
use go_signal.Types.{Chat, no_recipient, of_aci, chat_key}
use go_signal.Events.{Event}
use go_signal.Inbox.Table.{Row, InboxFilter}
use go_signal.Inbox.Pages.{last_id}
use go_signal.Policy.Targets.{Target}
use go_signal.Policy.Arguments.{parse_message_ref}
use go_signal.Poll.State.{PollReference, PollState}
use go_signal.Poll.Reduce.{reduce}
use go_signal.Send.PollChecks.{PollShowRequest, check_show_args}

-- DefaultPollScanLimit
abbrev pub default_poll_scan_limit : ℕ
default_poll_scan_limit = 1000

abbrev Entry : Type 0
Entry = Row Event

unfoldable pub insert_entry : Row Event → List (Row Event) → List (Row Event)
insert_entry r [] = r ∷ []
insert_entry r (q ∷ rs) =
    let rest = insert_entry r rs in if leb q.id r.id then q ∷ rest else r ∷ q ∷ rs

-- slices.SortFunc by the IDs, which differ.
unfoldable pub sort_entries : List (Row Event) → List (Row Event)
unfolding insert_entry
sort_entries [] = []
sort_entries (r ∷ rs) = insert_entry r (sort_entries rs)

-- The bounds of a snapshot that PollState has, and its entries.
pub record Snapshot : Type 0 where
  pub entries : List (Row Event)
  pub truncated : Bool
  pub scanned : ℕ
  pub first_entry_id : ℕ
  pub last_entry_id : ℕ

abbrev first_id : List (Row Event) → ℕ
first_id [] = 0
first_id (r ∷ rs) = r.id

abbrev id_or_zero : Option ℕ → ℕ
id_or_zero none = 0
id_or_zero (some id) = id

-- boundPollSnapshot
unfoldable pub bound_poll_snapshot : List (Row Event) → ℕ → Snapshot
unfolding sort_entries last_id
bound_poll_snapshot entries limit =
    let sorted = sort_entries entries in
    let kept = if ltb limit (length sorted) then drop (length sorted - limit) sorted else sorted in
    record {
      entries = kept;
      truncated = ltb limit (length sorted);
      scanned = length kept;
      first_entry_id = first_id kept;
      last_entry_id = id_or_zero (last_id kept);
    }

-- The client's InboxList and PollProjection; `none` is an error.
pub record PollClient : Type 0 where
  pub inbox_list : InboxFilter → Option (List (Row Event))
  pub poll_projection : PollReference → Option PollState

abbrev pub scan_limit : PollShowRequest → ℕ
scan_limit req = if req.scan_limit == 0 then default_poll_scan_limit else req.scan_limit

abbrev pub show_chat : PollShowRequest → Chat
show_chat req =
    if is_empty req.recipient
    then record { group_id = req.group_id; recipient = no_recipient }
    else record { group_id = codes ""; recipient = of_aci req.recipient }

unfoldable pub show_filter : PollReference → ℕ → InboxFilter
show_filter ref limit = record {
  after = 0;
  until = 0;
  chat = chat_key ref.chat;
  since = 0;
  unread = false;
  limit = limit + 1;
  newest = true;
}

module _ ⦃u : UuidLib⦄ (client : PollClient) where
  abbrev with_bounds : Snapshot → Option PollState → Option PollState
  with_bounds snap none = none
  with_bounds snap (some s) = some (record s {
    scanned = snap.scanned;
    first_entry_id = snap.first_entry_id;
    last_entry_id = snap.last_entry_id;
    truncated = snap.truncated;
  })

  unfoldable pub show_entries : PollReference → ℕ → Option (List (Row Event)) → Option PollState
  unfolding bound_poll_snapshot
  show_entries ref limit none = none
  show_entries ref limit (some entries) =
      let snap = bound_poll_snapshot entries limit in
      with_bounds snap (reduce ref (map (λ r. r.event) snap.entries))

  unfoldable pub show_target : PollShowRequest → Option (Target × ℕ) → Option PollState
  unfolding show_entries show_filter
  show_target req none = none
  show_target req (some (author, timestamp)) =
      let ref : PollReference = record {
        chat = show_chat req;
        author = author.recipient;
        timestamp = timestamp;
      } in
      if req.durable
      then client.poll_projection ref
      else show_entries ref (scan_limit req) (client.inbox_list (show_filter ref (scan_limit req)))

  -- App.PollShow; `none` is an error.
  unfoldable pub poll_show : PollShowRequest → Option PollState
  unfolding show_target
  poll_show req =
      if check_show_args req then show_target req (parse_message_ref req.target) else none
