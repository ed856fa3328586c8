-- ===== src/Pins/Listing.antt =====
-- internal/app/pin_list.go: PinList on the entries that the client returned, without the check of
-- the request.
use go_signal.Base.{
  ℕ, ◌-◌, Bool, ◌&&◌, ◌||◌, List, [], ◌∷◌, ◌==◌, ltb, str_eq, str_lt, length, drop, any,
  if◌then◌else◌,
}
use go_signal.Uuid.{UuidLib}
use go_signal.Types.{Chat}
use go_signal.Pins.Observation.{
  InboxEntry, PinObservation, PinState, PinReference, same_reference, PinReducer,
}
use go_signal.Pins.Reducer.{observe_all}

-- The order of the observations: by author, then by timestamp.
unfoldable pub before : PinObservation → PinObservation → Bool
before a b =
    str_lt a.target_author.aci b.target_author.aci
    || str_eq a.target_author.aci b.target_author.aci && ltb a.target_timestamp b.target_timestamp

unfoldable pub insert_observation : PinObservation → List PinObservation → List PinObservation
insert_observation o [] = o ∷ []
insert_observation o (p ∷ ps) =
    let rest = insert_observation o ps in if before p o then p ∷ rest else o ∷ p ∷ ps

unfoldable pub sort_observations : List PinObservation → List PinObservation
unfolding insert_observation
sort_observations [] = []
sort_observations (o ∷ os) = insert_observation o (sort_observations os)

unfoldable pub marked :
    List PinReference → List (PinReference × PinObservation) → List PinObservation
marked deleted [] = []
marked deleted ((k, o) ∷ m) =
    record o { target_deleted = any (λ d. same_reference d k) deleted } ∷ marked deleted m

-- pinReducer.finalize
unfoldable pub finalize : PinReducer → PinState
unfolding sort_observations marked
finalize r = record (r.state) { observations = sort_observations (marked r.deleted r.observations) }

first_id : List InboxEntry → ℕ
first_id [] = 0
first_id (e ∷ es) = e.id

last_id : List InboxEntry → ℕ
last_id [] = 0
last_id (e ∷ []) = e.id
last_id (e ∷ f ∷ es) = last_id (f ∷ es)

insert_entry : InboxEntry → List InboxEntry → List InboxEntry
insert_entry e [] = e ∷ []
insert_entry e (f ∷ es) =
    let rest = insert_entry e es in if ltb f.id e.id then f ∷ rest else e ∷ f ∷ es

sort_entries : List InboxEntry → List InboxEntry
unfolding insert_entry
sort_entries [] = []
sort_entries (e ∷ es) = insert_entry e (sort_entries es)

-- PinState.boundSnapshot: the state and the entries that are left.
unfoldable pub bound_snapshot : Chat → List InboxEntry → ℕ → PinState × List InboxEntry
unfolding first_id last_id sort_entries
bound_snapshot chat entries limit =
    let sorted = sort_entries entries in
    let kept = if ltb limit (length sorted) then drop (length sorted - limit) sorted else sorted in
    (
      record {
        chat = chat;
        observations = [];
        scanned = length kept;
        first_entry_id = first_id kept;
        last_entry_id = last_id kept;
        truncated = ltb limit (length sorted);
        ignored_invalid = 0;
        conflicts = 0;
      },
      kept,
    )

abbrev pub default_pin_scan_limit : ℕ
default_pin_scan_limit = 1000

-- The reducer that PinList makes.
abbrev pub new_reducer : PinState → ℕ → PinReducer
new_reducer state now = record {
  state = state;
  now = now;
  observations = [];
  identities = [];
  deleted = [];
}

abbrev pub scan_limit_of : ℕ → ℕ
scan_limit_of scan_limit = if scan_limit == 0 then default_pin_scan_limit else scan_limit

-- App.PinList, on the entries that the client returned.
unfoldable pub pin_list : ⦃u : UuidLib⦄ → Chat → ℕ → ℕ → List InboxEntry → PinState
unfolding bound_snapshot observe_all finalize
pin_list chat scan_limit now entries =
    let snapshot = bound_snapshot chat entries (scan_limit_of scan_limit) in
    finalize (observe_all (new_reducer snapshot.0 now) snapshot.1)
