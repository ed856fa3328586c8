-- ===== src/Pins/Reducer.antt =====
-- internal/app/pin_list.go: the reducer of the entries of a chat's inbox.
use go_signal.Base.{
  ℕ, ◌+◌, Bool, false, not, ◌&&◌, ◌||◌, Option, none, some, is_some, List, [], ◌∷◌, codes, ◌==◌,
  str_eq, if◌then◌else◌,
}
use go_signal.Uuid.{UuidLib, is_aci}
use go_signal.Types.{chat_key}
use go_signal.Events.{Event, delete, unsupported, Envelope, Delete}
use go_signal.Request.PinCheck.{check_pin, check_unpin}
use go_signal.Inbox.Classify.{envelope_of}
use go_signal.Pins.Observation.{
  InboxEntry, is_pin, PinObservation, PinPayload, same_payload, PinReducer, lookup, insert,
  pin_observation, reference_of, identity_of, payload_of, expiring, ignore,
}

module _ ⦃u : UuidLib⦄ where
  check_operation : PinObservation → Bool
  check_operation o =
      if is_pin o.operation
      then not (
          is_some (
            check_pin (record {
              target_author = o.target_author;
              target_timestamp = o.target_timestamp;
              duration_seconds = o.duration_seconds;
              forever = o.forever;
            })))
      else not (
          is_some (
            check_unpin
              (record { target_author = o.target_author; target_timestamp = o.target_timestamp })))

  -- validPinObservation
  unfoldable pub valid_pin_observation : PinObservation → Bool
  unfolding check_operation
  valid_pin_observation o =
      if not (is_aci o.sender.aci)
        || not (is_aci o.target_author.aci)
        || o.timestamp == 0
        || o.received_at == 0
      then false
      else check_operation o

  unfoldable pub seen_before : PinReducer → PinPayload → PinPayload → PinReducer
  seen_before r first payload =
      if same_payload first payload
      then r
      else record r { state = record (r.state) { conflicts = r.state.conflicts + 1 } }

  -- The rest of observeValid, by the payload under the identity.
  unfoldable pub observe_new : PinReducer → PinObservation → Option PinPayload → PinReducer
  unfolding seen_before
  observe_new r o (some first) = seen_before r first (payload_of o)
  observe_new r o none = record r {
    identities = insert (identity_of o) (payload_of o) r.identities;
    observations = insert (reference_of o) (expiring r.now o) r.observations;
  }

  -- pinReducer.observeValid
  unfoldable pub observe_valid : PinReducer → PinObservation → PinReducer
  unfolding observe_new
  observe_valid r o =
      if not (valid_pin_observation o)
      then ignore r
      else observe_new r o (lookup (identity_of o) r.identities)

  -- pinReducer.observeDelete; `deleted` is a set.
  unfoldable pub observe_delete : PinReducer → Delete → ℕ → PinReducer
  observe_delete r e received =
      if not (is_aci e.envelope.sender.aci)
        || e.envelope.timestamp == 0
        || e.target_timestamp == 0
        || received == 0
      then ignore r
      else record r {
        deleted =
            record { author = e.envelope.sender.aci; timestamp = e.target_timestamp } ∷ r.deleted;
      }

  unfoldable pub recognized : PinReducer → Option PinObservation → PinReducer
  unfolding observe_valid
  recognized r none = r
  recognized r (some o) = observe_valid r o

  unfoldable pub dispatch : PinReducer → InboxEntry → Event → PinReducer
  unfolding observe_delete recognized pin_observation
  dispatch r entry (unsupported e) = if str_eq e.type (codes "invalidPin") then ignore r else r
  dispatch r entry (delete e) = observe_delete r e entry.received_at
  dispatch r entry evt = recognized r (pin_observation entry evt)

  unfoldable pub in_chat : PinReducer → InboxEntry → Option Envelope → Bool
  in_chat r entry none = false
  in_chat r entry (some env) =
      str_eq (chat_key env.chat) (chat_key r.state.chat)
      && str_eq (chat_key entry.chat) (chat_key r.state.chat)

  -- pinReducer.observe
  unfoldable pub observe : PinReducer → InboxEntry → PinReducer
  unfolding dispatch in_chat
  observe r entry =
      if in_chat r entry (envelope_of entry.event) then dispatch r entry entry.event else r

  unfoldable pub observe_all : PinReducer → List InboxEntry → PinReducer
  observe_all r [] = r
  observe_all r (entry ∷ entries) = observe_all (observe r entry) entries
