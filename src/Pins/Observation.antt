-- ===== src/Pins/Observation.antt =====
-- internal/app/pin_list.go and pin_types.go: what is observed of the pins of a chat. A map is an
-- association list in the order that a walk of it takes; a time is in nanoseconds since Go's zero
-- time.
use go_signal.Base.{
  ℕ, ◌+◌, ◌*◌, Bool, true, false, not, ◌&&◌, Option, none, some, List, [], ◌∷◌, Bytes, ◌==◌, leb,
  eq_bool, str_eq, if◌then◌else◌,
}
use go_signal.Types.{Recipient, Chat}
use go_signal.Events.{Event, pin, unpin}

-- signal.InboxEntry, of internal/signal/inbox.go, as far as the list reads it.
pub record InboxEntry : Type 0 where
  pub id : ℕ
  pub received_at : ℕ
  pub chat : Chat
  pub event : Event

pub data PinOperation : Type 0 where
  pin_operation unpin_operation : PinOperation

abbrev pub is_pin : PinOperation → Bool
is_pin pin_operation = true
is_pin unpin_operation = false

pub record PinObservation : Type 0 where
  pub target_author : Recipient
  pub sender : Recipient
  pub target_timestamp : ℕ
  pub timestamp : ℕ
  pub operation : PinOperation
  pub entry_id : ℕ
  pub received_at : ℕ
  pub expires_at : ℕ
  pub duration_seconds : ℕ
  pub forever : Bool
  pub expiry_reached : Bool
  pub target_deleted : Bool

-- PinState; its Completeness is always "unknown".
pub record PinState : Type 0 where
  pub chat : Chat
  pub observations : List PinObservation
  pub scanned : ℕ
  pub first_entry_id : ℕ
  pub last_entry_id : ℕ
  pub truncated : Bool
  pub ignored_invalid : ℕ
  pub conflicts : ℕ

-- A message or an operation: an ACI and a timestamp (pinReference, pinIdentity).
pub record PinReference : Type 0 where
  pub author : Bytes
  pub timestamp : ℕ

abbrev pub same_reference : PinReference → PinReference → Bool
same_reference a b = str_eq a.author b.author && a.timestamp == b.timestamp

pub record PinPayload : Type 0 where
  pub reference : PinReference
  pub operation : PinOperation
  pub duration : ℕ
  pub forever : Bool

-- first == payload
abbrev pub same_payload : PinPayload → PinPayload → Bool
same_payload a b =
    same_reference a.reference b.reference
    && eq_bool (is_pin a.operation) (is_pin b.operation)
    && a.duration == b.duration
    && eq_bool a.forever b.forever

pub record PinReducer : Type 0 where
  pub state : PinState
  pub now : ℕ
  pub observations : List (PinReference × PinObservation)
  pub identities : List (PinReference × PinPayload)
  pub deleted : List PinReference

-- m[key]
abbrev pub lookup {ℓ} : {A : Type ℓ} → PinReference → List (PinReference × A) → Option A
lookup key [] = none
lookup key ((k, a) ∷ m) = let rest = lookup key m in if same_reference k key then some a else rest

-- m[key] = a
abbrev pub insert {ℓ} :
    {A : Type ℓ} → PinReference → A → List (PinReference × A) → List (PinReference × A)
insert key a [] = (key, a) ∷ []
insert key a ((k, b) ∷ m) =
    let rest = insert key a m in if same_reference k key then (k, a) ∷ m else (k, b) ∷ rest

-- pinObservation
unfoldable pub pin_observation : InboxEntry → Event → Option PinObservation
pin_observation entry (pin e) = some (record {
  target_author = e.target.target_author;
  sender = e.envelope.sender;
  target_timestamp = e.target.target_timestamp;
  timestamp = e.envelope.timestamp;
  operation = pin_operation;
  entry_id = entry.id;
  received_at = entry.received_at;
  expires_at = 0;
  duration_seconds = e.target.duration_seconds;
  forever = e.target.forever;
  expiry_reached = false;
  target_deleted = false;
})
pin_observation entry (unpin e) = some (record {
  target_author = e.target.target_author;
  sender = e.envelope.sender;
  target_timestamp = e.target.target_timestamp;
  timestamp = e.envelope.timestamp;
  operation = unpin_operation;
  entry_id = entry.id;
  received_at = entry.received_at;
  expires_at = 0;
  duration_seconds = 0;
  forever = false;
  expiry_reached = false;
  target_deleted = false;
})
pin_observation entry _ = none

-- The target of an observation, and its own identity.
abbrev pub reference_of : PinObservation → PinReference
reference_of o = record { author = o.target_author.aci; timestamp = o.target_timestamp }

abbrev pub identity_of : PinObservation → PinReference
identity_of o = record { author = o.sender.aci; timestamp = o.timestamp }

abbrev pub payload_of : PinObservation → PinPayload
payload_of o = record {
  reference = reference_of o;
  operation = o.operation;
  duration = o.duration_seconds;
  forever = o.forever;
}

-- The observation with its expiry.
unfoldable pub expiring : ℕ → PinObservation → PinObservation
expiring now o =
    if is_pin o.operation && not o.forever
    then record o {
      expires_at = o.received_at + o.duration_seconds * 1_000_000_000;
      expiry_reached = leb (o.received_at + o.duration_seconds * 1_000_000_000) now;
    }
    else o

unfoldable pub ignore : PinReducer → PinReducer
ignore r = record r { state = record (r.state) { ignored_invalid = r.state.ignored_invalid + 1 } }
