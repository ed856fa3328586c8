-- ===== src/Poll/Encoding.antt =====
-- internal/signal/meow_poll_projection.go: the evidence as it is stored, and the reduction of stored
-- evidence. The JSON of events and SHA-256 are parameters.
use go_signal.Poll.Evidence.{poll_evidence}
use go_signal.Base.{ℕ, Option, none, some, List, [], ◌∷◌, Bytes, codes, length, drop, if◌then◌else◌}
use go_signal.Std.Strings.{has_prefix}
use go_signal.Uuid.{UuidLib}
use go_signal.Types.{of_aci, no_recipient, Chat, chat_key, Poll}
use go_signal.Events.{Event}
use go_signal.Inbox.Table.{Row}
use go_signal.Poll.State.{PollReference, PollState}
use go_signal.Poll.Reduce.{reduce}
use go_signal.Store.Projections.{PollKey, SeedReply, unrelated, observed}

-- What the encoding of evidence needs: marshalEvent with the chat and hex of SHA-256, and the
-- decoding, `none` for an unreadable entry. encode fails for events that JSON cannot hold.
pub record EvidenceCodec : Type 0 where
  pub marshal : Event → Chat → Option Bytes
  pub unmarshal : Bytes → Option Event
  pub digest : Bytes → Bytes
  pub quoted : Poll → Bytes

module _ ⦃u : UuidLib⦄ (codec : EvidenceCodec) where
  -- pollStoreKey
  unfoldable pub poll_store_key : PollReference → PollKey
  poll_store_key ref = record {
    chat = chat_key ref.chat;
    author = ref.author.aci;
    timestamp = ref.timestamp;
  }

  abbrev encoded : PollReference → Option Bytes → SeedReply Bytes
  encoded ref none = SeedReply.unreadable
  encoded ref (some data') =
      observed (record { key = poll_store_key ref; hash = codec.digest data'; event = data' })

  -- pollObservation
  unfoldable pub poll_observation : Event → SeedReply Bytes
  unfolding poll_evidence poll_store_key
  poll_observation e = of_evidence (poll_evidence codec.quoted e)
    where
      of_evidence : Option (PollReference × Event) → SeedReply Bytes
      of_evidence none = unrelated
      of_evidence (some (ref, copy)) = encoded ref (codec.marshal copy ref.chat)

  -- pollSeed: an inbox row that does not decode is no evidence.
  unfoldable pub poll_seed : Row Bytes → SeedReply Bytes
  unfolding poll_observation
  poll_seed r = of_event (codec.unmarshal r.event)
    where
      of_event : Option Event → SeedReply Bytes
      of_event none = unrelated
      of_event (some e) = poll_observation e

  -- The reference of a stored key.
  unfoldable pub stored_reference : PollKey → PollReference
  stored_reference k = record {
    chat =
        if has_prefix (codes "group:") k.chat
        then record { group_id = drop (length (codes "group:")) k.chat; recipient = no_recipient }
        else record { group_id = codes ""; recipient = of_aci k.chat };
    author = of_aci k.author;
    timestamp = k.timestamp;
  }

  unfoldable pub decoded : List Bytes → Option (List Event)
  decoded [] = some []
  decoded (d ∷ ds) = both (codec.unmarshal d) (decoded ds)
    where
      both : Option Event → Option (List Event) → Option (List Event)
      both (some e) (some es) = some (e ∷ es)
      both _ _ = none

  abbrev durable : ℕ → Option PollState → Option PollState
  durable n none = none
  durable n (some s) = some (record s { source = codes "durable"; observations = n })

  -- pollReduce, up to the JSON of the state; `none` is the error of unreadable evidence.
  unfoldable pub poll_reduce : PollKey → List Bytes → Option PollState
  unfolding stored_reference decoded
  poll_reduce k events = of_events (decoded events)
    where
      of_events : Option (List Event) → Option PollState
      of_events none = none
      of_events (some es) = durable (length es) (reduce (stored_reference k) es)
