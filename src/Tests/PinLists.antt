-- ===== src/Tests/PinLists.antt =====
-- Tests of the model of the list of pins, and the theorems about it at concrete inputs.
use go_signal.Base.{str_lt, str_eq, ℕ, ◌≡◌, refl, true, false, some, List, [], ◌∷◌, codes, map}
use go_signal.Events.{pin}
use go_signal.Inbox.Classify.{envelope_of}
use go_signal.Pins.Observation.{
  expiring, InboxEntry, PinObservation, PinReducer, PinPayload, unpin_operation, pin_operation,
  lookup, identity_of,
}
use go_signal.Pins.Listing.{before, pin_list}
use go_signal.Pins.Reducer.{valid_pin_observation, observe, observe_valid, observe_all}
use go_signal.Pins.Observed.{first_operation_kept}
use go_signal.Request.PinCheck.{check_pin}
use go_signal.Types.{chat_key, Chat, of_aci}
use go_signal.Uuid.{is_aci, UuidLib}

instance abbrev any_text : UuidLib
any_text = record { parse = λ s. some s; to_string = λ s. s; nil = codes "0" }

abbrev with_ann : Chat
with_ann = record { group_id = codes ""; recipient = of_aci (codes "ann") }

-- Ann pins a message of hers at a time.
abbrev pinned : ℕ → ℕ → InboxEntry
pinned id at = record {
  id = id;
  received_at = id;
  chat = with_ann;
  event = pin (record {
    envelope = record {
      sender = of_aci (codes "ann");
      chat = with_ann;
      timestamp = at;
      server_timestamp = at;
      sync = false;
    };
    target = record {
      target_author = of_aci (codes "ann");
      target_timestamp = at;
      duration_seconds = 0;
      forever = true;
    };
  });
}

abbrev snapshot : List InboxEntry
snapshot = pinned 1 9 ∷ pinned 2 4 ∷ pinned 3 9 ∷ []

pin_list_runs : map (λ o. o.entry_id) (pin_list with_ann 0 7 snapshot).observations ≡ 2 ∷ 1 ∷ []
unfolding pin_list observe envelope_of str_eq chat_key valid_pin_observation is_aci check_pin before
    str_lt expiring
pin_list_runs = refl

abbrev observation : PinObservation
observation = record {
  target_author = of_aci (codes "ann");
  sender = of_aci (codes "ann");
  target_timestamp = 4;
  timestamp = 9;
  operation = unpin_operation;
  entry_id = 1;
  received_at = 1;
  expires_at = 0;
  duration_seconds = 0;
  forever = false;
  expiry_reached = false;
  target_deleted = false;
}

abbrev first : PinPayload
first = record {
  reference = record { author = codes "ann"; timestamp = 9 };
  operation = pin_operation;
  duration = 0;
  forever = true;
}

abbrev one_seen : PinReducer
one_seen = record {
  state = record {
    chat = with_ann;
    observations = [];
    scanned = 3;
    first_entry_id = 1;
    last_entry_id = 3;
    truncated = false;
    ignored_invalid = 0;
    conflicts = 0;
  };
  now = 7;
  observations = [];
  identities = (record { author = codes "ann"; timestamp = 9 }, first) ∷ [];
  deleted = [];
}

first_operation_kept_example :
    (lookup (identity_of observation) (observe_all one_seen snapshot).identities ≡ some first)
    × ((observe_valid (observe_all one_seen snapshot) observation).observations
        ≡ (observe_all one_seen snapshot).observations)
unfolding str_eq
first_operation_kept_example = first_operation_kept one_seen snapshot observation first refl
