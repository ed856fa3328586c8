-- ===== src/Request/PinCheck.antt =====
-- internal/signal/pin_check.go: pins of an outgoing request.
use go_signal.Base.{not, ◌&&◌, ◌||◌, Option, none, some, ◌==◌, ltb, eq_bool, is_some, if◌then◌else◌}
use go_signal.Uuid.{UuidLib, is_uuid}
use go_signal.Types.{OutgoingPin, OutgoingUnpin, SendRequest}
use go_signal.Request.Content.{SendError, invalid_pin, has_poll, poll_has_content}

module _ ⦃u : UuidLib⦄ where
  -- OutgoingUnpin.Check
  unfoldable pub check_unpin : OutgoingUnpin → Option SendError
  check_unpin p =
      if not (is_uuid p.target_author.aci) || p.target_timestamp == 0
      then some invalid_pin
      else none

  -- OutgoingPin.Check
  unfoldable pub check_pin : OutgoingPin → Option SendError
  unfolding check_unpin
  check_pin p =
      if eq_bool (ltb 0 p.duration_seconds) p.forever
      then some invalid_pin
      else check_unpin
          (record { target_author = p.target_author; target_timestamp = p.target_timestamp })

  check_pin_operation : Option OutgoingPin → Option OutgoingUnpin → Option SendError
  check_pin_operation (some p) unpin = check_pin p
  check_pin_operation none (some p) = check_unpin p
  check_pin_operation none none = some invalid_pin

  -- SendRequest.checkPin
  unfoldable pub check_pin_request : SendRequest → Option SendError
  unfolding poll_has_content has_poll check_pin_operation
  check_pin_request r =
      if (is_some r.pin && is_some r.unpin) || poll_has_content r || has_poll r
      then some invalid_pin
      else check_pin_operation r.pin r.unpin
