-- ===== src/Reconnect/Supervisor.antt =====
-- internal/signal/reconnect.go: the supervisor as a state machine. Each wait of the Go code is a
-- phase, and what ends the wait is an act of its environment; the code between two waits is one
-- step. The context may be cancelled at any moment. `emitted` holds the newest event first.
use go_signal.Base.{
  ℕ, ◌+◌, Bool, true, false, ◌||◌, Option, none, some, List, [], ◌∷◌, ◌++◌, codes, ltb, ◌==◌,
  if◌then◌else◌,
}
use go_signal.Std.Decimal.{format}
use go_signal.Events.{
  ConnectionState, connected, disconnected, logged_out, error, failed, ConnectionError, Connection,
}
use go_signal.Reconnect.Policy.{ReconnectPolicy, backoff}

-- loopStatus; a state of zero is `none`.
pub record LoopStatus : Type 0 where
  pub state : Option ConnectionState
  pub err : Option ConnectionError
  pub stopped : Bool

pub data Phase : Type 0 where
  -- next: the select on ctx.Done and the statuses.
  waiting : Phase
  -- stopLoops runs, and the status that led to it.
  stopping : LoopStatus → Phase
  -- restart: the select on ctx.Done and the timer.
  backing_off : Phase
  -- restart: start runs.
  starting : Phase
  -- run has returned.
  ended : Phase

pub record Supervisor : Type 0 where
  pub policy : ReconnectPolicy
  pub state : Option ConnectionState
  pub attempts : ℕ
  pub cause : Option ConnectionError
  pub phase : Phase
  pub delay : ℕ
  pub cancelled : Bool
  pub emitted : List Connection

-- What ends a wait, and a cancellation.
pub data Act : Type 0 where
  cancel : Act
  receive : LoopStatus → Act
  close : Act
  done : Act
  stop_returns : Act
  timer_fires : Act
  start_returns : Option ConnectionError → Act

-- The numbers of Go's constants; zero is no state.
abbrev pub state_code : Option ConnectionState → ℕ
state_code none = 0
state_code (some connected) = 1
state_code (some disconnected) = 2
state_code (some logged_out) = 3
state_code (some error) = 4
state_code (some failed) = 5

-- supervisor.transition
unfoldable pub transition : Supervisor → Connection → Supervisor
transition s conn = if state_code (some conn.state) == state_code s.state then s else record s {
  state = some conn.state;
  emitted = if s.cancelled then s.emitted else conn ∷ s.emitted;
}

-- fmt.Errorf("%w: %w", a, b)
wrap : ConnectionError → ConnectionError → ConnectionError
wrap a b = record {
  is_unlinked = a.is_unlinked || b.is_unlinked;
  is_failed = a.is_failed || b.is_failed;
  text = a.text ++ codes ": " ++ b.text;
}

-- The error with which restart gives up.
exhausted : ReconnectPolicy → ConnectionError
exhausted p = record {
  is_unlinked = false;
  is_failed = true;
  text =
      codes "connection to the Signal server failed: gave up after "
      ++ format p.max_attempts
      ++ codes " attempts";
}

unfoldable pub gave_up : ReconnectPolicy → Option ConnectionError → ConnectionError
unfolding wrap exhausted
gave_up p none = exhausted p
gave_up p (some cause) = wrap (exhausted p) cause

-- The head of restart's loop: give up, or wait for the timer.
unfoldable pub retry : Supervisor → Option ConnectionError → Supervisor
retry s cause =
    if ltb s.policy.max_attempts (s.attempts + 1)
    then transition (record s { attempts = s.attempts + 1; cause = cause; phase = ended })
        (record { state = failed; err = some (gave_up s.policy cause) })
    else record s {
      attempts = s.attempts + 1;
      cause = cause;
      phase = backing_off;
      delay = backoff s.policy (s.attempts + 1);
    }

-- The switch of run, up to the first wait; StateLoggedOut and Stopped wait for stopLoops.
unfoldable pub take_state : Supervisor → LoopStatus → Option ConnectionState → Supervisor
take_state s status (some logged_out) = record s { phase = stopping status }
take_state s status (some connected) =
    if status.stopped
    then record s { phase = stopping status }
    else transition (record s { attempts = 0 }) (record { state = connected; err = none })
take_state s status (some other) =
    if status.stopped
    then record s { phase = stopping status }
    else transition s (record { state = other; err = status.err })
take_state s status none = if status.stopped then record s { phase = stopping status } else s

unfoldable pub take_status : Supervisor → LoopStatus → Supervisor
unfolding take_state
take_status s status = take_state s status status.state

-- The status that next makes of a closed channel.
abbrev pub closed_status : LoopStatus
closed_status = record { state = some disconnected; err = none; stopped = true }

-- run returns if the context is done.
unfoldable pub leave : Supervisor → Supervisor
leave s = if s.cancelled then record s { phase = ended } else s

-- `logged_out_error` is the supervisor's loggedOut, which the client passes in.
module _ (logged_out_error : Option ConnectionError → Option ConnectionError) where
  -- What follows stopLoops.
  unfoldable pub after_stop : Supervisor → LoopStatus → Supervisor
  after_stop s status =
      if state_code status.state == state_code (some logged_out)
      then transition (record s { phase = ended })
          (record { state = logged_out; err = logged_out_error status.err })
      else if s.cancelled
      then record s { phase = ended }
      else retry (transition s (record { state = disconnected; err = status.err })) status.err

  -- An act in the phase that it ends; any other leaves the supervisor as it is.
  unfoldable pub dispatch : Supervisor → Phase → Act → Supervisor
  dispatch s phase cancel = record s { cancelled = true }
  dispatch s waiting (receive status) = take_status s status
  dispatch s waiting close =
      if s.cancelled then record s { phase = ended } else take_status s closed_status
  dispatch s waiting done = leave s
  dispatch s (stopping status) stop_returns = after_stop s status
  dispatch s backing_off done = leave s
  dispatch s backing_off timer_fires = record s { phase = starting }
  dispatch s starting (start_returns none) = record s { phase = waiting }
  dispatch s starting (start_returns (some e)) = retry s (some e)
  dispatch s phase act = s

  unfoldable pub step : Supervisor → Act → Supervisor
  step s act = dispatch s s.phase act

  -- supervisor.run, under the acts of its environment.
  unfoldable pub run : Supervisor → List Act → Supervisor
  run s [] = s
  run s (a ∷ rest) = run (step s a) rest

-- A supervisor as the client makes it; its first state is set before run.
unfoldable pub start : ReconnectPolicy → Supervisor
start p = record {
  policy = p;
  state = none;
  attempts = 0;
  cause = none;
  phase = waiting;
  delay = 0;
  cancelled = false;
  emitted = [];
}
