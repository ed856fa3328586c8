-- ===== src/Tests/Reconnects.antt =====
-- A supervisor with two attempts, whose loops fail.
use go_signal.Base.{◌≡◌, refl, false, Option, none, some, List, [], ◌∷◌, codes, arith}
use go_signal.Events.{ConnectionState, connected, disconnected, failed, ConnectionError, Connection}
use go_signal.Reconnect.Backoff.{backoff-min}
use go_signal.Reconnect.Policy.{ReconnectPolicy, backoff}
use go_signal.Reconnect.Progress.{failing, gives_up}
use go_signal.Reconnect.Reports.{NoRepeats, FinalLast, run_reports}
use go_signal.Reconnect.Supervisor.{
  LoopStatus, backing_off, ended, Supervisor, Act, receive, close, stop_returns, timer_fires,
  start_returns, transition, retry, take_status, leave, after_stop, dispatch, step, run, start,
}

abbrev policy : ReconnectPolicy
policy = record { max_attempts = 2; initial_backoff = 2; max_backoff = 7 }

abbrev refused : ConnectionError
refused = record { is_unlinked = false; is_failed = false; text = codes "429" }

abbrev same_error : Option ConnectionError → Option ConnectionError
same_error e = e

abbrev up : LoopStatus
up = record { state = some connected; err = none; stopped = false }

abbrev lost : List Act
lost = receive up ∷ receive up ∷ close ∷ stop_returns ∷ []

abbrev history : List Act
history =
    receive up
    ∷ close
    ∷ stop_returns
    ∷ timer_fires
    ∷ start_returns (some refused)
    ∷ timer_fires
    ∷ start_returns (some refused)
    ∷ receive up
    ∷ []

abbrev state_of : Connection → ConnectionState
state_of c = c.state

run_fails :
    mathlib.Core.List.map state_of (run same_error (start policy) history).emitted
    ≡ failed ∷ disconnected ∷ connected ∷ []
unfolding run step dispatch take_status leave after_stop retry transition start
run_fails = refl

backoff-min_limit : backoff policy 3 ≡ 7
backoff-min_limit = backoff-min policy 2 (omega arith) (omega arith)

run_reports_example :
    NoRepeats (run same_error (start policy) lost).emitted
    × FinalLast (run same_error (start policy) lost).emitted
run_reports_example = run_reports same_error policy lost ((λ e. cc), ((λ e. cc), (tt, (tt, tt))))

-- The supervisor after the loops were lost, and after a cancellation.
abbrev waits : Supervisor
waits = record {
  policy = policy;
  state = some disconnected;
  attempts = 1;
  cause = none;
  phase = backing_off;
  delay = 2;
  cancelled = false;
  emitted = [];
}

gives_up_example :
    let t = run same_error waits (failing refused 2) in (t.phase ≡ ended) × (t.state ≡ some failed)
gives_up_example = gives_up same_error refused 1 waits refl refl
