-- ===== src/Reconnect/Progress.antt =====
-- How long the supervisor tries, and that it stops.
use go_signal.Base.{
  ℕ, zero, suc, ◌+◌, ◌≤◌, true, false, ◌≡◌, ap, ◌∙◌, Option, none, some, List, [], ◌∷◌, arith, refl,
}
use go_signal.Events.{
  ConnectionState, connected, disconnected, logged_out, failed, ConnectionError, Connection,
}
use go_signal.Reconnect.Policy.{ReconnectPolicy}
use go_signal.Reconnect.Supervisor.{
  LoopStatus, Phase, waiting, stopping, backing_off, starting, ended, Supervisor, Act, cancel,
  receive, close, done, stop_returns, timer_fires, start_returns, transition, retry, take_state,
  take_status, closed_status, leave, after_stop, dispatch, step, run, start,
}
use go_signal.Reconnect.Reports.{is_ended}

-- Within the policy's limit while it runs, and one beyond once it gave up.
pub record WithinLimit (s : Supervisor) : Type 0 where
  pub running : is_ended s.phase ≡ false → s.attempts ≤ s.policy.max_attempts
  pub at_most : s.attempts ≤ s.policy.max_attempts + 1

transition_frame :
    (s : Supervisor) (c : Connection)
    → ((transition s c).attempts ≡ s.attempts)
      × ((transition s c).policy ≡ s.policy)
      × ((transition s c).phase ≡ s.phase)
      × ((transition s c).cancelled ≡ s.cancelled)
unfolding transition
transition_frame s c = ground arith

transition-WithinLimit :
    (s : Supervisor) (c : Connection) → WithinLimit s → WithinLimit (transition s c)
unfolding transition
transition-WithinLimit s c v = ground arith

retry-WithinLimit :
    (s : Supervisor) (cause : Option ConnectionError)
    → s.attempts ≤ s.policy.max_attempts
    → WithinLimit (retry s cause)
unfolding retry transition
retry-WithinLimit s cause v = ground arith

take_state-WithinLimit :
    (s : Supervisor) (status : LoopStatus) (o : Option ConnectionState)
    → WithinLimit s
    → s.attempts ≤ s.policy.max_attempts
    → WithinLimit (take_state s status o)
unfolding take_state transition
take_state-WithinLimit s status (some logged_out) v w = ground arith
take_state-WithinLimit s status (some connected) v w = ground arith
take_state-WithinLimit s status (some other) v w = ground arith
take_state-WithinLimit s status none v w = ground arith

-- With no attempt left, retry ends the run as failed; with one left, it waits for the timer.
last_retry :
    (s : Supervisor) (cause : Option ConnectionError)
    → s.policy.max_attempts ≤ s.attempts
    → ((retry s cause).phase ≡ ended) × ((retry s cause).state ≡ some failed)
unfolding retry transition
last_retry s cause h = ground arith

next_retry :
    (s : Supervisor) (cause : Option ConnectionError)
    → s.attempts + 1 ≤ s.policy.max_attempts
    → ((retry s cause).phase ≡ backing_off)
      × ((retry s cause).attempts ≡ s.attempts + 1)
      × ((retry s cause).policy ≡ s.policy)
unfolding retry
next_retry s cause h = ground arith

-- Nothing was reported, and the context stays cancelled.
record Silent (s t : Supervisor) : Type 0 where
  emitted : t.emitted ≡ s.emitted
  cancelled : t.cancelled ≡ true

transition-Silent :
    (s : Supervisor) (c : Connection) → s.cancelled ≡ true → Silent s (transition s c)
unfolding transition
transition-Silent s c h = ground arith

retry-Silent :
    (s : Supervisor) (cause : Option ConnectionError)
    → s.cancelled ≡ true
    → Silent s (retry s cause)
unfolding retry transition
retry-Silent s cause h = ground arith

take_state-Silent :
    (s : Supervisor) (status : LoopStatus) (o : Option ConnectionState)
    → s.cancelled ≡ true
    → Silent s (take_state s status o)
unfolding take_state transition
take_state-Silent s status (some logged_out) h = ground arith
take_state-Silent s status (some connected) h = ground arith
take_state-Silent s status (some other) h = ground arith
take_state-Silent s status none h = ground arith

-- A round in which the restart fails: the timer fires, and start returns an error.
abbrev pub failing : ConnectionError → ℕ → List Act
failing e zero = []
failing e (suc n) = timer_fires ∷ start_returns (some e) ∷ failing e n

module _ (logged_out_error : Option ConnectionError → Option ConnectionError) where
  after_stop-WithinLimit :
      (s : Supervisor) (status : LoopStatus)
      → WithinLimit s
      → s.attempts ≤ s.policy.max_attempts
      → WithinLimit (after_stop logged_out_error s status)
  unfolding after_stop
  after_stop-WithinLimit s status v w =
      let lost : Connection = record { state = disconnected; err = status.err } in
      let f = transition_frame s lost in
      ground (
        arith,
        transition-WithinLimit (record s { phase = ended })
            (record { state = logged_out; err = logged_out_error status.err }),
        retry-WithinLimit (transition s lost) status.err,
        f.0,
        f.1,
      )

  dispatch-WithinLimit :
      (s : Supervisor) (phase : Phase) (a : Act)
      → s.phase ≡ phase
      → WithinLimit s
      → WithinLimit (dispatch logged_out_error s phase a)
  unfolding dispatch take_status leave
  dispatch-WithinLimit s ended cancel e v = ground arith
  dispatch-WithinLimit s _ cancel e v = ground arith
  dispatch-WithinLimit s waiting (receive status) e v =
      take_state-WithinLimit s status status.state v (v.running (ground arith))
  dispatch-WithinLimit s waiting close e v = ground (
    arith,
    take_state-WithinLimit s closed_status (some disconnected) v (v.running (ground arith)),
  )
  dispatch-WithinLimit s waiting done e v = ground arith
  dispatch-WithinLimit s (stopping status) stop_returns e v =
      after_stop-WithinLimit s status v (v.running (ground arith))
  dispatch-WithinLimit s backing_off done e v = ground arith
  dispatch-WithinLimit s backing_off timer_fires e v = ground arith
  dispatch-WithinLimit s starting (start_returns none) e v = ground arith
  dispatch-WithinLimit s starting (start_returns (some x)) e v =
      retry-WithinLimit s (some x) (v.running (ground arith))
  dispatch-WithinLimit s _ _ e v = v

  run-WithinLimit :
      (acts : List Act) (s : Supervisor) → WithinLimit s → WithinLimit (run logged_out_error s acts)
  unfolding run step
  run-WithinLimit [] s v = v
  run-WithinLimit (a ∷ rest) s v =
      run-WithinLimit rest (step logged_out_error s a) (dispatch-WithinLimit s s.phase a refl v)

  -- However the loops fail, the supervisor restarts them at most MaxAttempts times in a row: its
  -- count stays within the limit while it runs, and passes it by one only when it has given up.
  pub run_attempts :
      (p : ReconnectPolicy) (acts : List Act) → WithinLimit (run logged_out_error (start p) acts)
  unfolding start
  run_attempts p acts =
      run-WithinLimit acts (start p) (record { running = λ _. omega arith; at_most = omega arith })

  after_stop-Silent :
      (s : Supervisor) (status : LoopStatus)
      → s.cancelled ≡ true
      → Silent s (after_stop logged_out_error s status)
  unfolding after_stop
  after_stop-Silent s status c = ground (
    arith,
    transition-Silent (record s { phase = ended })
        (record { state = logged_out; err = logged_out_error status.err }) c,
  )

  dispatch-Silent :
      (s : Supervisor) (phase : Phase) (a : Act)
      → s.phase ≡ phase
      → s.cancelled ≡ true
      → Silent s (dispatch logged_out_error s phase a)
  unfolding dispatch take_status leave
  dispatch-Silent s ended cancel e c = ground arith
  dispatch-Silent s _ cancel e c = ground arith
  dispatch-Silent s waiting (receive status) e c = take_state-Silent s status status.state c
  dispatch-Silent s waiting close e c = ground arith
  dispatch-Silent s waiting done e c = ground arith
  dispatch-Silent s (stopping status) stop_returns e c = after_stop-Silent s status c
  dispatch-Silent s backing_off done e c = ground arith
  dispatch-Silent s backing_off timer_fires e c = ground arith
  dispatch-Silent s starting (start_returns none) e c = ground arith
  dispatch-Silent s starting (start_returns (some x)) e c = retry-Silent s (some x) c
  dispatch-Silent s _ _ e c = ground arith

  -- Once the context is cancelled, no event is reported any more, whatever still happens.
  pub cancelled_silent :
      (acts : List Act) (s : Supervisor)
      → s.cancelled ≡ true
      → (run logged_out_error s acts).emitted ≡ s.emitted
  unfolding run step
  cancelled_silent [] s c = refl
  cancelled_silent (a ∷ rest) s c =
      let q = dispatch-Silent s s.phase a refl c in
      cancelled_silent rest (step logged_out_error s a) (q.cancelled) ∙ q.emitted

  failing_round :
      (e : ConnectionError) (s : Supervisor)
      → s.phase ≡ backing_off
      → step logged_out_error (step logged_out_error s timer_fires) (start_returns (some e))
        ≡ retry (record s { phase = starting }) (some e)
  unfolding step dispatch
  failing_round e s w = ground arith

  run-failing :
      (e : ConnectionError) (n : ℕ) (s : Supervisor)
      → s.phase ≡ backing_off
      → run logged_out_error s (failing e (suc n))
        ≡ run logged_out_error (retry (record s { phase = starting }) (some e)) (failing e n)
  unfolding run
  run-failing e n s w =
      ap (λ (t : Supervisor). run logged_out_error t (failing e n)) (failing_round e s w)

  -- If every restart fails, the supervisor gives up: from the wait before a restart with `left`
  -- attempts left, it has ended as failed after that many rounds and one.
  pub gives_up :
      (e : ConnectionError) (left : ℕ) (s : Supervisor)
      → s.phase ≡ backing_off
      → s.attempts + left ≡ s.policy.max_attempts
      → let t = run logged_out_error s (failing e (suc left)) in
        (t.phase ≡ ended) × (t.state ≡ some failed)
  gives_up e zero s w h =
      rw (run-failing e 0 s w)
        (unfold run in last_retry (record s { phase = starting }) (some e) (omega arith))
  gives_up e (suc left) s w h =
      let r = next_retry (record s { phase = starting }) (some e) (omega arith) in
      rw (run-failing e (suc left) s w) (
        gives_up e left (retry (record s { phase = starting }) (some e)) r.0
          (ground (arith, r.1, r.2)))
