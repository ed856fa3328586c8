-- ===== src/Reconnect/Reports.antt =====
-- What the consumer hears of the connection.
use go_signal.Base.{
  ◌+◌, Bool, true, false, ◌≡◌, ◌≢◌, inl, inr, Option, none, some, List, [], ◌∷◌, ltb, ◌==◌, All,
  if◌then◌else◌, arith, Bool-cases, refl,
}
use go_signal.Events.{
  ConnectionState, connected, disconnected, logged_out, error, failed, ConnectionError, Connection,
}
use go_signal.Reconnect.Policy.{ReconnectPolicy, backoff}
use go_signal.Reconnect.Supervisor.{
  LoopStatus, Phase, waiting, stopping, backing_off, starting, ended, Supervisor, Act, cancel,
  receive, close, done, stop_returns, timer_fires, start_returns, state_code, transition, gave_up,
  retry, take_state, take_status, closed_status, leave, after_stop, dispatch, step, run, start,
}

-- The two states after which nothing follows.
abbrev pub is_final : Option ConnectionState → Bool
is_final (some logged_out) = true
is_final (some failed) = true
is_final _ = false

abbrev pub is_ended : Phase → Bool
is_ended ended = true
is_ended _ = false

-- Neighbours differ.
abbrev pub NoRepeats : List Connection → Type 0
NoRepeats [] = Unit {0}
NoRepeats (c ∷ []) = Unit {0}
NoRepeats (c ∷ d ∷ rest) =
    ((state_code (some c.state) == state_code (some d.state)) ≡ false) × NoRepeats (d ∷ rest)

-- Only the newest event may be a final one.
abbrev pub FinalLast : List Connection → Type 0
FinalLast [] = Unit {0}
FinalLast (c ∷ rest) = All (λ d. is_final (some d.state) ≡ false) rest

-- The newest event reports the state.
abbrev Latest : Option ConnectionState → List Connection → Type 0
Latest s [] = s ≡ none
Latest s (c ∷ rest) = s ≡ some c.state

abbrev Plain : List Connection → Type 0
Plain = All (λ d. is_final (some d.state) ≡ false)

-- The statuses that the receive loops report never say that the client gave up.
abbrev pub IsReported : Act → Type 0
IsReported (receive status) = status.state ≢ some failed
IsReported _ = Unit {0}

pub record Inv (s : Supervisor) : Type 0 where
  pub no_repeats : NoRepeats s.emitted
  pub final_last : FinalLast s.emitted
  pub latest : s.cancelled ≡ false → Latest s.state s.emitted
  pub final_ended : is_final s.state ≡ true → s.phase ≡ ended

state_code-injective :
    (a b : Option ConnectionState) → (state_code a == state_code b) ≡ true → a ≡ b
state_code-injective a b h = ground arith

FinalLast-Plain :
    (c : Connection) (l : List Connection)
    → is_final (some c.state) ≡ false
    → FinalLast (c ∷ l)
    → Plain (c ∷ l)
FinalLast-Plain c l h f = (h, f)

NoRepeats-cons :
    (c : Connection) (l : List Connection) (o : Option ConnectionState)
    → NoRepeats l
    → Latest o l
    → (state_code (some c.state) == state_code o) ≡ false
    → NoRepeats (c ∷ l)
NoRepeats-cons c [] o n e h = tt
NoRepeats-cons c (d ∷ rest) o n e h = (ground arith, n)

FinalLast-cons :
    (c : Connection) (l : List Connection) (o : Option ConnectionState)
    → FinalLast l
    → Latest o l
    → is_final o ≡ false
    → FinalLast (c ∷ l)
FinalLast-cons c [] o f e h = tt
FinalLast-cons c (d ∷ rest) o f e h = (ground arith, f)

-- A transition to a state that is final only where the run has ended, from a state that is not.
transition-Inv :
    (s : Supervisor) (c : Connection)
    → Inv s
    → is_final s.state ≡ false
    → (is_final (some c.state) ≡ true → s.phase ≡ ended)
    → Inv (transition s c)
unfolding transition
transition-Inv s c v plain e = elim (Bool-cases (state_code (some c.state) == state_code s.state)) [
  | inl same ↦ rw (same, transition) v
  | inr other ↦ elim (Bool-cases s.cancelled) [
    | inl gone ↦ ground (arith, v.no_repeats, v.final_last)
    | inr here ↦ ground (
      arith,
      NoRepeats-cons c s.emitted s.state v.no_repeats (v.latest here) other,
      FinalLast-cons c s.emitted s.state v.final_last (v.latest here) plain,
    )
  ]
]

plain_state : (s : Supervisor) → Inv s → is_ended s.phase ≡ false → is_final s.state ≡ false
plain_state s v h = elim (Bool-cases (is_final s.state)) [
  | inl f ↦ ground (arith, v.final_ended f)
  | inr f ↦ f
]

-- A change of what the reports do not mention keeps the invariant, the phase included where the
-- state is not final.
Inv-move :
    (s t : Supervisor)
    → Inv s
    → t.emitted ≡ s.emitted
    → t.state ≡ s.state
    → t.cancelled ≡ s.cancelled
    → is_final s.state ≡ false
    → Inv t
Inv-move s t v e f g plain = record {
  no_repeats = rw e (v.no_repeats);
  final_last = rw e (v.final_last);
  latest = λ c. rw (e, f) (v.latest (g' c));
  final_ended = λ h. ground arith;
}
  where
    g' : t.cancelled ≡ false → s.cancelled ≡ false
    g' c = ground arith

-- Both branches of a test keep it.
if_Inv : (b : Bool) (x y : Supervisor) → Inv x → Inv y → Inv (if b then x else y)
if_Inv true x y v w = v
if_Inv false x y v w = w

retry-Inv :
    (s : Supervisor) (cause : Option ConnectionError)
    → Inv s
    → is_final s.state ≡ false
    → Inv (retry s cause)
unfolding retry
retry-Inv s cause v plain =
    if_Inv (ltb s.policy.max_attempts (s.attempts + 1)) _ _
      (transition-Inv (record s { attempts = s.attempts + 1; cause = cause; phase = ended })
        (record { state = failed; err = some (gave_up s.policy cause) })
        (Inv-move s _ v refl refl refl plain) plain (λ _. refl))
      (Inv-move s
        (record s {
          attempts = s.attempts + 1;
          cause = cause;
          phase = backing_off;
          delay = backoff s.policy (s.attempts + 1);
        })
        v refl refl refl plain)

stops-Inv :
    (s : Supervisor) (phase : Phase)
    → Inv s
    → is_final s.state ≡ false
    → Inv (record s { phase = phase })
stops-Inv s phase v plain = Inv-move s _ v refl refl refl plain

moves-Inv :
    (s : Supervisor) (c : Connection)
    → Inv s
    → is_final s.state ≡ false
    → is_final (some c.state) ≡ false
    → Inv (transition s c)
moves-Inv s c v plain p = transition-Inv s c v plain (λ f. ground arith)

take_state-Inv :
    (s : Supervisor) (status : LoopStatus) (o : Option ConnectionState)
    → Inv s
    → is_final s.state ≡ false
    → o ≢ some failed
    → Inv (take_state s status o)
unfolding take_state
take_state-Inv s status (some logged_out) v plain ok = stops-Inv s (stopping status) v plain
take_state-Inv s status (some connected) v plain ok =
    if_Inv _ _ _ (stops-Inv s (stopping status) v plain) (
      moves-Inv (record s { attempts = 0 }) (record { state = connected; err = none })
        (Inv-move s _ v refl refl refl plain) plain refl)
take_state-Inv s status (some failed) v plain ok = absurd (ok refl)
take_state-Inv s status (some disconnected) v plain ok =
    if_Inv _ _ _ (stops-Inv s (stopping status) v plain)
      (moves-Inv s (record { state = disconnected; err = status.err }) v plain refl)
take_state-Inv s status (some error) v plain ok =
    if_Inv _ _ _ (stops-Inv s (stopping status) v plain)
      (moves-Inv s (record { state = error; err = status.err }) v plain refl)
take_state-Inv s status none v plain ok = if_Inv _ _ _ (stops-Inv s (stopping status) v plain) v

leave-Inv : (s : Supervisor) → Inv s → is_final s.state ≡ false → Inv (leave s)
unfolding leave
leave-Inv s v plain = if_Inv _ _ _ (stops-Inv s ended v plain) v

plain-transition :
    (s : Supervisor) (c : Connection)
    → is_final s.state ≡ false
    → is_final (some c.state) ≡ false
    → is_final (transition s c).state ≡ false
unfolding transition
plain-transition s c h k = ground arith

cancel-Inv : (s : Supervisor) → Inv s → Inv (record s { cancelled = true })
cancel-Inv s v = record {
  no_repeats = v.no_repeats;
  final_last = v.final_last;
  latest = λ c. cc;
  final_ended = v.final_ended;
}

module _ (logged_out_error : Option ConnectionError → Option ConnectionError) where
  after_stop-Inv :
      (s : Supervisor) (status : LoopStatus)
      → Inv s
      → is_final s.state ≡ false
      → Inv (after_stop logged_out_error s status)
  unfolding after_stop
  after_stop-Inv s status v plain =
      if_Inv _ _ _
        (transition-Inv (record s { phase = ended })
          (record { state = logged_out; err = logged_out_error status.err })
          (stops-Inv s ended v plain) plain (λ _. refl))
        (if_Inv _ _ _ (stops-Inv s ended v plain) (
          retry-Inv (transition s lost) status.err (moves-Inv s lost v plain refl)
            (plain-transition s lost plain refl)))
    where
      lost : Connection
      lost = record { state = disconnected; err = status.err }

  dispatch-Inv :
      (s : Supervisor) (phase : Phase) (a : Act)
      → IsReported a
      → s.phase ≡ phase
      → Inv s
      → Inv (dispatch logged_out_error s phase a)
  unfolding dispatch take_status
  dispatch-Inv s ended cancel ok e v = cancel-Inv s v
  dispatch-Inv s _ cancel ok e v = cancel-Inv s v
  dispatch-Inv s waiting (receive status) ok e v =
      take_state-Inv s status status.state v (plain_state s v (ground arith)) ok
  dispatch-Inv s waiting close ok e v =
      let plain = plain_state s v (ground arith) in
      if_Inv _ _ _ (stops-Inv s ended v plain)
        (take_state-Inv s closed_status (some disconnected) v plain (λ q. cc))
  dispatch-Inv s waiting done ok e v = leave-Inv s v (plain_state s v (ground arith))
  dispatch-Inv s (stopping status) stop_returns ok e v =
      after_stop-Inv s status v (plain_state s v (ground arith))
  dispatch-Inv s backing_off done ok e v = leave-Inv s v (plain_state s v (ground arith))
  dispatch-Inv s backing_off timer_fires ok e v =
      stops-Inv s starting v (plain_state s v (ground arith))
  dispatch-Inv s starting (start_returns none) ok e v =
      stops-Inv s waiting v (plain_state s v (ground arith))
  dispatch-Inv s starting (start_returns (some x)) ok e v =
      retry-Inv s (some x) v (plain_state s v (ground arith))
  dispatch-Inv s _ _ ok e v = v

  run-Inv :
      (as_reported : List Act) (s : Supervisor)
      → All IsReported as_reported
      → Inv s
      → Inv (run logged_out_error s as_reported)
  unfolding run step
  run-Inv [] s ok v = v
  run-Inv (a ∷ rest) s ok v =
      run-Inv rest (step logged_out_error s a) ok.1 (dispatch-Inv s s.phase a ok.0 refl v)

  -- Whatever the loops report and whenever the context is cancelled: the consumer never hears the
  -- same state twice in a row, and a logout or a failure is the last that it hears.
  pub run_reports :
      (p : ReconnectPolicy) (acts : List Act)
      → All IsReported acts
      → NoRepeats (run logged_out_error (start p) acts).emitted
        × FinalLast (run logged_out_error (start p) acts).emitted
  run_reports p acts ok =
      let v = run-Inv acts (start p) ok (
        unfold start in
        record { no_repeats = tt; final_last = tt; latest = λ _. refl; final_ended = λ h. cc }) in
      (v.no_repeats, v.final_last)
