-- ===== src/Confirm/Answers.antt =====
-- When the confirmer of internal/mcp/confirm.go lets a call go ahead.
use go_signal.Base.{
  ℕ, ◌+◌, ◌≤◌, ◌≡◌, ◌≢◌, ◌∙◌, sym, ap, refl, inl, inr, Bool, true, false, not, ◌&&◌, Option, none,
  some, List, [], ◌∷◌, ◌++◌, Bytes, codes, str_eq, str_eq→eq, str_eq_refl, select, find, All, Some,
  if◌then◌else◌, arith, Bool-cases,
}
use go_signal.Confirm.{
  PendingCall, InputResponse, CheckResult, go_ahead, ask, refuse, mismatch, not_confirmed,
  no_elicitation, has_id, is_expired, confirm_ttl, add, take, unexpired, answer, is_accept, asked,
  answered, check,
}

-- No pending call has the ID.
abbrev pub Gone : Bytes → List PendingCall → Type 0
Gone id = All (λ p. has_id id p ≡ false)

Gone-remove :
    (id : Bytes) (pending : List PendingCall) → Gone id (select (λ p. not (has_id id p)) pending)
Gone-remove id [] = tt
Gone-remove id (p ∷ pending) = elim (Bool-cases (has_id id p)) [
  | inl h ↦ rw h (Gone-remove id pending)
  | inr h ↦ rw h (h, Gone-remove id pending)
]

Gone-select :
    (q : PendingCall → Bool) (id : Bytes) (pending : List PendingCall)
    → Gone id pending
    → Gone id (select q pending)
Gone-select q id [] g = tt
Gone-select q id (p ∷ pending) g = ground (arith, Gone-select q id pending g.1)

find-Gone :
    (id : Bytes) (pending : List PendingCall) → Gone id pending → find (has_id id) pending ≡ none
find-Gone id [] g = refl
find-Gone id (p ∷ pending) g = rw g.0 (find-Gone id pending g.1)

-- A pending call of the list with an ID, that waits for the call and has not expired.
abbrev pub Waits : Bytes → Bytes → ℕ → PendingCall → Type 0
Waits id call now p = (p.id ≡ id) × (p.call ≡ call) × (now ≤ p.expires)

-- A response accepts a pending call of the list that is for this call.
abbrev pub Accepts : List PendingCall → Bytes → ℕ → InputResponse → Type 0
Accepts pending call now resp =
    (resp.action ≡ some (codes "accept")) × Some (Waits resp.id call now) pending

some_inj : (q p : PendingCall) → some q ≡ some p → q ≡ p
some_inj q p h = cc

Waits-found :
    (id call : Bytes) (now : ℕ) (pending : List PendingCall) (p : PendingCall)
    → find (has_id id) pending ≡ some p
    → p.call ≡ call
    → now ≤ p.expires
    → Some (Waits id call now) pending
Waits-found id call now [] p h c t = absurd (cc)
Waits-found id call now (q ∷ pending) p h c t = elim (Bool-cases (has_id id q)) [
  | inl e ↦
      let f : find (has_id id) (q ∷ pending) ≡ some q = rw e refl in
      let same : q ≡ p = some_inj q p (sym f ∙ h) in
      inl (str_eq→eq q.id id e, ap (λ r. r.call) same ∙ c, rw same t)
  | inr e ↦
      let f : find (has_id id) (q ∷ pending) ≡ find (has_id id) pending = rw e refl in
      inr (Waits-found id call now pending p (sym f ∙ h) c t)
]

Some-if :
    (P : PendingCall → Type 0) (b : Bool) (p : PendingCall) (rest pending : List PendingCall)
    → Some P (if b then p ∷ rest else rest)
    → (Some P rest → Some P pending)
    → Some P (p ∷ pending)
Some-if P true p rest pending (inl s) lift = inl s
Some-if P true p rest pending (inr s) lift = inr (lift s)
Some-if P false p rest pending s lift = inr (lift s)

Some-select :
    (P : PendingCall → Type 0) (q : PendingCall → Bool) (pending : List PendingCall)
    → Some P (select q pending)
    → Some P pending
Some-select P q [] s = s
Some-select P q (p ∷ pending) s =
    Some-if P (q p) p (select q pending) pending s (Some-select P q pending)

unexpired-some :
    (now : ℕ) (o : Option PendingCall) (p : PendingCall)
    → unexpired now o ≡ some p
    → (o ≡ some p) × (now ≤ p.expires)
unfolding unexpired
unexpired-some now none p h = absurd (cc)
unexpired-some now (some q) p h = ground (arith)

both_true :
    (same accepted : Bool)
    → (if not same then refuse mismatch else if accepted then go_ahead else refuse not_confirmed)
      ≡ go_ahead
    → (same ≡ true) × (accepted ≡ true)
both_true true true h = (refl, refl)
both_true true false h = cc
both_true false accepted h = cc

accepted_action : (action : Option Bytes) → is_accept action ≡ true → action ≡ some (codes "accept")
unfolding is_accept
accepted_action none h = cc
accepted_action (some action) h = ap some (str_eq→eq action (codes "accept") h)

answer-go_ahead :
    (call : Bytes) (resp : InputResponse) (p : PendingCall)
    → answer call resp p ≡ go_ahead
    → (p.call ≡ call) × (resp.action ≡ some (codes "accept"))
unfolding answer
answer-go_ahead call resp p h =
    let b = both_true (str_eq p.call call) (is_accept resp.action) h in
    (str_eq→eq p.call call b.0, accepted_action resp.action b.1)

-- The response accepts a pending call, which is not pending any more after the check.
abbrev pub Consumed : List PendingCall → List PendingCall → Bytes → ℕ → InputResponse → Type 0
Consumed before after call now resp = Accepts before call now resp × Gone resp.id after

asked_if :
    (b : Bool) (id : Bytes) (x y : List PendingCall)
    → (if◌then◌else◌ {A = List PendingCall × CheckResult} b
        (x, ask id)
        (y, refuse no_elicitation)).1
      ≢ go_ahead
asked_if true id x y h = cc
asked_if false id x y h = cc

module _ (can_elicit : Bool) (text : Bytes) where
  Consumed-weaken :
      (pending after : List PendingCall) (call id : Bytes) (now : ℕ) (resps : List InputResponse)
      → Some (Consumed (select (λ p. not (has_id id p)) pending) after call now) resps
      → Some (Consumed pending after call now) resps
  Consumed-weaken pending after call id now [] s = s
  Consumed-weaken pending after call id now (resp ∷ resps) (inl ((a, w), g)) =
      inl ((a, Some-select _ (λ p. not (has_id id p)) pending w), g)
  Consumed-weaken pending after call id now (resp ∷ resps) (inr s) =
      inr (Consumed-weaken pending after call id now resps s)

  asked-go_ahead :
      (pending : List PendingCall) (call : Bytes) (now : ℕ)
      → (asked can_elicit text pending call now).1 ≢ go_ahead
  unfolding asked
  asked-go_ahead pending call now h =
      asked_if can_elicit (codes "confirm-" ++ text) (add pending call now text) pending h

  answered-Consumed :
      (pending : List PendingCall) (call : Bytes) (now : ℕ) (resp : InputResponse)
      (resps : List InputResponse) (o : Option PendingCall) (rest : List PendingCall × CheckResult)
      → unexpired now (find (has_id resp.id) pending) ≡ o
      → (rest.1 ≡ go_ahead → Some (Consumed pending rest.0 call now) resps)
      → (answered can_elicit text call resp
          (select (λ p. not (has_id resp.id p)) pending, o)
          rest).1
        ≡ go_ahead
      → Some
          (Consumed pending
            (answered can_elicit text call resp
              (select (λ p. not (has_id resp.id p)) pending, o)
              rest).0
            call
            now)
          (resp ∷ resps)
  unfolding answered
  answered-Consumed pending call now resp resps none rest e later h = inr (later h)
  answered-Consumed pending call now resp resps (some p) rest e later h =
      let found = unexpired-some now (find (has_id resp.id) pending) p e in
      let said = answer-go_ahead call resp p h in
      inl (
        (said.1, Waits-found resp.id call now pending p found.0 said.0 found.1),
        Gone-remove resp.id pending,
      )

  -- A call goes ahead only if a response carries the user's acceptance of a pending call, with its
  -- ID, that was for the same call and has not expired; that call is not pending any more, so that
  -- no acceptance lets a call go ahead twice.
  pub check-Consumed :
      (pending : List PendingCall) (call : Bytes) (now : ℕ) (resps : List InputResponse)
      → (check can_elicit text pending call now resps).1 ≡ go_ahead
      → Some (Consumed pending (check can_elicit text pending call now resps).0 call now) resps
  unfolding check take
  check-Consumed pending call now [] h = absurd (asked-go_ahead pending call now h)
  check-Consumed pending call now (resp ∷ resps) h =
      let left = select (λ p. not (has_id resp.id p)) pending in
      let rest = check can_elicit text left call now resps in
      answered-Consumed pending call now resp resps _ rest refl
        (λ g.
          Consumed-weaken pending rest.0 call resp.id now resps
            (check-Consumed left call now resps g))
        h

-- The pending call that a request is kept as.
abbrev pub request_of : Bytes → ℕ → Bytes → PendingCall
request_of call now text = record {
  id = codes "confirm-" ++ text;
  call = call;
  expires = now + confirm_ttl;
}

find-append :
    (id : Bytes) (q : PendingCall → Bool) (pending : List PendingCall) (p : PendingCall)
    → p.id ≡ id
    → find (has_id id) (select (λ r. q r && not (has_id id r)) pending ++ p ∷ []) ≡ some p
find-append id q [] p e = let h : has_id id p ≡ true = rw e (str_eq_refl id) in rw h refl
find-append id q (r ∷ pending) p e =
    let rest = find-append id q pending p e in
    elim (Bool-cases (has_id id r)) [
      | inl h ↦ let f : (q r && not (has_id id r)) ≡ false = ground (arith, h) in rw f rest
      | inr h ↦ elim (Bool-cases (q r)) [ inl g ↦ rw (g, h) (rw h rest) | inr g ↦ rw g rest ]
    ]

-- A client that can ask the user is asked about a call without responses, and the same call with
-- the user's acceptance of that request goes ahead until ten minutes later; another call with it,
-- or the call with another action, does not.
pub check-ask :
    (pending : List PendingCall) (call other text action : Bytes) (now later : ℕ)
    → later ≤ now + confirm_ttl
    → ((check true text pending call now []).1 ≡ ask (codes "confirm-" ++ text))
      × ((check true text
            (check true text pending call now []).0
            other
            later
            (record { id = codes "confirm-" ++ text; action = some action } ∷ [])).1
          ≡ (if not (str_eq call other)
              then refuse mismatch
              else if str_eq action (codes "accept")
              then go_ahead
              else refuse not_confirmed))
unfolding check asked add take unexpired answered answer is_accept
check-ask pending call other text action now later h =
    let request = request_of call now text in
    let found = find-append request.id (λ p. not (is_expired now p)) pending request refl in
    let fresh : is_expired later request ≡ false = ground arith in (refl, rw (found, fresh) refl)
