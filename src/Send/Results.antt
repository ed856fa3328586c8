-- ===== src/Send/Results.antt =====
-- internal/app/send.go: the results of a send against the client's answers, the errors that they
-- make, the timestamps of sends one after another, and who may be sent to.
use go_signal.Base.{
  ℕ, suc, ◌+◌, ◌<◌, Bool, true, false, not, Option, none, some, List, [], ◌∷◌, Bytes, all, any,
  length, select, ◌||◌, is_some, subst, returns, All, if◌then◌else◌, ◌==◌, ◌≡◌, ◌∙◌, refl, sym, ap,
  arith, Bool-cases, inl, inr,
}
use go_signal.Uuid.{UuidLib}
use go_signal.Policy.Targets.{Target, to_group, ok}
use go_signal.Policy.Allowlist.{Allowlist, resolve_list}
use go_signal.Policy.Naming.{Listed, allowed-Listed}
use go_signal.Send.Content.{
  Client, SendState, no_result, RecipientResult, TargetResult, failed, failed_members, target_ok,
  is_unlinked, SendFailure,
}
use go_signal.Send.Deliver.{
  uint64_limit, with_error, with_reply, users_answered, send_error, Sent, Build, send_prepared,
}
use go_signal.Send.Delivery.{targets_of}
use go_signal.Send.Outcomes.{Delivery, AfterSend, send_prepared-AfterSend}

-- What the results of users should be: each user's is the client's answer at the same position,
-- errNoResult where the client gives none.
abbrev pub answered_each : List RecipientResult → List TargetResult → List TargetResult
answered_each answers [] = []
answered_each [] (r ∷ rs) = with_error no_result r ∷ answered_each [] rs
answered_each (a ∷ answers) (r ∷ rs) = with_reply a r ∷ answered_each answers rs

abbrev pub is_user : TargetResult → Bool
is_user r = not (to_group r.target)

abbrev pub is_group_result : TargetResult → Bool
is_group_result r = to_group r.target

-- The client's answers are given to the users in their order, whatever groups stand between them,
-- and the results of the groups stay.
pub users_answered_lem :
    (answers : List RecipientResult) (rs : List TargetResult)
    → (select is_user (users_answered answers rs) ≡ answered_each answers (select is_user rs))
      × (select is_group_result (users_answered answers rs) ≡ select is_group_result rs)
unfolding users_answered
users_answered_lem answers [] = (refl, refl)
users_answered_lem [] (r ∷ rs) =
    let ih = users_answered_lem [] rs in
    elim (Bool-cases (to_group r.target)) [
      | inl h ↦ rw (h, h) (ih.0, ap (◌∷◌ r) ih.1)
      | inr h ↦ rw (h, h) (ap (◌∷◌ (with_error no_result r)) ih.0, ih.1)
    ]
users_answered_lem (a ∷ answers) (r ∷ rs) = elim (Bool-cases (to_group r.target)) [
  | inl h ↦ let ih = users_answered_lem (a ∷ answers) rs in rw (h, h) (ih.0, ap (◌∷◌ r) ih.1)
  | inr h ↦
      let ih = users_answered_lem answers rs in rw (h, h) (ap (◌∷◌ (with_reply a r)) ih.0, ih.1)
]

failed_zero : (rs : List TargetResult) → (failed rs == 0) ≡ all target_ok rs
unfolding failed
failed_zero [] = refl
failed_zero (r ∷ rs) = elim (Bool-cases (target_ok r)) [
  | inl h ↦ rw h (failed_zero rs)
  | inr h ↦ rw h (ground arith)
]

failed-select : (rs : List TargetResult) → failed rs ≡ length (select (λ r. not (target_ok r)) rs)
unfolding failed
failed-select [] = refl
failed-select (r ∷ rs) = elim (Bool-cases (target_ok r)) [
  | inl h ↦ rw h (failed-select rs)
  | inr h ↦ rw h (ap suc (failed-select rs))
]

failed_members-any :
    (ms : List RecipientResult) → (failed_members ms == 0) ≡ not (any (λ m. is_some m.error) ms)
unfolding failed_members
failed_members-any [] = refl
failed_members-any (m ∷ ms) = ground (arith, failed_members-any ms)

-- A target that got the message: neither it nor a member of the group has an error.
abbrev pub has_got : TargetResult → Bool
has_got r = not (is_some r.error || any (λ m. is_some m.error) r.members)

target_ok-has_got : (r : TargetResult) → target_ok r ≡ has_got r
unfolding target_ok
target_ok-has_got r = ground (arith, failed_members-any r.members)

all_got : (rs : List TargetResult) → all target_ok rs ≡ all has_got rs
all_got [] = refl
all_got (r ∷ rs) = ground (arith, target_ok-has_got r, all_got rs)

count_got :
    (rs : List TargetResult)
    → length (select (λ r. not (target_ok r)) rs) ≡ length (select (λ r. not (has_got r)) rs)
count_got [] = refl
count_got (r ∷ rs) = elim (Bool-cases (target_ok r)) [
  | inl h ↦ let e : has_got r ≡ true = sym (target_ok-has_got r) ∙ h in rw (h, e) (count_got rs)
  | inr h ↦
      let e : has_got r ≡ false = sym (target_ok-has_got r) ∙ h in rw (h, e) (ap suc (count_got rs))
]

-- The failure that results tell: none if every target got the message, and else how many did not,
-- of how many, and whether the device is unlinked.
abbrev pub told : List TargetResult → Option SendFailure
told rs =
    if all has_got rs
    then none
    else some (record {
      failed_targets = length (select (λ r. not (has_got r)) rs);
      all_targets = length rs;
      unlinked = any (λ r. is_unlinked r.error) rs;
    })

pub send_error-told : (rs : List TargetResult) → send_error rs ≡ told rs
unfolding send_error
send_error-told rs = rw (failed_zero rs, failed-select rs, all_got rs, count_got rs) refl

-- What a send returns, as a hypothesis on its result.
returned :
    ⦃u : UuidLib⦄ {A : Type 0} (client : Client) (allow : Option Allowlist) (now : ℕ)
    (build : Build A) (s : SendState) (args : List Bytes) (after : SendState) (out : Sent A)
    → ((targets : List Target) → (build s targets).0.sent ≡ s.sent)
    → send_prepared client allow now build s args ≡ (after, returns out)
    → Delivery client allow now build s args after out
returned client allow now build s args after out quiet h =
    subst (AfterSend client allow now build s args) h
      (send_prepared-AfterSend client allow now build s quiet args)

module _ ⦃u : UuidLib⦄ {A : Type 0} (client : Client) (l : Allowlist) (now : ℕ) (build : Build A)
    (s : SendState) where
  -- Under an allowlist that does not allow everyone and whose entries resolve, a send that returns
  -- results has only targets that an entry names: a group by its ID, the note to self, or a user by
  -- the ACI. The build gives the client no request itself.
  pub send_prepared-Listed :
      (args : List Bytes) (after : SendState) (out : Sent A) (entries : List Target)
      → ((targets : List Target) → (build s targets).0.sent ≡ s.sent)
      → l.all ≡ false
      → (resolve_list client.directory l).1 ≡ ok entries
      → send_prepared client (some l) now build s args ≡ (after, returns out)
      → All (Listed entries) (targets_of out.result.results)
  send_prepared-Listed args after out entries quiet h r e =
      let d = returned client (some l) now build s args after out quiet e in
      subst (All (Listed entries)) (sym d.is_delivered.result_targets)
        (allowed-Listed client.directory l d.targets entries h r d.is_allowed)

module _ ⦃u : UuidLib⦄ {A B : Type 0} (client : Client) (allow : Option Allowlist) (now later : ℕ)
    (build : Build A) (next : Build B) (s between : SendState) where
  -- Of two sends that return results, one after another, the later has the greater timestamp,
  -- whatever the clock shows, until the timestamps reach the end of uint64. The builds give the
  -- client no request themselves, and that of the second takes no timestamp.
  pub timestamps_grow :
      (args args' : List Bytes) (after : SendState) (out : Sent A) (out' : Sent B)
      → ((targets : List Target) → (build s targets).0.sent ≡ s.sent)
      → ((targets : List Target) → (next between targets).0.sent ≡ between.sent)
      → ((targets : List Target) → (next between targets).0.last_timestamp ≡ between.last_timestamp)
      → send_prepared client allow now build s args ≡ (between, returns out)
      → send_prepared client allow later next between args' ≡ (after, returns out')
      → between.last_timestamp + 1 < uint64_limit
      → out.result.timestamp < out'.result.timestamp
  timestamps_grow args args' after out out' quiet quiet' kept e e' fits =
      let first = returned client allow now build s args between out quiet e in
      let second = returned client allow later next between args' after out' quiet' e' in
      let d = first.is_delivered in
      let d' = second.is_delivered in
      let a = d.remembers in
      let b = d'.stamped in
      let same : d'.prepared.last_timestamp ≡ between.last_timestamp =
        sym (ap (λ p. p.0.last_timestamp) d'.builds) ∙ kept second.targets in
      omega (arith, a, b, same, fits)
