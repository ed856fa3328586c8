-- ===== src/Send/Delivery.antt =====
-- internal/app/send.go: what reaches the client of one send, and what the result tells of it.
use go_signal.Base.{
  ℕ, List, [], ◌∷◌, is_empty, map, if◌then◌else◌, ◌≡◌, ◌∙◌, refl, ap, Bool-cases, inl, inr,
}
use go_signal.Types.{SendRequest}
use go_signal.Policy.Targets.{Target, to_group}
use go_signal.Send.Content.{
  TargetError, Client, SendState, Content, TargetResult, RecipientResult, SendReply, rejected,
  answered,
}
use go_signal.Send.Deliver.{
  user_recipients, users_failed, users_answered, users_replied, users_request, group_request,
  send_to_users, send_to_group, send_to_groups, send_to_all, unsent, group_replied,
}

-- The requests of the groups among the targets, the newest first before `out`.
unfoldable group_requests : Content → ℕ → List Target → List SendRequest → List SendRequest
group_requests msg timestamp [] out = out
group_requests msg timestamp (t ∷ ts) out =
    let with_it = group_requests msg timestamp ts (group_request msg timestamp (unsent t) ∷ out) in
    let without = group_requests msg timestamp ts out in if to_group t then with_it else without

-- The requests of a message to targets, the newest first before `out`: one for all users, and one
-- for each group.
unfoldable pub requests : Content → ℕ → List Target → List SendRequest → List SendRequest
unfolding group_requests
requests msg timestamp ts out = group_requests msg timestamp ts (
    if is_empty (user_recipients (map unsent ts))
    then out
    else users_request msg timestamp (map unsent ts) ∷ out)

abbrev pub targets_of : List TargetResult → List Target
targets_of rs = map (λ r. r.target) rs

users_failed-targets :
    (e : TargetError) (rs : List TargetResult) → targets_of (users_failed e rs) ≡ targets_of rs
unfolding users_failed
users_failed-targets e [] = refl
users_failed-targets e (r ∷ rs) = elim (Bool-cases (to_group r.target)) [
  | inl h ↦ rw h (ap (◌∷◌ r.target) (users_failed-targets e rs))
  | inr h ↦ rw h (ap (◌∷◌ r.target) (users_failed-targets e rs))
]

users_answered-targets :
    (answers : List RecipientResult) (rs : List TargetResult)
    → targets_of (users_answered answers rs) ≡ targets_of rs
unfolding users_answered
users_answered-targets answers [] = refl
users_answered-targets [] (r ∷ rs) = elim (Bool-cases (to_group r.target)) [
  | inl h ↦ rw h (ap (◌∷◌ r.target) (users_answered-targets [] rs))
  | inr h ↦ rw h (ap (◌∷◌ r.target) (users_answered-targets [] rs))
]
users_answered-targets (a ∷ answers) (r ∷ rs) = elim (Bool-cases (to_group r.target)) [
  | inl h ↦ rw h (ap (◌∷◌ r.target) (users_answered-targets (a ∷ answers) rs))
  | inr h ↦ rw h (ap (◌∷◌ r.target) (users_answered-targets answers rs))
]

users_replied-targets :
    (reply : SendReply) (rs : List TargetResult)
    → targets_of (users_replied reply rs) ≡ targets_of rs
unfolding users_replied
users_replied-targets (rejected e) rs = users_failed-targets e rs
users_replied-targets (answered answers) rs = users_answered-targets answers rs

targets-unsent : (ts : List Target) → targets_of (map unsent ts) ≡ ts
targets-unsent [] = refl
targets-unsent (t ∷ ts) = ap (◌∷◌ t) (targets-unsent ts)

module _ (client : Client) (msg : Content) (timestamp : ℕ) where
  group_replied-target :
      (reply : SendReply) (r : TargetResult) → (group_replied reply r).target ≡ r.target
  group_replied-target (rejected e) r = refl
  group_replied-target (answered ms) r = refl

  send_to_group-target :
      (s : SendState) (r : TargetResult)
      → (send_to_group client msg timestamp s r).1.target ≡ r.target
  unfolding send_to_group
  send_to_group-target s r = elim (Bool-cases (to_group r.target)) [
    | inl h ↦ rw h (group_replied-target (client.send s.sent (group_request msg timestamp r)) r)
    | inr h ↦ rw h
  ]

  send_to_groups-targets :
      (s : SendState) (rs : List TargetResult)
      → targets_of (send_to_groups client msg timestamp s rs).1 ≡ targets_of rs
  unfolding send_to_groups
  send_to_groups-targets s [] = refl
  send_to_groups-targets s (r ∷ rs) = cc (
    send_to_group-target s r,
    send_to_groups-targets (send_to_group client msg timestamp s r).0 rs,
  )

  send_to_groups-sent :
      (s : SendState) (rs : List TargetResult)
      → (send_to_groups client msg timestamp s rs).0.sent
        ≡ group_requests msg timestamp (targets_of rs) s.sent
  unfolding send_to_groups send_to_group group_requests
  send_to_groups-sent s [] = refl
  send_to_groups-sent s (r ∷ rs) = elim (Bool-cases (to_group r.target)) [
    | inl h ↦ rw h (
        send_to_groups-sent
          (record s { sent = group_request msg timestamp (unsent r.target) ∷ s.sent }) rs)
    | inr h ↦ rw h (send_to_groups-sent s rs)
  ]

  send_to_users-targets :
      (s : SendState) (rs : List TargetResult)
      → targets_of (send_to_users client msg timestamp s rs).1 ≡ targets_of rs
  unfolding send_to_users
  send_to_users-targets s rs = elim (Bool-cases (is_empty (user_recipients rs))) [
    | inl h ↦ rw h
    | inr h ↦ rw h (users_replied-targets (client.send s.sent (users_request msg timestamp rs)) rs)
  ]

  send_to_users-sent :
      (s : SendState) (rs : List TargetResult)
      → (send_to_users client msg timestamp s rs).0.sent ≡ (
          if is_empty (user_recipients rs) then s.sent else users_request msg timestamp rs ∷ s.sent)
  unfolding send_to_users
  send_to_users-sent s rs = elim (Bool-cases (is_empty (user_recipients rs))) [
    | inl h ↦ rw h
    | inr h ↦ rw h
  ]

  pub send_to_all-targets :
      (s : SendState) (ts : List Target)
      → targets_of (send_to_all client msg timestamp s (map unsent ts)).1 ≡ ts
  unfolding send_to_all
  send_to_all-targets s ts =
      let users = send_to_users client msg timestamp s (map unsent ts) in
      send_to_groups-targets users.0 users.1
      ∙ send_to_users-targets s (map unsent ts)
      ∙ targets-unsent ts

  pub send_to_all-sent :
      (s : SendState) (ts : List Target)
      → (send_to_all client msg timestamp s (map unsent ts)).0.sent
        ≡ requests msg timestamp ts s.sent
  unfolding send_to_all requests
  send_to_all-sent s ts =
      let users = send_to_users client msg timestamp s (map unsent ts) in
      send_to_groups-sent users.0 users.1
      ∙ cc (
        send_to_users-targets s (map unsent ts),
        targets-unsent ts,
        send_to_users-sent s (map unsent ts),
      )

  send_to_group_last :
      (s : SendState) (r : TargetResult)
      → (send_to_group client msg timestamp s r).0.last_timestamp ≡ s.last_timestamp
  unfolding send_to_group
  send_to_group_last s r = elim (Bool-cases (to_group r.target)) [ inl h ↦ rw h | inr h ↦ rw h ]

  send_to_groups_last :
      (s : SendState) (rs : List TargetResult)
      → (send_to_groups client msg timestamp s rs).0.last_timestamp ≡ s.last_timestamp
  unfolding send_to_groups
  send_to_groups_last s [] = refl
  send_to_groups_last s (r ∷ rs) =
      send_to_groups_last (send_to_group client msg timestamp s r).0 rs ∙ send_to_group_last s r

  send_to_users_last :
      (s : SendState) (rs : List TargetResult)
      → (send_to_users client msg timestamp s rs).0.last_timestamp ≡ s.last_timestamp
  unfolding send_to_users
  send_to_users_last s rs = elim (Bool-cases (is_empty (user_recipients rs))) [
    | inl h ↦ rw h
    | inr h ↦ rw h
  ]

  pub send_to_all_last :
      (s : SendState) (ts : List Target)
      → (send_to_all client msg timestamp s (map unsent ts)).0.last_timestamp ≡ s.last_timestamp
  unfolding send_to_all
  send_to_all_last s ts =
      let users = send_to_users client msg timestamp s (map unsent ts) in
      send_to_groups_last users.0 users.1 ∙ send_to_users_last s (map unsent ts)

  send_to_group_counters :
      (s : SendState) (r : TargetResult)
      → (send_to_group client msg timestamp s r).0.counters ≡ s.counters
  unfolding send_to_group
  send_to_group_counters s r = elim (Bool-cases (to_group r.target)) [ inl h ↦ rw h | inr h ↦ rw h ]

  send_to_groups_counters :
      (s : SendState) (rs : List TargetResult)
      → (send_to_groups client msg timestamp s rs).0.counters ≡ s.counters
  unfolding send_to_groups
  send_to_groups_counters s [] = refl
  send_to_groups_counters s (r ∷ rs) =
      send_to_groups_counters (send_to_group client msg timestamp s r).0 rs
      ∙ send_to_group_counters s r

  send_to_users_counters :
      (s : SendState) (rs : List TargetResult)
      → (send_to_users client msg timestamp s rs).0.counters ≡ s.counters
  unfolding send_to_users
  send_to_users_counters s rs = elim (Bool-cases (is_empty (user_recipients rs))) [
    | inl h ↦ rw h
    | inr h ↦ rw h
  ]

  pub send_to_all_counters :
      (s : SendState) (ts : List Target)
      → (send_to_all client msg timestamp s (map unsent ts)).0.counters ≡ s.counters
  unfolding send_to_all
  send_to_all_counters s ts =
      let users = send_to_users client msg timestamp s (map unsent ts) in
      send_to_groups_counters users.0 users.1 ∙ send_to_users_counters s (map unsent ts)
