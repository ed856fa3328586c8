-- ===== src/Send/Outcomes.antt =====
-- internal/app/send.go: what a whole send does, from its arguments to the client's requests.
use go_signal.Base.{
  ℕ, ◌+◌, ◌%◌, max, Option, none, some, List, Bytes, Outcome, returns, fails, ◌≡◌, refl,
}
use go_signal.Uuid.{UuidLib}
use go_signal.Policy.Targets.{Target, Result, ok, err, resolve_recipients}
use go_signal.Policy.Arguments.{parse_recipients}
use go_signal.Policy.Allowlist.{Allowlist, Verdict, allowed, denied, unresolved, check_allowed}
use go_signal.Send.Content.{
  Client, SendState, AppError, Content, ConnectReply, connected, already_connected, no_connection,
}
use go_signal.Send.Deliver.{
  uint64_limit, next_timestamp, send_error, Sent, Build, delivered, after_build, after_check,
  after_resolve, after_parse, after_connect, send_prepared,
}
use go_signal.Send.Delivery.{
  requests, targets_of, send_to_all-targets, send_to_all-sent, send_to_all_last,
  send_to_all_counters,
}

module _ ⦃u : UuidLib⦄ {A : Type 0} (client : Client) (allow : Option Allowlist) (now : ℕ)
    (build : Build A) (s : SendState) where
  -- What a send has done once its targets are allowed: the state after its build and the content,
  -- and how the results and the requests come from them.
  pub record Delivered (targets : List Target) (after : SendState) (out : Sent A) : Type 0 where
    pub prepared : SendState
    pub msg : Content
    pub builds : build s targets ≡ (prepared, returns (out.built, msg))
    pub result_targets : targets_of out.result.results ≡ targets
    pub requests_sent : after.sent ≡ requests msg out.result.timestamp targets prepared.sent
    pub stamped : out.result.timestamp ≡ max now ((prepared.last_timestamp + 1) % uint64_limit)
    pub remembers : after.last_timestamp ≡ out.result.timestamp
    pub counters_kept : after.counters ≡ prepared.counters
    pub failure_told : out.failure ≡ send_error out.result.results

  -- What a send that returns results has done.
  pub record Delivery (args : List Bytes) (after : SendState) (out : Sent A) : Type 0 where
    pub parsed : List Target
    pub targets : List Target
    pub args_parse : parse_recipients args ≡ some parsed
    pub resolves : resolve_recipients client.directory parsed ≡ ok targets
    pub is_allowed : check_allowed client.directory allow targets ≡ allowed
    pub is_delivered : Delivered targets after out

  abbrev pub Step : Type 0
  Step = SendState × Outcome AppError (Sent A)

  -- How each stage of a send ends: it returns results, or fails and leaves what was sent.
  abbrev pub AfterCheck : List Target → Step → Type 0
  AfterCheck targets (after, returns out) = Delivered targets after out
  AfterCheck targets (after, fails e) = after.sent ≡ s.sent

  abbrev pub AfterSend : List Bytes → Step → Type 0
  AfterSend args (after, returns out) = Delivery args after out
  AfterSend args (after, fails e) = after.sent ≡ s.sent

  after_build-AfterCheck :
      (targets : List Target) (b : SendState × Outcome AppError (A × Content))
      → build s targets ≡ b
      → b.0.sent ≡ s.sent
      → AfterCheck targets (after_build client allow now targets b)
  unfolding after_build delivered next_timestamp
  after_build-AfterCheck targets (prepared, returns (built, msg)) h quiet =
      let t = max now ((prepared.last_timestamp + 1) % uint64_limit) in
      let start = record prepared { last_timestamp = t } in
      record {
        prepared = prepared;
        msg = msg;
        builds = h;
        result_targets = send_to_all-targets client msg t start targets;
        requests_sent = send_to_all-sent client msg t start targets;
        stamped = refl;
        remembers = send_to_all_last client msg t start targets;
        counters_kept = send_to_all_counters client msg t start targets;
        failure_told = refl;
      }
  after_build-AfterCheck targets (prepared, fails e) h quiet = quiet

  -- A stage before the check is passed that fails.
  to_send :
      (args : List Bytes) (parsed targets : List Target)
      → parse_recipients args ≡ some parsed
      → resolve_recipients client.directory parsed ≡ ok targets
      → check_allowed client.directory allow targets ≡ allowed
      → (r : Step) → AfterCheck targets r
      → AfterSend args r
  to_send args parsed targets p q c (after, returns out) d = record {
    parsed = parsed;
    targets = targets;
    args_parse = p;
    resolves = q;
    is_allowed = c;
    is_delivered = d;
  }
  to_send args parsed targets p q c (after, fails e) d = d

  module _ (quiet : (targets : List Target) → (build s targets).0.sent ≡ s.sent) where
    after_check-AfterSend :
        (args : List Bytes) (parsed targets : List Target)
        → parse_recipients args ≡ some parsed
        → resolve_recipients client.directory parsed ≡ ok targets
        → (v : Verdict) → check_allowed client.directory allow targets ≡ v
        → AfterSend args (after_check client allow now build s targets v)
    unfolding after_check
    after_check-AfterSend args parsed targets p q allowed c =
        to_send args parsed targets p q c (after_build client allow now targets (build s targets))
          (after_build-AfterCheck targets (build s targets) refl (quiet targets))
    after_check-AfterSend args parsed targets p q (denied names) c = refl
    after_check-AfterSend args parsed targets p q (unresolved e) c = refl

    after_resolve-AfterSend :
        (args : List Bytes) (parsed : List Target)
        → parse_recipients args ≡ some parsed
        → (r : Result (List Target)) → resolve_recipients client.directory parsed ≡ r
        → AfterSend args (after_resolve client allow now build s r)
    unfolding after_resolve
    after_resolve-AfterSend args parsed p (ok targets) q =
        after_check-AfterSend args parsed targets p q (check_allowed client.directory allow targets)
          refl
    after_resolve-AfterSend args parsed p (err e) q = refl

    after_parse-AfterSend :
        (args : List Bytes) (parsed : Option (List Target))
        → parse_recipients args ≡ parsed
        → AfterSend args (after_parse client allow now build s parsed)
    unfolding after_parse
    after_parse-AfterSend args (some parsed) p =
        after_resolve-AfterSend args parsed p (resolve_recipients client.directory parsed) refl
    after_parse-AfterSend args none p = refl

    after_connect-AfterSend :
        (args : List Bytes) (reply : ConnectReply)
        → AfterSend args (after_connect client allow now build s args reply)
    unfolding after_connect
    after_connect-AfterSend args no_connection = refl
    after_connect-AfterSend args connected = after_parse-AfterSend args (parse_recipients args) refl
    after_connect-AfterSend args already_connected =
        after_parse-AfterSend args (parse_recipients args) refl

    -- A send whose content is built without sending either fails, and the client has been given no
    -- further request, or returns: then its arguments parse and resolve to targets that the
    -- allowlist allows, its results name these targets in order, and the client has been given
    -- exactly one request for all users and one for each group, with the one timestamp of the
    -- results, which is the time or, if that is not later, one more than the last; the failure is
    -- the one that the results tell.
    pub send_prepared-AfterSend :
        (args : List Bytes) → AfterSend args (send_prepared client allow now build s args)
    unfolding send_prepared
    send_prepared-AfterSend args = after_connect-AfterSend args client.connect
