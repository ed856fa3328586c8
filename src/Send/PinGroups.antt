-- ===== src/Send/PinGroups.antt =====
-- internal/app/pins.go: a pin goes only to groups whose members may pin.
use go_signal.Base.{
  ℕ, Bool, true, false, not, ◌&&◌, ◌||◌, Option, none, some, List, [], ◌∷◌, Bytes, str_eq,
  str_eq→eq, any, All, Outcome, returns, fails, if◌then◌else◌, ◌≡◌, ◌∙◌, refl, sym, ap, subst,
  Option-cases, Bool-cases, ◌⊎◌, inl, inr,
}
use go_signal.Uuid.{UuidLib}
use go_signal.Types.{Recipient}
use go_signal.Policy.Targets.{Target, to_group, Account, Result, ok, err}
use go_signal.Policy.Allowlist.{Allowlist}
use go_signal.Policy.Arguments.{parse_message_ref}
use go_signal.Groups.State.{
  Group, GroupRole, Membership, no_membership, is_member, is_pending, is_requesting, membership_of,
  is_admin,
}
use go_signal.Send.Content.{Client, SendState, AppError, no_group_permission, Content}
use go_signal.Send.Deliver.{Build, Sent, send_prepared}
use go_signal.Send.Outcomes.{AfterSend, send_prepared-AfterSend}
use go_signal.Send.Pinning.{
  PinRequest, pin_permission, check_pin_group, pin_group_allowed, check_groups_after, first_error,
  parsed, check_pin_groups, pin_content, unless, pin_message, pin, check_pin_args,
  resolve_pin_author,
}

-- The group lets the account pin: it is a full member, and an administrator where only these may.
pub record Permits (client : Client) (id : Bytes) : Type 0 where
  pub own : Account
  pub group : Group
  pub account : client.directory.account ≡ ok own
  pub known : client.group id ≡ some group
  pub membership : (membership_of group own.aci).0 ≡ is_member
  pub may : (is_admin (membership_of group own.aci).1 || group.members_can_edit_attributes) ≡ true

permitted :
    (edit : Bool) (m : Membership × GroupRole)
    → pin_permission edit m ≡ none
    → (m.0 ≡ is_member) × ((is_admin m.1 || edit) ≡ true)
unfolding pin_permission
permitted edit (is_member, role) h = (refl, may (is_admin role) edit h)
  where
    may :
        (a b : Bool)
        → (if not a && not b then some no_group_permission else none) ≡ none
        → (a || b) ≡ true
    may true b h = refl
    may false true h = refl
    may false false h = cc
permitted edit (no_membership, role) h = cc
permitted edit (is_pending, role) h = cc
permitted edit (is_requesting, role) h = cc

module _ ⦃u : UuidLib⦄ (client : Client) where
  group-Permits :
      (id : Bytes) (own : Account) (g : Option Group)
      → client.directory.account ≡ ok own
      → client.group id ≡ g
      → check_pin_group own.aci g ≡ none
      → Permits client id
  unfolding check_pin_group
  group-Permits id own none a k h = cc
  group-Permits id own (some g) a k h =
      let p = permitted g.members_can_edit_attributes (membership_of g own.aci) h in
      record { own = own; group = g; account = a; known = k; membership = p.0; may = p.1 }

  allowed-Permits :
      (id : Bytes) (account : Result Account)
      → client.directory.account ≡ account
      → pin_group_allowed client account id ≡ none
      → Permits client id
  unfolding pin_group_allowed
  allowed-Permits id (ok own) a h = group-Permits id own (client.group id) a refl h
  allowed-Permits id (err e) a h = cc

  -- A parsed argument that is no group, or one of a group seen before or that permits pins.
  abbrev SeenOr : List Bytes → Option Target → Type 0
  SeenOr seen none = ⊥
  SeenOr seen (some t) =
      (to_group t ≡ false) ⊎ ((any (str_eq t.group_id) seen ≡ true) ⊎ Permits client t.group_id)

  -- A parsed argument that is no group, or one that permits pins.
  abbrev pub IsPermitted : Option Target → Type 0
  IsPermitted none = ⊥
  IsPermitted (some t) = (to_group t ≡ false) ⊎ Permits client t.group_id

  without_seen :
      (id : Bytes) (seen : List Bytes)
      → Permits client id
      → (o : Option Target) → SeenOr (id ∷ seen) o
      → SeenOr seen o
  without_seen id seen p none h = h
  without_seen id seen p (some t) (inl h) = inl h
  without_seen id seen p (some t) (inr (inr q)) = inr (inr q)
  without_seen id seen p (some t) (inr (inl h)) = elim (Bool-cases (str_eq t.group_id id)) [
    | inl same ↦ inr (inr (subst (Permits client) (sym (str_eq→eq t.group_id id same)) p))
    | inr other ↦ inr (inl (ap (λ b. b || any (str_eq t.group_id) seen) (sym other) ∙ h))
  ]

  All-map :
      {P Q : Option Target → Type 0} (ts : List (Option Target))
      → ((o : Option Target) → P o → Q o)
      → All P ts
      → All Q ts
  All-map [] f h = tt
  All-map (t ∷ ts) f (h, hs) = (f t h, All-map ts f hs)

  first_error-none :
      (a b : Option AppError) → first_error client a b ≡ none → (a ≡ none) × (b ≡ none)
  first_error-none none b h = (refl, h)
  first_error-none (some e) b h = cc

  -- One turn of the loop, by its tests; `rest` and `after` are what the loop says of the rest.
  turn-SeenOr :
      (seen : List Bytes) (t : Target) (ts : List (Option Target)) (g s : Bool)
      (rest after : Option AppError)
      → to_group t ≡ g
      → any (str_eq t.group_id) seen ≡ s
      → (rest ≡ none → All (SeenOr seen) ts)
      → (after ≡ none → All (SeenOr (t.group_id ∷ seen)) ts)
      → (if not g || s
          then rest
          else first_error client
              (pin_group_allowed client client.directory.account t.group_id)
              after)
        ≡ none
      → All (SeenOr seen) (some t ∷ ts)
  turn-SeenOr seen t ts false s rest after e f ih ih' h = (inl e, ih h)
  turn-SeenOr seen t ts true true rest after e f ih ih' h = (inr (inl f), ih h)
  turn-SeenOr seen t ts true false rest after e f ih ih' h =
      let (here, there) =
        first_error-none (pin_group_allowed client client.directory.account t.group_id) after h in
      let p = allowed-Permits t.group_id client.directory.account refl here in
      (inr (inr p), All-map ts (without_seen t.group_id seen p) (ih' there))

  groups-SeenOr :
      (seen : List Bytes) (ts : List (Option Target))
      → check_groups_after client seen ts ≡ none
      → All (SeenOr seen) ts
  unfolding check_groups_after
  groups-SeenOr seen [] h = tt
  groups-SeenOr seen (none ∷ ts) h = cc
  groups-SeenOr seen (some t ∷ ts) h =
      turn-SeenOr seen t ts (to_group t) (any (str_eq t.group_id) seen)
        (check_groups_after client seen ts) (check_groups_after client (t.group_id ∷ seen) ts) refl
        refl (groups-SeenOr seen ts) (groups-SeenOr (t.group_id ∷ seen) ts) h

  none_seen : (o : Option Target) → SeenOr [] o → IsPermitted o
  none_seen none h = h
  none_seen (some t) (inl h) = inl h
  none_seen (some t) (inr (inl h)) = cc
  none_seen (some t) (inr (inr p)) = inr p

  checked-IsPermitted :
      (args : List Bytes)
      → check_pin_groups client args ≡ none
      → All IsPermitted (parsed client args)
  unfolding check_pin_groups
  checked-IsPermitted args h =
      All-map (parsed client args) none_seen (groups-SeenOr [] (parsed client args) h)

  module _ (allow : Option Allowlist) (now : ℕ) where
    abbrev MaybePermitted : List Bytes → SendState × Outcome AppError (Sent Recipient) → Type 0
    MaybePermitted args (after, returns out) = All IsPermitted (parsed client args)
    MaybePermitted args (after, fails e) = Unit

    returned :
        (args : List Bytes) (e : Option AppError) (rest : Outcome AppError (Recipient × Content))
        (built : Recipient × Content)
        → check_pin_groups client args ≡ e
        → unless client e rest ≡ returns built
        → All IsPermitted (parsed client args)
    returned args none rest built c h = checked-IsPermitted args c
    returned args (some e) rest built c h = cc

    delivery-MaybePermitted :
        (s : SendState) (args : List Bytes) (rest : Outcome AppError (Recipient × Content))
        (r : SendState × Outcome AppError (Sent Recipient))
        → AfterSend client allow now
            (λ state targets. (state, unless client (check_pin_groups client args) rest))
            s
            args
            r
        → MaybePermitted args r
    delivery-MaybePermitted s args rest (after, fails e) d = tt
    delivery-MaybePermitted s args rest (after, returns out) d =
        let given = d.is_delivered in
        returned args (check_pin_groups client args) rest (out.built, given.msg) refl
          (ap (λ x. x.1) given.builds)

    message-MaybePermitted :
        (req : PinRequest) (s : SendState) (t : Option (Target × ℕ))
        → MaybePermitted req.recipients (pin_message client allow now req s t)
    unfolding pin_message
    message-MaybePermitted req s none = tt
    message-MaybePermitted req s (some (author, timestamp)) =
        let rest = pin_content client req timestamp (resolve_pin_author client author) in
        let build : Build Recipient =
          λ state targets. (state, unless client (check_pin_groups client req.recipients) rest) in
        delivery-MaybePermitted s req.recipients rest
          (send_prepared client allow now build s req.recipients)
          (send_prepared-AfterSend client allow now build s (λ targets. refl) req.recipients)

    pin-MaybePermitted :
        (s : SendState) (req : PinRequest)
        → MaybePermitted req.recipients (pin client allow now s req)
    unfolding pin
    pin-MaybePermitted s req = elim (Option-cases (check_pin_args req)) [
      | inl h ↦ rw h (message-MaybePermitted req s (parse_message_ref req.target))
      | inr (e, h) ↦ rw h tt
    ]

    -- A pin that is sent names, among its recipients, only groups that the client knows, of which
    -- the account is a full member, and an administrator where only these may edit the group.
    pub pin-IsPermitted :
        (s : SendState) (req : PinRequest) (after : SendState) (out : Sent Recipient)
        → pin client allow now s req ≡ (after, returns out)
        → All IsPermitted (parsed client req.recipients)
    pin-IsPermitted s req after out h =
        subst (MaybePermitted req.recipients) h (pin-MaybePermitted s req)
