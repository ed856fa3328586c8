-- ===== src/Groups/Named.antt =====
-- internal/signal/groups_remove.go (normalizeGroupMembers): whom a change of a group's members
-- names.
use go_signal.Base.{
  Bool, true, false, ◌||◌, Option, none, some, List, [], ◌∷◌, Bytes, str_eq, str_eq→eq, any,
  Outcome, returns, fails, if◌then◌else◌, ◌≡◌, ◌∙◌, refl, sym, ap, arith, Bool-cases, inl, inr,
}
use go_signal.Uuid.{UuidLib}
use go_signal.Types.{Recipient}
use go_signal.Groups.State.{GroupError, unresolvable, is_nil}
use go_signal.Groups.Members.{with_member, nonzero, nonzero_uuid, normalize_from, normalize_members}
use go_signal.Groups.Changes.{is_target}

abbrev listed : List Recipient → Outcome GroupError (List Recipient)
listed ms = returns ms

module _ ⦃u : UuidLib⦄ where
  -- The UUID is written so.
  abbrev pub is_written : Bytes → Option Bytes → Bool
  is_written x none = false
  is_written x (some id) = str_eq (u.to_string id) x

  -- The ACI of a member, read and written again, is the text.
  abbrev pub is_named : List Recipient → Bytes → Bool
  is_named members x = any (λ m. is_written x (u.parse m.aci)) members

  abbrev is_seen : List Bytes → Bytes → Bool
  is_seen seen x = any (λ id. str_eq (u.to_string id) x) seen

  seen_again :
      (id x : Bytes) (seen : List Bytes)
      → any (str_eq id) seen ≡ true
      → str_eq (u.to_string id) x ≡ true
      → is_seen seen x ≡ true
  seen_again id x [] h w = cc
  seen_again id x (s ∷ ss) h w = elim (Bool-cases (str_eq id s)) [
    | inl e ↦
        let same : str_eq (u.to_string id) x ≡ str_eq (u.to_string s) x =
          ap (λ i. str_eq (u.to_string i) x) (str_eq→eq id s e) in
        ground (arith, w, same)
    | inr e ↦
        let rest : any (str_eq id) ss ≡ true = ground (arith, h, e) in
        ground (arith, seen_again id x ss rest w)
  ]

  parsed : (o : Option Bytes) (id : Bytes) → nonzero o ≡ some id → o ≡ some id
  parsed none id h = cc
  parsed (some i) id h = by_test (is_nil i) h
    where
      by_test : (b : Bool) → (if b then none else some i) ≡ some id → some i ≡ some id
      by_test true k = cc
      by_test false k = k

  with_member_returns :
      (m : Recipient) (r : Outcome GroupError (List Recipient)) (ts : List Recipient)
      → with_member m r ≡ returns ts
      → (rest : List Recipient) × (r ≡ returns rest) × (ts ≡ m ∷ rest)
  with_member_returns m (returns rest) ts h = (rest, refl, cc)
  with_member_returns m (fails e) ts h = cc

  -- What the loop's rest answers, whatever was seen before.
  abbrev Rest : List Recipient → Bytes → Type 0
  Rest ms x =
      (seen : List Bytes) (ts : List Recipient)
      → normalize_from seen ms ≡ returns ts
      → (is_target ts x || is_seen seen x) ≡ (is_named ms x || is_seen seen x)

  -- The targets, with those seen before, are the members that are named, with those seen before.
  normalize_from-is_named :
      (seen : List Bytes) (ms ts : List Recipient) (x : Bytes)
      → normalize_from seen ms ≡ returns ts
      → (is_target ts x || is_seen seen x) ≡ (is_named ms x || is_seen seen x)
  unfolding normalize_from nonzero_uuid
  normalize_from-is_named seen [] ts x h =
      let none_left : listed [] ≡ listed ts = h in
      let same : [] ≡ ts = cc in ap (λ l. is_target l x || is_seen seen x) (sym same)
  normalize_from-is_named seen (m ∷ ms) ts x h =
      by_uuid (λ s t. normalize_from-is_named s ms t x) (nonzero (u.parse m.aci)) refl h
    where
      by_seen :
          Rest ms x
          → (id : Bytes) → u.parse m.aci ≡ some id
          → (b : Bool) → any (str_eq id) seen ≡ b
          → elim b [
            | true ↦ normalize_from seen ms
            | false ↦
                with_member (record m { aci = u.to_string id }) (normalize_from (id ∷ seen) ms)
          ]
            ≡ listed ts
          → (is_target ts x || is_seen seen x) ≡ (is_named (m ∷ ms) x || is_seen seen x)
      by_seen rest_named id p true e k =
          let w : is_written x (u.parse m.aci) ≡ str_eq (u.to_string id) x = ap (is_written x) p in
          ground (arith, rest_named seen ts k, w, seen_again id x seen e)
      by_seen rest_named id p false e k =
          let w : is_written x (u.parse m.aci) ≡ str_eq (u.to_string id) x = ap (is_written x) p in
          let (rest, r, same) = with_member_returns _ (normalize_from (id ∷ seen) ms) ts k in
          let ih = rest_named (id ∷ seen) rest r in
          ap (λ l. is_target l x || is_seen seen x) same ∙ ground (arith, ih, w)

      by_uuid :
          Rest ms x
          → (o : Option Bytes) → nonzero (u.parse m.aci) ≡ o
          → elim o [
            | none ↦ fails unresolvable
            | some id ↦ elim (any (str_eq id) seen) [
              | true ↦ normalize_from seen ms
              | false ↦
                  with_member (record m { aci = u.to_string id }) (normalize_from (id ∷ seen) ms)
            ]
          ]
            ≡ listed ts
          → (is_target ts x || is_seen seen x) ≡ (is_named (m ∷ ms) x || is_seen seen x)
      by_uuid rest_named none e k = cc
      by_uuid rest_named (some id) e k =
          by_seen rest_named id (parsed (u.parse m.aci) id e) (any (str_eq id) seen) refl k

  -- The targets of a change are the members that it names.
  pub normalize_members-is_named :
      (members ts : List Recipient)
      → normalize_members members ≡ returns ts
      → (x : Bytes) → is_target ts x ≡ is_named members x
  unfolding normalize_members
  normalize_members-is_named [] ts h x = cc
  normalize_members-is_named (m ∷ ms) ts h x =
      ground (arith, normalize_from-is_named [] (m ∷ ms) ts x h)
