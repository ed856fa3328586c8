-- ===== src/Pins/Observed.antt =====
-- The observations that PinList of internal/app/pin_list.go ends with.
use go_signal.Base.{
  ℕ, ◌≡◌, ◌≢◌, ◌∙◌, sym, subst, refl, inl, inr, Bool, true, false, not, ◌&&◌, Option, none, some,
  List, [], ◌∷◌, codes, str_eq, str_eq_iff, str_eq_refl, str_eq_sym, str_eq→eq, str_lt_trans,
  str_lt_total, any, All, if◌then◌else◌, arith, Bool-cases,
}
use go_signal.Uuid.{UuidLib}
use go_signal.Types.{Chat}
use go_signal.Events.{Event, delete, unsupported}
use go_signal.Pins.Observation.{
  InboxEntry, PinObservation, PinReference, PinPayload, PinReducer, same_reference, lookup, insert,
  is_pin, reference_of, identity_of, payload_of, expiring, same_payload, ignore, pin_observation,
}
use go_signal.Pins.Reducer.{
  observe_valid, observe_new, observe, observe_all, observe_delete, valid_pin_observation,
  seen_before, recognized, dispatch,
}
use go_signal.Pins.Listing.{
  new_reducer, scan_limit_of, before, insert_observation, sort_observations, marked, finalize,
  bound_snapshot, pin_list,
}

-- Strictly ascending by author and timestamp, so with one observation of each message.
abbrev pub Ascending : List PinObservation → Type 0
Ascending [] = Unit {0}
Ascending (o ∷ os) = All (λ p. before o p ≡ true) os × Ascending os

same_reference_refl : (a : PinReference) → same_reference a a ≡ true
same_reference_refl a = ground (arith, str_eq_refl a.author)

before_trans : (a b c : PinObservation) → before a b ≡ true → before b c ≡ true → before a c ≡ true
unfolding before
before_trans a b c h k = ground (
  arith,
  str_lt_trans a.target_author.aci b.target_author.aci c.target_author.aci,
  str_eq_iff a.target_author.aci b.target_author.aci,
  str_eq_iff b.target_author.aci c.target_author.aci,
  str_eq_iff a.target_author.aci c.target_author.aci,
)

before_total :
    (a b : PinObservation)
    → same_reference (reference_of a) (reference_of b) ≡ false
    → before a b ≡ false
    → before b a ≡ true
unfolding before
before_total a b h k = ground (
  arith,
  str_lt_total a.target_author.aci b.target_author.aci,
  str_eq_iff a.target_author.aci b.target_author.aci,
  str_eq_iff b.target_author.aci a.target_author.aci,
)

-- No observation of the list is of the message.
abbrev Absent : PinReference → List PinObservation → Type 0
Absent k = All (λ p. same_reference (reference_of p) k ≡ false)

All-before :
    (o p : PinObservation) (ps : List PinObservation)
    → before o p ≡ true
    → All (λ q. before p q ≡ true) ps
    → All (λ q. before o q ≡ true) ps
All-before o p [] h a = tt
All-before o p (q ∷ ps) h a = (before_trans o p q h a.0, All-before o p ps h a.1)

All-insert_observation :
    (P : PinObservation → Type 0) (o : PinObservation) (ps : List PinObservation)
    → P o
    → All P ps
    → All P (insert_observation o ps)
unfolding insert_observation
All-insert_observation P o [] h a = (h, tt)
All-insert_observation P o (p ∷ ps) h a = elim (Bool-cases (before p o)) [
  | inl b ↦ rw b (a.0, All-insert_observation P o ps h a.1)
  | inr b ↦ rw b (h, a)
]

insert_observation-Ascending :
    (o : PinObservation) (ps : List PinObservation)
    → Absent (reference_of o) ps
    → Ascending ps
    → Ascending (insert_observation o ps)
unfolding insert_observation
insert_observation-Ascending o [] n a = (tt, tt)
insert_observation-Ascending o (p ∷ ps) n a = elim (Bool-cases (before p o)) [
  | inl b ↦ rw b (
    All-insert_observation (λ q. before p q ≡ true) o ps b a.0,
    insert_observation-Ascending o ps n.1 a.1,
  )
  | inr b ↦ let first = before_total p o n.0 b in rw b ((first, All-before o p ps first a.0), a)
]

-- The key is in the map.
abbrev Missing {ℓ} : {A : Type ℓ} → PinReference → List (PinReference × A) → Type 0
Missing k = All (λ e. same_reference e.0 k ≡ false)

-- Each observation is under its message, and no message is there twice.
abbrev pub Keyed : List (PinReference × PinObservation) → Type 0
Keyed [] = Unit {0}
Keyed (e ∷ m) = (e.0 ≡ reference_of e.1) × Missing e.0 m × Keyed m

same_reference→eq : (a b : PinReference) → same_reference a b ≡ true → a ≡ b
same_reference→eq a b h = ground (arith, str_eq→eq a.author b.author)

same_reference_sym : (a b : PinReference) → same_reference a b ≡ same_reference b a
same_reference_sym a b = ground (arith, str_eq_sym a.author b.author)

Missing-insert :
    (k key : PinReference) (o : PinObservation) (m : List (PinReference × PinObservation))
    → same_reference key k ≡ false
    → Missing k m
    → Missing k (insert key o m)
Missing-insert k key o [] h n = (h, tt)
Missing-insert k key o (e ∷ m) h n = elim (Bool-cases (same_reference e.0 key)) [
  | inl b ↦ rw b n
  | inr b ↦ rw b (n.0, Missing-insert k key o m h n.1)
]

insert-Keyed :
    (key : PinReference) (o : PinObservation) (m : List (PinReference × PinObservation))
    → key ≡ reference_of o
    → Keyed m
    → Keyed (insert key o m)
insert-Keyed key o [] h w = (h, tt, tt)
insert-Keyed key o (e ∷ m) h w = elim (Bool-cases (same_reference e.0 key)) [
  | inl b ↦ rw b (same_reference→eq e.0 key b ∙ h, w.1, w.2)
  | inr b ↦ rw b (
    w.0,
    Missing-insert e.0 key o m (same_reference_sym key e.0 ∙ b) w.1,
    insert-Keyed key o m h w.2,
  )
]

Absent-marked :
    (deleted : List PinReference) (k : PinReference) (m : List (PinReference × PinObservation))
    → Missing k m
    → Keyed m
    → Absent k (marked deleted m)
unfolding marked
Absent-marked deleted k [] n w = tt
Absent-marked deleted k (e ∷ m) n w = (
  subst (λ (x : PinReference). same_reference x k ≡ false) w.0 n.0,
  Absent-marked deleted k m n.1 w.2,
)

Absent-sort :
    (k : PinReference) (os : List PinObservation) → Absent k os → Absent k (sort_observations os)
unfolding sort_observations
Absent-sort k [] a = tt
Absent-sort k (o ∷ os) a =
    All-insert_observation (λ p. same_reference (reference_of p) k ≡ false) o (sort_observations os)
      a.0 (Absent-sort k os a.1)

sort-Ascending :
    (deleted : List PinReference) (m : List (PinReference × PinObservation))
    → Keyed m
    → Ascending (sort_observations (marked deleted m))
unfolding sort_observations marked
sort-Ascending deleted [] w = tt
sort-Ascending deleted (e ∷ m) w =
    insert_observation-Ascending
      (record (e.1) { target_deleted = any (λ d. same_reference d e.0) deleted })
      (sort_observations (marked deleted m))
      (subst (λ (x : PinReference). Absent x (sort_observations (marked deleted m))) w.0
        (Absent-sort e.0 (marked deleted m) (Absent-marked deleted e.0 m w.1 w.2)))
      (sort-Ascending deleted m w.2)

finalize-Ascending : (r : PinReducer) → Keyed r.observations → Ascending (finalize r).observations
unfolding finalize
finalize-Ascending r w = sort-Ascending r.deleted r.observations w

reference_of-expiring :
    (now : ℕ) (o : PinObservation) → reference_of o ≡ reference_of (expiring now o)
unfolding expiring
reference_of-expiring now o = elim (Bool-cases (is_pin o.operation && not o.forever)) [
  | inl h ↦ rw h refl
  | inr h ↦ rw h refl
]

some≢none : (p : PinPayload) → some p ≢ none
some≢none p h = cc

lookup-insert_other :
    (k key : PinReference) (p first : PinPayload) (m : List (PinReference × PinPayload))
    → lookup key m ≡ none
    → lookup k m ≡ some first
    → lookup k (insert key p m) ≡ some first
lookup-insert_other k key p first [] n h = absurd (cc)
lookup-insert_other k key p first (e ∷ m) n h = elim (Bool-cases (same_reference e.0 key)) [
  | inl b ↦ let f : lookup key (e ∷ m) ≡ some e.1 = rw b refl in absurd (some≢none e.1 (sym f ∙ n))
  | inr b ↦ elim (Bool-cases (same_reference e.0 k)) [
    | inl c ↦ let f : lookup k (e ∷ m) ≡ some e.1 = rw c refl in rw b (rw c (sym f ∙ h))
    | inr c ↦
        let f : lookup k (e ∷ m) ≡ lookup k m = rw c refl in
        let g : lookup key (e ∷ m) ≡ lookup key m = rw b refl in
        rw b (rw c (lookup-insert_other k key p first m (sym g ∙ n) (sym f ∙ h)))
  ]
]

module _ ⦃u : UuidLib⦄ where
  -- What a step keeps of the reducer: the messages' keys, and every payload and observation there
  -- was under its key.
  abbrev Kept : PinReducer → PinReducer → Type 0
  Kept r q =
      (Keyed r.observations → Keyed q.observations)
      × ((k : PinReference) (p : PinPayload)
          → lookup k r.identities ≡ some p
          → lookup k q.identities ≡ some p)

  Kept-refl : (r : PinReducer) → Kept r r
  Kept-refl r = ((λ w. w), λ k p h. h)

  Kept-trans : (r q t : PinReducer) → Kept r q → Kept q t → Kept r t
  Kept-trans r q t a b = ((λ w. b.0 (a.0 w)), λ k p h. b.1 k p (a.1 k p h))

  if-Kept : (b : Bool) (r q t : PinReducer) → Kept r q → Kept r t → Kept r (if b then q else t)
  if-Kept true r q t h k = h
  if-Kept false r q t h k = k

  ignore-Kept : (r : PinReducer) → Kept r (ignore r)
  unfolding ignore
  ignore-Kept r = ((λ w. w), λ k p h. h)

  observe_new-Kept :
      (r : PinReducer) (o : PinObservation) (first : Option PinPayload)
      → lookup (identity_of o) r.identities ≡ first
      → Kept r (observe_new r o first)
  unfolding observe_new seen_before
  observe_new-Kept r o (some first) e = elim (Bool-cases (same_payload first (payload_of o))) [
    | inl h ↦ rw h (Kept-refl r)
    | inr h ↦ rw h ((λ w. w), λ k p g. g)
  ]
  observe_new-Kept r o none e = (
    (λ w.
        insert-Keyed (reference_of o) (expiring r.now o) r.observations
          (reference_of-expiring r.now o) w),
    λ k p h. lookup-insert_other k (identity_of o) (payload_of o) p r.identities e h,
  )

  observe_valid-Kept : (r : PinReducer) (o : PinObservation) → Kept r (observe_valid r o)
  unfolding observe_valid
  observe_valid-Kept r o = elim (Bool-cases (valid_pin_observation o)) [
    | inl h ↦ rw h (observe_new-Kept r o (lookup (identity_of o) r.identities) refl)
    | inr h ↦ rw h (ignore-Kept r)
  ]

  recognized-Kept : (r : PinReducer) (o : Option PinObservation) → Kept r (recognized r o)
  unfolding recognized
  recognized-Kept r none = Kept-refl r
  recognized-Kept r (some o) = observe_valid-Kept r o

  dispatch-Kept :
      (r : PinReducer) (entry : InboxEntry) (evt : Event) → Kept r (dispatch r entry evt)
  unfolding dispatch observe_delete
  dispatch-Kept r entry (unsupported e) =
      if-Kept (str_eq e.type (codes "invalidPin")) r (ignore r) r (ignore-Kept r) (Kept-refl r)
  dispatch-Kept r entry (delete e) = if-Kept _ r (ignore r) _ (ignore-Kept r) ((λ w. w), λ k p h. h)
  dispatch-Kept r entry evt = recognized-Kept r (pin_observation entry evt)

  observe-Kept : (r : PinReducer) (entry : InboxEntry) → Kept r (observe r entry)
  unfolding observe
  observe-Kept r entry =
      if-Kept _ r (dispatch r entry entry.event) r (dispatch-Kept r entry entry.event) (Kept-refl r)

  observe_all-Kept : (r : PinReducer) (entries : List InboxEntry) → Kept r (observe_all r entries)
  unfolding observe_all
  observe_all-Kept r [] = Kept-refl r
  observe_all-Kept r (entry ∷ entries) =
      Kept-trans r (observe r entry) (observe_all (observe r entry) entries) (observe-Kept r entry)
        (observe_all-Kept (observe r entry) entries)

  -- The list of pins holds one observation at most of each message, sorted by the message's author
  -- and timestamp, whatever the entries are.
  pub pin_list-Ascending :
      (chat : Chat) (scan_limit now : ℕ) (entries : List InboxEntry)
      → Ascending (pin_list chat scan_limit now entries).observations
  unfolding pin_list
  pin_list-Ascending chat scan_limit now entries =
      let snapshot = bound_snapshot chat entries (scan_limit_of scan_limit) in
      let fresh = new_reducer snapshot.0 now in
      finalize-Ascending (observe_all fresh snapshot.1) ((observe_all-Kept fresh snapshot.1).0 tt)

  -- The first operation of a sender with a timestamp is what counts as that operation ever after:
  -- whatever entries follow, its payload is kept, and the same sender and timestamp again, with
  -- this payload or another, change no observation.
  pub first_operation_kept :
      (r : PinReducer) (entries : List InboxEntry) (o : PinObservation) (first : PinPayload)
      → lookup (identity_of o) r.identities ≡ some first
      → (lookup (identity_of o) (observe_all r entries).identities ≡ some first)
        × ((observe_valid (observe_all r entries) o).observations
            ≡ (observe_all r entries).observations)
  unfolding observe_valid observe_new seen_before ignore
  first_operation_kept r entries o first h =
      let later = observe_all r entries in
      let kept = (observe_all-Kept r entries).1 (identity_of o) first h in
      (
        kept,
        elim (Bool-cases (valid_pin_observation o)) [
          | inr v ↦ rw v refl
          | inl v ↦ elim (Bool-cases (same_payload first (payload_of o))) [
            | inl s ↦ rw (v, kept, s) refl
            | inr s ↦ rw (v, kept, s) refl
          ]
        ],
      )
