-- ===== src/Store/TimerLaws.antt =====
-- internal/store/chat_timers.go: which timer a chat has after changes arrive, in whatever order.
use go_signal.Base.{
  ◌⊎◌, is_some, any, sym, subst, ℕ, max, Bool, true, false, not, ◌||◌, Option, none, some, List, [],
  ◌∷◌, Bytes, all, ltb, leb, str_eq, str_eq→eq, if◌then◌else◌, ◌≡◌, ◌∙◌, refl, ap, arith,
  Bool-cases, inl, inr,
}
use go_signal.Uuid.{UuidLib, is_aci}
use go_signal.Store.Rows.{row_of, upsert, merged, upsert_here, upsert_other}
use go_signal.Store.Timers.{
  ChatTimerRecord, timer_key, newer, invalid_aci, merge_all, merge_chat_timers,
}

abbrev pub timer : Bytes → List ChatTimerRecord → Option ChatTimerRecord
timer aci rows = row_of timer_key str_eq aci rows

-- The timer of a chat after records arrive one by one.
abbrev arrived : Bytes → Option ChatTimerRecord → List ChatTimerRecord → Option ChatTimerRecord
arrived aci o [] = o
arrived aci o (r ∷ rs) =
    arrived aci (if str_eq r.aci aci then some (merged timer_key str_eq newer o r) else o) rs

newer_key : (new old : ChatTimerRecord) → old.aci ≡ new.aci → (newer old new).aci ≡ new.aci
newer_key new old h = elim (Bool-cases (ltb old.version new.version)) [
  | inl e ↦ rw e refl
  | inr e ↦ rw e h
]

upsert_timer :
    (aci : Bytes) (r : ChatTimerRecord) (rows : List ChatTimerRecord)
    → timer aci (upsert timer_key str_eq newer r rows) ≡ (
        if str_eq r.aci aci
        then some (merged timer_key str_eq newer (timer aci rows) r)
        else timer aci rows)
upsert_timer aci r rows = elim (Bool-cases (str_eq r.aci aci)) [
  | inl e ↦ rw e (upsert_here timer_key str_eq newer r aci rows str_eq→eq e (newer_key r))
  | inr e ↦ rw e (upsert_other timer_key str_eq newer r aci rows str_eq→eq e (newer_key r))
]

merge_all-arrived :
    (aci : Bytes) (rows records : List ChatTimerRecord)
    → timer aci (merge_all rows records) ≡ arrived aci (timer aci rows) records
unfolding merge_all
merge_all-arrived aci rows [] = refl
merge_all-arrived aci rows (r ∷ rs) =
    merge_all-arrived aci (upsert timer_key str_eq newer r rows) rs
    ∙ ap (λ o. arrived aci o rs) (upsert_timer aci r rows)

abbrev pub version_of : Option ChatTimerRecord → ℕ
version_of none = 0
version_of (some r) = r.version

-- The largest version of the records for the chat, and `v`.
abbrev pub latest : Bytes → ℕ → List ChatTimerRecord → ℕ
latest aci v [] = v
latest aci v (r ∷ rs) = latest aci (if str_eq r.aci aci then max v r.version else v) rs

newer_version :
    (o : Option ChatTimerRecord) (r : ChatTimerRecord)
    → version_of (some (merged timer_key str_eq newer o r)) ≡ max (version_of o) r.version
newer_version none r = omega arith
newer_version (some old) r = elim (Bool-cases (ltb old.version r.version)) [
  | inl e ↦ rw e (ground arith)
  | inr e ↦ rw e (ground arith)
]

arrived_version :
    (aci : Bytes) (o : Option ChatTimerRecord) (records : List ChatTimerRecord)
    → version_of (arrived aci o records) ≡ latest aci (version_of o) records
arrived_version aci o [] = refl
arrived_version aci o (r ∷ rs) = elim (Bool-cases (str_eq r.aci aci)) [
  | inl e ↦ rw e (
      arrived_version aci (some (merged timer_key str_eq newer o r)) rs
      ∙ ap (λ v. latest aci v rs) (newer_version o r))
  | inr e ↦ rw e (arrived_version aci o rs)
]

-- None of the records for the chat has a later version.
abbrev pub is_stale : Bytes → ℕ → List ChatTimerRecord → Bool
is_stale aci v records = all (λ r. not (str_eq r.aci aci) || leb r.version v) records

arrived_stale :
    (aci : Bytes) (old : ChatTimerRecord) (records : List ChatTimerRecord)
    → is_stale aci old.version records ≡ true
    → arrived aci (some old) records ≡ some old
arrived_stale aci old [] h = refl
arrived_stale aci old (r ∷ rs) h = elim (Bool-cases (str_eq r.aci aci)) [
  | inl e ↦
      let late : ltb old.version r.version ≡ false = ground (arith, e, h) in
      let rest : is_stale aci old.version rs ≡ true = ground (arith, e, h) in
      rw (e, late) (arrived_stale aci old rs rest)
  | inr e ↦
      let rest : is_stale aci old.version rs ≡ true = ground (arith, e, h) in
      rw e (arrived_stale aci old rs rest)
]

abbrev pub Among : ChatTimerRecord → List ChatTimerRecord → Type 0
Among r [] = ⊥
Among r (x ∷ xs) = (r ≡ x) ⊎ Among r xs

-- There is a timer, and it is the old one or one of the records for the chat.
abbrev pub Written :
    Bytes → Option ChatTimerRecord → List ChatTimerRecord → Option ChatTimerRecord → Type 0
Written aci before records after =
    (is_some after ≡ (is_some before || any (λ r. str_eq r.aci aci) records))
    × ((after ≡ before)
        ⊎ ((r : ChatTimerRecord) × Among r records × (r.aci ≡ aci) × (after ≡ some r)))

merged_one :
    (o : Option ChatTimerRecord) (r : ChatTimerRecord)
    → (some (merged timer_key str_eq newer o r) ≡ o) ⊎ (merged timer_key str_eq newer o r ≡ r)
merged_one none r = inr refl
merged_one (some old) r = elim (Bool-cases (ltb old.version r.version)) [
  | inl e ↦ inr (rw e refl)
  | inr e ↦ inl (rw e refl)
]

arrived-Written :
    (aci : Bytes) (o : Option ChatTimerRecord) (records : List ChatTimerRecord)
    → Written aci o records (arrived aci o records)
arrived-Written aci o [] = (ground arith, inl refl)
arrived-Written aci o (r ∷ rs) = elim (Bool-cases (str_eq r.aci aci)) [
  | inl e ↦
      let new = merged timer_key str_eq newer o r in
      let (is, one) = arrived-Written aci (some new) rs in
      let which : (arrived aci (some new) rs ≡ o)
          ⊎ ((k : ChatTimerRecord) × Among k (r ∷ rs)
              × (k.aci ≡ aci)
              × (arrived aci (some new) rs ≡ some k)) =
        elim one [
          | inl same ↦ elim (merged_one o r) [
            | inl kept ↦ inl (same ∙ kept)
            | inr put ↦ inr (r, inl refl, str_eq→eq r.aci aci e, same ∙ ap some put)
          ]
          | inr (k, among, key, eq) ↦ inr (k, inr among, key, eq)
        ] in
      rw e (ground (arith, is), which)
  | inr e ↦
      let (is, one) = arrived-Written aci o rs in
      rw e (
        is,
        elim one [ inl same ↦ inl same | inr (k, among, key, eq) ↦ inr (k, inr among, key, eq) ],
      )
]

module _ ⦃u : UuidLib⦄ where
  -- The merge of chat timers writes all records or, if one of them has no canonical ACI, nothing.
  -- Then a chat has a timer exactly if it had one or there is a record for it; the timer is the old
  -- one or one of the chat's records, unchanged, and has the largest version of all these, in
  -- whatever order they come; and an old timer stays as it is unless a record for its chat has a
  -- later version.
  pub merge_chat_timers_lem :
      (rows records : List ChatTimerRecord) (aci : Bytes)
      → (all (λ r. is_aci r.aci) records ≡ false
          → merge_chat_timers rows records ≡ (rows, some invalid_aci))
        × (all (λ r. is_aci r.aci) records ≡ true
            → ((merge_chat_timers rows records).1 ≡ none)
              × Written aci (timer aci rows) records (timer aci (merge_chat_timers rows records).0)
              × (version_of (timer aci (merge_chat_timers rows records).0)
                  ≡ latest aci (version_of (timer aci rows)) records)
              × ((old : ChatTimerRecord)
                  → timer aci rows ≡ some old
                  → is_stale aci old.version records ≡ true
                  → timer aci (merge_chat_timers rows records).0 ≡ some old))
  unfolding merge_chat_timers
  merge_chat_timers_lem rows records aci = (
    λ h. rw h refl,
    λ h. rw h (
      refl,
      subst (λ o. Written aci (timer aci rows) records o) (sym (merge_all-arrived aci rows records))
          (arrived-Written aci (timer aci rows) records),
      ap version_of (merge_all-arrived aci rows records)
          ∙ arrived_version aci (timer aci rows) records,
      λ old f s.
          merge_all-arrived aci rows records
          ∙ ap (λ o. arrived aci o records) f
          ∙ arrived_stale aci old records s,
    ),
  )
