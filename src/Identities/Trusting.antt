-- ===== src/Identities/Trusting.antt =====
-- internal/store/identities.go: trust is only given to the key that was verified.
use go_signal.Base.{
  false, ◌&&◌, Option, none, some, List, Bytes, str_eq, str_eq→eq, if◌then◌else◌, ◌≡◌, ◌∙◌, refl,
  ap, Bool-cases, inl, inr,
}
use go_signal.Store.Rows.{row_of, merged, upsert_here, upsert_other}
use go_signal.Identities.Table.{
  IdentityRecord, identity_key, identity, ProtocolKey, has_key, with_trust, new_identity,
  apply_identity_trust,
}

with_trust_key :
    (new old : IdentityRecord)
    → old.service_id ≡ new.service_id
    → (with_trust old new).service_id ≡ new.service_id
with_trust_key new old h = elim (Bool-cases (str_eq old.key new.key)) [
  | inl e ↦ rw e h
  | inr e ↦ rw e h
]

-- The record of a user after trust is given to a key.
abbrev pub trusted_record : Bytes → Bytes → Bytes → Option IdentityRecord → IdentityRecord
trusted_record id key trust none = new_identity id key trust
trusted_record id key trust (some old) =
    if str_eq old.key key then record old { trust = trust; pending_event = false } else old

merged_record :
    (id key trust : Bytes) (o : Option IdentityRecord)
    → merged identity_key str_eq with_trust o (new_identity id key trust)
      ≡ trusted_record id key trust o
merged_record id key trust none = refl
merged_record id key trust (some old) = refl

-- Applying trust to a key changes no other user's record. It does nothing unless signalmeow's key
-- of the user is that key; then the user's record gets the trust, and is no longer to be reported,
-- if it is of that key, a new record is made if there was none, and a record of another key stays
-- as it is. With another key the result tells that nothing was written.
pub apply_identity_trust_lem :
    (keys : List ProtocolKey) (rows : List IdentityRecord) (id key trust other : Bytes)
    → (identity (apply_identity_trust keys rows id key trust).0 other ≡ (
        if has_key keys id key && str_eq id other
        then some (trusted_record id key trust (identity rows other))
        else identity rows other))
      × (has_key keys id key ≡ false → (apply_identity_trust keys rows id key trust).1 ≡ false)
unfolding apply_identity_trust identity
apply_identity_trust_lem keys rows id key trust other = elim (Bool-cases (has_key keys id key)) [
  | inr h ↦ rw h (refl, λ k. refl)
  | inl h ↦ rw h (
    elim (Bool-cases (str_eq id other)) [
      | inl e ↦ rw e (
          upsert_here identity_key str_eq with_trust (new_identity id key trust) other rows
            str_eq→eq e (with_trust_key (new_identity id key trust))
          ∙ ap some (merged_record id key trust (row_of identity_key str_eq other rows)))
      | inr e ↦ rw e (
          upsert_other identity_key str_eq with_trust (new_identity id key trust) other rows
            str_eq→eq e (with_trust_key (new_identity id key trust)))
    ],
    λ k. cc,
  )
]
