-- ===== src/Identities/Table.antt =====
-- internal/store/identities.go and identity_sync.go: the tables of identity keys, and of the
-- verifications that wait to be synced. Signalmeow's own table of keys is a list of its rows. A
-- time is in milliseconds since Unix's epoch, and zero is unset.
use go_signal.Base.{
  ℕ, Bool, true, false, not, ◌&&◌, ◌||◌, Option, none, some, List, [], ◌∷◌, Bytes, codes, any,
  select, map, str_eq, str_lt, ltb, ◌==◌, if◌then◌else◌,
}
use go_signal.Store.Rows.{row_of, upsert, delete_row}
use go_signal.Store.Timers.{excluded, order_by}

-- IdentityRecord
pub record IdentityRecord : Type 0 where
  pub service_id : Bytes
  pub key : Bytes
  pub trust : Bytes
  pub first_seen : ℕ
  pub changed_at : ℕ
  pub previous_key : Bytes
  pub pending_event : Bool

abbrev pub identity_key : IdentityRecord → Bytes
identity_key r = r.service_id

-- Store.Identity
unfoldable pub identity : List IdentityRecord → Bytes → Option IdentityRecord
identity rows id = row_of identity_key str_eq id rows

-- Store.Identities
unfoldable pub identities : List IdentityRecord → List IdentityRecord
unfolding order_by
identities rows = order_by identity_key rows

-- Is a row before another in ORDER BY changed_at, service_id?
abbrev pub changed_before : IdentityRecord → IdentityRecord → Bool
changed_before a b =
    ltb a.changed_at b.changed_at
    || a.changed_at == b.changed_at && str_lt a.service_id b.service_id

unfoldable pub insert_changed : IdentityRecord → List IdentityRecord → List IdentityRecord
insert_changed r [] = r ∷ []
insert_changed r (q ∷ rows) =
    let rest = insert_changed r rows in if changed_before q r then q ∷ rest else r ∷ q ∷ rows

unfoldable pub sort_changed : List IdentityRecord → List IdentityRecord
unfolding insert_changed
sort_changed [] = []
sort_changed (r ∷ rows) = insert_changed r (sort_changed rows)

-- Store.PendingIdentityChanges
unfoldable pub pending_identity_changes : List IdentityRecord → List IdentityRecord
unfolding sort_changed
pending_identity_changes rows = sort_changed (select (λ r. r.pending_event) rows)

-- Store.PutIdentity
unfoldable pub put_identity : List IdentityRecord → IdentityRecord → List IdentityRecord
put_identity rows r = upsert identity_key str_eq excluded r rows

abbrev reported : Bytes → Bytes → IdentityRecord → IdentityRecord
reported id key r =
    if str_eq r.service_id id && str_eq r.key key then record r { pending_event = false } else r

-- Store.MarkIdentityReported
unfoldable pub mark_identity_reported : List IdentityRecord → Bytes → Bytes → List IdentityRecord
mark_identity_reported rows id key = map (reported id key) rows

-- A row of signalmeow_identity_keys of the account.
pub record ProtocolKey : Type 0 where
  pub their_service_id : Bytes
  pub key : Bytes

-- The protocol's key of a user is this one.
abbrev pub has_key : List ProtocolKey → Bytes → Bytes → Bool
has_key keys id key = any (λ p. str_eq p.their_service_id id && str_eq p.key key) keys

-- DO UPDATE SET trust=excluded.trust, pending_event=false WHERE the keys are the same
abbrev pub with_trust : IdentityRecord → IdentityRecord → IdentityRecord
with_trust old new =
    if str_eq old.key new.key then record old { trust = new.trust; pending_event = false } else old

abbrev affected : Bytes → Option IdentityRecord → Bool
affected key none = true
affected key (some old) = str_eq old.key key

abbrev pub new_identity : Bytes → Bytes → Bytes → IdentityRecord
new_identity id key trust = record {
  service_id = id;
  key = key;
  trust = trust;
  first_seen = 0;
  changed_at = 0;
  previous_key = codes "";
  pending_event = false;
}

-- Store.ApplyIdentityTrust: the rows after it, and whether a row was written. The SELECT gives a
-- row only if the protocol's key is the one verified.
unfoldable pub apply_identity_trust :
    List ProtocolKey → List IdentityRecord → Bytes → Bytes → Bytes → List IdentityRecord × Bool
unfolding identity
apply_identity_trust keys rows id key trust =
    if has_key keys id key
    then (
      upsert identity_key str_eq with_trust (new_identity id key trust) rows,
      affected key (identity rows id),
    )
    else (rows, false)

-- IdentitySync
pub record IdentitySync : Type 0 where
  pub service_id : Bytes
  pub key : Bytes
  pub trust : Bytes
  pub token : Bytes

abbrev pub sync_key : IdentitySync → Bytes
sync_key r = r.service_id

-- Store.QueueIdentitySync and DeleteIdentitySync
unfoldable pub queue_identity_sync : List IdentitySync → IdentitySync → List IdentitySync
queue_identity_sync rows r = upsert sync_key str_eq excluded r rows

unfoldable pub delete_identity_sync : List IdentitySync → Bytes → List IdentitySync
delete_identity_sync rows id = delete_row sync_key str_eq id rows

-- The pending update is of the user's key, in our table and in the protocol's, with the trust that
-- our table has.
unfoldable pub is_current : List ProtocolKey → List IdentityRecord → IdentitySync → Bool
is_current keys ids pending =
    any
      (λ r.
        str_eq r.service_id pending.service_id
        && str_eq r.key pending.key
        && has_key keys r.service_id pending.key
        && str_eq r.trust pending.trust)
      ids

-- Store.PendingIdentitySync: the rows that it leaves, and what it returns.
unfoldable pub pending_identity_sync :
    List ProtocolKey
    → List IdentityRecord
    → List IdentitySync
    → List IdentitySync × List IdentitySync
unfolding is_current order_by
pending_identity_sync keys ids rows =
    let left = select (is_current keys ids) rows in (left, order_by sync_key left)

-- Store.IdentitySyncCurrent
unfoldable pub identity_sync_current :
    List ProtocolKey → List IdentityRecord → List IdentitySync → IdentitySync → Bool
unfolding is_current
identity_sync_current keys ids rows update =
    any
      (λ pending.
        str_eq pending.service_id update.service_id
        && str_eq pending.token update.token
        && is_current keys ids pending)
      rows

-- Store.MarkIdentitySynced
unfoldable pub mark_identity_synced : List IdentitySync → IdentitySync → List IdentitySync
mark_identity_synced rows update =
    select (λ r. not (str_eq r.service_id update.service_id && str_eq r.token update.token)) rows
