-- ===== src/Store/Timers.antt =====
-- internal/store/chat_timers.go, contacts.go, sticker_packs.go: the timers of direct chats, the
-- blocks that override the synced ones, and the sticker packs. A uint64 or int64 is a number; the
-- set_at of an override is in milliseconds already.
use go_signal.Base.{
  ℕ, Bool, Option, none, some, List, [], ◌∷◌, Bytes, map, all, ltb, str_eq, str_lt, Outcome,
  returns, fails, if◌then◌else◌,
}
use go_signal.Uuid.{UuidLib, is_aci}
use go_signal.Store.Rows.{row_of, upsert, delete_row}

pub record ChatTimerRecord : Type 0 where
  pub aci : Bytes
  pub seconds : ℕ
  pub version : ℕ

abbrev pub timer_key : ChatTimerRecord → Bytes
timer_key r = r.aci

-- DO UPDATE … WHERE excluded.version > gosignal_chat_timers.version
abbrev pub newer : ChatTimerRecord → ChatTimerRecord → ChatTimerRecord
newer old new = if ltb old.version new.version then new else old

-- errInvalidChatTimerACI
pub data TimerError : Type 0 where
  invalid_aci : TimerError

-- The loop of the transaction.
unfoldable pub merge_all : List ChatTimerRecord → List ChatTimerRecord → List ChatTimerRecord
merge_all rows [] = rows
merge_all rows (r ∷ rs) = merge_all (upsert timer_key str_eq newer r rows) rs

module _ ⦃u : UuidLib⦄ where
  -- Store.ChatTimer
  unfoldable pub chat_timer :
      List ChatTimerRecord → Bytes → Outcome TimerError (Option ChatTimerRecord)
  chat_timer rows aci =
      if is_aci aci then returns (row_of timer_key str_eq aci rows) else fails invalid_aci

  -- Store.MergeChatTimers: the table after it, and nil or its error.
  unfoldable pub merge_chat_timers :
      List ChatTimerRecord → List ChatTimerRecord → List ChatTimerRecord × Option TimerError
  unfolding merge_all
  merge_chat_timers rows records =
      if all (λ r. is_aci r.aci) records
      then (merge_all rows records, none)
      else (rows, some invalid_aci)

  -- Store.MergeChatTimer
  abbrev pub merge_chat_timer :
      List ChatTimerRecord → ChatTimerRecord → List ChatTimerRecord × Option TimerError
  merge_chat_timer rows r = merge_chat_timers rows (r ∷ [])

pub record BlockOverride : Type 0 where
  pub aci : Bytes
  pub blocked : Bool
  pub set_at : ℕ
  pub storage_version : ℕ

abbrev pub override_key : BlockOverride → Bytes
override_key r = r.aci

-- DO UPDATE SET every column.
abbrev pub excluded : {R : Type 0} → R → R → R
excluded old new = new

-- Store.SetBlockOverride and DeleteBlockOverride
unfoldable pub set_block_override : List BlockOverride → BlockOverride → List BlockOverride
set_block_override rows r = upsert override_key str_eq excluded r rows

unfoldable pub delete_block_override : List BlockOverride → Bytes → List BlockOverride
delete_block_override rows aci = delete_row override_key str_eq aci rows

module _ {R : Type 0} (text : R → Bytes) where
  unfoldable pub insert_by : R → List R → List R
  insert_by r [] = r ∷ []
  insert_by r (s ∷ rows) =
      let rest = insert_by r rows in if str_lt (text s) (text r) then s ∷ rest else r ∷ s ∷ rows

  -- ORDER BY a column that is unique.
  unfoldable pub order_by : List R → List R
  unfolding insert_by
  order_by [] = []
  order_by (r ∷ rows) = insert_by r (order_by rows)

-- Store.BlockOverrides
unfoldable pub block_overrides : List BlockOverride → List BlockOverride
unfolding order_by
block_overrides rows = order_by override_key rows

-- A row of gosignal_sticker_packs.
pub record StickerPackRow : Type 0 where
  pub pack_id : Bytes
  pub pack : Bytes

abbrev pub pack_key : StickerPackRow → Bytes
pack_key r = r.pack_id

abbrev pack_of : Option StickerPackRow → Option Bytes
pack_of none = none
pack_of (some r) = some r.pack

-- Store.StickerPack
unfoldable pub sticker_pack : List StickerPackRow → Bytes → Option Bytes
sticker_pack rows id = pack_of (row_of pack_key str_eq id rows)

-- Store.PutStickerPack
unfoldable pub put_sticker_pack : List StickerPackRow → Bytes → Bytes → List StickerPackRow
put_sticker_pack rows id pack =
    upsert pack_key str_eq excluded (record { pack_id = id; pack = pack }) rows

-- Store.StickerPackIDs
unfoldable pub sticker_pack_ids : List StickerPackRow → List Bytes
unfolding order_by
sticker_pack_ids rows = map pack_key (order_by pack_key rows)
