-- ===== src/Uuid.antt =====
-- github.com/google/uuid, which the repository does not hold: an interface that the checks of
-- identities take. A UUID is its 16 bytes.
use go_signal.Base.{Option, Bool, false, none, some, Bytes, ◌&&◌, not, str_eq}

pub record UuidLib : Type 0 where
  -- uuid.Parse; `none` is its error.
  pub parse : Bytes → Option Bytes
  -- UUID.String
  pub to_string : Bytes → Bytes
  -- uuid.Nil
  pub nil : Bytes

module _ ⦃u : UuidLib⦄ where
  abbrev holds : (Bytes → Bool) → Option Bytes → Bool
  holds p none = false
  holds p (some id) = p id

  -- err == nil && id != uuid.Nil
  unfoldable pub is_uuid : Bytes → Bool
  is_uuid s = holds (λ id. not (str_eq id u.nil)) (u.parse s)

  -- err == nil && id.String() == s
  unfoldable pub is_canonical : Bytes → Bool
  is_canonical s = holds (λ id. str_eq (u.to_string id) s) (u.parse s)

  -- err == nil && id != uuid.Nil && id.String() == s
  unfoldable pub is_aci : Bytes → Bool
  unfolding is_uuid is_canonical
  is_aci s = is_uuid s && is_canonical s
