-- ===== src/Send/Emoji.antt =====
-- internal/app/react.go: reactions, and the deletion of a message. Unicode's tables of letters and
-- of printable characters are a parameter.
use go_signal.Base.{
  ℕ, Bool, not, ◌&&◌, ◌||◌, Option, none, some, List, [], ◌∷◌, Bytes, is_empty, leb, ltb, ◌==◌,
  length, any, Outcome, returns, fails, if◌then◌else◌,
}
use go_signal.Std.Strings.{between, trim_space}
use go_signal.Std.Utf8.{range_runes, is_space}
use go_signal.Uuid.{UuidLib}
use go_signal.Policy.Targets.{Target, Result, ok, err, resolve_users}
use go_signal.Policy.Allowlist.{Allowlist}
use go_signal.Policy.Arguments.{check_recipients, parse_message_ref}
use go_signal.Send.Content.{
  Client, SendState, AppError, invalid_arguments, unresolved_target, Content, no_content,
}
use go_signal.Send.Deliver.{Sent, send_prepared}

-- unicode.IsLetter and unicode.IsPrint
pub record CharTables : Type 0 where
  pub is_letter : ℕ → Bool
  pub is_print : ℕ → Bool

abbrev pub max_emoji_runes : ℕ
max_emoji_runes = 16

-- The code points that join emoji sequences.
abbrev pub joins_emoji : ℕ → Bool
joins_emoji c = c == 0x200d || between 0xe0020 0xe007f c

module _ ⦃tables : CharTables⦄ where
  abbrev pub is_refused : ℕ → Bool
  is_refused c =
      not (joins_emoji c) && (tables.is_letter c || is_space c || not (tables.is_print c))

  -- checkEmoji, nil or not
  unfoldable pub check_emoji : Bytes → Bool
  check_emoji emoji =
      not (is_empty emoji)
      && leb (length (range_runes emoji)) max_emoji_runes
      && not (any is_refused (range_runes emoji))
      && any (λ c. ltb 127 c) (range_runes emoji)

pub record ReactRequest : Type 0 where
  pub recipients : List Bytes
  pub target : Bytes
  pub emoji : Bytes
  pub remove : Bool

module _ ⦃u : UuidLib⦄ (client : Client) (allow : Option Allowlist) (now : ℕ) where
  unfoldable pub reaction_content :
      ReactRequest → ℕ → Result (List Target) → Outcome AppError (Target × Content)
  reaction_content req timestamp (ok (author ∷ rest)) = returns (
    author,
    record no_content {
      reaction = some (record {
        emoji = trim_space req.emoji;
        remove = req.remove;
        target_author = author.recipient;
        target_timestamp = timestamp;
      });
    },
  )
  reaction_content req timestamp (ok []) = fails invalid_arguments
  reaction_content req timestamp (err e) = fails (unresolved_target e)

  unfoldable pub react_to :
      ReactRequest → SendState → Option (Target × ℕ) → SendState × Outcome AppError (Sent Target)
  unfolding reaction_content
  react_to req s none = (s, fails invalid_arguments)
  react_to req s (some (author, timestamp)) =
      send_prepared client allow now
        (λ state targets.
          (state, reaction_content req timestamp (resolve_users client.directory (author ∷ []))))
        s req.recipients

  -- App.React; what it reports of its own is the resolved author of the target.
  unfoldable pub react :
      ⦃tables : CharTables⦄ → SendState → ReactRequest → SendState × Outcome AppError (Sent Target)
  unfolding react_to check_emoji
  react s req =
      if check_recipients req.recipients && check_emoji (trim_space req.emoji)
      then react_to req s (parse_message_ref req.target)
      else (s, fails invalid_arguments)

  -- App.Delete, of the message with the timestamp `target`
  unfoldable pub delete : SendState → List Bytes → ℕ → SendState × Outcome AppError (Sent Unit)
  delete s recipients target =
      if check_recipients recipients && not (target == 0)
      then send_prepared client allow now
          (λ state targets. (state, returns (tt, record no_content { delete_target = target }))) s
          recipients
      else (s, fails invalid_arguments)
