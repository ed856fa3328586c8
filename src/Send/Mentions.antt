-- ===== src/Send/Mentions.antt =====
-- internal/app/content.go: the @{<recipient>} placeholders of a message body.
use go_signal.Base.{
  ℕ, zero, suc, ◌+◌, Bool, not, ◌&&◌, ◌||◌, Option, none, some, List, [], ◌∷◌, ◌++◌, Bytes, codes,
  ◌==◌, length, if◌then◌else◌,
}
use go_signal.Std.Utf8.{range_runes, utf16_len}
use go_signal.Uuid.{UuidLib}
use go_signal.Policy.Targets.{Target, to_group}
use go_signal.Policy.Arguments.{parse_recipient}

-- [^{}\s]
abbrev pub in_name : ℕ → Bool
in_name c =
    not (c == b'{' || c == b'}' || c == b' ' || c == b'\t' || c == b'\n' || c == b'\r' || c == 0x0c)

-- The bytes before a closing brace, if all of them may stand in a name.
unfoldable pub name_before : Bytes → Option Bytes
name_before [] = none
name_before (c ∷ s) =
    let rest = name_before s in if c == b'}' then some [] else if in_name c then onto rest else none
  where
    onto : Option Bytes → Option Bytes
    onto none = none
    onto (some name) = some (c ∷ name)

-- mentionPattern at the start of the string: the name of the placeholder.
unfoldable pub placeholder : Bytes → Option Bytes
unfolding name_before
placeholder (a ∷ b ∷ s) = if a == b'@' && b == b'{' then nonempty (name_before s) else none
  where
    nonempty : Option Bytes → Option Bytes
    nonempty none = none
    nonempty (some []) = none
    nonempty (some (c ∷ name)) = some (c ∷ name)
placeholder other = none

-- A body in pieces: a byte, or a match of mentionPattern with its name.
pub data Piece : Type 0 where
  byte : ℕ → Piece
  matched : Bytes → Piece

-- The pieces after the bytes to skip.
unfoldable pub pieces : ℕ → Bytes → List Piece
unfolding placeholder
pieces skip [] = []
pieces (suc skip) (c ∷ s) = pieces skip s
pieces zero (c ∷ s) = elim (placeholder (c ∷ s)) [
  | none ↦ byte c ∷ pieces 0 s
  | some name ↦ matched name ∷ pieces (length name + 2) s
]

-- The text of a match.
abbrev pub match_text : Bytes → Bytes
match_text name = codes "@{" ++ name ++ codes "}"

-- U+FFFC in UTF-8, mentionPlaceholder
abbrev pub mention_placeholder : Bytes
mention_placeholder = 0xef ∷ 0xbf ∷ 0xbc ∷ []

-- mentionLength
abbrev pub mention_length : ℕ
mention_length = 1

-- utf16Len of content.go
unfoldable pub utf16_length : Bytes → ℕ
utf16_length s = utf16_len (range_runes s)

-- mention
pub record FoundMention : Type 0 where
  pub start : ℕ
  pub target : Target

pub record Rewritten : Type 0 where
  pub text : Bytes
  pub mentions : List FoundMention

abbrev only_user : Option Target → Option Target
only_user none = none
only_user (some t) = if to_group t then none else some t

-- `units` counts the text before `before`, which is the text since the last mention.
abbrev pub start_after : ℕ → Bytes → ℕ
start_after units before = units + utf16_length before

unfoldable pub with_mention : FoundMention → Bytes → Rewritten → Rewritten
with_mention m before rest = record {
  text = before ++ mention_placeholder ++ rest.text;
  mentions = m ∷ rest.mentions;
}

module _ ⦃u : UuidLib⦄ where
  -- The user that a placeholder names.
  unfoldable pub mentioned : Bytes → Option Target
  mentioned name = only_user (parse_recipient name)

  unfoldable pub rewrite_from : ℕ → Bytes → List Piece → Rewritten
  unfolding mentioned with_mention utf16_length
  rewrite_from units before [] = record { text = before; mentions = [] }
  rewrite_from units before (byte c ∷ ps) = rewrite_from units (before ++ c ∷ []) ps
  rewrite_from units before (matched name ∷ ps) = elim (mentioned name) [
    | none ↦ rewrite_from units (before ++ match_text name) ps
    | some t ↦
        with_mention (record { start = start_after units before; target = t }) before
          (rewrite_from (start_after units before + mention_length) [] ps)
  ]

  -- parseMentions
  unfoldable pub parse_mentions : Bytes → Rewritten
  unfolding rewrite_from pieces
  parse_mentions body = rewrite_from 0 [] (pieces 0 body)
