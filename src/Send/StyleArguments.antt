-- ===== src/Send/StyleArguments.antt =====
-- internal/app/styles.go: the styles of a message in its arguments.
use go_signal.Base.{ℕ, Option, none, some, List, [], ◌∷◌, Bytes, is_empty, length, if◌then◌else◌}
use go_signal.Std.Decimal.{parse_uint}
use go_signal.Std.Strings.{split, lower}
use go_signal.Std.Utf8.{is_blank}
use go_signal.Uuid.{UuidLib}
use go_signal.Types.{TextStyle}
use go_signal.Request.Styles.{check_text_styles}
use go_signal.Send.Mentions.{parse_mentions}

unfoldable pub style_of : Option ℕ → Option ℕ → Bytes → Option TextStyle
style_of (some start) (some length) style =
    some (record { start = start; length = length; style = lower style })
style_of (some start) none style = none
style_of none length style = none

unfoldable pub style_parts : List Bytes → Option TextStyle
unfolding style_of
style_parts (a ∷ b ∷ c ∷ []) = style_of (parse_uint 32 a) (parse_uint 32 b) c
style_parts other = none

-- parseStyle; `none` is ErrInvalidStyle.
unfoldable pub parse_style : Bytes → Option TextStyle
unfolding style_parts
parse_style arg = style_parts (split b':' arg)

abbrev add_style : Option TextStyle → Option (List TextStyle) → Option (List TextStyle)
add_style none rest = none
add_style (some s) none = none
add_style (some s) (some rest) = some (s ∷ rest)

unfoldable pub parse_each_style : List Bytes → Option (List TextStyle)
parse_each_style [] = some []
parse_each_style (arg ∷ args) = add_style (parse_style arg) (parse_each_style args)

module _ ⦃u : UuidLib⦄ where
  unfoldable pub styles_checked : Bytes → Option (List TextStyle) → Option (List TextStyle)
  styles_checked body none = none
  styles_checked body (some styles) =
      if check_text_styles (parse_mentions body).text styles then some styles else none

  -- parseStyles; `none` is ErrInvalidStyle.
  unfoldable pub parse_styles : Bytes → List Bytes → Option (List TextStyle)
  unfolding styles_checked
  parse_styles body args =
      if is_empty args
      then some []
      else if is_blank body
      then none
      else styles_checked body (parse_each_style args)
