-- ===== src/Request/Styles.antt =====
-- internal/signal/styles.go: text styles cover whole characters of a body.
use go_signal.Base.{
  ℕ, ◌+◌, Bool, true, false, not, ◌||◌, none, some, List, [], ◌∷◌, Bytes, codes, is_empty, any,
  ◌==◌, str_eq, if◌then◌else◌,
}
use go_signal.Std.Utf8.{runes, rune_len}
use go_signal.Types.{TextStyle}

-- Style.valid
unfoldable pub style_valid : Bytes → Bool
style_valid s = any (str_eq s) (
    codes "bold"
    ∷ codes "italic"
    ∷ codes "spoiler"
    ∷ codes "strikethrough"
    ∷ codes "monospace"
    ∷ [])

-- The keys of the map `boundaries` after the loop over the runes.
unfoldable pub boundaries : ℕ → List ℕ → List ℕ
unfolding rune_len
boundaries units [] = units ∷ []
boundaries units (r ∷ rs) = units ∷ boundaries (units + rune_len r) rs

-- One round of the loop over the styles: is the style refused?
unfoldable pub style_refused : List ℕ → TextStyle → Bool
unfolding style_valid
style_refused bs s =
    not (style_valid s.style)
    || s.length == 0
    || not (any (◌==◌ s.start) bs)
    || not (any (◌==◌ (s.start + s.length)) bs)

-- CheckTextStyles: true when it returns nil.
unfoldable pub check_text_styles : Bytes → List TextStyle → Bool
unfolding boundaries style_refused
check_text_styles body styles = if is_empty styles then true else elim (runes body) [
  | none ↦ false
  | some rs ↦ not (any (style_refused (boundaries 0 rs)) styles)
]
