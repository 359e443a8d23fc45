-- ===== src/Chunker/Text.antt =====
-- The text functions that internal/chunker/chunker.go uses. A text is the list of its runes,
-- `[]rune(text)`: the code points of a valid UTF-8 string.
pub mod Trim
use memmy.Prelude.{
  ℕ, ◌+◌, ◌≡◌, refl, ap, Bool, true, false, not, ◌&&◌, ◌||◌, List, [], ◌∷◌, ◌++◌, arith, leb, ◌==◌,
  if◌then◌else◌, length,
}

abbrev pub Text : Type 0
Text = List ℕ

-- `unicode.IsSpace`: the runes of White_Space.
unfoldable pub is_space : ℕ → Bool
is_space c =
    leb 9 c && leb c 13
    || c == 0x20
    || c == 0x85
    || c == 0xa0
    || c == 0x1680
    || leb 0x2000 c && leb c 0x200a
    || c == 0x2028
    || c == 0x2029
    || c == 0x202f
    || c == 0x205f
    || c == 0x3000

module _ (p : ℕ → Bool) where
  unfoldable pub trim_left : Text → Text
  trim_left [] = []
  trim_left (c ∷ s) = if p c then trim_left s else c ∷ s

  abbrev cons_trimmed : ℕ → Text → Text
  cons_trimmed c [] = if p c then [] else c ∷ []
  cons_trimmed c (d ∷ s) = c ∷ d ∷ s

  -- `strings.TrimRight`, for the runes that the predicate accepts.
  unfoldable pub trim_right : Text → Text
  trim_right [] = []
  trim_right (c ∷ s) = cons_trimmed c (trim_right s)

-- `strings.TrimSpace`.
unfoldable pub trim_space : Text → Text
unfolding trim_left trim_right is_space
trim_space s = trim_right is_space (trim_left is_space s)

-- `strings.Join(parts, " ")`.
unfoldable pub join : List Text → Text
join [] = []
join (s ∷ []) = s
join (s ∷ t ∷ rest) = s ++ b' ' ∷ join (t ∷ rest)
