-- ===== src/Chunker/Split.antt =====
-- `SplitSentences` of internal/chunker/chunker.go. The loop variable `i` is the list of the runes
-- that are left, and the builder `buf` is the list of the runes written so far.
pub mod Content
use memmy.Prelude.{
  ℕ, zero, suc, ◌+◌, ◌-◌, ◌≡◌, refl, Bool, true, false, not, ◌&&◌, ◌||◌, Option, none, some, List,
  [], ◌∷◌, ◌++◌, leb, ltb, ◌==◌, if◌then◌else◌, length, map,
}
use memmy.Chunker.Text.{Text, trim_left, trim_right, trim_space, is_space}

pub is_terminator : ℕ → Bool
is_terminator r = r == b'.' || r == b'?' || r == b'!'

abbrev is_blank : ℕ → Bool
is_blank c = c == b' ' || c == b'\t' || c == b'\n' || c == b'\r'

-- The runes after the last blank: the source walks back from the end.
last_word_from : Text → Text → Text
last_word_from word [] = word
last_word_from word (c ∷ s) = last_word_from (if is_blank c then [] else word ++ c ∷ []) s

abbrev last_word : Text → Text
last_word s = last_word_from [] s

-- `unicode.ToLower`, exact wherever the result is an ASCII letter: the capitals A to Z, the dotted
-- capital I and the Kelvin sign. No other rune is sent to ASCII.
to_lower : ℕ → ℕ
to_lower c =
    if leb b'A' c && leb c b'Z'
    then c + 32
    else if c == 0x130
    then b'i'
    else if c == 0x212a
    then b'k'
    else c

text_eq : Text → Text → Bool
text_eq [] [] = true
text_eq [] (d ∷ t) = false
text_eq (c ∷ s) [] = false
text_eq (c ∷ s) (d ∷ t) = c == d && text_eq s t

contains : List Text → Text → Bool
contains [] t = false
contains (s ∷ ss) t = text_eq s t || contains ss t

abbrev common_abbreviations : List Text
common_abbreviations =
    (b'm' ∷ b'r' ∷ [])
    ∷ (b'm' ∷ b'r' ∷ b's' ∷ [])
    ∷ (b'm' ∷ b's' ∷ [])
    ∷ (b'd' ∷ b'r' ∷ [])
    ∷ (b'p' ∷ b'r' ∷ b'o' ∷ b'f' ∷ [])
    ∷ (b's' ∷ b'r' ∷ [])
    ∷ (b'j' ∷ b'r' ∷ [])
    ∷ (b's' ∷ b't' ∷ [])
    ∷ (b'm' ∷ b't' ∷ [])
    ∷ (b'e' ∷ b'.' ∷ b'g' ∷ [])
    ∷ (b'i' ∷ b'.' ∷ b'e' ∷ [])
    ∷ (b'c' ∷ b'f' ∷ [])
    ∷ (b'e' ∷ b't' ∷ b'c' ∷ [])
    ∷ (b'v' ∷ b's' ∷ [])
    ∷ (b'u' ∷ b'.' ∷ b's' ∷ [])
    ∷ (b'u' ∷ b'.' ∷ b'k' ∷ [])
    ∷ (b'n' ∷ b'.' ∷ b'y' ∷ [])
    ∷ (b'a' ∷ b'.' ∷ b'm' ∷ [])
    ∷ (b'p' ∷ b'.' ∷ b'm' ∷ [])
    ∷ (b'n' ∷ b'o' ∷ [])
    ∷ (b'f' ∷ b'i' ∷ b'g' ∷ [])
    ∷ (b'e' ∷ b'd' ∷ [])
    ∷ (b'e' ∷ b'd' ∷ b's' ∷ [])
    ∷ (b'v' ∷ b'o' ∷ b'l' ∷ [])
    ∷ (b'i' ∷ b'n' ∷ b'c' ∷ [])
    ∷ (b'l' ∷ b't' ∷ b'd' ∷ [])
    ∷ (b'c' ∷ b'o' ∷ [])
    ∷ (b'c' ∷ b'o' ∷ b'r' ∷ b'p' ∷ [])
    ∷ []

-- A one-byte word that is a capital letter.
is_initial : Text → Bool
is_initial [] = false
is_initial (c ∷ []) = leb b'A' c && leb c b'Z'
is_initial (c ∷ d ∷ s) = false

pub is_empty : Text → Bool
is_empty [] = true
is_empty (c ∷ s) = false

pub is_abbreviation_or_initial : Text → Bool
unfolding trim_right is_terminator last_word_from to_lower text_eq contains is_initial is_empty
is_abbreviation_or_initial s =
    let t = trim_right is_terminator (trim_right is_blank s) in
    if is_empty t
    then false
    else is_initial (last_word t) || contains common_abbreviations (map to_lower (last_word t))

-- `flush`: the sentences that it appends.
pub flush : Text → List Text
unfolding is_empty trim_space
flush buf = if is_empty (trim_space buf) then [] else trim_space buf ∷ []

-- The terminators that follow are written to `buf` too.
pub coalesce : Text → Text → Text × Text
coalesce buf [] = (buf, [])
coalesce buf (r ∷ rest) = if is_terminator r then coalesce (buf ++ r ∷ []) rest else (buf, r ∷ rest)

abbrev pub prepend : List Text → Option (List Text) → Option (List Text)
prepend ss none = none
prepend ss (some ts) = some (ss ++ ts)

-- The `for` loop and the last `flush`, on fuel: each round reads a rune.
pub split_loop : ℕ → Text → Text → Option (List Text)
unfolding is_terminator is_abbreviation_or_initial flush coalesce trim_left is_space is_empty
split_loop zero buf rest = none
split_loop (suc fuel) buf [] = some (flush buf)
split_loop (suc fuel) buf (r ∷ rest) =
    let written = buf ++ r ∷ [] in
    let run = coalesce written rest in
    let next = trim_left is_space run.1 in
    let plain = split_loop fuel written rest in
    let same = split_loop fuel run.0 run.1 in
    let fresh = split_loop fuel [] next in
    if not (is_terminator r)
    then plain
    else if is_empty next
    then prepend (flush run.0) fresh
    else if r == b'.' && is_abbreviation_or_initial run.0
    then same
    else prepend (flush run.0) fresh

unfoldable pub split_sentences : Text → Option (List Text)
unfolding split_loop trim_space is_empty
split_sentences text =
    let trimmed = trim_space text in
    if is_empty trimmed then some [] else split_loop (length trimmed + 1) [] trimmed
