-- ===== src/Chunker/Window.antt =====
-- `Chunkify` of internal/chunker/chunker.go: the loop over the sentences.
pub mod Cover
pub mod Whole
use memmy.Prelude.{
  ℕ, zero, suc, ◌+◌, ◌-◌, ◌*◌, ◌^◌, ◌≤◌, ◌<◌, Bool, Option, none, some, List, [], ◌∷◌, leb, ltb,
  ◌==◌, if◌then◌else◌, length, slice,
}
use memmy.Prelude.Int.{ℤ, pos, negsuc}
use memmy.Chunker.Text.{Text, join}
use memmy.Chunker.Split.{split_sentences}

pub record Chunk : Type 0 where
  pub span : ℕ × ℕ
  pub text : Text

abbrev pub int_limit : ℕ
int_limit = 2 ^ 63

-- `if x < 1 { x = 1 }`.
unfoldable pub at_least_one : ℤ → ℕ
at_least_one (pos n) = if ltb n 1 then 1 else n
at_least_one (negsuc n) = 1

-- `if end > len(sentences) { end = len(sentences) }`.
unfoldable pub clip : ℕ → ℕ → ℕ
clip n end = if ltb n end then n else end

abbrev pub chunk_at : List Text → ℕ → ℕ → Chunk
chunk_at sentences start end = record {
  span = (start, end);
  text = join (slice start end sentences);
}

abbrev pub push_front : Chunk → Option (List Chunk) → Option (List Chunk)
push_front c none = none
push_front c (some cs) = some (c ∷ cs)

-- The `for` loop from `start` on. `none` is a panic (`start + windowSize` wraps to a negative
-- `end`, and so does the slice bound), or fuel that ran out.
pub chunk_loop : ℕ → List Text → ℕ → ℕ → ℕ → Option (List Chunk)
unfolding clip
chunk_loop zero sentences window stride start = none
chunk_loop (suc fuel) sentences window stride start =
    let rest = chunk_loop fuel sentences window stride (start + stride) in
    let n = length sentences in
    let end = clip n (start + window) in
    if leb n start
    then some []
    else if leb int_limit (start + window)
    then none
    else if end == n
    then some (chunk_at sentences start end ∷ [])
    else push_front (chunk_at sentences start end) rest

-- `Chunkify` after `SplitSentences`.
unfoldable pub chunk_sentences : List Text → ℤ → ℤ → Option (List Chunk)
unfolding at_least_one clip chunk_loop
chunk_sentences sentences window_size stride =
    let window = at_least_one window_size in
    chunk_loop (length sentences + 1) sentences window (clip window (at_least_one stride)) 0

-- `Chunkify`; an empty result is Go's `nil`.
unfoldable pub chunkify : Text → ℤ → ℤ → Option (List Chunk)
unfolding chunk_sentences
chunkify text window_size stride = elim (split_sentences text) [
  | none ↦ none
  | some sentences ↦ chunk_sentences sentences window_size stride
]
