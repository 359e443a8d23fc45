-- ===== src/Chunker/Window/Whole.antt =====
-- `Chunkify` on a whole text.
use memmy.Prelude.{
  ℕ, ◌+◌, ◌≤◌, ◌<◌, ◌≡◌, ◌≢◌, refl, ap, some, List, [], ◌∷◌, length, arith, All, length-append,
}
use memmy.Prelude.Int.{ℤ}
use memmy.Chunker.Text.{Text, is_space, trim_space}
use memmy.Chunker.Text.Trim.{without-append, without-trim_space, trim_space-IsTrimmed}
use memmy.Chunker.Split.Content.{concat, ink, IsSentence, split_sentences_total}
use memmy.Chunker.Window.{Chunk, int_limit, at_least_one, chunkify}
use memmy.Chunker.Window.Cover.{IsWindowing, window_of, stride_of, chunk_sentences_total}

length-ink-le : (s : Text) → length (ink s) ≤ length s
length-ink-le [] = omega arith
length-ink-le (c ∷ s) = ground (arith, length-ink-le s)

IsSentence-ink : (s : Text) → IsSentence s → 0 < length (ink s)
IsSentence-ink [] h = absurd (h.0 refl)
IsSentence-ink (c ∷ s) h = let (e, _) = h.1 in rw e (omega arith)

length-le-ink : (ss : List Text) → All IsSentence ss → length ss ≤ length (ink (concat ss))
length-le-ink [] h = omega arith
length-le-ink (s ∷ ss) h = rw (without-append is_space s (concat ss)) (
    omega (
      arith,
      length-append {0} (ink s) (ink (concat ss)),
      length-le-ink ss h.1,
      IsSentence-ink s h.0,
    ))

ink-of-trimmed : (text : Text) → trim_space text ≢ [] → 0 < length (ink text)
ink-of-trimmed text h =
    rw without-trim_space at (IsSentence-ink (trim_space text) (h, trim_space-IsTrimmed text))

IsWindowing-ne-nil :
    (ss : List Text) (w d start : ℕ) (cs : List Chunk) → IsWindowing ss w d start cs → cs ≢ []
IsWindowing-ne-nil ss w d start [] k = absurd k
IsWindowing-ne-nil ss w d start (c ∷ cs) k = λ e. cc

-- On a text that is not blank, where twice its length and the window size stay below the limit
-- of `int`, `Chunkify` returns at least one chunk: the windows over the sentences of
-- `SplitSentences`, which are not empty, are trimmed and hold every rune of the text that is no
-- space, in order.
pub chunkify_total :
    (text : Text) (w d : ℤ)
    → trim_space text ≢ []
    → length text + length text < int_limit
    → at_least_one w < int_limit
    → (ss : List Text) × (cs : List Chunk) × (chunkify text w d ≡ some cs)
      × (cs ≢ [])
      × IsWindowing ss (window_of w) (stride_of w d) 0 cs
      × (ink (concat ss) ≡ ink text)
      × All IsSentence ss
unfolding chunkify
chunkify_total text w d shown fits window_fits =
    let (ss, e, kept, all) = split_sentences_total text in
    let ink_length : length (ink (concat ss)) ≡ length (ink text) = ap length kept in
    let few : length ss ≤ length text = omega (arith, length-le-ink ss all, length-ink-le text) in
    let many : 0 < length ss = sentences-ne-nil ss (omega (arith, ink-of-trimmed text shown)) in
    let (cs, q, k) = chunk_sentences_total ss w d many (omega arith) window_fits in
    (
      ss,
      cs,
      rw (e, chunkify) q,
      IsWindowing-ne-nil ss (window_of w) (stride_of w d) 0 cs k,
      k,
      kept,
      all,
    )
  where
    sentences-ne-nil : (ss : List Text) → 0 < length (ink (concat ss)) → 0 < length ss
    sentences-ne-nil [] h = h
    sentences-ne-nil (s ∷ ss) h = omega arith
