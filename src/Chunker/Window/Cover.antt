-- ===== src/Chunker/Window/Cover.antt =====
-- The windows of `Chunkify`: bounds, order and coverage.
use memmy.Prelude.{
  ℕ, zero, suc, ◌+◌, ◌≤◌, ◌<◌, some, List, [], ◌∷◌, leb, ltb, length, ◌≡◌, refl, ◌⊎◌, inl, inr,
  arith, Bool-cases, All, slice,
}
use memmy.Prelude.Int.{ℤ, pos, negsuc}
use memmy.Chunker.Text.{Text, join}
use memmy.Chunker.Window.{
  Chunk, int_limit, at_least_one, clip, chunk_at, chunk_loop, chunk_sentences,
}

-- The chunks from `start` on: full windows, each `stride` after the one before, up to the first
-- one that reaches the end.
abbrev pub IsWindowing : List Text → ℕ → ℕ → ℕ → List Chunk → Type 0
IsWindowing sentences window stride start [] = ⊥
IsWindowing sentences window stride start (c ∷ []) =
    (c ≡ chunk_at sentences start (length sentences))
    × (start < length sentences)
    × (length sentences ≤ start + window)
IsWindowing sentences window stride start (c ∷ d ∷ rest) =
    (c ≡ chunk_at sentences start (start + window))
    × (start + window < length sentences)
    × IsWindowing sentences window stride (start + stride) (d ∷ rest)

IsWindowing-cons :
    (ss : List Text) (w d start : ℕ) (cs : List Chunk)
    → start + w < length ss
    → IsWindowing ss w d (start + d) cs
    → IsWindowing ss w d start (chunk_at ss start (start + w) ∷ cs)
IsWindowing-cons ss w d start [] h k = absurd k
IsWindowing-cons ss w d start (c ∷ cs) h k = (refl, h, k)

module _ (ss : List Text) (w d : ℕ) where
  loop_last :
      (fuel start : ℕ)
      → start < length ss
      → start + w < int_limit
      → length ss ≤ start + w
      → chunk_loop (suc fuel) ss w d start ≡ some (chunk_at ss start (length ss) ∷ [])
  unfolding chunk_loop
  loop_last fuel start lt fits last = ground arith

  loop_more :
      (fuel start : ℕ) (cs : List Chunk)
      → start + w < int_limit
      → start + w < length ss
      → chunk_loop fuel ss w d (start + d) ≡ some cs
      → chunk_loop (suc fuel) ss w d start ≡ some (chunk_at ss start (start + w) ∷ cs)
  unfolding chunk_loop
  loop_more fuel start cs fits more rest = ground arith

  chunk_loop_total :
      (fuel start : ℕ)
      → 0 < d
      → d ≤ w
      → length ss + length ss < int_limit
      → start + w < int_limit
      → start < length ss
      → length ss < fuel + start
      → (cs : List Chunk) × (chunk_loop fuel ss w d start ≡ some cs) × IsWindowing ss w d start cs
  chunk_loop_total zero start hd hw hn fits lt enough = absurd (omega arith)
  chunk_loop_total (suc fuel) start hd hw hn fits lt enough =
      elim (Bool-cases (leb (length ss) (start + w))) [
        | inl last ↦
            let reached : length ss ≤ start + w = ground arith in
            (
              chunk_at ss start (length ss) ∷ [],
              loop_last fuel start lt fits reached,
              (refl, lt, reached),
            )
        | inr more ↦
            let before : start + w < length ss = ground arith in
            let (cs, e, k) =
              chunk_loop_total fuel (start + d) hd hw hn (omega arith) (omega arith)
                (omega arith) in
            (
              chunk_at ss start (start + w) ∷ cs,
              loop_more fuel start cs fits before e,
              IsWindowing-cons ss w d start cs before k,
            )
      ]

-- A sentence index lies in the span of one of the chunks.
abbrev pub Covered : ℕ → List Chunk → Type 0
Covered i [] = ⊥
Covered i (c ∷ cs) = ((c.span.0 ≤ i) × (i < c.span.1)) ⊎ Covered i cs

-- A chunk is a run of the sentences that is not empty and holds at most `window` of them: its span
-- lies inside them, and its text is theirs, joined.
abbrev pub IsRun : List Text → ℕ → Chunk → Type 0
IsRun sentences window c =
    (c.span.0 < c.span.1)
    × (c.span.1 ≤ length sentences)
    × (c.span.1 ≤ c.span.0 + window)
    × (c.text ≡ join (slice c.span.0 c.span.1 sentences))

-- The size of a window, for every size that is asked for.
abbrev pub window_or_one : ℤ → ℕ
window_or_one (pos zero) = 1
window_or_one (pos (suc n)) = suc n
window_or_one (negsuc n) = 1

module _ (ss : List Text) (w d : ℕ) where
  pub IsWindowing-Covered :
      (start : ℕ) (cs : List Chunk) (i : ℕ)
      → d ≤ w
      → IsWindowing ss w d start cs
      → start ≤ i
      → i < length ss
      → Covered i cs
  IsWindowing-Covered start [] i hd k lo hi = k
  IsWindowing-Covered start (c ∷ []) i hd k lo hi = inl (ground (arith, k.0))
  IsWindowing-Covered start (c ∷ c' ∷ cs) i hd k lo hi = elim (Bool-cases (ltb i (start + w))) [
    | inl inside ↦ inl (ground (arith, k.0))
    | inr beyond ↦ inr (IsWindowing-Covered (start + d) (c' ∷ cs) i hd k.2 (ground arith) hi)
  ]

  chunk_at-IsRun :
      (start end : ℕ) (c : Chunk)
      → c ≡ chunk_at ss start end
      → start < end
      → end ≤ length ss
      → end ≤ start + w
      → IsRun ss w c
  chunk_at-IsRun start end c e some_sentence inside small =
      rw e (some_sentence, inside, small, refl)

  pub IsWindowing-IsRun :
      (start : ℕ) (cs : List Chunk) → 0 < w → IsWindowing ss w d start cs → All (IsRun ss w) cs
  IsWindowing-IsRun start [] hw k = absurd k
  IsWindowing-IsRun start (c ∷ []) hw (e, lt, last) =
      (chunk_at-IsRun start (length ss) c e lt (omega arith) last, tt)
  IsWindowing-IsRun start (c ∷ c' ∷ cs) hw (e, more, k) = (
    chunk_at-IsRun start (start + w) c e (omega arith) (omega arith) (omega arith),
    IsWindowing-IsRun (start + d) (c' ∷ cs) hw k,
  )

abbrev pub window_of : ℤ → ℕ
window_of w = at_least_one w

abbrev pub stride_of : ℤ → ℤ → ℕ
stride_of w d = clip (at_least_one w) (at_least_one d)

at_least_one_lem : (w : ℤ) → at_least_one w ≡ window_or_one w
unfolding at_least_one
at_least_one_lem (pos zero) = refl
at_least_one_lem (pos (suc n)) = ground arith
at_least_one_lem (negsuc n) = refl

at_least_one-pos : (w : ℤ) → 0 < at_least_one w
unfolding at_least_one
at_least_one-pos (pos n) = ground arith
at_least_one-pos (negsuc n) = omega arith

clip_bounds : (n e : ℕ) → 0 < n → 0 < e → (0 < clip n e) × (clip n e ≤ n)
unfolding clip
clip_bounds n e hn he = ground arith

module _ (ss : List Text) (w d : ℤ) (some_sentence : 0 < length ss)
    (count_fits : length ss + length ss < int_limit)
    (window_fits : at_least_one w < int_limit) where
  -- For every window size and stride, valid or not, that stay below the limit of `int`, `Chunkify`
  -- returns on a nonempty list of sentences, and its chunks are the full windows at every
  -- `stride`-th sentence up to the first that reaches the last sentence.
  pub chunk_sentences_total :
      (cs : List Chunk) × (chunk_sentences ss w d ≡ some cs)
      × IsWindowing ss (window_of w) (stride_of w d) 0 cs
  unfolding chunk_sentences
  chunk_sentences_total =
      let (lo, hi) =
        clip_bounds (at_least_one w) (at_least_one d) (at_least_one-pos w) (at_least_one-pos d) in
      chunk_loop_total ss (at_least_one w) (stride_of w d) (length ss + 1) 0 lo hi count_fits
        (omega arith) some_sentence (omega arith)

  -- Where no sum of the loop reaches the limit of `int` (twice the number of sentences, and the
  -- window size, stay below it), `Chunkify` returns on a nonempty list of sentences, every
  -- sentence is in a chunk, and every chunk is a nonempty run of at most `windowSize` of the
  -- sentences (one, for a size below one) with their joined text.
  pub chunk_sentences-Covered :
      (i : ℕ)
      → i < length ss
      → (cs : List Chunk) × (chunk_sentences ss w d ≡ some cs)
        × Covered i cs
        × All (IsRun ss (window_or_one w)) cs
  chunk_sentences-Covered i lt =
      let (cs, e, k) = chunk_sentences_total in
      let (lo, hi) =
        clip_bounds (at_least_one w) (at_least_one d) (at_least_one-pos w) (at_least_one-pos d) in
      (
        cs,
        e,
        IsWindowing-Covered ss (window_of w) (stride_of w d) 0 cs i hi k (omega arith) lt,
        rw (← at_least_one_lem w)
            (IsWindowing-IsRun ss (window_of w) (stride_of w d) 0 cs (at_least_one-pos w) k),
      )
