-- ===== src/Embed/Total.antt =====
-- The fake embedder returns.
use memmy.Prelude.{
  ℕ, zero, suc, ◌+◌, ◌-◌, ◌%◌, ◌^◌, ◌≡◌, ◌≤◌, ◌<◌, refl, ◌∙◌, arith, some, List, [], ◌∷◌, ◌++◌, map,
  length, length-append,
}
use memmy.Prelude.Int.{ℤ, pos, negsuc}
use memmy.Float.{Float}
use memmy.Chunker.Text.{Text}
use memmy.Service.Request.{EmbedTask}
use memmy.Eval.EmbedCache.{put_uint32}
use memmy.Embed.{new_dim, words, vector_loop, vector, fake_embed}

-- How many components a vector has, for every number of dimensions that is asked for.
abbrev pub components : ℤ → ℕ
components (pos zero) = 64
components (pos (suc n)) = suc n
components (negsuc n) = 64

new_dim_lem : (dim : ℤ) → new_dim dim ≡ components dim
new_dim_lem (pos zero) = refl
new_dim_lem (pos (suc n)) = ground arith
new_dim_lem (negsuc n) = refl

module _ (float : Float) (sha256 : Text → Text) (size : (t : Text) → length (sha256 t) ≡ 32) where
  open float use {F}

  length-words : (n : ℕ) (sum : Text) → length (words float sha256 n sum) ≤ n
  unfolding words
  length-words zero sum = omega arith
  length-words (suc n) [] = omega arith
  length-words (suc n) (a ∷ []) = omega arith
  length-words (suc n) (a ∷ b ∷ []) = omega arith
  length-words (suc n) (a ∷ b ∷ c ∷ []) = omega arith
  length-words (suc n) (a ∷ b ∷ c ∷ d ∷ sum) = omega (arith, length-words n sum)

  words-progress :
      (n : ℕ) (sum : Text) → length sum ≡ 32 → 0 < length (words float sha256 (suc n) sum)
  unfolding words
  words-progress n [] h = omega (arith, h)
  words-progress n (a ∷ []) h = omega (arith, h)
  words-progress n (a ∷ b ∷ []) h = omega (arith, h)
  words-progress n (a ∷ b ∷ c ∷ []) h = omega (arith, h)
  words-progress n (a ∷ b ∷ c ∷ d ∷ sum) h = omega arith

  vector_loop-total :
      (fuel : ℕ) (seed : Text) (chunk n : ℕ)
      → n ≤ fuel
      → (v : List F) × (vector_loop float sha256 fuel seed chunk n ≡ some v) × (length v ≡ n)
  unfolding vector_loop
  vector_loop-total fuel seed chunk zero h = ([], refl, refl)
  vector_loop-total zero seed chunk (suc n) h = absurd (omega (arith, h))
  vector_loop-total (suc fuel) seed chunk (suc n) h =
      let sum = sha256 (seed ++ put_uint32 chunk []) in
      let w = words float sha256 (suc n) sum in
      let more : 0 < length w = words-progress n sum (size _) in
      let few : length w ≤ suc n = length-words (suc n) sum in
      let (v, e, k) =
        vector_loop-total fuel seed ((chunk + 1) % 2 ^ 32) (suc n - length w)
          (omega (arith, h, more, few)) in
      (w ++ v, rw e refl, length-append w v ∙ omega (arith, k, few))

  -- With a hash of 32 bytes, for every number of dimensions that `New` is given, there is one vector
  -- of that many components, 64 for a number below one, for each text, and `Embed` returns
  -- the vectors of the texts in their order, whatever the task.
  pub fake_embed_total :
      (dim : ℤ)
      → (v : Text → List F) × ((t : Text) → length (v t) ≡ components dim)
        × ((task : EmbedTask) (texts : List Text)
            → fake_embed float sha256 (new_dim dim) task texts ≡ some (map v texts))
  unfolding vector fake_embed
  fake_embed_total dim = (λ t. (total t).0, λ t. (total t).2 ∙ new_dim_lem dim, all)
    where
      total :
          (t : Text)
          → (v : List F) × (vector float sha256 (new_dim dim) t ≡ some v) × (length v ≡ new_dim dim)
      total t = vector_loop-total (new_dim dim) (sha256 t) 0 (new_dim dim) (omega arith)

      all :
          (task : EmbedTask) (texts : List Text)
          → fake_embed float sha256 (new_dim dim) task texts ≡ some (map (λ t. (total t).0) texts)
      all task [] = refl
      all task (t ∷ texts) = rw ((total t).1, all task texts) refl
