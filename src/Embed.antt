-- ===== src/Embed.antt =====
-- internal/embed/fake/fake.go: the embedder of the tests.
pub mod Total
use memmy.Prelude.{
  ℕ, zero, suc, ◌+◌, ◌-◌, ◌%◌, ◌^◌, Option, none, some, List, [], ◌∷◌, ◌++◌, if◌then◌else◌, length,
}
use memmy.Prelude.Int.{ℤ, pos, int_ltb, pos_part}
use memmy.Float.{Float}
use memmy.Chunker.Text.{Text}
use memmy.Service.Request.{EmbedTask}
use memmy.Eval.EmbedCache.{uint32, put_uint32}

-- The embedder is its number of dimensions. `New`.
abbrev pub new_dim : ℤ → ℕ
new_dim dim = if int_ltb dim (pos 1) then 64 else pos_part dim

-- `sha256` is the function of that name on the bytes of a string.
module _ (float : Float) (sha256 : Text → Text) where
  open float use {F, of_int, div, mul, sub, decimal, one, narrow}

  -- A word as a number between -1 and 1.
  abbrev pub component : ℕ → F
  component u =
      narrow (sub (mul (div (of_int (pos u)) (of_int (pos (2 ^ 32 - 1)))) (of_int (pos 2))) one)

  -- The inner loop: as many components as are missing, or as there are words.
  unfoldable pub words : ℕ → Text → List F
  words (suc n) (a ∷ b ∷ c ∷ d ∷ sum) = component (uint32 a b c d) ∷ words n sum
  words n sum = []

  abbrev pub append_words : List F → Option (List F) → Option (List F)
  append_words h none = none
  append_words h (some v) = some (h ++ v)

  -- The loop on fuel, with the counter and the number of components that are missing.
  unfoldable pub vector_loop : ℕ → Text → ℕ → ℕ → Option (List F)
  unfolding words
  vector_loop fuel seed chunk zero = some []
  vector_loop zero seed chunk (suc n) = none
  vector_loop (suc fuel) seed chunk (suc n) =
      let h = words (suc n) (sha256 (seed ++ put_uint32 chunk [])) in
      append_words h (vector_loop fuel seed ((chunk + 1) % 2 ^ 32) (suc n - length h))

  unfoldable pub vector : ℕ → Text → Option (List F)
  unfolding vector_loop
  vector dim text = vector_loop dim (sha256 text) 0 dim

  abbrev pub cons_vector : Option (List F) → Option (List (List F)) → Option (List (List F))
  cons_vector (some v) (some vs) = some (v ∷ vs)
  cons_vector v vs = none

  -- `Embed`; `none` is a loop that has run out of fuel.
  unfoldable pub fake_embed : ℕ → EmbedTask → List Text → Option (List (List F))
  unfolding vector
  fake_embed dim task [] = some []
  fake_embed dim task (t ∷ ts) = cons_vector (vector dim t) (fake_embed dim task ts)
