-- ===== src/Eval/EmbedCache/Bytes.antt =====
-- The bytes of a vector.
use memmy.Prelude.{ℕ, ◌+◌, ◌*◌, ◌/◌, ◌%◌, ◌≡◌, ◌<◌, List, [], ◌∷◌, length, refl, ap, ◌∙◌, arith}
use memmy.Eval.EmbedCache.{Float32, IsFloat32, encode_vector, decode_vector}

word_bytes :
    (n : ℕ)
    → n < 4294967296
    → n % 256 + n / 256 % 256 * 256 + n / 65536 % 256 * 65536 + n / 16777216 % 256 * 16777216 ≡ n
word_bytes n h = omega arith

module _ (f : Float32) (law : IsFloat32 f) where
  open f use {F, bits, from_bits}

  pub decode_vector-encode_vector :
      (v : List F) → decode_vector f (length v) (encode_vector f v) ≡ v
  unfolding decode_vector encode_vector
  decode_vector-encode_vector [] = refl
  decode_vector-encode_vector (x ∷ v) = λ i.
      (ap from_bits (word_bytes (bits x) (law.bits_word x)) ∙ law.from_bits-bits x) i
      ∷ decode_vector-encode_vector v i

  pub length-encode_vector : (v : List F) → length (encode_vector f v) ≡ length v * 4
  unfolding encode_vector
  length-encode_vector [] = refl
  length-encode_vector (x ∷ v) = omega (arith, length-encode_vector v)
