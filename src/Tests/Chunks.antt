-- ===== src/Tests/Chunks.antt =====
-- internal/chunker: runs and instances.
use Prim.Native.String.{String}
use Prim.Native.Char.{code}
use memmy.Prelude.{ℕ, ◌≡◌, ◌≢◌, refl, List, [], ◌∷◌, Option, none, some, map, All, arith}
use memmy.Prelude.Int.{pos, negsuc}
use memmy.Chunker.Text.{Text, trim_space}
use memmy.Chunker.Split.{split_sentences}
use memmy.Chunker.Split.Content.{SplitsTo, split_sentences_total, ink, concat, IsSentence}
use memmy.Chunker.Window.{Chunk, at_least_one, chunk_sentences, chunkify}
use memmy.Chunker.Window.Cover.{
  IsWindowing, window_of, stride_of, Covered, IsRun, chunk_sentences-Covered,
}
use memmy.Chunker.Window.Whole.{chunkify_total}

abbrev pub codes : String → Text
codes String.[] = []
codes (String.◌∷◌ c s) = code c ∷ codes s

abbrev spans : Option (List Chunk) → List (ℕ × ℕ)
spans none = []
spans (some cs) = map (λ c. c.span) cs

-- An initial does not end a sentence; an abbreviation with an inner period does.
initials :
    split_sentences (codes " Hi there!! J. R. wrote e.g. this. ok? end")
    ≡ some (
        codes "Hi there!!"
        ∷ codes "J. R. wrote e."
        ∷ codes "g."
        ∷ codes "this."
        ∷ codes "ok?"
        ∷ codes "end"
        ∷ [])
unfolding split_sentences
initials = refl

abbrev letters : List Text
letters = map (λ c. c ∷ []) (codes "abcdefghij")

-- The example of the package comment, from 0.
ten_sentences :
    spans (chunk_sentences letters (pos 3) (pos 2))
    ≡ (0, 3) ∷ (2, 5) ∷ (4, 7) ∷ (6, 9) ∷ (8, 10) ∷ []
unfolding chunk_sentences
ten_sentences = refl

bad_parameters :
    spans (chunk_sentences (codes "a" ∷ codes "b" ∷ []) (negsuc 4) (pos 0)) ≡ (0, 1) ∷ (1, 2) ∷ []
unfolding chunk_sentences
bad_parameters = refl

split_sentences_total_example : SplitsTo (codes "One. Two") (split_sentences (codes "One. Two"))
split_sentences_total_example = split_sentences_total (codes "One. Two")

chunk_sentences-Covered_example :
    (cs : List Chunk) × (chunk_sentences letters (pos 3) (pos 2) ≡ some cs)
    × Covered 7 cs
    × All (IsRun letters 3) cs
unfolding at_least_one
chunk_sentences-Covered_example =
    chunk_sentences-Covered letters (pos 3) (pos 2) (omega arith) (omega arith) (omega arith) 7
      (omega arith)

chunkify_total_example :
    (ss : List Text) × (cs : List Chunk) × (chunkify (codes "One. Two") (pos 3) (pos 2) ≡ some cs)
    × (cs ≢ [])
    × IsWindowing ss (window_of (pos 3)) (stride_of (pos 3) (pos 2)) 0 cs
    × (ink (concat ss) ≡ ink (codes "One. Two"))
    × All IsSentence ss
unfolding at_least_one trim_space
chunkify_total_example =
    chunkify_total (codes "One. Two") (pos 3) (pos 2) (λ e. cc e) (omega arith) (omega arith)
