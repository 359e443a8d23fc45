-- ===== src/Tests/Caches.antt =====
-- The embedding cache: an instance.
use memmy.Prelude.{
  length, ◌≡◌, ◌≢◌, ◌<◌, ◌^◌, refl, sym, Bool, true, false, not, List, [], ◌∷◌, map, Option, none,
  some, if◌then◌else◌, arith, ◌==◌,
}
use mathlib.Core.Option.{some-ne-none}
use memmy.Chunker.Text.{Text}
use memmy.Service.Tenant.{is_nil}
use memmy.Service.Request.{EmbedTask, retrieval_document}
use memmy.Storage.Session.{ok, Store}
use memmy.Eval.EmbedCache.{Float32, IsFloat32, Table, Embedder, embed_batch}
use memmy.Eval.EmbedCache.Aligned.{IsTable, same_text, Filled, embed_batch_lem}
use memmy.Prelude.Int.{ℤ, pos}
use memmy.Embed.{new_dim, fake_embed}
use memmy.Embed.Total.{fake_embed_total}
use memmy.Tests.Samples.{milli}
use memmy.Tests.Chunks.{codes}

-- Two of the numbers.
abbrev bit : Float32
bit = record { F = Bool; bits = λ b. if b then 1065353216 else 0; from_bits = λ n. not (n == 0) }

bit-IsFloat32 : IsFloat32 bit
bit-IsFloat32 = record { bits_word = word; from_bits-bits = back }
  where
    word : (x : Bool) → (if x then 1065353216 else 0) < 2 ^ 32
    word true = ground arith
    word false = ground arith

    back : (x : Bool) → not ((if x then 1065353216 else 0) == 0) ≡ x
    back true = refl
    back false = refl

abbrev chosen : {h k : Text} → Dec (h ≡ k) → Text → Option Text → Option Text
chosen (yes e) raw old = some raw
chosen (no n) raw old = old

-- The rows of one model and one dimension.
abbrev rows : Table
rows = record {
  Db = Text → Option Text;
  select = λ m dim h db. db h;
  upsert = λ m dim h raw db k. chosen (same_text h k) raw (db k);
}

chosen-same : (h raw : Text) (old : Option Text) (d : Dec (h ≡ h)) → chosen d raw old ≡ some raw
chosen-same h raw old (yes e) = refl
chosen-same h raw old (no n) = absurd (n refl)

chosen-other :
    {h k : Text} (raw : Text) (old : Option Text) (d : Dec (h ≡ k)) → h ≢ k → chosen d raw old ≡ old
chosen-other raw old (yes e) n = absurd (n e)
chosen-other raw old (no m) n = refl

rows-IsTable : IsTable rows
rows-IsTable = record {
  select_stored = λ m dim h raw db. chosen-same h raw (db h) (same_text h h);
  select_other = λ m dim h k raw db n. chosen-other raw (db k) (same_text h k) n;
}

abbrev has_text : Text → List Bool
has_text t = not (is_nil t) ∷ []

abbrev tiny : Embedder Bool
tiny = record { dim = 1; embed = λ task texts. ok (map has_text texts) }

abbrev texts : List Text
texts = codes "a" ∷ [] ∷ codes "a" ∷ []

abbrev empty_file : Store (Text → Option Text)
empty_file = record { db = λ h. none; transactions = 0; readings = 0 }

embed_batch_lem_example :
    Filled bit bit-IsFloat32 rows rows-IsTable
      (λ t. t)
      (λ k. true)
      "m"
      tiny
      has_text
      (λ t. refl)
      (λ t u e i. has_text (e i))
      texts
      (λ h. none)
      (embed_batch bit rows (λ t. t) (λ k. true) tiny "m" retrieval_document texts empty_file).0
      (embed_batch bit rows (λ t. t) (λ k. true) tiny "m" retrieval_document texts empty_file).1.db
embed_batch_lem_example =
    embed_batch_lem bit bit-IsFloat32 rows rows-IsTable (λ t. t) (λ k. true) "m" tiny has_text
      (λ t. refl) (λ t u e i. has_text (e i)) retrieval_document (λ texts. refl) texts empty_file
      (λ t raw h. absurd (some-ne-none raw (sym h)))

-- A hash of the length of the text.
abbrev hashed : Text → Text
hashed t =
    0
    ∷ 0
    ∷ 0
    ∷ length t
    ∷ 0
    ∷ 0
    ∷ 0
    ∷ 1
    ∷ 0
    ∷ 0
    ∷ 0
    ∷ 2
    ∷ 0
    ∷ 0
    ∷ 0
    ∷ 3
    ∷ 0
    ∷ 0
    ∷ 0
    ∷ 4
    ∷ 0
    ∷ 0
    ∷ 0
    ∷ 5
    ∷ 0
    ∷ 0
    ∷ 0
    ∷ 6
    ∷ 0
    ∷ 0
    ∷ 0
    ∷ 7
    ∷ []

fake_embed_total_example :
    (v : Text → List ℤ) × ((t : Text) → length (v t) ≡ 9)
    × ((task : EmbedTask) (texts : List Text)
        → fake_embed milli hashed (new_dim (pos 9)) task texts ≡ some (map v texts))
fake_embed_total_example = fake_embed_total milli hashed (λ t. refl) (pos 9)
