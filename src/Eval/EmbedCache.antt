-- ===== src/Eval/EmbedCache.antt =====
-- internal/eval/embedcache/cache.go, and the embedder of internal/eval/harness/replay.go over it.
pub mod Bytes
pub mod Aligned
use memmy.Prelude.{
  ℕ, zero, suc, ◌+◌, ◌*◌, ◌/◌, ◌%◌, ◌≡◌, ◌<◌, ◌^◌, String, Bool, not, Option, none, some, List, [],
  ◌∷◌, ◌++◌, if◌then◌else◌, length, ◌==◌,
}
use memmy.Chunker.Text.{Text}
use memmy.Service.Tenant.{is_nil}
use memmy.Service.Request.{EmbedTask}
use memmy.Storage.Session.{
  message, Result, ok, err, Store, M, pure, throw, ◌>>=◌, ◌>>◌, with_write_session,
  with_read_session,
}

-- `float32` with `math.Float32bits` and `math.Float32frombits`.
pub record Float32 : Type 1 where
  pub F : Type 0
  pub bits : F → ℕ
  pub from_bits : ℕ → F

pub record IsFloat32 (f : Float32) : Type 0 where
  pub bits_word : (x : f.F) → f.bits x < 2 ^ 32
  pub from_bits-bits : (x : f.F) → f.from_bits (f.bits x) ≡ x

-- The SQLite file: the query for a vector, and the insertion that replaces one on a conflict. A row
-- has a model, a dimension and the hash of a text.
pub record Table : Type 1 where
  pub Db : Type 0
  pub select : String → ℕ → Text → Db → Option Text
  pub upsert : String → ℕ → Text → Text → Db → Db

-- `Dim` and `Embed`.
pub record Embedder (F : Type 0) : Type 0 where
  pub dim : ℕ
  pub embed : EmbedTask → List Text → Result (List (List F))

-- `binary.LittleEndian.PutUint32`, and `Uint32`.
abbrev pub put_uint32 : ℕ → Text → Text
put_uint32 n rest = n % 256 ∷ n / 256 % 256 ∷ n / 65536 % 256 ∷ n / 16777216 % 256 ∷ rest

abbrev pub uint32 : ℕ → ℕ → ℕ → ℕ → ℕ
uint32 a b c d = a + b * 256 + c * 65536 + d * 16777216

module _ (f : Float32) where
  open f use {F, bits, from_bits}

  unfoldable pub encode_vector : List F → Text
  encode_vector [] = []
  encode_vector (x ∷ v) = put_uint32 (bits x) (encode_vector v)

  -- The components of `out`, as many as there are.
  unfoldable pub decode_vector : ℕ → Text → List F
  decode_vector (suc n) (a ∷ b ∷ c ∷ d ∷ raw) = from_bits (uint32 a b c d) ∷ decode_vector n raw
  decode_vector n raw = []

  -- `hash_text` is SHA-256 in hexadecimal.
  module _ (tb : Table) (hash_text : Text → Text) (commits : ℕ → Bool) where
    open tb use {Db, select, upsert}

    abbrev pub found : ℕ → Option Text → Result (Option (List F))
    found dim none = ok none
    found dim (some raw) =
        if not (length raw == dim * 4)
        then err (message "embedcache: stored vector has another length")
        else ok (some (decode_vector dim raw))

    -- `Get`.
    unfoldable pub get_vector : String → ℕ → Text → M Db (Option (List F))
    unfolding decode_vector
    get_vector model dim text =
        with_read_session commits (λ db. found dim (select model dim (hash_text text) db))

    -- `Put`.
    unfoldable pub put_vector : String → ℕ → Text → List F → M Db (Unit {0})
    unfolding encode_vector
    put_vector model dim text vec =
        if not (length vec == dim)
        then throw (message "embedcache: vec has another length")
        else with_write_session commits
            (λ db. (ok tt, upsert model dim (hash_text text) (encode_vector vec) db))

    -- The first loop: each text with its vector, or with none where the cache has missed it.
    unfoldable pub look_up : String → ℕ → List Text → M Db (List (Text × Option (List F)))
    unfolding get_vector
    look_up model dim [] = pure []
    look_up model dim (t ∷ ts) = do
      v ← get_vector model dim t
      rest ← look_up model dim ts
      pure ((t, v) ∷ rest)

    -- `missTexts`.
    unfoldable pub misses : List (Text × Option (List F)) → List Text
    misses [] = []
    misses ((t, none) ∷ slots) = t ∷ misses slots
    misses ((t, some v) ∷ slots) = misses slots

    -- The second loop, over the places that were missed: each gets the next vector, which is stored.
    unfoldable pub fill :
        String → ℕ → List (Text × Option (List F)) → List (List F) → M Db (List (List F))
    unfolding put_vector
    fill model dim [] vecs = pure []
    fill model dim ((t, some v) ∷ slots) vecs = fill model dim slots vecs >>= λ out. pure (v ∷ out)
    fill model dim ((t, none) ∷ slots) [] = pure []
    fill model dim ((t, none) ∷ slots) (vec ∷ vecs) =
        put_vector model dim t vec >> (fill model dim slots vecs >>= λ out. pure (vec ∷ out))

    module _ (e : Embedder F) (model : String) (task : EmbedTask) where
      abbrev pub answered :
          List (Text × Option (List F)) → Result (List (List F)) → M Db (List (List F))
      answered slots (err x) w = (err x, w)
      answered slots (ok vecs) w =
          (if not (length vecs == length (misses slots))
              then throw (message "embedcache: embedder returned another number of vectors")
              else fill model e.dim slots vecs)
            w

      -- With no misses the embedder is not called, and there is nothing to store.
      abbrev pub complete : List (Text × Option (List F)) → M Db (List (List F))
      complete slots =
          if is_nil (misses slots)
          then fill model e.dim slots []
          else answered slots (e.embed task (misses slots))

      unfoldable pub embed_batch : List Text → M Db (List (List F))
      unfolding look_up misses fill
      embed_batch texts = look_up model e.dim texts >>= complete

-- `cachingEmbedder.Embed`.
unfoldable pub caching_embed :
    (f : Float32) (tb : Table) (hash_text : Text → Text) (commits : ℕ → Bool) (e : Embedder f.F)
    → String
    → EmbedTask
    → List Text
    → M tb.Db (List (List f.F))
unfolding embed_batch
caching_embed f tb hash_text commits e model task texts =
    embed_batch f tb hash_text commits e model task texts
