-- ===== src/Types.antt =====
-- internal/types/types.go: the entities of the domain. A time is the number of nanoseconds since
-- Go's zero time, so `IsZero` is `== 0`; a duration is a signed number of nanoseconds.
pub mod Instant
pub mod Canonical
use memmy.Prelude.{ℕ, ◌+◌, ◌%◌, ◌^◌, String, Bool, List}
use memmy.Chunker.Text.{Text}
use memmy.Types.Instant.{Time}

-- `unknown n` is a value of the `uint8` that no constant names.
pub data EdgeKind : Type 0 where
  structural co_retrieval co_traversal : EdgeKind
  unknown : ℕ → EdgeKind

-- `F` is `float64`.
pub record Node (F : Type 0) : Type 0 where
  pub id : String
  pub tenant_id : String
  pub source_msg_id : String
  pub sentence_span : ℕ × ℕ
  pub text : Text
  pub embedding_dim : ℕ
  pub created_at : Time
  pub last_touched : Time
  pub weight : F
  pub access_count : ℕ
  pub tombstoned : Bool

pub record Message : Type 0 where
  pub id : String
  pub tenant_id : String
  pub text : Text
  pub metadata : List (String × String)
  pub created_at : Time

pub record TenantInfo : Type 0 where
  pub id : String
  pub tuple : List (String × String)
  pub created_at : Time

pub record MemoryEdge (F : Type 0) : Type 0 where
  pub from : String
  pub to : String
  pub tenant_id : String
  pub kind : EdgeKind
  pub weight : F
  pub last_touched : Time
  pub created_at : Time
  pub access_count : ℕ
  pub traverse_count : ℕ

-- `x++` on a `uint64`.
unfoldable pub increment : ℕ → ℕ
increment n = (n + 1) % 2 ^ 64
