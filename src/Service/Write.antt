-- ===== src/Service/Write.antt =====
-- internal/service/write.go
pub mod Present
pub mod Counted
use memmy.Prelude.{
  ℕ, ◌-◌, String, str_eq, Bool, false, not, ◌&&◌, Option, none, some, List, [], ◌∷◌, ◌++◌,
  if◌then◌else◌, ◌==◌, length, map,
}
use memmy.Prelude.Int.{ℤ, pos, negsuc, int_ltb, pos_part}
use memmy.Prelude.Dict.{Dict}
use memmy.Chunker.Text.{Text}
use memmy.Chunker.Window.{Chunk, chunkify}
use memmy.Types.{Node, MemoryEdge, Message, structural}
use memmy.Types.Instant.{Time, positive}
use memmy.Storage.Session.{message, Result, ok, err, pure, throw, now, ◌>>=◌, ◌>>◌}
use memmy.Storage.Graph.Node.{put_node}
use memmy.Storage.Graph.Edge.{put_edge}
use memmy.Storage.Graph.Message.{put_message}
use memmy.Storage.Scanners.{recent_node_ids}
use memmy.Storage.Vector.{insert}
use memmy.Service.Tenant.{is_nil}
use memmy.Service.Request.{
  Service, Action, retrieval_document, codes, is_blank, resolve_tenant, new_id,
}
use memmy.Service.Explicit.{lift}

pub record WriteRequest : Type 0 where
  pub tenant : Dict String
  pub message : String
  pub metadata : Dict String

pub record WriteResult : Type 0 where
  pub message_id : String
  pub node_ids : List String

module _ (s : Service) where
  open s use {float, database, commits, cfg}
  open float use {F, one}

  -- The edge of one round of the loop in `putStructuralEdgePair`.
  abbrev pub structural_edge : String → F → Time → String → String → MemoryEdge F
  structural_edge tenant weight t from to = record {
    from = from;
    to = to;
    tenant_id = tenant;
    kind = structural;
    weight = weight;
    last_touched = t;
    created_at = t;
    access_count = 0;
    traverse_count = 0;
  }

  unfoldable pub put_structural_edge_pair :
      String → String → String → F → Time → Action s (Unit {0})
  put_structural_edge_pair tenant a b weight t =
      if str_eq a b
      then pure tt
      else (put_edge float database commits (structural_edge tenant weight t a b)
          >> put_edge float database commits (structural_edge tenant weight t b a))

  unfoldable pub node_of : String → String → Time → String → Chunk → List F → Node F
  node_of tenant msg_id t id c vec = record {
    id = id;
    tenant_id = tenant;
    source_msg_id = msg_id;
    sentence_span = c.span;
    text = c.text;
    embedding_dim = length vec;
    created_at = t;
    last_touched = t;
    weight = one;
    access_count = 0;
    tombstoned = false;
  }

  -- The third step, over the chunks and their vectors: as many of the one as of the other.
  unfoldable pub put_chunks :
      String → String → Time → List Chunk → List (List F) → Action s (List String)
  unfolding node_of
  put_chunks tenant msg_id t [] vecs = pure []
  put_chunks tenant msg_id t (c ∷ cs) [] = pure []
  put_chunks tenant msg_id t (c ∷ cs) (vec ∷ vecs) = do
    id ← new_id s
    put_node float database commits (node_of tenant msg_id t id c vec)
    insert float database s.dim s.flat_scan_threshold commits tenant id vec
    ids ← put_chunks tenant msg_id t cs vecs
    pure (id ∷ ids)

  -- The fourth step: each node and the next.
  unfoldable pub link_sequence : String → Time → List String → Action s (Unit {0})
  unfolding put_structural_edge_pair
  link_sequence tenant t [] = pure tt
  link_sequence tenant t (a ∷ []) = pure tt
  link_sequence tenant t (a ∷ b ∷ ids) =
      put_structural_edge_pair tenant a b cfg.edge_structural_weight t
      >> link_sequence tenant t (b ∷ ids)

  -- The loop of the fifth step.
  unfoldable pub link_recent : String → Time → String → List String → Action s (Unit {0})
  unfolding put_structural_edge_pair
  link_recent tenant t first [] = pure tt
  link_recent tenant t first (r ∷ recent) =
      put_structural_edge_pair tenant first r cfg.edge_structural_temporal_weight t
      >> link_recent tenant t first recent

  -- The fifth step, with the first of the nodes. The window starts `StructuralRecentDelta` ago, or
  -- at the zero time where that is before it.
  unfoldable pub link_first : String → Time → String → List String → Action s (Unit {0})
  unfolding link_recent
  link_first tenant t msg_id [] = pure tt
  link_first tenant t msg_id (first ∷ ids) =
      if positive cfg.structural_recent_n && positive cfg.structural_recent_delta
      then (recent_node_ids float database commits tenant (t - pos_part cfg.structural_recent_delta)
            msg_id cfg.structural_recent_n
          >>= link_recent tenant t first)
      else pure tt

  abbrev pub message_of : WriteRequest → String → String → Time → Message
  message_of req tenant msg_id t = record {
    id = msg_id;
    tenant_id = tenant;
    text = codes req.message;
    metadata = req.metadata;
    created_at = t;
  }

  -- From the third step on.
  abbrev pub put_linked : String → String → Time → List Chunk → List (List F) → Action s WriteResult
  put_linked tenant msg_id t chunks vecs = do
    node_ids ← put_chunks tenant msg_id t chunks vecs
    link_sequence tenant t node_ids
    link_first tenant t msg_id node_ids
    pure (record { message_id = msg_id; node_ids = node_ids })

  abbrev pub persist : WriteRequest → String → List Chunk → List (List F) → Action s WriteResult
  persist req tenant chunks vecs = do
    t ← now s.clock
    msg_id ← new_id s
    put_message float database s.json commits (message_of req tenant msg_id t)
    put_linked tenant msg_id t chunks vecs

  abbrev pub with_vectors :
      WriteRequest → String → List Chunk → List (List F) → Action s WriteResult
  with_vectors req tenant chunks vecs =
      if not (length vecs == length chunks)
      then throw (message "service: embedder returned mismatched vector count")
      else persist req tenant chunks vecs

  -- `none` is the panic of `Chunkify`: no error of the code.
  abbrev pub with_chunks : WriteRequest → String → Option (List Chunk) → Action s WriteResult
  with_chunks req tenant none = throw (message "slice bounds out of range")
  with_chunks req tenant (some chunks) =
      if is_nil chunks
      then throw (message "service: message produced no chunks")
      else (lift s (s.embed retrieval_document (map (λ c. c.text) chunks))
          >>= with_vectors req tenant chunks)

  unfoldable pub write : WriteRequest → Action s WriteResult
  unfolding resolve_tenant put_chunks link_sequence link_first is_blank chunkify
  write req =
      if is_blank req.message
      then throw (message "service: message text required")
      else (resolve_tenant s req.tenant >>= λ tenant.
          with_chunks req tenant
            (chunkify (codes req.message) cfg.chunk_window_size cfg.chunk_stride))
