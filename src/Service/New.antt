-- ===== src/Service/New.antt =====
-- `New` of internal/service/service.go.
use memmy.Prelude.{ℕ, Bool, not, ◌&&◌, Option, none, some, List, if◌then◌else◌, String}
use memmy.Prelude.Int.{ℤ, pos, pos_part, int_eqb}
use memmy.Float.{Float}
use memmy.Chunker.Text.{Text}
use memmy.Types.Instant.{Time}
use memmy.Storage.Database.{Database}
use memmy.Storage.Messages.{Json}
use memmy.Storage.Session.{message, Result, ok, err}
use memmy.Storage.Open.{Storage, Bolt}
use memmy.Service.Config.{Config, default_config}
use memmy.Service.Tenant.{TenantSchema}
use memmy.Service.Request.{EmbedTask, Service}

-- What the service uses of the platform and of other packages: the fields of `Service` that the
-- options do not give. `real` is `clock.Real`.
pub record Platform : Type 1 where
  pub float : Float
  pub database : Database float
  pub commits : ℕ → Bool
  pub real : ℕ → Time
  pub bolt : Bolt
  pub tenant_hash : Text → String
  pub json : Json
  pub ulid : Time → ℕ → String
  pub sort_slice : {A : Type 0} → (A → A → Bool) → List A → List A
  pub visiting : {A : Type 0} → List A → List A

-- `embed.Embedder`.
pub record Embedder (F : Type 0) : Type 0 where
  pub dim : ℤ
  pub embed : EmbedTask → List Text → Result (List (List F))

-- `cfg == (Config{})`. The floats are compared as `==` compares them: a NaN equals nothing.
module _ (f : Float) where
  open f use {F, le, nought}

  abbrev pub is_nought : F → Bool
  is_nought x = le x nought && le nought x

  abbrev pub is_zero : ℤ → Bool
  is_zero n = int_eqb n (pos 0)

  unfoldable pub is_zero_config : Config F → Bool
  is_zero_config c =
      is_zero c.chunk_window_size
      && is_zero c.chunk_stride
      && is_zero c.default_k
      && is_zero c.default_hops
      && is_zero c.default_oversample
      && is_nought c.sim_alpha
      && is_nought c.weight_beta
      && is_nought c.depth_penalty_factor
      && is_nought c.node_lambda
      && is_nought c.edge_structural_lambda
      && is_nought c.edge_co_retrieval_lambda
      && is_nought c.edge_co_traversal_lambda
      && is_nought c.node_delta
      && is_nought c.edge_co_retrieval_base
      && is_nought c.edge_co_traversal_multiplier
      && is_nought c.edge_structural_weight
      && is_nought c.edge_structural_temporal_weight
      && is_nought c.edge_floor
      && is_nought c.node_floor
      && is_nought c.weight_cap
      && is_zero c.structural_recent_n
      && is_zero c.structural_recent_delta
      && is_zero c.refractory_period
      && not c.log_dampening
      && is_zero c.mark_max_nodes

module _ (pl : Platform) where
  abbrev pub F : Type 0
  F = pl.float.F

  abbrev pub now_of : Option (ℕ → Time) → ℕ → Time
  now_of none = pl.real
  now_of (some c) = c

  abbrev pub cfg_of : Config F → Config F
  cfg_of c = if is_zero_config pl.float c then default_config pl.float else c

  -- The graph and the vector index are the two views of a storage, and nil for none.
  unfoldable pub new :
      Option Storage
      → Option Storage
      → Option (Embedder F)
      → Option (ℕ → Time)
      → Config F
      → Option TenantSchema
      → Result Service
  unfolding is_zero_config default_config
  new (some g) (some v) (some e) c cfg schema = ok (record {
    float = pl.float;
    database = pl.database;
    commits = pl.commits;
    clock = now_of c;
    cfg = cfg_of cfg;
    schema = schema;
    tenant_hash = pl.tenant_hash;
    json = pl.json;
    embed = e.embed;
    ulid = pl.ulid;
    sort_slice = pl.sort_slice;
    visiting = pl.visiting;
    dim = pos_part v.dim;
    flat_scan_threshold = v.flat_scan_threshold;
  })
  new g v e c cfg schema = err (message "service: graph, vectorindex, and embedder are required")
